-- ===== src/Log/Hash.antt =====
-- crates/ubiquisync-core/src/log/hash.rs: the chain hash of a log, over the hash function SHA-256.
pub mod Messages
pub mod Binding
use ubiquisync.Prelude.{ℕ, ◌+◌, ◌^◌, List, [], ◌∷◌, Bytes, ltb, if◌then◌else◌}
use ubiquisync.Prelude.{Result, ok, err, ◌>>=◌, Option, none, some}
use ubiquisync.Codec.Varint.{ReadError}
use ubiquisync.Codec.Writer.{Writer, write_var_u64, write_array, to_le_bytes}
use ubiquisync.Codec.Reader.{Read, read_var_u64, read_array}
use ubiquisync.Crypto.{CipherInfo}
use ubiquisync.Crypto.Hash.{TaggedHashDomain, Hasher, new_tagged_hasher, update, update_varint}
use ubiquisync.Crypto.Hash.{update_len_prefixed, finalize_hash}
use ubiquisync.Log.Entry.{LogEntry, EntryBody, OpEntry, OpaqueLogEntry}

-- ids.rs: a `PeerId` has 32 bytes, a `ContainerId` 16.
pub record LogId : Type 0 where
  pub peer_id : Bytes
  pub container_id : Bytes

pub record ChainHash : Type 0 where
  pub hash : Bytes
  pub size : ℕ

pub data ChainHashError : Type 0 where
  size_overflow : ChainHashError

pub record LogHashContext : Type 0 where
  pub log_id : LogId
  pub op_hasher : Hasher
  pub sign_bytes_hasher : Hasher

unfoldable pub log_id_hasher : TaggedHashDomain → LogId → Hasher
log_id_hasher tag log_id =
    update (update (new_tagged_hasher tag) log_id.peer_id) log_id.container_id

-- `LogHashContext::new`.
abbrev pub new_context : LogId → LogHashContext
new_context log_id = record {
  log_id = log_id;
  op_hasher = log_id_hasher TaggedHashDomain.log_op log_id;
  sign_bytes_hasher = log_id_hasher TaggedHashDomain.log_sign log_id;
}

-- What `add_one` feeds for the active cipher.
unfoldable pub update_cipher : Hasher → Option CipherInfo → Hasher
update_cipher hasher (some ci) =
    update (update (update hasher (1 ∷ [])) (ci.cipher_suite ∷ [])) ci.fingerprint
update_cipher hasher none = update hasher (0 ∷ [])

-- The messages that `add_one`, `OpEntry::hash` and `hash_use_key` finalize.
unfoldable pub chain_message : Bytes → Bytes → Option CipherInfo → Hasher
unfolding update_cipher
chain_message hash entry_hash active_cipher =
    update_cipher (update (update (new_tagged_hasher TaggedHashDomain.chain_hash) hash) entry_hash)
      active_cipher

unfoldable pub op_message : LogHashContext → OpEntry Bytes → ℕ → Hasher
op_message seed e entry_idx =
    update_len_prefixed
      (update_len_prefixed
        (update_len_prefixed (update_varint seed.op_hasher entry_idx) e.timestamp)
        e.server_attested_user_id)
      e.op

unfoldable pub use_key_message : LogHashContext → ℕ → CipherInfo → Hasher
use_key_message seed entry_index ci =
    update
      (update (update_varint (log_id_hasher TaggedHashDomain.log_use_key seed.log_id) entry_index)
        (ci.cipher_suite ∷ []))
      ci.fingerprint

abbrev pub encode_chain : ChainHash → Writer → Writer
encode_chain c w = write_array c.hash (write_var_u64 c.size w)

unfoldable pub decode_chain : Read ReadError ChainHash
decode_chain r = do
  (size, r') ← read_var_u64 r
  (hash, r'') ← read_array 32 r'
  ok (record { hash = hash; size = size }, r'')

module _ (sha256 : Bytes → Bytes) where
  unfoldable pub empty_chain : LogHashContext → ChainHash
  empty_chain seed = record {
    hash = finalize_hash sha256 (log_id_hasher TaggedHashDomain.chain_seed seed.log_id);
    size = 0;
  }

  unfoldable pub add_one : ChainHash → Bytes → Option CipherInfo → Result ChainHashError ChainHash
  add_one c entry_hash active_cipher =
      let hash = finalize_hash sha256 (chain_message c.hash entry_hash active_cipher) in
      if ltb (c.size + 1) (2 ^ 64)
      then ok (record { hash = hash; size = c.size + 1 })
      else err ChainHashError.size_overflow

  -- `EntryBody::hash`, and the active cipher after it.
  unfoldable pub hash_body :
      LogHashContext → EntryBody Bytes → ℕ → Option CipherInfo → Bytes × Option CipherInfo
  hash_body seed (EntryBody.op e) entry_index active_cipher =
      (finalize_hash sha256 (op_message seed e entry_index), active_cipher)
  hash_body seed (EntryBody.use_key ci) entry_index active_cipher =
      (finalize_hash sha256 (use_key_message seed entry_index ci), some ci)
  hash_body seed (EntryBody.expunged hash) entry_index active_cipher = (hash, active_cipher)

  -- `ChainHash::next`, and the active cipher after it.
  unfoldable pub next_chain :
      LogHashContext
      → OpaqueLogEntry
      → ChainHash × Option CipherInfo
      → Result ChainHashError (ChainHash × Option CipherInfo)
  unfolding add_one hash_body
  next_chain seed (LogEntry.indexed_entry body) (c, active_cipher) = do
    let (entry_hash, cipher) = hash_body seed body c.size active_cipher
    c' ← add_one c entry_hash cipher
    ok (c', cipher)
  next_chain seed (LogEntry.signature s) (c, active_cipher) = ok (c, active_cipher)

  unfoldable pub compute_next_opaque :
      LogHashContext
      → List OpaqueLogEntry
      → ChainHash × Option CipherInfo
      → Result ChainHashError (ChainHash × Option CipherInfo)
  unfolding next_chain
  compute_next_opaque seed [] state = ok state
  compute_next_opaque seed (e ∷ es) state =
      next_chain seed e state >>= λ state'. compute_next_opaque seed es state'

  unfoldable pub sign_bytes : LogHashContext → ChainHash → Bytes
  sign_bytes seed c =
      finalize_hash sha256 (update (update seed.sign_bytes_hasher (to_le_bytes 8 c.size)) c.hash)
