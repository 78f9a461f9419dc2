-- ===== src/Log/Cipher.antt =====
-- crates/ubiquisync-core/src/log/cipher.rs and transform.rs: encrypting a log entry by entry, each
-- under a key derived from the chain before it.
pub mod Rounds
pub mod RoundTrip
use ubiquisync.Prelude.{ℕ, List, [], ◌∷◌, Bytes, length, ◌==◌, if◌then◌else◌}
use ubiquisync.Prelude.{Result, ok, err, ◌>>=◌, map_err, Option, none, some}
use ubiquisync.Codec.Writer.{to_le_bytes}
use ubiquisync.Codec.Reader.{from_le_bytes, is_empty}
use ubiquisync.Hlc.{Timestamp, try_from_u64, to_u64}
use ubiquisync.Crypto.{CipherInfo}
use ubiquisync.Crypto.EntryCipher.{
  Primitives, CipherKeyResolver, CipherKeyResolveError, EntryCipher,
}
use ubiquisync.Crypto.EntryCipher.{resolve, slot_cipher, cipher_info, same_cipher, cipher_slot}
use ubiquisync.Crypto.EntryCipher.{add_context}
use ubiquisync.Log.Entry.{LogEntry, EntryBody, OpEntry, OpaqueLogEntry, PlaintextLogEntry}
use ubiquisync.Log.Entry.{LogValidationError, validate_entry}
use ubiquisync.Log.Hash.{ChainHash, ChainHashError, LogHashContext, next_chain}

pub data CipherError : Type 0 where
  cipher_failed : CipherError

pub data SegmentCipherError : Type 0 where
  cipher_error : CipherError → SegmentCipherError
  chain_hash_error : ChainHashError → SegmentCipherError
  key_resolve : CipherKeyResolveError → SegmentCipherError
  invalid_timestamp : SegmentCipherError
  validation : LogValidationError → SegmentCipherError

-- `LogEntry::transform`.
unfoldable pub transform :
    {T S E : Type 0} → (OpEntry T → Result E (OpEntry S)) → LogEntry T → Result E (LogEntry S)
transform f (LogEntry.indexed_entry (EntryBody.op e)) =
    f e >>= λ e'. ok (LogEntry.indexed_entry (EntryBody.op e'))
transform f (LogEntry.indexed_entry (EntryBody.use_key ci)) =
    ok (LogEntry.indexed_entry (EntryBody.use_key ci))
transform f (LogEntry.indexed_entry (EntryBody.expunged hash)) =
    ok (LogEntry.indexed_entry (EntryBody.expunged hash))
transform f (LogEntry.signature s) = ok (LogEntry.signature s)

unfoldable pub parse_timestamp : Bytes → Result SegmentCipherError Timestamp
parse_timestamp buf =
    if length buf == 8
    then map_err (λ e. SegmentCipherError.invalid_timestamp) (try_from_u64 (from_le_bytes buf))
    else err SegmentCipherError.invalid_timestamp

-- Where the loops of `entries_to_opaque` and `entries_to_plaintext` stand.
pub record Cursor : Type 0 where
  pub head_chain : ChainHash
  pub head_cipher : Option CipherInfo
  pub entry_cipher : Option EntryCipher

module _ (p : Primitives) where
  -- The closures of `to_opaque` and `to_plaintext`, with a cipher and without.
  unfoldable pub encrypt_op :
      Option EntryCipher → ChainHash → OpEntry Timestamp → Result CipherError (OpEntry Bytes)
  encrypt_op (some cipher) prev_chain e =
      let slot = slot_cipher cipher prev_chain in
      let timestamp = cipher_slot p slot (to_le_bytes 8 (to_u64 e.timestamp)) in
      let slot' = add_context slot timestamp in
      let user = e.server_attested_user_id in
      let server_attested_user_id = if is_empty user then [] else cipher_slot p slot' user in
      let slot'' = add_context slot' server_attested_user_id in
      ok (record {
        timestamp = timestamp;
        server_attested_user_id = server_attested_user_id;
        op = cipher_slot p slot'' e.op;
      })
  encrypt_op none prev_chain e = ok (record {
    timestamp = to_le_bytes 8 (to_u64 e.timestamp);
    server_attested_user_id = e.server_attested_user_id;
    op = e.op;
  })

  unfoldable pub decrypt_op :
      Option EntryCipher → ChainHash → OpEntry Bytes → Result SegmentCipherError (OpEntry Timestamp)
  unfolding parse_timestamp
  decrypt_op (some cipher) prev_chain e = do
    let slot = slot_cipher cipher prev_chain
    timestamp ← parse_timestamp (cipher_slot p slot e.timestamp)
    let slot' = add_context slot e.timestamp
    let user = e.server_attested_user_id
    let slot'' = add_context slot' user
    ok (record {
      timestamp = timestamp;
      server_attested_user_id = if is_empty user then [] else cipher_slot p slot' user;
      op = cipher_slot p slot'' e.op;
    })
  decrypt_op none prev_chain e = do
    timestamp ← parse_timestamp e.timestamp
    ok (record {
      timestamp = timestamp;
      server_attested_user_id = e.server_attested_user_id;
      op = e.op;
    })

  unfoldable pub to_opaque :
      PlaintextLogEntry → Option EntryCipher → ChainHash → Result CipherError OpaqueLogEntry
  unfolding transform encrypt_op
  to_opaque e cipher prev_chain = transform (encrypt_op cipher prev_chain) e

  unfoldable pub to_plaintext :
      OpaqueLogEntry → Option EntryCipher → ChainHash → Result SegmentCipherError PlaintextLogEntry
  unfolding transform decrypt_op
  to_plaintext e cipher prev_chain = do
    e2 ← transform (decrypt_op cipher prev_chain) e
    valid ← map_err SegmentCipherError.validation (validate_entry e2)
    ok e2

  unfoldable pub check_cipher_change :
      LogHashContext
      → CipherKeyResolver
      → Option CipherInfo
      → Option EntryCipher
      → Result SegmentCipherError (Option EntryCipher)
  check_cipher_change seed resolver none cipher = ok cipher
  check_cipher_change seed resolver (some ci) none =
      map_err SegmentCipherError.key_resolve (resolve ci seed.log_id resolver) >>= λ cipher'.
      ok (some cipher')
  check_cipher_change seed resolver (some ci) (some cipher) =
      if same_cipher (cipher_info cipher) ci
      then ok (some cipher)
      else map_err SegmentCipherError.key_resolve (resolve ci seed.log_id resolver) >>= λ cipher'.
          ok (some cipher')

  -- The end of a round: the chain over an opaque entry, and the cipher that follows.
  unfoldable pub advance_cursor :
      LogHashContext
      → CipherKeyResolver
      → OpaqueLogEntry
      → Cursor
      → Result SegmentCipherError Cursor
  unfolding check_cipher_change
  advance_cursor seed resolver e at' = do
    (chain, head_cipher) ←
        map_err SegmentCipherError.chain_hash_error
          (next_chain p.sha256 seed e (at'.head_chain, at'.head_cipher))
    entry_cipher ← check_cipher_change seed resolver head_cipher at'.entry_cipher
    ok (record { head_chain = chain; head_cipher = head_cipher; entry_cipher = entry_cipher })

  -- The loops: the entries, each with the chain after it, and the head cipher at the end.
  unfoldable pub opaque_loop :
      LogHashContext
      → CipherKeyResolver
      → List PlaintextLogEntry
      → Cursor
      → Result SegmentCipherError (List (OpaqueLogEntry × ChainHash) × Option CipherInfo)
  unfolding to_opaque advance_cursor
  opaque_loop seed resolver [] at' = ok ([], at'.head_cipher)
  opaque_loop seed resolver (e ∷ es) at' = do
    e2 ← map_err SegmentCipherError.cipher_error (to_opaque e at'.entry_cipher at'.head_chain)
    at'' ← advance_cursor seed resolver e2 at'
    (res, head_cipher) ← opaque_loop seed resolver es at''
    ok ((e2, at''.head_chain) ∷ res, head_cipher)

  unfoldable pub plaintext_loop :
      LogHashContext
      → CipherKeyResolver
      → List OpaqueLogEntry
      → Cursor
      → Result SegmentCipherError (List (PlaintextLogEntry × ChainHash) × Option CipherInfo)
  unfolding to_plaintext advance_cursor
  plaintext_loop seed resolver [] at' = ok ([], at'.head_cipher)
  plaintext_loop seed resolver (e ∷ es) at' = do
    e2 ← to_plaintext e at'.entry_cipher at'.head_chain
    at'' ← advance_cursor seed resolver e at'
    (res, head_cipher) ← plaintext_loop seed resolver es at''
    ok ((e2, at''.head_chain) ∷ res, head_cipher)

  -- What both functions do before their loop.
  unfoldable pub open_cursor :
      LogHashContext
      → CipherKeyResolver
      → Option CipherInfo
      → ChainHash
      → Result SegmentCipherError Cursor
  open_cursor seed resolver none chain =
      ok (record { head_chain = chain; head_cipher = none; entry_cipher = none })
  open_cursor seed resolver (some ci) chain =
      map_err SegmentCipherError.key_resolve (resolve ci seed.log_id resolver) >>= λ cipher.
      ok (record { head_chain = chain; head_cipher = some ci; entry_cipher = some cipher })

  unfoldable pub entries_to_opaque :
      LogHashContext
      → Option CipherInfo
      → ChainHash
      → CipherKeyResolver
      → List PlaintextLogEntry
      → Result SegmentCipherError (List (OpaqueLogEntry × ChainHash) × Option CipherInfo)
  unfolding open_cursor opaque_loop
  entries_to_opaque seed head_cipher head_chain resolver es =
      open_cursor seed resolver head_cipher head_chain >>= opaque_loop seed resolver es

  unfoldable pub entries_to_plaintext :
      LogHashContext
      → Option CipherInfo
      → ChainHash
      → CipherKeyResolver
      → List OpaqueLogEntry
      → Result SegmentCipherError (List (PlaintextLogEntry × ChainHash) × Option CipherInfo)
  unfolding open_cursor plaintext_loop
  entries_to_plaintext seed head_cipher head_chain resolver es =
      open_cursor seed resolver head_cipher head_chain >>= plaintext_loop seed resolver es

  -- `ChainHash::compute_next_plaintext`: the last chain, or the same if there are no entries.
  abbrev pub last_chain : ChainHash → List (OpaqueLogEntry × ChainHash) → ChainHash
  last_chain chain [] = chain
  last_chain chain ((e, h) ∷ es) = last_chain h es

  unfoldable pub compute_next_plaintext :
      LogHashContext
      → Option CipherInfo
      → ChainHash
      → CipherKeyResolver
      → List PlaintextLogEntry
      → Result SegmentCipherError (ChainHash × Option CipherInfo)
  unfolding entries_to_opaque
  compute_next_plaintext seed head_cipher head_chain resolver es = do
    (opaque, head_cipher') ← entries_to_opaque seed head_cipher head_chain resolver es
    ok (last_chain head_chain opaque, head_cipher')
