-- ===== src/Crypto/EntryCipher.antt =====
-- crates/ubiquisync-core/src/crypto/cipher.rs: the cipher of log entries. HMAC-SHA-256 and ChaCha20
-- are third-party code; a `Kdf` is the message that the HMAC was fed.
use ubiquisync.Prelude.{ℕ, ◌-◌, ◌≡◌, [], ◌∷◌, ◌++◌, length, Bytes, ◌==◌, ◌&&◌, Bool, same_bytes}
use ubiquisync.Prelude.{Result, ok, err, ◌>>=◌, ok_or, Option, if◌then◌else◌}
use ubiquisync.Crypto.{CipherInfo}
use ubiquisync.Crypto.Hash.{zeroes, update, update_varint, update_len_prefixed}
use ubiquisync.Log.Hash.{ChainHash, LogId}

-- SHA-256, HMAC-SHA-256 of a key and a message, and the ChaCha20 keystream of a key applied to a
-- buffer, with the zero nonce.
pub record Primitives : Type 0 where
  pub sha256 : Bytes → Bytes
  pub hmac : Bytes → Bytes → Bytes
  pub chacha20 : Bytes → Bytes → Bytes

-- A stream cipher keeps the length of the buffer, and undoes itself.
pub record PrimitivesOk (p : Primitives) : Type 0 where
  pub chacha20_length : (key buf : Bytes) → length (p.chacha20 key buf) ≡ length buf
  pub chacha20_twice : (key buf : Bytes) → p.chacha20 key (p.chacha20 key buf) ≡ buf

pub data CipherKeyResolveError : Type 0 where
  not_found : CipherKeyResolveError
  unknown_suite : ℕ → CipherKeyResolveError

-- `CipherSuite` has one variant.
abbrev pub chacha20_suite : ℕ
chacha20_suite = 0

pub record ContainerKey : Type 0 where
  pub root_fingerprint : Bytes
  pub key : Bytes
  pub container_id : Bytes

-- The trait `CipherKeyResolver`: from a fingerprint and a container id.
abbrev pub CipherKeyResolver : Type 0
CipherKeyResolver = Bytes → Bytes → Option ContainerKey

pub record EntryCipher : Type 0 where
  pub key : ContainerKey
  pub peer_id : Bytes
  pub kdf : Bytes

pub record SlotCipher : Type 0 where
  pub secret : Bytes
  pub kdf : Bytes

-- `ubq/v1/kdf/LogEntry` in ASCII.
abbrev pub kdf_domain_log_entry : Bytes
kdf_domain_log_entry =
    117 ∷ 98 ∷ 113 ∷ 47 ∷ 118 ∷ 49 ∷ 47 ∷ 107 ∷ 100 ∷ 102 ∷ 47 ∷ 76 ∷ 111 ∷ 103 ∷ 69 ∷ 110 ∷ 116
    ∷ 114 ∷ 121 ∷ []

-- The block of 64 bytes that the key derivation of an entry cipher starts with.
abbrev pub first_block : Bytes → Bytes
first_block peer_id =
    chacha20_suite ∷ (kdf_domain_log_entry ++ zeroes (31 - length kdf_domain_log_entry)) ++ peer_id

unfoldable pub new_entry_cipher : ContainerKey → Bytes → EntryCipher
new_entry_cipher key peer_id = record {
  key = key;
  peer_id = peer_id;
  kdf = update [] (first_block peer_id);
}

-- `EntryCipher::resolve`.
unfoldable pub resolve :
    CipherInfo → LogId → CipherKeyResolver → Result CipherKeyResolveError EntryCipher
unfolding new_entry_cipher
resolve ci log_id resolver =
    if ci.cipher_suite == chacha20_suite
    then (do
      key ← ok_or CipherKeyResolveError.not_found (resolver ci.fingerprint log_id.container_id)
      ok (new_entry_cipher key log_id.peer_id))
    else err (CipherKeyResolveError.unknown_suite ci.cipher_suite)

unfoldable pub slot_cipher : EntryCipher → ChainHash → SlotCipher
slot_cipher cipher prev_chain = record {
  secret = cipher.key.key;
  kdf = update (update_varint cipher.kdf prev_chain.size) prev_chain.hash;
}

abbrev pub cipher_info : EntryCipher → CipherInfo
cipher_info cipher = record {
  cipher_suite = chacha20_suite;
  fingerprint = cipher.key.root_fingerprint;
}

-- `==` on `CipherInfo`.
abbrev pub same_cipher : CipherInfo → CipherInfo → Bool
same_cipher a b = a.cipher_suite == b.cipher_suite && same_bytes a.fingerprint b.fingerprint

-- `SlotCipher::cipher_slot`, which encrypts and decrypts.
unfoldable pub cipher_slot : Primitives → SlotCipher → Bytes → Bytes
cipher_slot p slot bytes = p.chacha20 (p.hmac slot.secret (update slot.kdf (1 ∷ []))) bytes

unfoldable pub add_context : SlotCipher → Bytes → SlotCipher
add_context slot bytes = record { secret = slot.secret; kdf = update_len_prefixed slot.kdf bytes }
