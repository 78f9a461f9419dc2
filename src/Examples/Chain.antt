-- ===== src/Examples/Chain.antt =====
-- A log of one op and one signature, with stand-ins for the cryptographic primitives.
use ubiquisync.Prelude.{
  ℕ, ◌+◌, ◌-◌, ◌%◌, ◌≡◌, ◌↔◌, ◌⊎◌, refl, arith, List, [], ◌∷◌, ◌++◌, map, length, Bytes, All,
}
use ubiquisync.Prelude.{ok, some, ltb, if◌then◌else◌}
use ubiquisync.Hlc.{Timestamp}
use ubiquisync.Crypto.{CipherInfo, Signature}
use ubiquisync.Crypto.Hash.{zeroes, TaggedHashDomain, new_tagged_hasher}
use ubiquisync.Crypto.Hash.Domains.{new_tagged_hasher_injective}
use ubiquisync.Crypto.EntryCipher.{Primitives, PrimitivesOk, CipherKeyResolver}
use ubiquisync.Crypto.VerifyingKey.{VerifyingKey, Verifiers}
use ubiquisync.Log.Entry.{LogEntry, EntryBody, OpEntry, OpaqueLogEntry, PlaintextLogEntry}
use ubiquisync.Codec.Varint.{encode_var_u64}
use ubiquisync.Codec.Writer.{to_le_bytes}
use ubiquisync.Crypto.EntryCipher.{resolve, cipher_slot}
use ubiquisync.Log.Hash.{next_chain, chain_message, log_id_hasher}
use ubiquisync.Log.Hash.{
  LogId, ChainHash, LogHashContext, new_context, op_message, compute_next_opaque,
}
use ubiquisync.Log.Hash.Messages.{Collision, hash_op_binds}
use ubiquisync.Log.Hash.Binding.{links, chain_hash_binds}
use ubiquisync.Log.Cipher.{entries_to_opaque, entries_to_plaintext}
use ubiquisync.Log.Cipher.RoundTrip.{Restored, entries_to_plaintext-entries_to_opaque}
use ubiquisync.Log.Segment.{SegmentHeader, SegmentEncoding}
use ubiquisync.Log.Plaintext.{DecodedEntries}
use ubiquisync.Log.Decoded.{verify_entries, entries_in_plaintext}
use ubiquisync.Log.Decoded.Agree.{verify_entries_agree}
use ubiquisync.Log.Decoded.Plain.{entries_in_plaintext_agree}
use ubiquisync.Log.Verify.{verify_opaque}
use ubiquisync.Log.Verify.Accepted.{attested, IsSigned, verify_opaque_lem}

abbrev sum : Bytes → ℕ
sum [] = 0
sum (b ∷ bs) = b + sum bs

abbrev checksum : Bytes → Bytes
checksum m = sum m % 256 ∷ zeroes 31

length-checksum : (m : Bytes) → length (checksum m) ≡ 32
length-checksum m = refl

abbrev complement : ℕ → ℕ
complement b = if ltb b 256 then 255 - b else b

complement_twice : (b : ℕ) → complement (complement b) ≡ b
complement_twice b = ground arith

abbrev toy : Primitives
toy = record {
  sha256 = checksum;
  hmac = λ key m. checksum (key ++ m);
  chacha20 = λ key buf. map complement buf;
}

toy_twice : (buf : Bytes) → map complement (map complement buf) ≡ buf
toy_twice [] = refl
toy_twice (b ∷ buf) = rw (complement_twice b, toy_twice buf)

length-toy : (buf : Bytes) → length (map complement buf) ≡ length buf
length-toy [] = refl
length-toy (b ∷ buf) = rw (length-toy buf)

toy-PrimitivesOk : PrimitivesOk toy
toy-PrimitivesOk = record {
  chacha20_length = λ key buf. length-toy buf;
  chacha20_twice = λ key buf. toy_twice buf;
}

abbrev log_id : LogId
log_id = record { peer_id = zeroes 32; container_id = zeroes 16 }

abbrev seed : LogHashContext
seed = new_context log_id

abbrev head : ChainHash
head = record { hash = zeroes 32; size = 3 }

abbrev info : CipherInfo
info = record { cipher_suite = 0; fingerprint = zeroes 32 }

abbrev resolver : CipherKeyResolver
resolver fingerprint container_id =
    some (record { root_fingerprint = fingerprint; key = zeroes 32; container_id = container_id })

abbrev body : OpEntry Timestamp
body = record { timestamp = record { value = 258 }; server_attested_user_id = []; op = 9 ∷ 8 ∷ [] }

abbrev seal : Signature
seal = Signature.ed25519 (zeroes 64)

abbrev log : List PlaintextLogEntry
log = LogEntry.indexed_entry (EntryBody.op body) ∷ LogEntry.signature seal ∷ []

abbrev tip : ChainHash
tip = record { hash = 88 ∷ zeroes 31; size = 4 }

abbrev sealed : OpEntry Bytes
sealed = record {
  timestamp = 253 ∷ 254 ∷ 255 ∷ 255 ∷ 255 ∷ 255 ∷ 255 ∷ 255 ∷ [];
  server_attested_user_id = [];
  op = 246 ∷ 247 ∷ [];
}

abbrev chained : List (OpaqueLogEntry × ChainHash)
chained = (LogEntry.indexed_entry (EntryBody.op sealed), tip) ∷ (LogEntry.signature seal, tip) ∷ []

abbrev opaque : List OpaqueLogEntry
opaque = LogEntry.indexed_entry (EntryBody.op sealed) ∷ LogEntry.signature seal ∷ []

encrypted : entries_to_opaque toy seed (some info) head resolver log ≡ ok (chained, some info)
unfolding entries_to_opaque resolve next_chain cipher_slot chain_message to_le_bytes
    new_tagged_hasher op_message log_id_hasher encode_var_u64
encrypted = refl

entries_to_plaintext-entries_to_opaque_example :
    (out : List (PlaintextLogEntry × ChainHash)) × (entries_to_plaintext toy seed
        (some info)
        head
        resolver
        opaque
      ≡ ok (out, some info))
    × Restored toy toy-PrimitivesOk log chained out
entries_to_plaintext-entries_to_opaque_example =
    entries_to_plaintext-entries_to_opaque toy toy-PrimitivesOk seed (some info) head resolver log
      chained (some info) (omega arith) encrypted

-- Every signature of a key's algorithm is taken to be valid.
abbrev lenient : Verifiers
lenient = record { ed25519_verify = λ key message s. ok tt; p256_verify = λ key message s. ok tt }

abbrev verifying_key : VerifyingKey
verifying_key = VerifyingKey.ed25519_key (zeroes 32)

abbrev header : SegmentHeader
header = record {
  signature = seal;
  prev_chain = head;
  start_cipher = some info;
  encoding = SegmentEncoding.opaque;
}

verify_entries_agree_example :
    verify_entries toy lenient verifying_key (DecodedEntries.plaintext log) seed header resolver
    ≡ verify_entries toy lenient verifying_key (DecodedEntries.opaque opaque) seed header resolver
verify_entries_agree_example =
    verify_entries_agree toy lenient verifying_key seed header resolver log chained (some info)
      encrypted

entries_in_plaintext_agree_example :
    entries_in_plaintext toy (DecodedEntries.opaque opaque) seed (some info) head resolver
    ≡ entries_in_plaintext toy (DecodedEntries.plaintext log) seed (some info) head resolver
entries_in_plaintext_agree_example =
    entries_in_plaintext_agree toy toy-PrimitivesOk seed (some info) head resolver log chained
      (some info) (omega arith) encrypted

verify_opaque_lem_example :
    (verify_opaque toy lenient verifying_key seed opaque (head, some info) ≡ ok (tip, some info))
    ↔ ((compute_next_opaque checksum seed opaque (head, some info) ≡ ok (tip, some info))
        × All
            (IsSigned toy lenient verifying_key)
            (attested toy lenient verifying_key seed opaque (head, some info)))
verify_opaque_lem_example =
    verify_opaque_lem toy lenient verifying_key seed opaque (head, some info) (tip, some info)

chain_reached : compute_next_opaque checksum seed opaque (head, some info) ≡ ok (tip, some info)
unfolding compute_next_opaque chain_message new_tagged_hasher op_message log_id_hasher
    encode_var_u64
chain_reached = refl

chain_hash_binds_example :
    ((head.hash ≡ head.hash)
      × (links checksum seed opaque 3 (some info) ≡ links checksum seed opaque 3 (some info)))
    ⊎ Collision checksum
chain_hash_binds_example =
    chain_hash_binds checksum length-checksum seed seed opaque opaque head head tip (some info)
      (some info) (some info) (some info) refl refl refl (omega arith) (omega arith) chain_reached
      chain_reached

hash_op_binds_example :
    ((log_id ≡ log_id) × (sealed ≡ sealed) × (head.size ≡ head.size)) ⊎ Collision checksum
hash_op_binds_example =
    hash_op_binds checksum log_id log_id sealed sealed 3 3 (refl, refl) (refl, refl) (omega arith)
      (omega arith) (omega arith) (omega arith) refl

new_tagged_hasher_injective_example :
    (TaggedHashDomain.log_op ≡ TaggedHashDomain.log_op) × (head.hash ≡ head.hash)
new_tagged_hasher_injective_example =
    new_tagged_hasher_injective TaggedHashDomain.log_op TaggedHashDomain.log_op head.hash head.hash
      refl
