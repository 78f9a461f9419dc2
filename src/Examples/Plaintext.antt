-- ===== src/Examples/Plaintext.antt =====
-- A plaintext segment of two entries under a cipher that the first sets.
use ubiquisync.Prelude.{
  ℕ, zero, suc, ◌≡◌, refl, ap, arith, List, [], ◌∷◌, Bytes, length, ok, Option,
}
use ubiquisync.Prelude.{◌≤◌, none, some}
use ubiquisync.Crypto.{Signature, CipherInfo}
use ubiquisync.Crypto.Hash.{zeroes}
use ubiquisync.Crypto.EntryCipher.{CipherKeyResolver}
use ubiquisync.Log.Entry.{LogEntry, EntryBody, PlaintextLogEntry}
use ubiquisync.Codec.Varint.{encode_var_u64}
use ubiquisync.Codec.Writer.{to_le_bytes}
use ubiquisync.Crypto.RoundTrip.{cipher_info_bytes}
use ubiquisync.Log.Entry.RoundTrip.{plaintext_laws, entry_bytes, len_bytes}
use ubiquisync.Log.Segment.RoundTrip.{entries_bytes}
use ubiquisync.Log.Hash.{ChainHash, LogId}
use ubiquisync.Log.Segment.{EncryptionInfo, init_opaque}
use ubiquisync.Log.Plaintext.{
  SegmentLib, zstd_decode_limit, DecodedEntries, with_encoding, encode_segment_plaintext,
}
use ubiquisync.Log.Plaintext.{read_segment, end_cipher}
use ubiquisync.Log.Plaintext.Body.{SegmentLibOk, take}
use ubiquisync.Log.Plaintext.RoundTrip.{HasKey, encode_segment_plaintext_lem}

-- Nothing is encrypted or compressed.
abbrev lib : SegmentLib
lib = record {
  hkdf = λ key info. zeroes 32;
  encrypt_in_place = λ key nonce ad buf. some buf;
  decrypt_in_place = λ key nonce ad buf. some buf;
  encode_all = λ m. some m;
  decoder_take = λ n c. some (take n c);
  fill = λ n. some (zeroes n);
}

length-zeroes : (n : ℕ) → length (zeroes n) ≡ n
length-zeroes zero = refl
length-zeroes (suc n) = ap suc (length-zeroes n)

lib-Ok : SegmentLibOk lib
lib-Ok = record {
  fill_length = λ n. (zeroes n, refl, length-zeroes n);
  decrypt_encrypt = λ key nonce ad m. (m, refl, refl);
  decode_encode = λ m. (m, refl, λ n. refl);
}

abbrev info : CipherInfo
info = record { cipher_suite = 0; fingerprint = zeroes 32 }

abbrev head : ChainHash
head = record { hash = zeroes 32; size = 300 }

abbrev log_id : LogId
log_id = record { peer_id = zeroes 32; container_id = zeroes 16 }

abbrev resolver : CipherKeyResolver
resolver fingerprint container =
    some (record { root_fingerprint = fingerprint; key = zeroes 32; container_id = container })

abbrev entries : List PlaintextLogEntry
entries =
    LogEntry.indexed_entry (EntryBody.use_key info)
    ∷ LogEntry.indexed_entry (
        EntryBody.op (record {
          timestamp = record { value = 70000 };
          server_attested_user_id = [];
          op = 9 ∷ [];
        }))
    ∷ []

entries-HasKey : HasKey resolver log_id (end_cipher none entries)
unfolding end_cipher
entries-HasKey = (_, refl, refl)

entries-small : length (entries_bytes plaintext_laws entries) ≤ zstd_decode_limit
unfolding entry_bytes cipher_info_bytes to_le_bytes len_bytes encode_var_u64
entries-small = omega arith

encode_segment_plaintext_lem_example :
    (bs : Bytes) × (enc : Option EncryptionInfo) × (encode_segment_plaintext lib
        (Signature.p256 (zeroes 64))
        head
        none
        log_id
        resolver
        entries
      ≡ ok bs)
    × (read_segment lib resolver log_id bs
        ≡ ok (
          with_encoding lib (init_opaque (Signature.p256 (zeroes 64)) head none entries) enc,
          DecodedEntries.plaintext entries,
        ))
encode_segment_plaintext_lem_example =
    encode_segment_plaintext_lem lib lib-Ok resolver log_id (Signature.p256 (zeroes 64)) head none
      entries (omega arith) (omega arith) tt (omega arith) entries-small entries-HasKey
