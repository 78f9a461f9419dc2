-- ===== src/Log/Plaintext.antt =====
-- Plaintext segments: crates/ubiquisync-core/src/log/segment.rs, with `SegmentCipher` and `kdf` of
-- crypto/cipher.rs. HKDF, the AEAD, zstd and the source of nonces are third-party code.
pub mod Body
pub mod RoundTrip
use ubiquisync.Prelude.{ℕ, zero, suc, ◌+◌, ◌^◌, List, [], ◌∷◌, ◌++◌, Bytes, length, ltb, ◌==◌}
use ubiquisync.Prelude.{if◌then◌else◌, Result, ok, err, ◌>>=◌, map_err, ok_or, Option, none, some}
use ubiquisync.Codec.Writer.{to_le_bytes}
use ubiquisync.Crypto.{Signature, CipherInfo}
use ubiquisync.Crypto.EntryCipher.{ContainerKey, CipherKeyResolver, chacha20_suite, same_cipher}
use ubiquisync.Log.Entry.{LogEntry, EntryBody, OpaqueLogEntry, PlaintextLogEntry, LogDecodeError}
use ubiquisync.Log.Entry.{validate_entry, plaintext_timestamp, opaque_timestamp}
use ubiquisync.Log.Hash.{ChainHash, LogId}
use ubiquisync.Log.Cipher.{CipherError, cipher_failed}
use ubiquisync.Log.Segment.{Compression, EncryptionInfo, PlaintextSegmentEncoding, SegmentEncoding}
use ubiquisync.Log.Segment.{SegmentHeader, SegmentEncodeError, SegmentDecodeError, encode_header}
use ubiquisync.Log.Segment.{decode_header, encode_entries, decode_entries, init_opaque}
use ubiquisync.Log.Segment.{collect_entries}

-- HKDF of a key and an info; XChaCha20-Poly1305 by key, nonce, associated data and buffer; what
-- `zstd::encode_all` returns, and the first bytes of what the decoder puts out; `getrandom::fill`.
pub record SegmentLib : Type 0 where
  pub hkdf : Bytes → Bytes → Bytes
  pub encrypt_in_place : Bytes → Bytes → Bytes → Bytes → Option Bytes
  pub decrypt_in_place : Bytes → Bytes → Bytes → Bytes → Option Bytes
  pub encode_all : Bytes → Option Bytes
  pub decoder_take : ℕ → Bytes → Option Bytes
  pub fill : ℕ → Option Bytes

-- `ubq/v1/kdf/LogSegment` in ASCII.
abbrev pub kdf_domain_log_segment : Bytes
kdf_domain_log_segment =
    117 ∷ 98 ∷ 113 ∷ 47 ∷ 118 ∷ 49 ∷ 47 ∷ 107 ∷ 100 ∷ 102 ∷ 47 ∷ 76 ∷ 111 ∷ 103 ∷ 83 ∷ 101 ∷ 103
    ∷ 109 ∷ 101 ∷ 110 ∷ 116 ∷ []

abbrev pub zstd_decode_limit : ℕ
zstd_decode_limit = 2 ^ 27

abbrev pub segment_nonce_size : ℕ
segment_nonce_size = 24

-- `cipher` is the key of the AEAD.
pub record SegmentCipher : Type 0 where
  pub cipher : Bytes
  pub key : ContainerKey
  pub suite : ℕ
  pub peer_id : Bytes

pub data DecodedEntries : Type 0 where
  opaque : List OpaqueLogEntry → DecodedEntries
  plaintext : List PlaintextLogEntry → DecodedEntries

unfoldable pub segment_ad : SegmentCipher → ChainHash → Bytes
segment_ad c prev_chain =
    c.suite ∷ c.key.root_fingerprint
    ++ c.key.container_id
    ++ c.peer_id
    ++ prev_chain.hash
    ++ to_le_bytes 8 prev_chain.size

-- The loop of `init_plaintext` over the entries.
unfoldable pub end_cipher : {T : Type 0} → Option CipherInfo → List (LogEntry T) → Option CipherInfo
end_cipher cipher [] = cipher
end_cipher cipher (LogEntry.indexed_entry (EntryBody.use_key ci) ∷ es) = end_cipher (some ci) es
end_cipher cipher (LogEntry.indexed_entry (EntryBody.op e) ∷ es) = end_cipher cipher es
end_cipher cipher (LogEntry.indexed_entry (EntryBody.expunged x) ∷ es) = end_cipher cipher es
end_cipher cipher (LogEntry.signature s ∷ es) = end_cipher cipher es

-- The cipher is stored if it is not that at the start.
abbrev pub stored_cipher : CipherInfo → Option CipherInfo → Option CipherInfo
stored_cipher ci none = some ci
stored_cipher ci (some start) = if same_cipher ci start then none else some ci

-- `Option::or`.
abbrev pub or : Option CipherInfo → Option CipherInfo → Option CipherInfo
or none other = other
or (some ci) other = some ci

-- The loop of `decompress_decode_entries`.
unfoldable pub collect_valid :
    List (Result LogDecodeError PlaintextLogEntry)
    → Result SegmentDecodeError (List PlaintextLogEntry)
collect_valid [] = ok []
collect_valid (e ∷ es) = do
  e' ← map_err SegmentDecodeError.log_decode_error e
  u ← map_err SegmentDecodeError.validation (validate_entry e')
  es' ← collect_valid es
  ok (e' ∷ es')

module _ (lib : SegmentLib) where
  abbrev pub kdf : Bytes → Bytes → Bytes → Bytes
  kdf domain key info = lib.hkdf key (length domain ∷ domain ++ info)

  unfoldable pub new_segment_cipher : ContainerKey → Bytes → SegmentCipher
  new_segment_cipher key peer_id = record {
    cipher = kdf kdf_domain_log_segment key.key (chacha20_suite ∷ peer_id);
    key = key;
    suite = chacha20_suite;
    peer_id = peer_id;
  }

  unfoldable pub encrypt_segment :
      SegmentCipher → ChainHash → Bytes → Bytes → Result CipherError Bytes
  unfolding segment_ad
  encrypt_segment c prev_chain nonce inout =
      if length nonce == segment_nonce_size
      then ok_or cipher_failed (lib.encrypt_in_place c.cipher nonce (segment_ad c prev_chain) inout)
      else err cipher_failed

  unfoldable pub decrypt_segment :
      SegmentCipher → ChainHash → Bytes → Bytes → Result CipherError Bytes
  unfolding segment_ad
  decrypt_segment c prev_chain nonce inout =
      if length nonce == segment_nonce_size
      then ok_or cipher_failed (lib.decrypt_in_place c.cipher nonce (segment_ad c prev_chain) inout)
      else err cipher_failed

  unfoldable pub encode_compress_entries : List PlaintextLogEntry → Result SegmentEncodeError Bytes
  encode_compress_entries entries = do
    w ← map_err SegmentEncodeError.entry_encode_error (encode_entries entries [])
    ok_or SegmentEncodeError.io_error (lib.encode_all w)

  unfoldable pub decompress_decode_entries :
      Bytes → Result SegmentDecodeError (List PlaintextLogEntry)
  unfolding collect_valid
  decompress_decode_entries buf = do
    out ← ok_or SegmentDecodeError.io_error (lib.decoder_take (zstd_decode_limit + 1) buf)
    if ltb zstd_decode_limit (length out)
        then err SegmentDecodeError.compression_overflow
        else collect_valid (decode_entries out)

  -- `init_plaintext` from the cipher at the end and that in the header.
  unfoldable pub init_encryption :
      LogId
      → CipherKeyResolver
      → Option CipherInfo
      → Option CipherInfo
      → Result SegmentEncodeError (Option EncryptionInfo × Option (SegmentCipher × Bytes))
  unfolding new_segment_cipher
  init_encryption log_id resolver none start = ok (none, none)
  init_encryption log_id resolver (some ci) start =
      if ci.cipher_suite == chacha20_suite
      then (do
        nonce ← ok_or SegmentEncodeError.nonce_generation_error (lib.fill segment_nonce_size)
        key ←
            ok_or (SegmentEncodeError.missing_segment_key ci)
              (resolver ci.fingerprint log_id.container_id)
        ok (
          some (record { cipher = stored_cipher ci start; nonce = nonce }),
          some (new_segment_cipher key log_id.peer_id, nonce),
        ))
      else err (SegmentEncodeError.unknown_cipher_suite ci.cipher_suite)

  abbrev pub with_encoding : SegmentHeader → Option EncryptionInfo → SegmentHeader
  with_encoding h enc = record h {
    encoding =
        SegmentEncoding.plaintext
          (record { outer_encryption = enc; inner_compression = Compression.zstd });
  }

  -- What follows the header.
  unfoldable pub encode_payload :
      Option (SegmentCipher × Bytes)
      → ChainHash
      → List PlaintextLogEntry
      → Result SegmentEncodeError Bytes
  unfolding encode_compress_entries encrypt_segment
  encode_payload none prev_chain entries = encode_compress_entries entries
  encode_payload (some (c, nonce)) prev_chain entries = do
    inout ← encode_compress_entries entries
    map_err SegmentEncodeError.cipher_error (encrypt_segment c prev_chain nonce inout)

  unfoldable pub encode_segment_plaintext :
      Signature
      → ChainHash
      → Option CipherInfo
      → LogId
      → CipherKeyResolver
      → List PlaintextLogEntry
      → Result SegmentEncodeError Bytes
  unfolding init_encryption encode_payload end_cipher
  encode_segment_plaintext sig prev_chain start_cipher log_id resolver entries = do
    let header = init_opaque sig prev_chain start_cipher entries
    (enc, cipher) ←
        init_encryption log_id resolver (end_cipher start_cipher entries) header.start_cipher
    w ← map_err SegmentEncodeError.write_error (encode_header (with_encoding header enc) [])
    buf ← encode_payload cipher prev_chain entries
    ok (w ++ buf)

  -- The plaintext case of `SegmentReader::read`, by the outer encryption.
  unfoldable pub read_payload :
      CipherKeyResolver
      → LogId
      → SegmentHeader
      → Option EncryptionInfo
      → Bytes
      → Result SegmentDecodeError (List PlaintextLogEntry)
  unfolding decompress_decode_entries decrypt_segment new_segment_cipher
  read_payload resolver log_id header none buf = decompress_decode_entries buf
  read_payload resolver log_id header (some c) buf = do
    ci ← ok_or SegmentDecodeError.missing_segment_cipher (or c.cipher header.start_cipher)
    u ←
        (if ci.cipher_suite == chacha20_suite
          then ok tt
          else err (SegmentDecodeError.unknown_cipher_suite ci.cipher_suite))
    key ←
        ok_or (SegmentDecodeError.missing_segment_key ci)
          (resolver ci.fingerprint log_id.container_id)
    let cipher = new_segment_cipher key log_id.peer_id
    buf' ←
        map_err SegmentDecodeError.cipher_error
          (decrypt_segment cipher header.prev_chain c.nonce buf)
    decompress_decode_entries buf'

  unfoldable pub read_encoded :
      CipherKeyResolver
      → LogId
      → SegmentHeader
      → SegmentEncoding
      → Bytes
      → Result SegmentDecodeError DecodedEntries
  unfolding read_payload
  read_encoded resolver log_id header SegmentEncoding.opaque buf = do
    es ← collect_entries (decode_entries buf)
    ok (DecodedEntries.opaque es)
  read_encoded resolver log_id header (SegmentEncoding.plaintext enc) buf = do
    es ← read_payload resolver log_id header enc.outer_encryption buf
    ok (DecodedEntries.plaintext es)

  -- `SegmentReader::start` and then `read`.
  unfoldable pub read_segment :
      CipherKeyResolver → LogId → Bytes → Result SegmentDecodeError (SegmentHeader × DecodedEntries)
  unfolding read_encoded
  read_segment resolver log_id buf = do
    (header, rest) ← decode_header buf
    es ← read_encoded resolver log_id header header.encoding rest
    ok (header, es)
