-- ===== src/Log/Segment.antt =====
-- crates/ubiquisync-core/src/log/segment.rs: the header of a segment, the entries behind it, and
-- opaque segments.
pub mod Header
pub mod RoundTrip
use ubiquisync.Prelude.{ℕ, zero, suc, List, [], ◌∷◌, Bytes, length, ◌==◌, if◌then◌else◌}
use ubiquisync.Prelude.{Result, ok, err, ◌>>=◌, map_err, Option, none, some}
use ubiquisync.Codec.Varint.{ReadError}
use ubiquisync.Codec.Writer.{
  Writer, WriteError, write_byte, write_len_prefixed, write_option, finalize,
}
use ubiquisync.Codec.Reader.{Reader, Read, read_byte, read_len_prefixed, read_option}
use ubiquisync.Crypto.{CryptoDecodeError, Signature, CipherInfo, encode_signature, decode_signature}
use ubiquisync.Crypto.{encode_cipher_info, decode_cipher_info}
use ubiquisync.Log.Entry.{LogEntry, EntryBody, OpaqueLogEntry, TimestampRepr, LogEncodeError}
use ubiquisync.Log.Entry.{
  LogDecodeError, LogValidationError, encode_entry, decode_entry, opaque_timestamp,
}
use ubiquisync.Log.Hash.{ChainHash, encode_chain, decode_chain}
use ubiquisync.Log.Cipher.{CipherError}

pub data Compression : Type 0 where
  zstd : Compression

pub record EncryptionInfo : Type 0 where
  pub cipher : Option CipherInfo
  pub nonce : Bytes

pub record PlaintextSegmentEncoding : Type 0 where
  pub outer_encryption : Option EncryptionInfo
  pub inner_compression : Compression

pub data SegmentEncoding : Type 0 where
  opaque : SegmentEncoding
  plaintext : PlaintextSegmentEncoding → SegmentEncoding

pub record SegmentHeader : Type 0 where
  pub signature : Signature
  pub prev_chain : ChainHash
  pub start_cipher : Option CipherInfo
  pub encoding : SegmentEncoding

pub data SegmentEncodeError : Type 0 where
  entry_encode_error : LogEncodeError → SegmentEncodeError
  cipher_error : CipherError → SegmentEncodeError
  write_error : WriteError → SegmentEncodeError
  io_error nonce_generation_error : SegmentEncodeError
  missing_segment_key : CipherInfo → SegmentEncodeError
  unknown_cipher_suite : ℕ → SegmentEncodeError

pub data SegmentDecodeError : Type 0 where
  log_decode_error : LogDecodeError → SegmentDecodeError
  cipher_error : CipherError → SegmentDecodeError
  read_error : ReadError → SegmentDecodeError
  validation : LogValidationError → SegmentDecodeError
  io_error missing_segment_cipher compression_overflow : SegmentDecodeError
  unknown_signature_algorithm unknown_segment_encoding unknown_compression unknown_cipher_suite :
      ℕ → SegmentDecodeError
  missing_segment_key : CipherInfo → SegmentDecodeError

abbrev pub sig_decode_err : CryptoDecodeError → SegmentDecodeError
sig_decode_err (CryptoDecodeError.read_error e) = SegmentDecodeError.read_error e
sig_decode_err (CryptoDecodeError.unknown_algorithm b) =
    SegmentDecodeError.unknown_signature_algorithm b

abbrev pub segment_encoding_opaque : ℕ
segment_encoding_opaque = 0

abbrev pub segment_encoding_plaintext : ℕ
segment_encoding_plaintext = 1

abbrev pub compression_code : Compression → ℕ
compression_code Compression.zstd = 0

unfoldable pub encode_encryption_info : EncryptionInfo → Writer → Writer
encode_encryption_info e w = write_len_prefixed e.nonce (write_option e.cipher encode_cipher_info w)

unfoldable pub decode_encryption_info : Read SegmentDecodeError EncryptionInfo
decode_encryption_info r = do
  (cipher, r') ← map_err SegmentDecodeError.read_error (read_option (λ e. e) decode_cipher_info r)
  (nonce, r'') ← map_err SegmentDecodeError.read_error (read_len_prefixed r')
  ok (record { cipher = cipher; nonce = nonce }, r'')

unfoldable pub encode_plaintext_encoding : PlaintextSegmentEncoding → Writer → Writer
encode_plaintext_encoding e w =
    write_byte (compression_code e.inner_compression)
      (write_option e.outer_encryption encode_encryption_info w)

unfoldable pub decode_plaintext_encoding : Read SegmentDecodeError PlaintextSegmentEncoding
decode_plaintext_encoding r = do
  (outer_encryption, r') ← read_option SegmentDecodeError.read_error decode_encryption_info r
  (code, r'') ← map_err SegmentDecodeError.read_error (read_byte r')
  if code == 0
      then ok (
        record { outer_encryption = outer_encryption; inner_compression = Compression.zstd },
        r'',
      )
      else err (SegmentDecodeError.unknown_compression code)

unfoldable pub encode_encoding : SegmentEncoding → Writer → Result WriteError Writer
encode_encoding SegmentEncoding.opaque w = ok (write_byte segment_encoding_opaque w)
encode_encoding (SegmentEncoding.plaintext enc) w =
    ok (encode_plaintext_encoding enc (write_byte segment_encoding_plaintext w))

unfoldable pub decode_encoding : Read SegmentDecodeError SegmentEncoding
decode_encoding r = do
  (code, r') ← map_err SegmentDecodeError.read_error (read_byte r)
  if code == segment_encoding_opaque
      then ok (SegmentEncoding.opaque, r')
      else if code == segment_encoding_plaintext
      then (do (enc, r'') ← decode_plaintext_encoding r'; ok (SegmentEncoding.plaintext enc, r''))
      else err (SegmentDecodeError.unknown_segment_encoding code)

unfoldable pub encode_header : SegmentHeader → Writer → Result WriteError Writer
encode_header header w = do
  w' ←
      encode_encoding header.encoding
        (encode_signature header.signature (encode_chain header.prev_chain w))
  ok (write_option header.start_cipher encode_cipher_info w')

unfoldable pub decode_header : Read SegmentDecodeError SegmentHeader
decode_header r = do
  (prev_chain, r₁) ← map_err SegmentDecodeError.read_error (decode_chain r)
  (sig, r₂) ← map_err sig_decode_err (decode_signature r₁)
  (encoding, r₃) ← decode_encoding r₂
  (start_cipher, r₄) ←
      map_err SegmentDecodeError.read_error (read_option (λ e. e) decode_cipher_info r₃)
  ok (
    record {
      signature = sig;
      prev_chain = prev_chain;
      start_cipher = start_cipher;
      encoding = encoding;
    },
    r₄,
  )

module _ {T : Type 0} ⦃repr : TimestampRepr T⦄ where
  unfoldable pub encode_entries : List (LogEntry T) → Writer → Result LogEncodeError Writer
  encode_entries [] w = ok w
  encode_entries (e ∷ es) w = encode_entry e w >>= λ w'. encode_entries es w'

  -- What the iterator yields for the entry that it decoded, and after it.
  abbrev pub yield_entry :
      Result LogDecodeError (LogEntry T × Reader)
      → (Reader → List (Result LogDecodeError (LogEntry T)))
      → List (Result LogDecodeError (LogEntry T))
  yield_entry (ok (e, r)) more = ok e ∷ more r
  yield_entry (err x) more = err x ∷ []

  -- The iterator of `decode_entries`: it ends with the buffer or after an error. An entry takes at
  -- least one byte, so the length of the buffer is enough fuel.
  unfoldable pub entries_loop : ℕ → Reader → List (Result LogDecodeError (LogEntry T))
  entries_loop zero r = []
  entries_loop (suc n) [] = []
  entries_loop (suc n) (b ∷ r) = yield_entry (decode_entry (b ∷ r)) (entries_loop n)

  unfoldable pub decode_entries : Bytes → List (Result LogDecodeError (LogEntry T))
  unfolding entries_loop
  decode_entries bytes = entries_loop (length bytes) bytes

-- `SegmentHeader::init_opaque`.
unfoldable pub init_opaque :
    {T : Type 0} → Signature → ChainHash → Option CipherInfo → List (LogEntry T) → SegmentHeader
init_opaque sig prev_chain start_cipher (LogEntry.indexed_entry (EntryBody.use_key ci) ∷ es) =
    record {
      signature = sig;
      prev_chain = prev_chain;
      start_cipher = none;
      encoding = SegmentEncoding.opaque;
    }
init_opaque sig prev_chain start_cipher es = record {
  signature = sig;
  prev_chain = prev_chain;
  start_cipher = start_cipher;
  encoding = SegmentEncoding.opaque;
}

unfoldable pub encode_segment_opaque :
    Signature
    → ChainHash
    → Option CipherInfo
    → List OpaqueLogEntry
    → Result SegmentEncodeError Bytes
unfolding init_opaque
encode_segment_opaque sig prev_chain start_cipher entries = do
  w ←
      map_err SegmentEncodeError.write_error
        (encode_header (init_opaque sig prev_chain start_cipher entries) [])
  w' ← map_err SegmentEncodeError.entry_encode_error (encode_entries entries w)
  ok (finalize w')

-- The opaque case of `SegmentReader::read`: the entries, or the first error.
unfoldable pub collect_entries :
    {T : Type 0}
    → List (Result LogDecodeError (LogEntry T))
    → Result SegmentDecodeError (List (LogEntry T))
collect_entries [] = ok []
collect_entries (e ∷ es) = do
  e' ← map_err SegmentDecodeError.log_decode_error e
  es' ← collect_entries es
  ok (e' ∷ es')
