-- ===== src/Log/Entry.antt =====
-- crates/ubiquisync-core/src/log/entry.rs, ops.rs and error.rs: log entries and their wire form.
-- Both byte wrappers are byte lists; the entries are generic in how they hold their timestamp.
pub mod RoundTrip
use ubiquisync.Prelude.{
  ℕ, List, [], ◌∷◌, Bytes, ◌==◌, if◌then◌else◌, Result, ok, err, ◌>>=◌, map_err,
}
use ubiquisync.Codec.Varint.{ReadError}
use ubiquisync.Codec.Writer.{
  Writer, WriteError, write_byte, write_array, write_len_prefixed, write_le_u64,
}
use ubiquisync.Codec.Reader.{Read, read_byte, read_array, read_len_prefixed, read_le_u64}
use ubiquisync.Crypto.{CryptoDecodeError, Signature, CipherInfo, encode_signature, decode_signature}
use ubiquisync.Crypto.{encode_cipher_info, decode_cipher_info}
use ubiquisync.Hlc.{Timestamp, try_from_u64, to_u64}

pub data LogEncodeError : Type 0 where
  write_error : WriteError → LogEncodeError

pub data LogDecodeError : Type 0 where
  empty_ops : LogDecodeError
  read_error : ReadError → LogDecodeError
  invalid_timestamp : ℕ → LogDecodeError
  u64_add_overflow : ℕ → ℕ → LogDecodeError
  unknown_signature_algorithm : ℕ → LogDecodeError
  undecodable_entry_type : ℕ → LogDecodeError

pub data LogValidationError : Type 0 where
  invalid_server_attested_user_id : LogValidationError

abbrev pub from_sig_decode_err : CryptoDecodeError → LogDecodeError
from_sig_decode_err (CryptoDecodeError.read_error e) = LogDecodeError.read_error e
from_sig_decode_err (CryptoDecodeError.unknown_algorithm b) =
    LogDecodeError.unknown_signature_algorithm b

pub record OpEntry (T : Type 0) : Type 0 where
  pub timestamp : T
  pub server_attested_user_id : Bytes
  pub op : Bytes

pub data EntryBody (T : Type 0) : Type 0 where
  op : OpEntry T → EntryBody T
  use_key : CipherInfo → EntryBody T
  expunged : Bytes → EntryBody T

pub data LogEntry (T : Type 0) : Type 0 where
  indexed_entry : EntryBody T → LogEntry T
  signature : Signature → LogEntry T

abbrev pub OpaqueLogEntry : Type 0
OpaqueLogEntry = LogEntry Bytes

abbrev pub PlaintextLogEntry : Type 0
PlaintextLogEntry = LogEntry Timestamp

-- `OpEntry::validate` has no checks yet, and `validate` of a plaintext entry calls it for ops.
unfoldable pub validate_op : {T : Type 0} → OpEntry T → Result LogValidationError (Unit {0})
validate_op e = ok tt

unfoldable pub validate_entry : PlaintextLogEntry → Result LogValidationError (Unit {0})
unfolding validate_op
validate_entry (LogEntry.indexed_entry (EntryBody.op e)) = validate_op e
validate_entry (LogEntry.indexed_entry (EntryBody.use_key ci)) = ok tt
validate_entry (LogEntry.indexed_entry (EntryBody.expunged hash)) = ok tt
validate_entry (LogEntry.signature s) = ok tt

-- The traits `TimestampRepr` and `DecodeTimestamp`.
pub record TimestampRepr (T : Type 0) : Type 0 where
  pub encode : T → Writer → Writer
  pub decode : Read LogDecodeError T

unfoldable pub decode_timestamp : Read LogDecodeError Timestamp
decode_timestamp r = do
  (x, r') ← map_err LogDecodeError.read_error (read_le_u64 r)
  t ← map_err (λ e. LogDecodeError.invalid_timestamp x) (try_from_u64 x)
  ok (t, r')

instance abbrev pub plaintext_timestamp : TimestampRepr Timestamp
plaintext_timestamp = record {
  encode = λ t w. write_le_u64 (to_u64 t) w;
  decode = decode_timestamp;
}

instance abbrev pub opaque_timestamp : TimestampRepr Bytes
opaque_timestamp = record {
  encode = write_len_prefixed;
  decode = λ r. map_err LogDecodeError.read_error (read_len_prefixed r);
}

abbrev pub entry_type_op : ℕ
entry_type_op = 0

abbrev pub entry_type_use_key : ℕ
entry_type_use_key = 1

abbrev pub entry_type_signature : ℕ
entry_type_signature = 2

abbrev pub entry_type_expunged : ℕ
entry_type_expunged = 3

module _ {T : Type 0} ⦃repr : TimestampRepr T⦄ where
  unfoldable pub encode_op_entry : OpEntry T → Writer → Result LogEncodeError Writer
  encode_op_entry e writer = ok (
      write_len_prefixed e.op
        (write_len_prefixed e.server_attested_user_id (repr.encode e.timestamp writer)))

  unfoldable pub decode_op_entry : Read LogDecodeError (OpEntry T)
  decode_op_entry reader = do
    (timestamp, r) ← repr.decode reader
    (user_id, r') ← map_err LogDecodeError.read_error (read_len_prefixed r)
    (body, r'') ← map_err LogDecodeError.read_error (read_len_prefixed r')
    ok (record { timestamp = timestamp; server_attested_user_id = user_id; op = body }, r'')

  unfoldable pub encode_entry : LogEntry T → Writer → Result LogEncodeError Writer
  unfolding encode_op_entry
  encode_entry (LogEntry.indexed_entry (EntryBody.op e)) writer =
      encode_op_entry e (write_byte entry_type_op writer)
  encode_entry (LogEntry.indexed_entry (EntryBody.use_key ci)) writer =
      ok (encode_cipher_info ci (write_byte entry_type_use_key writer))
  encode_entry (LogEntry.indexed_entry (EntryBody.expunged hash)) writer =
      ok (write_array hash (write_byte entry_type_expunged writer))
  encode_entry (LogEntry.signature sig) writer =
      ok (encode_signature sig (write_byte entry_type_signature writer))

  unfoldable pub decode_entry : Read LogDecodeError (LogEntry T)
  unfolding decode_op_entry
  decode_entry reader = do
    (entry_type, r) ← map_err LogDecodeError.read_error (read_byte reader)
    if entry_type == entry_type_op
        then (do (e, r') ← decode_op_entry r; ok (LogEntry.indexed_entry (EntryBody.op e), r'))
        else if entry_type == entry_type_signature
        then (do
          (sig, r') ← map_err from_sig_decode_err (decode_signature r)
          ok (LogEntry.signature sig, r'))
        else if entry_type == entry_type_use_key
        then (do
          (ci, r') ← map_err LogDecodeError.read_error (decode_cipher_info r)
          ok (LogEntry.indexed_entry (EntryBody.use_key ci), r'))
        else if entry_type == entry_type_expunged
        then (do
          (hash, r') ← map_err LogDecodeError.read_error (read_array 32 r)
          ok (LogEntry.indexed_entry (EntryBody.expunged hash), r'))
        else err (LogDecodeError.undecodable_entry_type entry_type)
