-- ===== src/Log/Entry/RoundTrip.antt =====
-- A log entry is read back as it was written, in plaintext and in opaque form.
use ubiquisync.Prelude.{◌≡◌, refl, ap, [], ◌∷◌, ◌++◌, append_assoc, length, Bytes, arith, ◌∙◌}
use ubiquisync.Prelude.{ok, IsU64}
use ubiquisync.Codec.Varint.{encode_var_u64}
use ubiquisync.Codec.Writer.{Writer, to_le_bytes}
use ubiquisync.Codec.Reader.{read_byte, read_len_prefixed}
use ubiquisync.Codec.RoundTrip.{read_slice-append, read_len_prefixed-bytes, read_le-to_le_bytes}
use ubiquisync.Codec.Containers.{Reads}
use ubiquisync.Crypto.RoundTrip.{IsSignature, IsCipherInfo, signature_bytes, cipher_info_bytes}
use ubiquisync.Crypto.RoundTrip.{encode_signature-bytes, decode_signature-bytes}
use ubiquisync.Crypto.RoundTrip.{encode_cipher_info-bytes, decode_cipher_info-bytes}
use ubiquisync.Hlc.{Timestamp, IsTimestamp, try_from_u64}
use ubiquisync.Log.Entry.{LogEntry, EntryBody, OpEntry, TimestampRepr}
use ubiquisync.Log.Entry.{decode_timestamp, plaintext_timestamp, opaque_timestamp}
use ubiquisync.Log.Entry.{encode_op_entry, decode_op_entry, encode_entry, decode_entry}

-- A representation of timestamps whose values of some kind are read back as written.
pub record TimestampLaws (T : Type 0) : Type 1 where
  pub repr : TimestampRepr T
  pub IsStamp : T → Type 0
  pub stamp_bytes : T → Bytes
  pub encode-bytes : (t : T) (w : Writer) → repr.encode t w ≡ w ++ stamp_bytes t
  pub decode-bytes : Reads repr.decode IsStamp stamp_bytes

pub decode_timestamp-bytes :
    (t : Timestamp) (rest : Bytes)
    → IsTimestamp t
    → decode_timestamp (to_le_bytes 8 t.value ++ rest) ≡ ok (t, rest)
unfolding decode_timestamp try_from_u64
decode_timestamp-bytes t rest h =
    rw (read_le-to_le_bytes 8 t.value rest (omega arith)) (ground arith)

-- A plaintext timestamp takes 8 bytes, an opaque one its own length.
abbrev pub plaintext_laws : TimestampLaws Timestamp
plaintext_laws = record {
  repr = plaintext_timestamp;
  IsStamp = IsTimestamp;
  stamp_bytes = λ t. to_le_bytes 8 t.value;
  encode-bytes = λ t w. refl;
  decode-bytes = decode_timestamp-bytes;
}

-- A byte slice behind its length.
unfoldable pub len_bytes : Bytes → Bytes
len_bytes bs = encode_var_u64 (length bs) ++ bs

pub read_len_prefixed-len_bytes :
    (bs rest : Bytes) → IsU64 (length bs) → read_len_prefixed (len_bytes bs ++ rest) ≡ ok (bs, rest)
unfolding len_bytes
read_len_prefixed-len_bytes bs rest h =
    rw (append_assoc (encode_var_u64 (length bs)) bs rest) (read_len_prefixed-bytes bs rest h)

pub opaque_encode-bytes :
    (bs : Bytes) (w : Writer) → opaque_timestamp.encode bs w ≡ w ++ len_bytes bs
unfolding len_bytes
opaque_encode-bytes bs w = append_assoc w (encode_var_u64 (length bs)) bs

pub opaque_decode-bytes : Reads opaque_timestamp.decode (λ bs. IsU64 (length bs)) len_bytes
opaque_decode-bytes bs rest h = rw (read_len_prefixed-len_bytes bs rest h)

abbrev pub opaque_laws : TimestampLaws Bytes
opaque_laws = record {
  repr = opaque_timestamp;
  IsStamp = λ bs. IsU64 (length bs);
  stamp_bytes = len_bytes;
  encode-bytes = opaque_encode-bytes;
  decode-bytes = opaque_decode-bytes;
}

-- What any value of the Rust types satisfies: arrays have their lengths, slices fit the memory.
module _ {T : Type 0} (laws : TimestampLaws T) where
  abbrev pub IsOpEntry : OpEntry T → Type 0
  IsOpEntry e =
      laws.IsStamp e.timestamp × IsU64 (length e.server_attested_user_id) × IsU64 (length e.op)

  abbrev pub IsEntry : LogEntry T → Type 0
  IsEntry (LogEntry.indexed_entry (EntryBody.op e)) = IsOpEntry e
  IsEntry (LogEntry.indexed_entry (EntryBody.use_key ci)) = IsCipherInfo ci
  IsEntry (LogEntry.indexed_entry (EntryBody.expunged hash)) = length hash ≡ 32
  IsEntry (LogEntry.signature s) = IsSignature s

  op_entry_bytes : OpEntry T → Bytes
  op_entry_bytes e =
      laws.stamp_bytes e.timestamp ++ (len_bytes e.server_attested_user_id ++ len_bytes e.op)

  unfoldable pub entry_bytes : LogEntry T → Bytes
  unfolding op_entry_bytes
  entry_bytes (LogEntry.indexed_entry (EntryBody.op e)) = 0 ∷ op_entry_bytes e
  entry_bytes (LogEntry.indexed_entry (EntryBody.use_key ci)) = 1 ∷ cipher_info_bytes ci
  entry_bytes (LogEntry.indexed_entry (EntryBody.expunged hash)) = 3 ∷ hash
  entry_bytes (LogEntry.signature s) = 2 ∷ signature_bytes s

  encode_op_entry-bytes :
      (e : OpEntry T) (w : Writer)
      → encode_op_entry ⦃repr = laws.repr⦄ e w ≡ ok (w ++ op_entry_bytes e)
  unfolding encode_op_entry op_entry_bytes len_bytes
  encode_op_entry-bytes e w = simp (laws.encode-bytes, append_assoc)

  decode_op_entry-bytes :
      (e : OpEntry T) (rest : Bytes)
      → IsOpEntry e
      → decode_op_entry ⦃repr = laws.repr⦄ (op_entry_bytes e ++ rest) ≡ ok (e, rest)
  unfolding decode_op_entry op_entry_bytes
  decode_op_entry-bytes e rest (ht, hu, ho) =
      let stamp = laws.stamp_bytes e.timestamp in
      let user = len_bytes e.server_attested_user_id in
      rw (
        append_assoc stamp (user ++ len_bytes e.op) rest,
        append_assoc user (len_bytes e.op) rest,
        laws.decode-bytes e.timestamp (user ++ (len_bytes e.op ++ rest)) ht,
        read_len_prefixed-len_bytes e.server_attested_user_id (len_bytes e.op ++ rest) hu,
        read_len_prefixed-len_bytes e.op rest ho,
      )

  -- `encode` appends the bytes of the entry and does not fail.
  pub encode_entry-bytes :
      (e : LogEntry T) (w : Writer) → encode_entry ⦃repr = laws.repr⦄ e w ≡ ok (w ++ entry_bytes e)
  unfolding encode_entry entry_bytes
  encode_entry-bytes (LogEntry.indexed_entry (EntryBody.op e)) w =
      encode_op_entry-bytes e (w ++ (0 ∷ [])) ∙ ap ok (append_assoc w (0 ∷ []) (op_entry_bytes e))
  encode_entry-bytes (LogEntry.indexed_entry (EntryBody.use_key ci)) w =
      rw (
        encode_cipher_info-bytes ci (w ++ (1 ∷ [])),
        append_assoc w (1 ∷ []) (cipher_info_bytes ci),
      )
  encode_entry-bytes (LogEntry.indexed_entry (EntryBody.expunged hash)) w =
      ap ok (append_assoc w (3 ∷ []) hash)
  encode_entry-bytes (LogEntry.signature s) w =
      rw (encode_signature-bytes s (w ++ (2 ∷ [])), append_assoc w (2 ∷ []) (signature_bytes s))

  pub decode_entry-bytes :
      (e : LogEntry T) (rest : Bytes)
      → IsEntry e
      → decode_entry ⦃repr = laws.repr⦄ (entry_bytes e ++ rest) ≡ ok (e, rest)
  unfolding decode_entry entry_bytes read_byte
  decode_entry-bytes (LogEntry.indexed_entry (EntryBody.op e)) rest h =
      rw (decode_op_entry-bytes e rest h)
  decode_entry-bytes (LogEntry.indexed_entry (EntryBody.use_key ci)) rest h =
      rw (decode_cipher_info-bytes ci rest h)
  decode_entry-bytes (LogEntry.indexed_entry (EntryBody.expunged hash)) rest h =
      rw (read_slice-append 32 hash rest h)
  decode_entry-bytes (LogEntry.signature s) rest h = rw (decode_signature-bytes s rest h)

  -- Encoding an entry succeeds, and, for an entry whose arrays have their lengths, whose slices
  -- fit the memory and whose timestamp is in range, decoding what it appended gives the entry back and
  -- leaves whatever follows.
  pub decode_entry-encode_entry :
      (e : LogEntry T) (w : Writer) (rest : Bytes)
      → IsEntry e
      → (bs : Bytes) × (encode_entry ⦃repr = laws.repr⦄ e w ≡ ok (w ++ bs))
        × (decode_entry ⦃repr = laws.repr⦄ (bs ++ rest) ≡ ok (e, rest))
  decode_entry-encode_entry e w rest h =
      (entry_bytes e, encode_entry-bytes e w, decode_entry-bytes e rest h)
