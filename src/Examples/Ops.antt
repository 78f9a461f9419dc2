-- ===== src/Examples/Ops.antt =====
-- The wire form of table ops: an upsert with a bytes key, an i64 column and a null text column.
use ubiquisync.Prelude.{◌≡◌, ◌↔◌, ◌⊎◌, refl, arith, [], ◌∷◌, Bytes, false, true, ok, err}
use ubiquisync.Codec.Varint.{encode_var_u64, encode_zigzag_i64, decode_var_u64, decode_zigzag_i64}
use ubiquisync.Codec.Writer.{to_le_bytes}
use ubiquisync.Codec.Reader.{read_le, read_len_prefixed}
use ubiquisync.Prelude.Utf8.{is_utf8}
use ubiquisync.Tables.Op.{Op, Upsert}
use ubiquisync.Tables.Id.{Value, pk_count, pk_col_type, column_type, value_type}
use ubiquisync.Tables.Validate.{validate_upsert}
use ubiquisync.Tables.Validate.Accepts.{Succeeds}
use ubiquisync.Tables.Codec.{Codec, EncodeOpError, DecodeOpError, OpEncodeError, encode, decode}
use ubiquisync.Tables.Codec.{do_decode}
use ubiquisync.Tables.Codec.Values.{value_has_nul}
use ubiquisync.Tables.Codec.Written.{IsOp, IsTypedOp, op_has_nul}
use ubiquisync.Tables.Codec.RoundTrip.{decode-encode}
use ubiquisync.Tables.Codec.Canonical.{encode-decode}
use ubiquisync.Tables.Codec.Accepts.{encode_lem, encode-validate_upsert}

abbrev codec : Codec
codec = record { container_id = 7 ∷ 7 ∷ [] }

abbrev sample : Upsert Value
sample = record {
  table_id = 7;
  primary_key = Value.bytes_value (1 ∷ []) ∷ [];
  sets =
      record { column_id = 130; value = Value.i64_value 40 }
      ∷ record { column_id = 66; value = Value.text_value (104 ∷ 105 ∷ []) }
      ∷ [];
  nulls = 65 ∷ [];
}

abbrev wire : Bytes
wire = 0 ∷ 7 ∷ 0 ∷ 1 ∷ 1 ∷ 2 ∷ 130 ∷ 80 ∷ 66 ∷ 2 ∷ 104 ∷ 105 ∷ 1 ∷ 65 ∷ []

sample_encoded : encode codec (Op.upsert sample) ≡ ok (codec.container_id, wire)
unfolding encode pk_count pk_col_type column_type to_le_bytes encode_var_u64 encode_zigzag_i64
sample_encoded = refl

sample_decoded : decode codec codec.container_id wire ≡ ok (Op.upsert sample)
unfolding decode pk_count pk_col_type column_type read_le read_len_prefixed decode_var_u64
    decode_zigzag_i64 is_utf8
sample_decoded = refl

other_container :
    do_decode codec (7 ∷ []) wire ≡ err (DecodeOpError.wrong_container (7 ∷ []) (7 ∷ 7 ∷ []))
unfolding do_decode
other_container = refl

trailing :
    do_decode codec codec.container_id (1 ∷ 7 ∷ 0 ∷ 1 ∷ 1 ∷ 9 ∷ [])
    ≡ err DecodeOpError.trailing_bytes
unfolding do_decode pk_count pk_col_type read_le read_len_prefixed decode_var_u64
trailing = refl

sample_accepted : validate_upsert sample ≡ ok tt
unfolding validate_upsert pk_count pk_col_type column_type value_type
sample_accepted = refl

sample-IsOp : IsOp (Op.upsert sample)
unfolding is_utf8
sample-IsOp = (
  (omega arith, (omega arith, tt)),
  (omega arith, ((omega arith, refl), tt)),
  omega arith,
  omega arith,
)

sample_typed : IsTypedOp (Op.upsert sample)
unfolding pk_count pk_col_type column_type value_type
sample_typed = ((refl, (refl, tt)), (refl, (refl, tt)))

sample_clean : op_has_nul (Op.upsert sample) ≡ false
unfolding value_has_nul
sample_clean = refl

decode-encode_example :
    (op_has_nul (Op.upsert sample) ≡ true)
      × (encode codec (Op.upsert sample)
          ≡ err (OpEncodeError.invalid EncodeOpError.text_contains_nul))
    ⊎ ((op_has_nul (Op.upsert sample) ≡ false)
        × ((bs : Bytes) × (encode codec (Op.upsert sample) ≡ ok (codec.container_id, bs))
            × (decode codec codec.container_id bs ≡ ok (Op.upsert sample))))
decode-encode_example = decode-encode codec (Op.upsert sample) sample-IsOp sample_typed

encode-decode_example :
    (encode codec (Op.upsert sample) ≡ ok (codec.container_id, wire))
    × IsTypedOp (Op.upsert sample)
    × (op_has_nul (Op.upsert sample) ≡ false)
encode-decode_example =
    encode-decode codec codec.container_id wire (Op.upsert sample) (omega arith) sample_decoded

encode_lem_example :
    Succeeds (encode codec (Op.upsert sample))
    ↔ (IsTypedOp (Op.upsert sample) × (op_has_nul (Op.upsert sample) ≡ false))
encode_lem_example = encode_lem codec (Op.upsert sample)

encode-validate_upsert_example :
    (bs : Bytes) × (encode codec (Op.upsert sample) ≡ ok (codec.container_id, bs))
    × (decode codec codec.container_id bs ≡ ok (Op.upsert sample))
encode-validate_upsert_example =
    encode-validate_upsert codec sample sample_accepted sample-IsOp sample_clean
