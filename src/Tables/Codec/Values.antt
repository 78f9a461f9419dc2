-- ===== src/Tables/Codec/Values.antt =====
-- One value in the wire form of table ops.
use ubiquisync.Prelude.{◌≡◌, refl, ◌++◌, append_assoc, length, Bytes, IsU64, Bool, true, false}
use ubiquisync.Prelude.{is_utf8, Result, ok, err, Bool-cases, inl, inr}
use ubiquisync.Codec.Varint.{encode_zigzag_i64}
use ubiquisync.Codec.Varint.Zigzag.{decode_zigzag_i64-encode_zigzag_i64}
use ubiquisync.Codec.Writer.{Writer}
use ubiquisync.Codec.RoundTrip.{read_slice-append}
use ubiquisync.Log.Entry.RoundTrip.{len_bytes, read_len_prefixed-len_bytes}
use ubiquisync.Tables.Id.{ColType, Value, value_type}
use ubiquisync.Tables.Codec.{EncodeOpError, has_nul, check_text_for_nul, write_str, read_str}
use ubiquisync.Tables.Codec.{write_pk_value, write_typed_value, read_value}

-- What any value of the Rust types satisfies.
abbrev pub IsValue : Value → Type 0
IsValue (Value.bytes_value b) = IsU64 (length b)
IsValue (Value.uuid_value u) = length u ≡ 16
IsValue (Value.text_value s) = IsU64 (length s) × (is_utf8 s ≡ true)
IsValue (Value.i64_value n) = IsU64 n

unfoldable pub value_bytes : Value → Bytes
value_bytes (Value.bytes_value b) = len_bytes b
value_bytes (Value.uuid_value u) = u
value_bytes (Value.text_value s) = len_bytes s
value_bytes (Value.i64_value n) = encode_zigzag_i64 n

-- A text with a NUL in it.
unfoldable pub value_has_nul : Value → Bool
value_has_nul (Value.bytes_value b) = false
value_has_nul (Value.uuid_value u) = false
value_has_nul (Value.text_value s) = has_nul s
value_has_nul (Value.i64_value n) = false

-- What a writer does that refuses a NUL, and else appends.
abbrev pub unless_nul : Bool → Writer → Bytes → Result EncodeOpError Writer
unless_nul true w bs = err EncodeOpError.text_contains_nul
unless_nul false w bs = ok (w ++ bs)

write_str-bytes : (s : Bytes) (w : Writer) → write_str s w ≡ unless_nul (has_nul s) w (len_bytes s)
unfolding write_str check_text_for_nul len_bytes
write_str-bytes s w = elim (Bool-cases (has_nul s)) [
  | inl e ↦ rw e refl
  | inr e ↦ rw e (simp append_assoc)
]

pub write_pk_value-bytes :
    (v : Value) (w : Writer)
    → write_pk_value (value_type v) v w ≡ unless_nul (value_has_nul v) w (value_bytes v)
unfolding write_pk_value value_type value_bytes value_has_nul len_bytes
write_pk_value-bytes (Value.bytes_value b) w = simp append_assoc
write_pk_value-bytes (Value.uuid_value u) w = refl
write_pk_value-bytes (Value.text_value s) w = write_str-bytes s w
write_pk_value-bytes (Value.i64_value n) w = refl

pub write_typed_value-bytes :
    (v : Value) (w : Writer)
    → write_typed_value (value_type v) v w ≡ unless_nul (value_has_nul v) w (value_bytes v)
unfolding write_typed_value value_type value_bytes value_has_nul len_bytes
write_typed_value-bytes (Value.bytes_value b) w = simp append_assoc
write_typed_value-bytes (Value.uuid_value u) w = refl
write_typed_value-bytes (Value.text_value s) w = write_str-bytes s w
write_typed_value-bytes (Value.i64_value n) w = refl

-- A value is written only as the type that its id declares.
pub write_pk_value-typed :
    (t : ColType) (v : Value) (w w' : Writer) → write_pk_value t v w ≡ ok w' → value_type v ≡ t
unfolding write_pk_value value_type
write_pk_value-typed ColType.bytes (Value.bytes_value b) w w' h = refl
write_pk_value-typed ColType.text (Value.text_value s) w w' h = refl
write_pk_value-typed ColType.i64 (Value.i64_value n) w w' h = refl
write_pk_value-typed ColType.uuid (Value.uuid_value u) w w' h = refl
write_pk_value-typed t v w w' h = cc

pub write_typed_value-typed :
    (t : ColType) (v : Value) (w w' : Writer) → write_typed_value t v w ≡ ok w' → value_type v ≡ t
unfolding write_typed_value value_type
write_typed_value-typed ColType.bytes (Value.bytes_value b) w w' h = refl
write_typed_value-typed ColType.text (Value.text_value s) w w' h = refl
write_typed_value-typed ColType.i64 (Value.i64_value n) w w' h = refl
write_typed_value-typed ColType.uuid (Value.uuid_value u) w w' h = refl
write_typed_value-typed t v w w' h = cc

pub read_value-bytes :
    (v : Value) (rest : Bytes)
    → IsValue v
    → value_has_nul v ≡ false
    → read_value (value_type v) (value_bytes v ++ rest) ≡ ok (v, rest)
unfolding read_value value_type value_bytes value_has_nul read_str check_text_for_nul
read_value-bytes (Value.bytes_value b) rest h n = rw (read_len_prefixed-len_bytes b rest h)
read_value-bytes (Value.uuid_value u) rest h n = rw (read_slice-append 16 u rest h)
read_value-bytes (Value.text_value s) rest (h, u) n =
    rw (read_len_prefixed-len_bytes s rest h, u, n)
read_value-bytes (Value.i64_value m) rest h n = rw (decode_zigzag_i64-encode_zigzag_i64 m rest h)
