-- ===== src/Examples/Codec.antt =====
-- The codec on concrete bytes.
use ubiquisync.Prelude.{ℕ, ◌^◌, ◌-◌, ◌≡◌, ◌<◌, refl, arith, [], ◌∷◌, ◌++◌}
use ubiquisync.Prelude.{Bytes, IsU64, ok, err}
use ubiquisync.Codec.Varint.{ReadError, encode_var_u64, decode_var_u64, decode_zigzag_i64}
use ubiquisync.Codec.Varint.Canonical.{decode_var_u64_canonical}
use ubiquisync.Codec.Writer.{Range}
use ubiquisync.Codec.Reader.{read_range, read_byte}

abbrev tail : Bytes
tail = 7 ∷ 255 ∷ []

decoded_300 : decode_var_u64 (172 ∷ 2 ∷ tail) ≡ ok (300, tail)
unfolding decode_var_u64
decoded_300 = refl

padded_zero : decode_var_u64 (128 ∷ 0 ∷ []) ≡ err ReadError.non_minimal_varint
unfolding decode_var_u64
padded_zero = refl

decode_var_u64_canonical_example : (172 ∷ 2 ∷ tail ≡ encode_var_u64 300 ++ tail) × IsU64 300
decode_var_u64_canonical_example =
    decode_var_u64_canonical (172 ∷ 2 ∷ tail) 300 tail (omega arith) decoded_300

decoded_minus_one : decode_zigzag_i64 (1 ∷ tail) ≡ ok (2 ^ 64 - 1, tail)
unfolding decode_zigzag_i64 decode_var_u64
decoded_minus_one = refl

abbrev range : Range
range = record { start = 4; end = 2 ^ 64 - 1 }

range_read : read_range (4 ∷ 1 ∷ tail) ≡ ok (record { start = 4; end = 5 }, tail)
unfolding read_range decode_var_u64
range_read = refl

byte_back : (a : ℕ) (rest : Bytes) → (a < 256) → read_byte ((a ∷ []) ++ rest) ≡ ok (a, rest)
unfolding read_byte
byte_back a rest h = refl
