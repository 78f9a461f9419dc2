-- ===== src/Codec/Varint/Zigzag.antt =====
-- The zigzag i64: what it maps to what, round trip, canonical form.
use ubiquisync.Prelude.{ℕ, ◌-◌, ◌*◌, ◌/◌, ◌%◌, ◌^◌, ◌≡◌, ◌∙◌, ap, arith}
use ubiquisync.Prelude.{◌++◌, All, Bytes, IsByte, IsU64, ok, >>=-eq-ok}
use ubiquisync.Prelude.{ltb, if◌then◌else◌, bit_and, bit_xor}
use ubiquisync.Prelude.Bits.{bit_and_mask, bit_xor-zero, bit_xor_ones}
use ubiquisync.Codec.Varint.{shl_one, sign_fill, neg_i64, encode_var_u64, decode_var_u64}
use ubiquisync.Codec.Varint.{encode_zigzag_i64, decode_zigzag_i64}
use ubiquisync.Codec.Varint.RoundTrip.{decode_var_u64-encode_var_u64}
use ubiquisync.Codec.Varint.Canonical.{decode_var_u64_canonical}
use native.Mathlib.Decide.{dec_lt}

-- The interleaving 0, -1, 1, -2, … on the pattern of an i64, in plain arithmetic, and back.
abbrev pub zigzag : ℕ → ℕ
zigzag v = if ltb v (2 ^ 63) then 2 * v else 2 * (2 ^ 64 - v) - 1

abbrev pub unzigzag : ℕ → ℕ
unzigzag u = if ltb (u % 2) 1 then u / 2 else 2 ^ 64 - 1 - u / 2

encoded_word : (v : ℕ) → IsU64 v → bit_xor (shl_one v) (sign_fill v) ≡ zigzag v
encoded_word v h = elim (dec_lt v (2 ^ 63)) [
  | yes p ↦ ground (arith, bit_xor-zero (shl_one v))
  | no p ↦ ground (arith, bit_xor_ones 64 (shl_one v))
]

decoded_word : (u : ℕ) → IsU64 u → bit_xor (u / 2) (neg_i64 (bit_and u 1)) ≡ unzigzag u
decoded_word u h = elim (dec_lt (u % 2) 1) [
  | yes p ↦ ground (arith, bit_and_mask 1 u, bit_xor-zero (u / 2))
  | no p ↦ ground (arith, bit_and_mask 1 u, bit_xor_ones 64 (u / 2))
]

unzigzag-zigzag : (v : ℕ) → IsU64 v → unzigzag (zigzag v) ≡ v
unzigzag-zigzag v h = ground arith

zigzag-unzigzag : (u : ℕ) → IsU64 u → zigzag (unzigzag u) ≡ u
zigzag-unzigzag u h = ground arith

zigzag-IsU64 : (v : ℕ) → IsU64 v → IsU64 (zigzag v)
zigzag-IsU64 v h = ground arith

unzigzag-IsU64 : (u : ℕ) → IsU64 u → IsU64 (unzigzag u)
unzigzag-IsU64 u h = ground arith

-- For an i64 the encoder writes the varint of the interleaved number: small magnitudes get short encodings.
pub encode_zigzag_i64-zigzag : (v : ℕ) → IsU64 v → encode_zigzag_i64 v ≡ encode_var_u64 (zigzag v)
unfolding encode_zigzag_i64
encode_zigzag_i64-zigzag v h = ap encode_var_u64 (encoded_word v h)

-- Decoding what was encoded gives the i64 back and leaves whatever follows it.
pub decode_zigzag_i64-encode_zigzag_i64 :
    (v : ℕ) (rest : Bytes)
    → IsU64 v
    → decode_zigzag_i64 (encode_zigzag_i64 v ++ rest) ≡ ok (v, rest)
unfolding decode_zigzag_i64
decode_zigzag_i64-encode_zigzag_i64 v rest h =
    let hz = zigzag-IsU64 v h in
    rw (encode_zigzag_i64-zigzag v h, decode_var_u64-encode_var_u64 (zigzag v) rest hz)
      (ap (λ (t : ℕ). ok (t, rest)) (decoded_word (zigzag v) hz ∙ unzigzag-zigzag v h))

-- Whatever bytes `decode_zigzag_i64` accepts are the encoding of the i64 that it returns, and then the rest.
pub decode_zigzag_i64_canonical :
    (buf : Bytes) (v : ℕ) (rest : Bytes)
    → All IsByte buf
    → decode_zigzag_i64 buf ≡ ok (v, rest)
    → (buf ≡ encode_zigzag_i64 v ++ rest) × IsU64 v
unfolding decode_zigzag_i64
decode_zigzag_i64_canonical buf v rest hb e =
    let ((u, tail), ev, eu) = >>=-eq-ok (decode_var_u64 buf) e in
    let (eb, hu) = decode_var_u64_canonical buf u tail hb eu in
    let value : v ≡ unzigzag u = ground (arith, decoded_word u hu) in
    let rests : rest ≡ tail = ground arith in
    let hv = unzigzag-IsU64 u hu in
    rw (value, rests) (rw (encode_zigzag_i64-zigzag (unzigzag u) hv, zigzag-unzigzag u hu) eb, hv)
