-- ===== src/Codec/Varint.antt =====
-- crates/ubiquisync-core/src/codec/varint.rs: variable-length u64 and zigzag i64.
-- A byte slice is a list of numbers; an i64 is its two's complement pattern, below 2 ^ 64.
mod Rounds
pub mod RoundTrip
pub mod Canonical
pub mod Zigzag
use ubiquisync.Prelude.{ℕ, zero, suc, ◌+◌, ◌-◌, ◌*◌, ◌/◌, ◌%◌, ◌^◌, bit_and, bit_or, bit_xor}
use ubiquisync.Prelude.{List, [], ◌∷◌, Bytes, ltb, leb, ◌==◌, if◌then◌else◌, ◌&&◌}
use ubiquisync.Prelude.{Result, ok, err, ◌>>=◌}

-- codec/reader.rs. `u_size_overflow` holds the number, `invalid_range` its start and span.
pub data ReadError : Type 0 where
  unexpected_eof non_minimal_varint trailing_bytes invalid_option : ReadError
  u_size_overflow : ℕ → ReadError
  invalid_range : ℕ → ℕ → ReadError

-- The loop of `encode_var_u64`; the number counts the rounds of `0..9` that are left. After the
-- ninth round the whole buffer is the result.
pub encode_loop : ℕ → ℕ → Bytes
encode_loop zero v = []
encode_loop (suc k) v =
    let byte = bit_and v 0x7f % 256 in
    let rest = encode_loop k (v / 2 ^ 7) in
    if v / 2 ^ 7 == 0 then byte ∷ [] else bit_or byte 0x80 ∷ rest

unfoldable pub encode_var_u64 : ℕ → Bytes
unfolding encode_loop
encode_var_u64 v = encode_loop 9 v

-- The loop of `decode_var_u64`: the list is what the index `i` has not reached.
pub decode_loop : Bytes → ℕ → ℕ → ℕ → Result ReadError (ℕ × Bytes)
decode_loop [] i result shift = err ReadError.unexpected_eof
decode_loop (byte ∷ rest) i result shift =
    let result' = bit_or result (bit_and byte 0x7f * 2 ^ shift % 2 ^ 64) in
    let more = decode_loop rest (i + 1) result' (shift + 7) in
    if i == 8
    then if byte == 0
      then err ReadError.non_minimal_varint
      else ok (bit_or result (byte * 2 ^ shift % 2 ^ 64), rest)
    else if bit_and byte 0x80 == 0
    then if leb 1 i && byte == 0 then err ReadError.non_minimal_varint else ok (result', rest)
    else more

unfoldable pub decode_var_u64 : Bytes → Result ReadError (ℕ × Bytes)
unfolding decode_loop
decode_var_u64 buf = decode_loop buf 0 0 0

-- `v << 1`, `v >> 63` (which copies the sign) and `-x` on the pattern of an i64.
abbrev pub shl_one : ℕ → ℕ
shl_one v = v * 2 % 2 ^ 64

abbrev pub sign_fill : ℕ → ℕ
sign_fill v = if ltb v (2 ^ 63) then 0 else 2 ^ 64 - 1

abbrev pub neg_i64 : ℕ → ℕ
neg_i64 v = (2 ^ 64 - v) % 2 ^ 64

unfoldable pub encode_zigzag_i64 : ℕ → Bytes
encode_zigzag_i64 v = encode_var_u64 (bit_xor (shl_one v) (sign_fill v))

unfoldable pub decode_zigzag_i64 : Bytes → Result ReadError (ℕ × Bytes)
decode_zigzag_i64 buf = do
  (decoded, rest) ← decode_var_u64 buf
  ok (bit_xor (decoded / 2) (neg_i64 (bit_and decoded 1)), rest)
