-- ===== src/Codec/Varint/Rounds.antt =====
-- One round of the varint encoder and of the decoder, in plain arithmetic.
use ubiquisync.Prelude.{ℕ, suc, ◌+◌, ◌*◌, ◌/◌, ◌%◌, ◌^◌, ◌≤◌, ◌<◌, ◌≡◌, ap, arith}
use ubiquisync.Prelude.{[], ◌∷◌, Bytes, bit_or}
use ubiquisync.Prelude.{ok}
use ubiquisync.Prelude.Bits.{bit_or_fields, bit_and_mask, bit_and_top}
use ubiquisync.Codec.Varint.{encode_loop, decode_loop}
use native.Mathlib.Nat.{div-add-mod}
use native.Mathlib.Numerals.{towards_suc}

pub shift_seven : (s : ℕ) → 2 ^ (s + 7) ≡ 2 ^ s * 128
shift_seven s = simp towards_suc (omega arith)

-- The lowest seven bits of `w` and the rest are shifted by `s` as `w` is.
pub regroup : (w s : ℕ) → w % 128 * 2 ^ s + w / 128 * 2 ^ (s + 7) ≡ w * 2 ^ s
regroup w s = rw shift_seven (grind (arith, ap (λ (x : ℕ). 2 ^ s * x) (div-add-mod w 128)))

-- Adding a group above the bits read so far.
add_group :
    (acc x s : ℕ)
    → acc < 2 ^ s
    → x * 2 ^ s < 2 ^ 64
    → bit_or acc (x * 2 ^ s % 2 ^ 64) ≡ acc + x * 2 ^ s
add_group acc x s ha hx =
    rw (let e : x * 2 ^ s % 2 ^ 64 ≡ x * 2 ^ s = omega arith in e) (bit_or_fields s acc x ha)

pub mul_mono : (a b p : ℕ) → a ≤ b → a * p ≤ b * p
mul_mono a b p h = grind arith

-- The last round, a last byte before it, and a byte with the continuation bit.
pub ninth_byte :
    (b acc s : ℕ) (rest : Bytes)
    → 0 < b
    → acc < 2 ^ s
    → b * 2 ^ s < 2 ^ 64
    → decode_loop (b ∷ rest) 8 acc s ≡ ok (acc + b * 2 ^ s, rest)
unfolding decode_loop
ninth_byte b acc s rest hb ha hx = ground (arith, add_group acc b s ha hx)

pub last_byte :
    (b i acc s : ℕ) (rest : Bytes)
    → b < 128
    → i < 8
    → (0 < i → 0 < b)
    → acc < 2 ^ s
    → b * 2 ^ s < 2 ^ 64
    → decode_loop (b ∷ rest) i acc s ≡ ok (acc + b * 2 ^ s, rest)
unfolding decode_loop
last_byte b i acc s rest hb hi hm ha hx =
    ground (arith, add_group acc b s ha hx, bit_and_mask 7 b, bit_and_top b)

pub inner_byte :
    (g i acc s : ℕ) (rest : Bytes)
    → g < 128
    → i < 8
    → acc < 2 ^ s
    → g * 2 ^ s < 2 ^ 64
    → decode_loop ((g + 128) ∷ rest) i acc s ≡ decode_loop rest (i + 1) (acc + g * 2 ^ s) (s + 7)
unfolding decode_loop
inner_byte g i acc s rest hg hi ha hx =
    ground (arith, add_group acc g s ha hx, bit_and_mask 7 (g + 128), bit_and_top (g + 128))

-- The two shapes of a round of the encoder.
pub encode_last : (k v : ℕ) → v < 128 → encode_loop (suc k) v ≡ v ∷ []
unfolding encode_loop
encode_last k v h = ground (arith, bit_and_mask 7 v)

pub encode_more :
    (k v : ℕ) → 128 ≤ v → encode_loop (suc k) v ≡ (v % 128 + 128) ∷ encode_loop k (v / 128)
unfolding encode_loop
encode_more k v h = ground (arith, bit_and_mask 7 v, bit_or_fields 7 (v % 128) 1 (omega arith))

-- The bits read so far stay below the next shift.
pub next_group : (acc g s : ℕ) → acc < 2 ^ s → g < 128 → acc + g * 2 ^ s < 2 ^ (s + 7)
next_group acc g s ha hg = omega (arith, shift_seven s, mul_mono g 127 (2 ^ s) (omega arith))
