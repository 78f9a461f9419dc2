-- ===== src/Prelude/Bits.antt =====
-- `|`, `&` and `^` as arithmetic: the digit equations, `|` of disjoint fields, `&` with a low mask.
use Prim.Native.Nat.{ℕ, zero, suc, ◌+◌, ◌-◌, ◌*◌, ◌/◌, ◌%◌, ◌^◌, ◌≤◌, ◌<◌, min, max}
use Prim.Native.Nat.{bit_and, bit_or, bit_xor, digits, bitwise}
use Prim.Native.Nat.{bit_and-bitwise, bit_or-bitwise, bit_xor-bitwise, differ}
use mathlib.Core.Path.{◌≡◌, refl, sym, ◌∙◌, ap}
use native.Mathlib.Nat.{pow-suc, one-le-pow}
use native.Mathlib.Omega.{arith}

module _ (base : ℕ → ℕ) (op : ℕ → ℕ → ℕ) where
  spent : (fuel b : ℕ) → digits base op fuel zero b ≡ base b
  spent zero b = refl
  spent (suc fuel) b = refl

  -- Fuel beyond the first operand changes nothing.
  any_fuel :
      (fuel a b more : ℕ) → a ≤ fuel → a ≤ more → digits base op fuel a b ≡ digits base op more a b
  any_fuel fuel zero b more h k = spent fuel b ∙ sym (spent more b)
  any_fuel zero (suc a) b more h k = absurd (omega arith)
  any_fuel (suc fuel) (suc a) b zero h k = absurd (omega arith)
  any_fuel (suc fuel) (suc a) b (suc more) h k =
      ap (λ (t : ℕ). t * 2 + op (suc a % 2) (b % 2))
        (any_fuel fuel (suc a / 2) (b / 2) more (omega arith) (omega arith))

  lowest_digit :
      (a b : ℕ)
      → bitwise base op (suc a) b ≡ op (suc a % 2) (b % 2) + 2 * bitwise base op (suc a / 2) (b / 2)
  lowest_digit a b =
      let half = suc a / 2 in
      omega (arith, any_fuel a half (b / 2) half (omega arith) (omega arith))

or_digit : (a b : ℕ) → bit_or a b ≡ max (a % 2) (b % 2) + 2 * bit_or (a / 2) (b / 2)
or_digit zero b = simp bit_or-bitwise (omega arith)
or_digit (suc a) b = simp bit_or-bitwise (lowest_digit (λ y. y) max a b)

and_digit : (a b : ℕ) → bit_and a b ≡ min (a % 2) (b % 2) + 2 * bit_and (a / 2) (b / 2)
and_digit zero b = simp bit_and-bitwise (omega arith)
and_digit (suc a) b = simp bit_and-bitwise (lowest_digit (λ y. 0) min a b)

-- What each operation does with zero, by induction on a bound of the other operand.
or_zero_below : (bound x : ℕ) → x < bound → bit_or x 0 ≡ x
or_zero_below zero x h = absurd (omega arith)
or_zero_below (suc bound) zero h = refl
or_zero_below (suc bound) (suc x) h =
    let half = or_zero_below bound (suc x / 2) (omega arith) in
    omega (arith, half, or_digit (suc x) 0)

and_zero_below : (bound x : ℕ) → x < bound → bit_and x 0 ≡ 0
and_zero_below zero x h = absurd (omega arith)
and_zero_below (suc bound) zero h = refl
and_zero_below (suc bound) (suc x) h =
    let half = and_zero_below bound (suc x / 2) (omega arith) in
    omega (arith, half, and_digit (suc x) 0)

bit_and-zero : (x : ℕ) → bit_and x 0 ≡ 0
bit_and-zero x = and_zero_below (suc x) x (omega arith)

pow_double : (q k : ℕ) → q * 2 ^ suc k ≡ 2 * (q * 2 ^ k)
pow_double q k = omega (arith, ap (λ (t : ℕ). q * t) (pow-suc 2 k))

-- `low | (high << k)` is a sum where `low` fits `k` bits.
pub bit_or_fields : (k low high : ℕ) → low < 2 ^ k → bit_or low (high * 2 ^ k) ≡ low + high * 2 ^ k
bit_or_fields zero zero high h = simp bit_or-bitwise (omega arith)
bit_or_fields zero (suc low) high h = absurd (omega arith)
bit_or_fields (suc k) low high h = ground (
  arith,
  or_digit low (high * 2 ^ suc k),
  pow_double high k,
  pow-suc 2 k,
  bit_or_fields k (low / 2) high (omega (arith, pow-suc 2 k)),
)

-- The same with the fields in the other order.
pub bit_or_fields_left :
    (k low high : ℕ) → low < 2 ^ k → bit_or (high * 2 ^ k) low ≡ high * 2 ^ k + low
bit_or_fields_left zero zero high h =
    omega (arith, or_zero_below (suc (high * 1)) (high * 1) (omega arith))
bit_or_fields_left zero (suc low) high h = absurd (omega arith)
bit_or_fields_left (suc k) low high h = ground (
  arith,
  or_digit (high * 2 ^ suc k) low,
  pow_double high k,
  pow-suc 2 k,
  bit_or_fields_left k (low / 2) high (omega (arith, pow-suc 2 k)),
)

and_fields : (k q r : ℕ) → r < 2 ^ k → bit_and (q * 2 ^ k + r) (2 ^ k - 1) ≡ r
and_fields zero q r h = rw (bit_and-zero (q * 2 ^ 0 + r)) (omega arith)
and_fields (suc k) q r h = ground (
  arith,
  and_digit (q * 2 ^ suc k + r) (2 ^ suc k - 1),
  pow_double q k,
  pow-suc 2 k,
  one-le-pow k 2,
  and_fields k q (r / 2) (omega (arith, pow-suc 2 k)),
)

-- `a & mask`, for a mask of `k` ones, is the remainder by `2 ^ k`.
pub bit_and_mask : (k a : ℕ) → bit_and a (2 ^ k - 1) ≡ a % 2 ^ k
bit_and_mask k a = ground (arith, one-le-pow k 2, and_fields k (a / 2 ^ k) (a % 2 ^ k))

xor_digit : (a b : ℕ) → bit_xor a b ≡ differ (a % 2) (b % 2) + 2 * bit_xor (a / 2) (b / 2)
xor_digit zero b = simp bit_xor-bitwise (omega arith)
xor_digit (suc a) b = simp bit_xor-bitwise (lowest_digit (λ y. y) differ a b)

-- The digit operation on two binary digits.
differ_zero : (a : ℕ) → differ (a % 2) 0 ≡ a % 2
differ_zero a = digit (a % 2) (omega arith)
  where
    digit : (x : ℕ) → x < 2 → differ x 0 ≡ x
    digit zero h = refl
    digit (suc zero) h = refl
    digit (suc (suc x)) h = absurd (omega arith)

differ_one : (a b : ℕ) → b % 2 ≡ 1 → differ (a % 2) (b % 2) ≡ 1 - a % 2
differ_one a b hb = rw hb (digit (a % 2) (omega arith))
  where
    digit : (x : ℕ) → x < 2 → differ x 1 ≡ 1 - x
    digit zero h = refl
    digit (suc zero) h = refl
    digit (suc (suc x)) h = absurd (omega arith)

xor_zero_below : (bound x : ℕ) → x < bound → bit_xor x 0 ≡ x
xor_zero_below zero x h = absurd (omega arith)
xor_zero_below (suc bound) zero h = refl
xor_zero_below (suc bound) (suc x) h =
    let half = xor_zero_below bound (suc x / 2) (omega arith) in
    ground (arith, half, xor_digit (suc x) 0, differ_zero (suc x))

pub bit_xor-zero : (x : ℕ) → bit_xor x 0 ≡ x
bit_xor-zero x = xor_zero_below (suc x) x (omega arith)

-- `^` with `k` ones is the complement at width `k`.
pub bit_xor_ones : (k a : ℕ) → a < 2 ^ k → bit_xor a (2 ^ k - 1) ≡ 2 ^ k - 1 - a
bit_xor_ones zero a h = rw (let e : a ≡ 0 = omega arith in e) (bit_xor-zero 0)
bit_xor_ones (suc k) a h = ground (
  arith,
  xor_digit a (2 ^ suc k - 1),
  differ_one a (2 ^ suc k - 1) (omega (arith, pow-suc 2 k, one-le-pow k 2)),
  pow-suc 2 k,
  one-le-pow k 2,
  bit_xor_ones k (a / 2) (omega (arith, pow-suc 2 k)),
)

-- An even mask leaves the lowest digit out.
even_mask :
    (x mask x' mask' : ℕ) → mask ≡ 2 * mask' → x' ≡ x / 2 → bit_and x mask ≡ 2 * bit_and x' mask'
even_mask x mask x' mask' e f =
    let half : mask / 2 ≡ mask' = omega arith in
    let last : mask % 2 ≡ 0 = omega arith in and_digit x mask ∙ rw (half, last, ← f) (omega arith)

-- The top bit of a byte.
pub bit_and_top : (b : ℕ) → b < 256 → bit_and b 0x80 ≡ b / 128 * 128
bit_and_top b h = omega (
  arith,
  even_mask b 128 (b / 2) 64 refl refl,
  even_mask (b / 2) 64 (b / 4) 32 refl (omega arith),
  even_mask (b / 4) 32 (b / 8) 16 refl (omega arith),
  even_mask (b / 8) 16 (b / 16) 8 refl (omega arith),
  even_mask (b / 16) 8 (b / 32) 4 refl (omega arith),
  even_mask (b / 32) 4 (b / 64) 2 refl (omega arith),
  even_mask (b / 64) 2 (b / 128) 1 refl (omega arith),
  bit_and_mask 1 (b / 128),
)
