-- ===== src/Pack/Names/Hex.antt =====
-- Hexadecimal numbers are read back as they were printed.
use ubiquisync.Prelude.{ℕ, zero, suc, ◌+◌, ◌-◌, ◌*◌, ◌/◌, ◌%◌, ◌^◌, ◌<◌, ◌≤◌, ◌≡◌, refl, arith}
use ubiquisync.Prelude.{[], ◌∷◌, ◌++◌, append_assoc, append-nil, length, length-append, All, Bytes}
use ubiquisync.Prelude.{IsU64, ltb, ap, Bool-cases, Option, none, some, inl, inr, false, ◌==◌}
use native.Mathlib.Nat.{pow-suc}
use ubiquisync.Pack.Names.{
  digit, hex, zero_digits, hex_padded, split, next_digit, digit_value, parse_stripped,
}
use ubiquisync.Pack.Names.{parse_digits, from_hex, strip_plus}

-- What a printed digit is among characters: neither a sign nor a separator.
abbrev pub IsHexChar : ℕ → Type 0
IsHexChar c = (48 ≤ c) × (c ≤ 102)

next_digit-digit :
    (acc d m : ℕ) → d < 16 → acc * 16 + d ≡ m → IsU64 m → next_digit acc (digit d) ≡ some m
unfolding next_digit digit_value
next_digit-digit acc d m h e fits = ground arith

digit-IsHexChar : (d : ℕ) → d < 16 → IsHexChar (digit d)
digit-IsHexChar d h = ground arith

-- One digit more.
parse_digits-digit :
    (acc d m : ℕ) (s : Bytes)
    → d < 16
    → acc * 16 + d ≡ m
    → IsU64 m
    → parse_digits acc (digit d ∷ s) ≡ parse_digits m s
unfolding parse_digits
parse_digits-digit acc d m s h e fits =
    ap (λ o. elim o as (λ _. Option ℕ) [ none ↦ none | some n ↦ parse_digits n s ])
      (next_digit-digit acc d m h e fits)

pub parse_digits-hex :
    (k n : ℕ) (rest : Bytes)
    → n < 16 ^ k
    → IsU64 n
    → parse_digits 0 (hex k n ++ rest) ≡ parse_digits n rest
unfolding hex
parse_digits-hex zero n rest h fits = ap (λ m. parse_digits m rest) (omega arith)
parse_digits-hex (suc k) n rest h fits = elim (Bool-cases (ltb n 16)) [
  | inl small ↦ rw small (parse_digits-digit 0 n n rest (ground arith) (omega arith) fits)
  | inr large ↦
      rw
        (
          large,
          append_assoc (hex k (n / 16)) (digit (n % 16) ∷ []) rest,
          parse_digits-hex k (n / 16) (digit (n % 16) ∷ rest) (omega (arith, pow-suc 16 k))
              (omega arith),
        )
        (parse_digits-digit (n / 16) (n % 16) n rest (omega arith) (omega arith) fits)
]

parse_digits-zero_digits :
    (m : ℕ) (s : Bytes) → parse_digits 0 (zero_digits m ++ s) ≡ parse_digits 0 s
unfolding parse_digits
parse_digits-zero_digits zero s = refl
parse_digits-zero_digits (suc m) s = parse_digits-zero_digits m s

All-append : (P : ℕ → Type 0) (xs ys : Bytes) → All P xs → All P ys → All P (xs ++ ys)
All-append P [] ys hx hy = hy
All-append P (x ∷ xs) ys (h, hx) hy = (h, All-append P xs ys hx hy)

hex-IsHexChar : (k n : ℕ) → All IsHexChar (hex k n)
unfolding hex
hex-IsHexChar zero n = tt
hex-IsHexChar (suc k) n = elim (Bool-cases (ltb n 16)) [
  | inl small ↦ rw small (digit-IsHexChar n (ground arith), tt)
  | inr large ↦ rw large (
      All-append IsHexChar (hex k (n / 16)) (digit (n % 16) ∷ []) (hex-IsHexChar k (n / 16))
        (digit-IsHexChar (n % 16) (omega arith), tt))
]

zero_digits-IsHexChar : (m : ℕ) → All IsHexChar (zero_digits m)
zero_digits-IsHexChar zero = tt
zero_digits-IsHexChar (suc m) = (omega arith, zero_digits-IsHexChar m)

pub hex_padded-IsHexChar : (w n : ℕ) → All IsHexChar (hex_padded w n)
unfolding hex_padded
hex_padded-IsHexChar w n =
    All-append IsHexChar (zero_digits (w - length (hex 16 n))) (hex 16 n)
      (zero_digits-IsHexChar (w - length (hex 16 n))) (hex-IsHexChar 16 n)

parse_digits-hex_padded : (w n : ℕ) → IsU64 n → parse_digits 0 (hex_padded w n) ≡ some n
unfolding hex_padded parse_digits
parse_digits-hex_padded w n h =
    rw (parse_digits-zero_digits (w - length (hex 16 n)) (hex 16 n), ← append-nil (hex 16 n))
      (parse_digits-hex 16 n [] (omega arith) h)

strip_plus-digit : (c : ℕ) (s : Bytes) → IsHexChar c → strip_plus (c ∷ s) ≡ c ∷ s
strip_plus-digit c s h = let no_sign : (c == 43) ≡ false = ground arith in rw no_sign refl

from_hex-chars :
    (n : ℕ) (s : Bytes)
    → All IsHexChar s
    → 0 < length s
    → parse_digits 0 s ≡ some n
    → from_hex s ≡ some n
unfolding from_hex parse_stripped
from_hex-chars n [] h l e = absurd (omega arith)
from_hex-chars n (c ∷ s) (hc, h) l e = rw (strip_plus-digit c s hc) e

length-hex : (k n : ℕ) → 0 < length (hex (suc k) n)
unfolding hex
length-hex k n = elim (Bool-cases (ltb n 16)) [
  | inl small ↦ rw small (omega arith)
  | inr large ↦ rw large (omega (arith, length-append (hex k (n / 16)) (digit (n % 16) ∷ [])))
]

length-hex_padded : (w n : ℕ) → 0 < length (hex_padded w n)
unfolding hex_padded
length-hex_padded w n =
    omega (arith, length-append (zero_digits (w - length (hex 16 n))) (hex 16 n), length-hex 15 n)

-- A printed number is parsed back.
pub from_hex-hex_padded : (w n : ℕ) → IsU64 n → from_hex (hex_padded w n) ≡ some n
from_hex-hex_padded w n h =
    from_hex-chars n (hex_padded w n) (hex_padded-IsHexChar w n) (length-hex_padded w n)
      (parse_digits-hex_padded w n h)

pub split-none : (p : Bytes) → All IsHexChar p → split 45 p ≡ p ∷ []
split-none [] h = refl
split-none (c ∷ p) (hc, h) =
    let other : (c == 45) ≡ false = ground arith in rw (other, split-none p h) refl

-- A printed number is split off at the separator behind it.
pub split-append : (p s : Bytes) → All IsHexChar p → split 45 (p ++ (45 ∷ s)) ≡ p ∷ split 45 s
split-append [] s h = refl
split-append (c ∷ p) s (hc, h) =
    let other : (c == 45) ≡ false = ground arith in rw (other, split-append p s h) refl

next_digit-IsU64 : (acc c m : ℕ) → next_digit acc c ≡ some m → IsU64 m
unfolding next_digit
next_digit-IsU64 acc c m e = ground arith

-- The digit that a parse went on with.
parsed :
    {P : Type 0} {n : ℕ} {f : ℕ → Option ℕ} (o : Option ℕ)
    → ◌≡◌ {A = Option ℕ} (elim o [ none ↦ none | some m ↦ f m ]) (some n)
    → ((m : ℕ) → o ≡ some m → f m ≡ some n → P)
    → P
parsed none e k = cc
parsed (some m) e k = k m refl e

-- Only numbers that fit the word are parsed.
parse_digits_bound : (acc n : ℕ) (s : Bytes) → parse_digits acc s ≡ some n → IsU64 acc → IsU64 n
unfolding parse_digits
parse_digits_bound acc n [] e h = ground arith
parse_digits_bound acc n (c ∷ s) e h =
    parsed (next_digit acc c) e λ m em d. parse_digits_bound m n s d (next_digit-IsU64 acc c m em)

parse_stripped_bound : (m : ℕ) (t : Bytes) → parse_stripped t ≡ some m → IsU64 m
unfolding parse_stripped
parse_stripped_bound m [] p = cc
parse_stripped_bound m (c ∷ t) p = parse_digits_bound 0 m (c ∷ t) p (omega arith)

pub from_hex_bound : (n : ℕ) (s : Bytes) → from_hex s ≡ some n → IsU64 n
unfolding from_hex
from_hex_bound n s e = parse_stripped_bound n (strip_plus s) e
