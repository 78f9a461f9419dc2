-- ===== src/Prelude/Lists.antt =====
-- Lists measured by native numbers.
use Prim.Native.Nat.{ℕ, suc, ◌+◌, ◌^◌, ◌<◌}
use mathlib.Core.Path.{◌≡◌, refl}
use mathlib.Core.List.{List, [], ◌∷◌, ◌++◌}
use mathlib.Core.Logic.{◌↔◌, ◌⊎◌}
use mathlib.Core.Bool.{Bool, true, false, ◌&&◌}
use native.Mathlib.Omega.{arith}
use ubiquisync.Prelude.Tests.{◌==◌}

module _ {ℓ} {A : Type ℓ} where
  abbrev pub length : List A → ℕ
  length [] = 0
  length (x ∷ xs) = suc (length xs)

  pub length-append : (xs ys : List A) → length (xs ++ ys) ≡ length xs + length ys
  length-append [] ys = omega arith
  length-append (x ∷ xs) ys = omega (arith, length-append xs ys)

  -- A predicate on every element.
  abbrev pub All {κ} : (A → Type κ) → List A → Type κ
  All P [] = Unit {κ}
  All P (x ∷ xs) = P x × All P xs

-- Membership.
abbrev pub In : {A : Type 0} → A → List A → Type 0
In p [] = ⊥
In p (q ∷ qs) = (p ≡ q) ⊎ In p qs

-- A byte is a number below 256, a byte slice a list of them.
abbrev pub Bytes : Type 0
Bytes = List ℕ

abbrev pub IsByte : ℕ → Type 0
IsByte b = b < 256

abbrev pub IsU64 : ℕ → Type 0
IsU64 v = v < 2 ^ 64

-- Equality of byte slices.
abbrev pub same_bytes : Bytes → Bytes → Bool
same_bytes [] [] = true
same_bytes [] (b ∷ bs) = false
same_bytes (a ∷ as') [] = false
same_bytes (a ∷ as') (b ∷ bs) = a == b && same_bytes as' bs

pub same_bytes_iff : (x y : Bytes) → (same_bytes x y ≡ true) ↔ (x ≡ y)
same_bytes_iff [] [] = (λ h. refl, λ h. refl)
same_bytes_iff [] (b ∷ bs) = (λ h. cc, λ h. cc)
same_bytes_iff (a ∷ as') [] = (λ h. cc, λ h. cc)
same_bytes_iff (a ∷ as') (b ∷ bs) =
    let tails = same_bytes_iff as' bs in (λ h. ground (arith, tails), λ h. ground (arith, tails))
