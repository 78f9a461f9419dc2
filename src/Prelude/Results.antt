-- ===== src/Prelude/Results.antt =====
-- `Result<T, E>` of the source, with its `?` as bind.
use mathlib.Core.Path.{◌≡◌, refl}
use mathlib.Core.Bool.{Bool, true, false}
use ubiquisync.Prelude.Tests.{if◌then◌else◌}
use mathlib.Core.Option.{Option, none, some}

pub data Result {ℓ} (E A : Type ℓ) : Type ℓ where
  ok : A → Result E A
  err : E → Result E A

-- `Result::map_err`; also the conversion `From` that `?` inserts between error types.
abbrev pub map_err {ℓ} : {E F A : Type ℓ} → (E → F) → Result E A → Result F A
map_err f (ok a) = ok a
map_err f (err e) = err (f e)

-- `Option::ok_or`.
abbrev pub ok_or {ℓ} : {E A : Type ℓ} → E → Option A → Result E A
ok_or e none = err e
ok_or e (some a) = ok a

infixl 5 ◌>>=◌
abbrev pub ◌>>=◌ {ℓ} : {E A B : Type ℓ} → Result E A → (A → Result E B) → Result E B
err e >>= f = err e
ok a >>= f = f a

-- A bind that succeeds ran both of its parts.
pub >>=-eq-ok {ℓ} :
    {E A B : Type ℓ} {f : A → Result E B} {b : B} (m : Result E A)
    → (m >>= f) ≡ ok b
    → (a : A) × (f a ≡ ok b) × (m ≡ ok a)
>>=-eq-ok (err e) h = cc
>>=-eq-ok (ok a) h = (a, h, refl)

-- The same by cases, with names for what the parts returned.
pub >>=-elim {ℓ κ} :
    {E A B : Type ℓ} {P : Type κ} {f : A → Result E B} {b : B} (m : Result E A)
    → (m >>= f) ≡ ok b
    → ((a : A) → m ≡ ok a → f a ≡ ok b → P)
    → P
>>=-elim (err e) h k = cc
>>=-elim (ok a) h k = k a refl h

-- Which branch of a test was taken.
pub if-elim {ℓ κ} :
    {A : Type ℓ} {P : Type κ} (b : Bool) {x y z : A}
    → if◌then◌else◌ b x y ≡ z
    → (b ≡ true → x ≡ z → P)
    → (b ≡ false → y ≡ z → P)
    → P
if-elim true h pos neg = pos refl h
if-elim false h pos neg = neg refl h
