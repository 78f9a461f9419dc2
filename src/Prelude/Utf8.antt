-- ===== src/Prelude/Utf8.antt =====
-- `str::from_utf8` of the Rust standard library: which byte slices are UTF-8. A text is its bytes,
-- and the place of an error is left out.
use Prim.Native.Nat.{ℕ, zero, suc}
use mathlib.Core.Bool.{Bool, false, ◌&&◌}
use mathlib.Core.List.{[], ◌∷◌}
use mathlib.Core.Option.{Option, none, some}
use ubiquisync.Prelude.Tests.{ltb, leb, ◌==◌, if◌then◌else◌}
use ubiquisync.Prelude.Lists.{Bytes}

-- What may follow: how many continuation bytes, and the least and the greatest first one.
abbrev Follow : Type 0
Follow = ℕ × ℕ × ℕ

abbrev between : ℕ → ℕ → ℕ → Bool
between lo hi b = leb lo b && leb b hi

-- The first byte of a character.
abbrev lead : ℕ → Option Follow
lead b =
    if ltb b 128
    then some (0, 128, 191)
    else if between 194 223 b
    then some (1, 128, 191)
    else if b == 224
    then some (2, 160, 191)
    else if b == 237
    then some (2, 128, 159)
    else if between 225 239 b
    then some (2, 128, 191)
    else if b == 240
    then some (3, 144, 191)
    else if between 241 243 b
    then some (3, 128, 191)
    else if b == 244
    then some (3, 128, 143)
    else none

abbrev utf8_from : Follow → Bytes → Bool
utf8_from (left, lo, hi) [] = left == 0
utf8_from (zero, lo, hi) (b ∷ bs) = elim (lead b) [ none ↦ false | some next ↦ utf8_from next bs ]
utf8_from (suc left, lo, hi) (b ∷ bs) = between lo hi b && utf8_from (left, 128, 191) bs

unfoldable pub is_utf8 : Bytes → Bool
is_utf8 bs = utf8_from (0, 128, 191) bs
