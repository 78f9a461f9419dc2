-- ===== src/Pack/Names/RoundTrip.antt =====
-- The id of a pack file is read back from its name.
use ubiquisync.Prelude.{ℕ, ◌<◌, ◌≡◌, ◌↔◌, refl, arith, List, [], ◌∷◌, ◌++◌, Bytes, IsU64}
use ubiquisync.Prelude.{
  leb, Bool, if◌then◌else◌, not, ◌||◌, true, false, same_bytes, same_bytes_iff, Result, ok, err,
}
use ubiquisync.Prelude.{>>=-elim, ok_or, Bool-cases, inl, inr}
use ubiquisync.Codec.RoundTrip.{IsRange}
use ubiquisync.Codec.Inverse.{ok_or_inv}
use ubiquisync.Pack.{PackFileId}
use ubiquisync.Pack.Names.{hex_padded, display, split, from_hex, ParseFileNameError, parse_part}
use ubiquisync.Pack.Names.{is_some_part, from_str}
use ubiquisync.Pack.Names.Hex.{hex_padded-IsHexChar, from_hex-hex_padded, split-append, split-none}
use ubiquisync.Pack.Names.Hex.{from_hex_bound}

-- The range is not empty, and the numbers fit their words.
abbrev pub IsFileName : PackFileId → Type 0
IsFileName f = IsRange f.seqs × IsU64 f.id × IsU64 f.generation

split-display :
    (f : PackFileId)
    → split 45 (display f)
      ≡ hex_padded 4 f.seqs.start
        ∷ hex_padded 4 f.seqs.end
        ∷ hex_padded 16 f.id
        ∷ hex_padded 2 f.generation
        ∷ []
unfolding display
split-display f =
    let end = hex_padded 4 f.seqs.end in
    let id = hex_padded 16 f.id in
    let gen = hex_padded 2 f.generation in
    rw
      (
        split-append (hex_padded 4 f.seqs.start) (end ++ (45 ∷ id ++ (45 ∷ gen)))
            (hex_padded-IsHexChar 4 f.seqs.start),
        split-append end (id ++ (45 ∷ gen)) (hex_padded-IsHexChar 4 f.seqs.end),
        split-append id gen (hex_padded-IsHexChar 16 f.id),
        split-none gen (hex_padded-IsHexChar 2 f.generation),
      )
      refl

parse_part-hex_padded :
    (w n : ℕ) (parts : List Bytes) → IsU64 n → parse_part (hex_padded w n ∷ parts) ≡ ok (n, parts)
unfolding parse_part
parse_part-hex_padded w n parts h = rw (from_hex-hex_padded w n h) refl

from_str-display : (f : PackFileId) → IsFileName f → from_str (display f) ≡ ok f
unfolding from_str
from_str-display f ((lt, fits), hid, hgen) =
    let not_empty : leb f.seqs.end f.seqs.start ≡ false = ground arith in
    rw
      (
        split-display f,
        parse_part-hex_padded 4 f.seqs.start _ (omega arith),
        parse_part-hex_padded 4 f.seqs.end _ fits,
        parse_part-hex_padded 16 f.id _ hid,
        parse_part-hex_padded 2 f.generation _ hgen,
        not_empty,
        (same_bytes_iff (display f) (display f)).1 refl,
      )
      refl

parse_part_bound : (n : ℕ) (parts rest : List Bytes) → parse_part parts ≡ ok (n, rest) → IsU64 n
unfolding parse_part
parse_part_bound n [] rest e = cc
parse_part_bound n (p ∷ parts) rest e =
    >>=-elim (ok_or ParseFileNameError.parse_file_name_error (from_hex p)) e λ m em d.
      let fits = from_hex_bound m p (ok_or_inv _ (from_hex p) em) in ground (arith, d, fits)

-- The two checks at the end.
checked :
    (file f : PackFileId) (bad : Bool) (s : Bytes)
    → ◌≡◌ {A = Result ParseFileNameError PackFileId}
        (if bad
          then err ParseFileNameError.parse_file_name_error
          else if not (same_bytes (display file) s)
          then err ParseFileNameError.parse_file_name_error
          else ok file)
        (ok f)
    → (bad ≡ false) × (display file ≡ s) × (file ≡ f)
checked file f true s e = cc
checked file f false s e =
    let (to, _) = same_bytes_iff (display file) s in
    elim (Bool-cases (same_bytes (display file) s)) [
      | inl same ↦ (refl, to same, kept (same_bytes (display file) s) same e)
      | inr other ↦ absurd (refused (same_bytes (display file) s) other e)
    ]
  where
    kept :
        (b : Bool)
        → b ≡ true
        → ◌≡◌ {A = Result ParseFileNameError PackFileId}
            (if not b then err ParseFileNameError.parse_file_name_error else ok file)
            (ok f)
        → file ≡ f
    kept true h d = ground arith
    kept false h d = cc

    refused :
        (b : Bool)
        → b ≡ false
        → ◌≡◌ {A = Result ParseFileNameError PackFileId}
            (if not b then err ParseFileNameError.parse_file_name_error else ok file)
            (ok f)
        → ⊥
    refused true h d = cc
    refused false h d = cc

in_order : (more : Bool) (start end : ℕ) → (more || leb end start) ≡ false → start < end
in_order true start end h = cc
in_order false start end h = ground arith

display-from_str : (s : Bytes) (f : PackFileId) → from_str s ≡ ok f → (display f ≡ s) × IsFileName f
unfolding from_str
display-from_str s f e = >>=-elim (parse_part (split 45 s)) e λ (start, p₁) e₁ d₁.
    >>=-elim (parse_part p₁) d₁ λ (end, p₂) e₂ d₂. >>=-elim (parse_part p₂) d₂ λ (id, p₃) e₃ d₃.
      >>=-elim (parse_part p₃) d₃ λ (generation, p₄) e₄ d₄.
        let file : PackFileId = record {
          seqs = record { start = start; end = end };
          id = id;
          generation = generation;
        } in
        let (good, canonical, ef) = checked file f (is_some_part p₄ || leb end start) s d₄ in
        let h₁ = parse_part_bound start (split 45 s) p₁ e₁ in
        let h₂ = parse_part_bound end p₁ p₂ e₂ in
        let h₃ = parse_part_bound id p₂ p₃ e₃ in
        let h₄ = parse_part_bound generation p₃ p₄ e₄ in
        let lt = in_order (is_some_part p₄) start end good in
        rw (← ef) (canonical, ((lt, h₂), h₃, h₄))

-- A file name is parsed exactly to the id that it is the name of, of a range that is not empty and numbers that fit
-- their words: the text that is printed for an id is parsed to it, and no other text is.
pub from_str_lem :
    (s : Bytes) (f : PackFileId) → (from_str s ≡ ok f) ↔ ((display f ≡ s) × IsFileName f)
from_str_lem s f = (λ e. display-from_str s f e, λ (e, is). rw (← e) (from_str-display f is))
