-- ===== src/Pack/Files/Latest.antt =====
-- What `dedupe_pack_files` keeps: of each reference the file of the latest generation.
use ubiquisync.Prelude.{◌≡◌, ◌≤◌, refl, ◌⊎◌, inl, inr, List, [], ◌∷◌, All, arith, ltb}
use ubiquisync.Prelude.{true, false, Bool-cases}
use ubiquisync.Pack.{PackFileId}
use ubiquisync.Pack.Files.{same_ref, insert_file, insert_files, dedupe_pack_files}

-- Some element satisfies `P`.
abbrev pub Any : {A : Type 0} → (A → Type 0) → List A → Type 0
Any P [] = ⊥
Any P (x ∷ xs) = P x ⊎ Any P xs

abbrev pub Covers : PackFileId → PackFileId → Type 0
Covers f g = (same_ref f g ≡ true) × (f.generation ≤ g.generation)

abbrev pub DistinctRefs : List PackFileId → Type 0
DistinctRefs [] = Unit {0}
DistinctRefs (e ∷ es) = All (λ g. same_ref e g ≡ false) es × DistinctRefs es

same_ref_trans :
    (f g h : PackFileId) → same_ref f g ≡ true → same_ref f h ≡ true → same_ref g h ≡ true
unfolding same_ref
same_ref_trans f g h p q = ground arith

same_ref_refl : (f : PackFileId) → same_ref f f ≡ true
unfolding same_ref
same_ref_refl f = ground arith

same_ref_sym : (f g : PackFileId) → same_ref f g ≡ true → same_ref g f ≡ true
unfolding same_ref
same_ref_sym f g p = ground arith

insert_file-Covers : (f : PackFileId) (es : List PackFileId) → Any (Covers f) (insert_file f es)
unfolding insert_file
insert_file-Covers f [] = inl (same_ref_refl f, omega arith)
insert_file-Covers f (e ∷ es) = elim (Bool-cases (same_ref f e)) [
  | inr other ↦ rw other (inr (insert_file-Covers f es))
  | inl same ↦ elim (Bool-cases (ltb e.generation f.generation)) [
    | inl newer ↦ rw (same, newer) (inl (same_ref_refl f, omega arith))
    | inr older ↦ rw (same, older) (inl (same, ground arith))
  ]
]

-- What covered a file before an insertion, or what replaced it, covers it after.
insert_file-Any :
    (h f : PackFileId) (es : List PackFileId)
    → Any (Covers h) es
    → Any (Covers h) (insert_file f es)
unfolding insert_file
insert_file-Any h f [] a = absurd a
insert_file-Any h f (e ∷ es) a = elim (Bool-cases (same_ref f e)) [
  | inr other ↦ rw other (elim a [ inl c ↦ inl c | inr c ↦ inr (insert_file-Any h f es c) ])
  | inl same ↦ elim (Bool-cases (ltb e.generation f.generation)) [
    | inr older ↦ rw (same, older) a
    | inl newer ↦
        rw (same, newer)
          (elim a [
            | inr c ↦ inr c
            | inl c ↦ inl (
              same_ref_trans e h f (same_ref_sym h e c.0) (same_ref_sym f e same),
              ground (arith, c),
            )
          ])
  ]
]

insert_file-All :
    (P : PackFileId → Type 0) (f : PackFileId) (es : List PackFileId)
    → P f
    → All P es
    → All P (insert_file f es)
unfolding insert_file
insert_file-All P f [] pf ps = (pf, tt)
insert_file-All P f (e ∷ es) pf (pe, ps) = elim (Bool-cases (same_ref f e)) [
  | inr other ↦ rw other (pe, insert_file-All P f es pf ps)
  | inl same ↦ elim (Bool-cases (ltb e.generation f.generation)) [
    | inl newer ↦ rw (same, newer) (pf, ps)
    | inr older ↦ rw (same, older) (pe, ps)
  ]
]

other_ref : (f e g : PackFileId) → same_ref f e ≡ true → same_ref e g ≡ false → same_ref f g ≡ false
unfolding same_ref
other_ref f e g p q = ground arith

other_refs :
    (f e : PackFileId) (es : List PackFileId)
    → same_ref f e ≡ true
    → All (λ g. same_ref e g ≡ false) es
    → All (λ g. same_ref f g ≡ false) es
other_refs f e [] p h = tt
other_refs f e (g ∷ es) p (hg, h) = (other_ref f e g p hg, other_refs f e es p h)

flip_ref : (f e : PackFileId) → same_ref f e ≡ false → same_ref e f ≡ false
unfolding same_ref
flip_ref f e p = ground arith

insert_file-DistinctRefs :
    (f : PackFileId) (es : List PackFileId) → DistinctRefs es → DistinctRefs (insert_file f es)
unfolding insert_file
insert_file-DistinctRefs f [] d = (tt, tt)
insert_file-DistinctRefs f (e ∷ es) (apart, d) = elim (Bool-cases (same_ref f e)) [
  | inr other ↦ rw other (
    insert_file-All (λ g. same_ref e g ≡ false) f es (flip_ref f e other) apart,
    insert_file-DistinctRefs f es d,
  )
  | inl same ↦ elim (Bool-cases (ltb e.generation f.generation)) [
    | inl newer ↦ rw (same, newer) (other_refs f e es same apart, d)
    | inr older ↦ rw (same, older) (apart, d)
  ]
]

module _ (P : PackFileId → Type 0) where
  insert_files-All :
      (files es : List PackFileId) → All P files → All P es → All P (insert_files files es)
  unfolding insert_files
  insert_files-All [] es h hs = hs
  insert_files-All (f ∷ files) es (pf, h) hs =
      insert_files-All files (insert_file f es) h (insert_file-All P f es pf hs)

insert_files-Any :
    (h : PackFileId) (files es : List PackFileId)
    → Any (Covers h) es
    → Any (Covers h) (insert_files files es)
unfolding insert_files
insert_files-Any h [] es a = a
insert_files-Any h (f ∷ files) es a =
    insert_files-Any h files (insert_file f es) (insert_file-Any h f es a)

insert_files-Covers :
    (files es : List PackFileId) → All (λ f. Any (Covers f) (insert_files files es)) files
unfolding insert_files
insert_files-Covers [] es = tt
insert_files-Covers (f ∷ files) es = (
  insert_files-Any f files (insert_file f es) (insert_file-Covers f es),
  insert_files-Covers files (insert_file f es),
)

insert_files-DistinctRefs :
    (files es : List PackFileId) → DistinctRefs es → DistinctRefs (insert_files files es)
unfolding insert_files
insert_files-DistinctRefs [] es d = d
insert_files-DistinctRefs (f ∷ files) es d =
    insert_files-DistinctRefs files (insert_file f es) (insert_file-DistinctRefs f es d)

abbrev pub OneOf : List PackFileId → PackFileId → Type 0
OneOf files g = Any (λ f. f ≡ g) files

OneOf-more :
    (x : PackFileId) (files es : List PackFileId)
    → All (OneOf files) es
    → All (OneOf (x ∷ files)) es
OneOf-more x files [] h = tt
OneOf-more x files (e ∷ es) (o, h) = (inr o, OneOf-more x files es h)

OneOf-self : (files : List PackFileId) → All (OneOf files) files
OneOf-self [] = tt
OneOf-self (f ∷ files) = (inl refl, OneOf-more f files files (OneOf-self files))

-- The files that are kept are among those that were given, no two of them have one reference, and
-- every file that was given has one of its reference among them that is of its generation or a later one.
pub dedupe_pack_files_lem :
    (files : List PackFileId)
    → All (OneOf files) (dedupe_pack_files files)
      × DistinctRefs (dedupe_pack_files files)
      × All (λ f. Any (Covers f) (dedupe_pack_files files)) files
unfolding dedupe_pack_files
dedupe_pack_files_lem files = (
  insert_files-All (OneOf files) files [] (OneOf-self files) tt,
  insert_files-DistinctRefs files [] tt,
  insert_files-Covers files [],
)
