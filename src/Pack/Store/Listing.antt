-- ===== src/Pack/Store/Listing.antt =====
-- What the listings of a store say, and that a pack that was written is read.
use ubiquisync.Prelude.{ℕ, ◌≡◌, ◌↔◌, refl, sym, ◌∙◌, ap, inl, inr, List, [], ◌∷◌, ◌++◌}
use ubiquisync.Prelude.{
  if-elim, length, length-append, Bytes, same_bytes, same_bytes_iff, Bool-cases, false,
}
use ubiquisync.Prelude.{Result, ok, err, Option, none, some, Option-cases, arith}
use ubiquisync.Pack.{PackFileId}
use ubiquisync.Pack.Names.{display, from_str}
use ubiquisync.Pack.Names.RoundTrip.{IsFileName, from_str_lem}
use ubiquisync.Pack.Files.Latest.{Any}
use ubiquisync.Pack.Store.{DirEntry, FileType, header_ext, strip_suffix, filter_map, to_option}
use ubiquisync.Pack.Store.{of_file, pack_of_name, if_file, bind, FileRemote}
use ubiquisync.Pack.Store.{peer_dir, list_packs}
use ubiquisync.Pack.Names.{Topic}

not_longer : (c : ℕ) (front ext : Bytes) → same_bytes ext (c ∷ (front ++ ext)) ≡ false
not_longer c front ext = elim (Bool-cases (same_bytes ext (c ∷ (front ++ ext)))) [
  | inr e ↦ e
  | inl e ↦
      let same = (same_bytes_iff ext (c ∷ (front ++ ext))).0 e in
      absurd (omega (arith, ap length same, length-append front ext))
]

strip_suffix-append : (front ext : Bytes) → strip_suffix ext (front ++ ext) ≡ some front
strip_suffix-append [] [] = refl
strip_suffix-append [] (x ∷ ext) = rw ((same_bytes_iff (x ∷ ext) (x ∷ ext)).1 refl) refl
strip_suffix-append (c ∷ front) ext =
    rw (not_longer c front ext, strip_suffix-append front ext) refl

-- An option that was mapped, or gone on with.
some-elim :
    {P A B : Type 0} {b : B} {f : A → Option B} (o : Option A)
    → ◌≡◌ {A = Option B} (elim o [ none ↦ none | some a ↦ f a ]) (some b)
    → ((a : A) → o ≡ some a → f a ≡ some b → P)
    → P
some-elim none e k = cc
some-elim (some a) e k = k a refl e

bind-elim :
    {P A B : Type 0} {b : B} {f : A → Option B} (o : Option A)
    → bind o f ≡ some b
    → ((a : A) → o ≡ some a → f a ≡ some b → P)
    → P
bind-elim none e k = cc
bind-elim (some a) e k = k a refl e

append-strip_suffix : (ext s front : Bytes) → strip_suffix ext s ≡ some front → s ≡ front ++ ext
append-strip_suffix ext [] front e =
    if-elim (same_bytes ext []) e
      (λ same d.
        let ee = (same_bytes_iff ext []).0 same in
        let ef : [] ≡ front = ground arith in rw (← ef, ee) refl)
      (λ other d. cc)
append-strip_suffix ext (c ∷ s) front e =
    if-elim (same_bytes ext (c ∷ s)) e
      (λ same d.
        let ee = (same_bytes_iff ext (c ∷ s)).0 same in
        let ef : [] ≡ front = ground arith in rw (← ef, ee) refl)
      (λ other d. some-elim (strip_suffix ext s) d λ t et dt.
        let ef : c ∷ t ≡ front = ground arith in
        rw (← ef) (ap (λ u. c ∷ u) (append-strip_suffix ext s t et)))

to_option_lem : {E A : Type 0} (m : Result E A) (a : A) → (to_option m ≡ some a) ↔ (m ≡ ok a)
to_option_lem (ok x) a = (λ e. ground arith, λ e. ground arith)
to_option_lem (err x) a = (λ e. cc, λ e. cc)

pack_of_name_lem :
    (name : Bytes) (f : PackFileId)
    → (pack_of_name name ≡ some f) ↔ ((name ≡ display f ++ header_ext) × IsFileName f)
unfolding pack_of_name
pack_of_name_lem name f = (
  (λ e. bind-elim (strip_suffix header_ext name) e λ front ef d.
      let (shown, is) = (from_str_lem front f).0 ((to_option_lem (from_str front) f).0 d) in
      (append-strip_suffix header_ext name front ef ∙ ap (λ t. t ++ header_ext) (sym shown), is)),
  λ (e, is).
      rw (e, strip_suffix-append (display f) header_ext, (from_str_lem (display f) f).1 (refl, is))
        refl,
)

filter_map-Any :
    {A B : Type 0} (f : A → Option B) (y : B) (xs : List A)
    → Any (λ z. z ≡ y) (filter_map f xs) ↔ Any (λ x. f x ≡ some y) xs
filter_map-Any f y [] = (λ h. h, λ h. h)
filter_map-Any f y (x ∷ xs) =
    let (to, from) = filter_map-Any f y xs in
    elim (Option-cases (f x)) [
      | inl e ↦ rw e ((λ h. inr (to h)), λ h. elim h [ inl h ↦ cc | inr h ↦ from h ])
      | inr (z, e) ↦ rw e (
        (λ h. elim h [ inl h ↦ inl (ap some h) | inr h ↦ inr (to h) ]),
        λ h. elim h [ inl h ↦ inl (ground arith) | inr h ↦ inr (from h) ],
      )
    ]

-- The entry of the header of a pack in the directory of its author.
abbrev pub IsPackEntry : PackFileId → DirEntry → Type 0
IsPackEntry f e =
    (e.file_type ≡ FileType.file) × (e.file_name ≡ display f ++ header_ext) × IsFileName f

of_file_lem : (f : PackFileId) (e : DirEntry) → (of_file pack_of_name e ≡ some f) ↔ IsPackEntry f e
of_file_lem f e = by_type e.file_type
  where
    by_type :
        (t : FileType)
        → (if_file t (pack_of_name e.file_name) ≡ some f)
          ↔ ((t ≡ FileType.file) × (e.file_name ≡ display f ++ header_ext) × IsFileName f)
    by_type FileType.file =
        let (to, from) = pack_of_name_lem e.file_name f in
        ((λ d. let (name, is) = to d in (refl, name, is)), λ (k, name, is). from (name, is))
    by_type FileType.directory = ((λ d. cc), λ (k, name, is). cc)

Any-map :
    {A : Type 0} (P Q : A → Type 0) (xs : List A) → ((x : A) → P x → Q x) → Any P xs → Any Q xs
Any-map P Q [] f h = h
Any-map P Q (x ∷ xs) f h = elim h [ inl p ↦ inl (f x p) | inr p ↦ inr (Any-map P Q xs f p) ]

module _ {S : Type 0} (r : FileRemote S) (hex_encode : Bytes → Bytes) where
  -- The packs that are listed for an author are exactly those whose header has an entry in the directory of the
  -- author, by the name of an id with a range that is not empty and numbers that fit their words.
  pub list_packs_lem :
      (s : S) (topic : Topic) (peer : Bytes) (es : List DirEntry) (f : PackFileId)
      → r.list s (peer_dir r hex_encode topic peer) ≡ ok es
      → (fs : List PackFileId) × (list_packs r hex_encode s topic peer ≡ ok fs)
        × (Any (λ g. g ≡ f) fs ↔ Any (IsPackEntry f) es)
  unfolding list_packs
  list_packs_lem s topic peer es f e =
      let (to, from) = filter_map-Any (of_file pack_of_name) f es in
      (
        filter_map (of_file pack_of_name) es,
        rw e refl,
        (
          (λ h. Any-map _ _ es (λ x. (of_file_lem f x).0) (to h)),
          λ h. from (Any-map _ _ es (λ x. (of_file_lem f x).1) h),
        ),
      )
