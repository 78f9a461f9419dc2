-- ===== src/Tables/Validate/Accepts.antt =====
-- What validation accepts.
use ubiquisync.Prelude.{
  ℕ, ◌+◌, ◌≡◌, ◌≢◌, ◌↔◌, refl, sym, List, [], ◌∷◌, ◌++◌, map, length, All, true, false, Bool-cases,
  inl, inr,
}
use ubiquisync.Prelude.{Result, ok, ◌>>=◌, >>=-eq-ok, ◌==◌, ==_iff}
use ubiquisync.Tables.Op.{Upsert, ColumnSet}
use ubiquisync.Tables.Id.{ColType, Value, same_type, pk_count, pk_col_type, column_type, value_type}
use ubiquisync.Tables.Reducer.{has_column}
use ubiquisync.Tables.Validate.{check_pk_types, validate_pk, check_value_type}
use ubiquisync.Tables.Validate.{insert_unique, check_sets, check_nulls, validate_upsert}

-- The values of a primary key have the types of its columns from an index on.
abbrev pub PkTyped : ℕ → ℕ → List Value → Type 0
PkTyped table_id i [] = Unit {0}
PkTyped table_id i (v ∷ vs) = (value_type v ≡ pk_col_type table_id i) × PkTyped table_id (i + 1) vs

abbrev pub Distinct : List ℕ → Type 0
Distinct [] = Unit {0}
Distinct (c ∷ cs) = All (λ d. c ≢ d) cs × Distinct cs

-- The columns that an upsert names.
abbrev pub columns : Upsert Value → List ℕ
columns u = map (λ (s : ColumnSet Value). s.column_id) u.sets ++ u.nulls

same_type_iff : (a b : ColType) → (same_type a b ≡ true) ↔ (a ≡ b)
same_type_iff a b = (λ h. same a b h, λ h. rw h (all_same b))
  where
    all_same : (c : ColType) → same_type c c ≡ true
    all_same ColType.bytes = refl
    all_same ColType.text = refl
    all_same ColType.i64 = refl
    all_same ColType.uuid = refl

    same : (x y : ColType) → same_type x y ≡ true → x ≡ y
    same ColType.bytes ColType.bytes h = refl
    same ColType.text ColType.text h = refl
    same ColType.i64 ColType.i64 h = refl
    same ColType.uuid ColType.uuid h = refl
    same ColType.bytes ColType.text h = cc
    same ColType.bytes ColType.i64 h = cc
    same ColType.bytes ColType.uuid h = cc
    same ColType.text ColType.bytes h = cc
    same ColType.text ColType.i64 h = cc
    same ColType.text ColType.uuid h = cc
    same ColType.i64 ColType.bytes h = cc
    same ColType.i64 ColType.text h = cc
    same ColType.i64 ColType.uuid h = cc
    same ColType.uuid ColType.bytes h = cc
    same ColType.uuid ColType.text h = cc
    same ColType.uuid ColType.i64 h = cc

check_pk_types_lem :
    (table_id i : ℕ) (vs : List Value)
    → (check_pk_types table_id i vs ≡ ok tt) ↔ PkTyped table_id i vs
unfolding check_pk_types
check_pk_types_lem table_id i [] = (λ h. tt, λ h. refl)
check_pk_types_lem table_id i (v ∷ vs) =
    let ih = check_pk_types_lem table_id (i + 1) vs in
    let one = same_type_iff (value_type v) (pk_col_type table_id i) in
    elim (Bool-cases (same_type (value_type v) (pk_col_type table_id i))) [
      | inl e ↦ rw e (λ h. (one.0 e, ih.0 h), λ h. ih.1 h.1)
      | inr e ↦ rw e ((λ h. cc), λ h. let t = one.1 h.0 in cc)
    ]

pub validate_pk_lem :
    (table_id : ℕ) (vs : List Value)
    → (validate_pk table_id vs ≡ ok tt) ↔ ((length vs ≡ pk_count table_id) × PkTyped table_id 0 vs)
unfolding validate_pk
validate_pk_lem table_id vs =
    let ih = check_pk_types_lem table_id 0 vs in
    let one = ==_iff (length vs) (pk_count table_id) in
    elim (Bool-cases (length vs == pk_count table_id)) [
      | inl e ↦ rw e (λ h. (one.0 e, ih.0 h), λ h. ih.1 h.1)
      | inr e ↦ rw e ((λ h. cc), λ h. let t = one.1 h.0 in cc)
    ]

-- A computation that returns something.
abbrev pub Succeeds : {E A : Type 0} → Result E A → Type 0
Succeeds {A = A} m = (a : A) × (m ≡ ok a)

abbrev IsNew : List ℕ → ℕ → Type 0
IsNew seen c = All (λ d. c ≢ d) seen

-- No column stands in `seen`, nor twice.
abbrev NoRepeat : List ℕ → List ℕ → Type 0
NoRepeat seen [] = Unit {0}
NoRepeat seen (c ∷ cs) = IsNew seen c × NoRepeat (c ∷ seen) cs

has_column-IsNew : (c : ℕ) (seen : List ℕ) → (has_column c seen ≡ false) ↔ IsNew seen c
has_column-IsNew c [] = (λ h. tt, λ h. refl)
has_column-IsNew c (d ∷ seen) =
    let (to, from) = has_column-IsNew c seen in
    let one = ==_iff c d in
    elim (Bool-cases (c == d)) [
      | inl e ↦ rw e ((λ h. cc), λ h. absurd (h.0 (one.0 e)))
      | inr e ↦ rw e ((λ h. ((λ p. let t = one.1 p in cc), to h)), λ h. from h.1)
    ]

check_nulls_lem : (seen nulls : List ℕ) → Succeeds (check_nulls seen nulls) ↔ NoRepeat seen nulls
unfolding check_nulls insert_unique
check_nulls_lem seen [] = (λ h. tt, λ h. (seen, refl))
check_nulls_lem seen (c ∷ nulls) =
    let ih = check_nulls_lem (c ∷ seen) nulls in
    let one = has_column-IsNew c seen in
    elim (Bool-cases (has_column c seen)) [
      | inl e ↦ rw e ((λ h. let (a, p) = h in cc), λ h. let t = one.1 h.0 in cc)
      | inr e ↦ rw e (λ h. (one.0 e, ih.0 h), λ h. ih.1 h.1)
    ]

abbrev pub ValueTyped : ColumnSet Value → Type 0
ValueTyped s = value_type s.value ≡ column_type s.column_id

-- Both loops of `validate_upsert`.
check_columns :
    (seen : List ℕ) (sets : List (ColumnSet Value)) (nulls : List ℕ)
    → Succeeds (check_sets seen sets >>= λ seen'. check_nulls seen' nulls) ↔ (
        All ValueTyped sets
        × NoRepeat seen (map (λ (s : ColumnSet Value). s.column_id) sets ++ nulls))
unfolding check_sets check_value_type insert_unique
check_columns seen [] nulls =
    let (to, from) = check_nulls_lem seen nulls in ((λ h. (tt, to h)), λ h. from h.1)
check_columns seen (s ∷ sets) nulls =
    let (to, from) = check_columns (s.column_id ∷ seen) sets nulls in
    let typed = same_type_iff (value_type s.value) (column_type s.column_id) in
    let new = has_column-IsNew s.column_id seen in
    elim (Bool-cases (same_type (value_type s.value) (column_type s.column_id))) [
      | inr e ↦ rw e ((λ h. let (a, p) = h in cc), λ h. let t = typed.1 h.0.0 in cc)
      | inl e ↦ elim (Bool-cases (has_column s.column_id seen)) [
        | inl f ↦ rw (e, f) ((λ h. let (a, p) = h in cc), λ h. let t = new.1 h.1.0 in cc)
        | inr f ↦
            rw (e, f)
              (
                (λ h. let (all, rest) = to h in ((typed.0 e, all), (new.0 f, rest))),
                λ h. from (h.0.1, h.1.1),
              )
      ]
    ]

All-map : {P Q : ℕ → Type 0} (xs : List ℕ) → ((x : ℕ) → P x → Q x) → All P xs → All Q xs
All-map [] f h = tt
All-map (x ∷ xs) f (h, hs) = (f x h, All-map xs f hs)

All-both : (P Q : ℕ → Type 0) (xs : List ℕ) → All P xs → All Q xs → All (λ x. P x × Q x) xs
All-both P Q [] h k = tt
All-both P Q (x ∷ xs) (h, hs) (k, ks) = ((h, k), All-both P Q xs hs ks)

NoRepeat-Distinct : (seen cs : List ℕ) → NoRepeat seen cs ↔ (Distinct cs × All (IsNew seen) cs)
NoRepeat-Distinct seen [] = (λ h. (tt, tt), λ h. tt)
NoRepeat-Distinct seen (c ∷ cs) =
    let (to, from) = NoRepeat-Distinct (c ∷ seen) cs in
    (
      (λ h.
          let (distinct, new) = to h.1 in
          ((All-map cs (λ d k e. k.0 (sym e)) new, distinct), (h.0, All-map cs (λ d k. k.1) new))),
      λ h. (
        h.1.0,
        from (
          h.0.1,
          All-map cs (λ d k. ((λ e. k.0 (sym e)), k.1))
              (All-both (λ d. c ≢ d) (IsNew seen) cs h.0.0 h.1.1),
        ),
      ),
    )

All-trivial : {P : ℕ → Type 0} (xs : List ℕ) → ((x : ℕ) → P x) → All P xs
All-trivial [] f = tt
All-trivial (x ∷ xs) f = (f x, All-trivial xs f)

-- An upsert is accepted exactly if its primary key has as many values as its table id says, each of
-- the type of its column, every set has a value of the type of its column id, and no column is named
-- twice among sets and nulls.
pub validate_upsert_lem :
    (u : Upsert Value)
    → (validate_upsert u ≡ ok tt) ↔ (
        (length u.primary_key ≡ pk_count u.table_id)
        × PkTyped u.table_id 0 u.primary_key
        × All ValueTyped u.sets
        × Distinct (columns u))
unfolding validate_upsert
validate_upsert_lem u =
    let pk = validate_pk_lem u.table_id u.primary_key in
    let cols = check_columns [] u.sets u.nulls in
    let distinct = NoRepeat-Distinct [] (columns u) in
    (
      (λ h.
          let (v, h₁, valid) = >>=-eq-ok (validate_pk u.table_id u.primary_key) h in
          let (seen, h₂, sets) = >>=-eq-ok (check_sets [] u.sets) h₁ in
          let (seen', h₃, nulls) = >>=-eq-ok (check_nulls seen u.nulls) h₂ in
          let both : check_sets [] u.sets >>= (λ s. check_nulls s u.nulls) ≡ ok seen' =
            rw sets nulls in
          let (count, typed) = pk.0 valid in
          let (values, names) = cols.0 (seen', both) in
          (count, typed, values, (distinct.0 names).0)),
      λ h.
          let (count, typed, values, names) = h in
          let valid = pk.1 (count, typed) in
          let (out, both) =
            cols.1 (values, distinct.1 (names, All-trivial (columns u) (λ c. tt))) in
          let (seen, nulls, sets) = >>=-eq-ok (check_sets [] u.sets) both in
          rw (valid, sets, nulls),
    )
