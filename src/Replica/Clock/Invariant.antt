-- ===== src/Replica/Clock/Invariant.antt =====
-- The invariant of the clock, its calls and the row that they persist, and its parts.
use ubiquisync.Prelude.{ℕ, ◌≤◌, ◌<◌, ◌≡◌, ◌≢◌, List, [], ◌∷◌, All, In, arith, Bool-cases}
use ubiquisync.Prelude.{Option, none, some, inl, inr, ◌⊎◌, ok, ◌==◌, ==_iff}
use ubiquisync.Hlc.{Timestamp, IsTimestamp, try_from_u64}
use ubiquisync.Hlc.Laws.{next_local_lem, next_after_lem}
use ubiquisync.Replica.Clock.{Advance, propose, Phase, State, put_phase}

-- A timestamp comes from the constructors, so the one that is observed fits an i64.
abbrev pub AdvanceOk : Advance → Type 0
AdvanceOk (Advance.local w) = Unit {0}
AdvanceOk (Advance.observe r) = IsTimestamp r

-- What the next timestamp is above: the clock for a local event, the remote one for an observed.
abbrev pub floor : Advance → ℕ → ℕ
floor (Advance.local w) last_raw = last_raw
floor (Advance.observe r) last_raw = r.value

-- A proposed timestamp, where an observed one fits an i64, is never behind the clock, lies above the event that asked for it, and fits
-- an i64.
pub propose_above :
    (f : Advance) (last_raw : ℕ) (t : Timestamp)
    → AdvanceOk f
    → propose f last_raw ≡ ok t
    → (last_raw ≤ t.value) × (floor f last_raw < t.value) × IsTimestamp t
unfolding propose try_from_u64
propose_above (Advance.local w) last_raw t h e =
    ground (arith, next_local_lem (record { value = last_raw }) w)
propose_above (Advance.observe r) last_raw t h e =
    ground (arith, next_after_lem (record { value = last_raw }) r)

abbrev pub PhaseOk : ℕ → Phase → Type 0
PhaseOk hlc (Phase.entered f) = AdvanceOk f
PhaseOk hlc (Phase.looping f last_raw) = AdvanceOk f × (last_raw ≤ hlc)
PhaseOk hlc (Phase.exchanged t) = t.value ≤ hlc
PhaseOk hlc (Phase.returned t) = t.value ≤ hlc
PhaseOk hlc (Phase.failed e) = Unit {0}

-- The timestamp that a call has stored in the atomic and not yet persisted.
abbrev pub pending : Phase → Option ℕ
pending (Phase.exchanged t) = some t.value
pending (Phase.entered f) = none
pending (Phase.looping f l) = none
pending (Phase.returned t) = none
pending (Phase.failed e) = none

-- Each timestamp of the list is above all that came before it.
abbrev pub Descending : List ℕ → Type 0
Descending [] = Unit {0}
Descending (x ∷ xs) = All (λ y. y < x) xs × Descending xs

-- No timestamp is in the list twice.
abbrev pub Distinct : List ℕ → Type 0
Distinct [] = Unit {0}
Distinct (x ∷ xs) = (¬ In x xs) × Distinct xs

-- The row has no less than any timestamp whose statement ran, and no more than the clock.
abbrev pub RowOk : ℕ → Option ℕ → List ℕ → Type 0
RowOk hlc none executed = executed ≡ []
RowOk hlc (some row) executed = All (λ y. y ≤ row) executed × (row ≤ hlc)

-- A row stays, and its timestamp does not fall.
abbrev pub Rises : Option ℕ → Option ℕ → Type 0
Rises none after = Unit {0}
Rises (some row) none = ⊥
Rises (some row) (some after) = row ≤ after

pub record Inv (s : State) : Type 0 where
  pub calls_ok : (i : ℕ) → PhaseOk s.hlc (s.calls i)
  pub bounded : All (λ y. y ≤ s.hlc) s.issued
  pub descending : Descending s.issued
  pub alone : (i j x : ℕ) → pending (s.calls i) ≡ some x → pending (s.calls j) ≡ some x → i ≡ j
  pub waiting : (i x : ℕ) → pending (s.calls i) ≡ some x → In x s.issued × (¬ In x s.persisted)
  pub persisted_issued : (x : ℕ) → In x s.persisted → In x s.issued
  pub once : Distinct s.persisted
  pub row_ok : RowOk s.hlc s.stored s.executed

pub All-map : {P Q : ℕ → Type 0} (xs : List ℕ) → ((x : ℕ) → P x → Q x) → All P xs → All Q xs
All-map [] f h = tt
All-map (x ∷ xs) f (h, hs) = (f x h, All-map xs f hs)

pub All-In : (b x : ℕ) (xs : List ℕ) → All (λ y. y ≤ b) xs → In x xs → x ≤ b
All-In b x [] h i = absurd i
All-In b x (y ∷ ys) (h, hs) i = elim i [ inl e ↦ omega arith | inr k ↦ All-In b x ys hs k ]

pub PhaseOk-mono : (a b : ℕ) (p : Phase) → a ≤ b → PhaseOk a p → PhaseOk b p
PhaseOk-mono a b (Phase.entered f) h k = k
PhaseOk-mono a b (Phase.looping f l) h (o, k) = (o, omega arith)
PhaseOk-mono a b (Phase.exchanged t) h k = omega arith
PhaseOk-mono a b (Phase.returned t) h k = omega arith
PhaseOk-mono a b (Phase.failed e) h k = tt

pub RowOk-mono : (a b : ℕ) (r : Option ℕ) (xs : List ℕ) → a ≤ b → RowOk a r xs → RowOk b r xs
RowOk-mono a b none xs h k = k
RowOk-mono a b (some r) xs h (k, l) = (k, omega arith)

pub Rises-refl : (r : Option ℕ) → Rises r r
Rises-refl none = tt
Rises-refl (some r) = omega arith

pub Rises-trans : (a b c : Option ℕ) → Rises a b → Rises b c → Rises a c
Rises-trans none b c h k = tt
Rises-trans (some a) none c h k = absurd h
Rises-trans (some a) (some b) none h k = absurd k
Rises-trans (some a) (some b) (some c) h k = omega arith

-- The calls after one of them moved, under a clock that did not fall.
pub moved :
    (s : State) (hlc i : ℕ) (p : Phase)
    → Inv s
    → s.hlc ≤ hlc
    → PhaseOk hlc p
    → (j : ℕ) → PhaseOk hlc (put_phase s.calls i p j)
moved s hlc i p inv h hp j = elim (Bool-cases (i == j)) [
  | inl e ↦ rw e hp
  | inr e ↦ rw e (PhaseOk-mono s.hlc hlc (s.calls j) h (inv.calls_ok j))
]

-- What is pending after one call moved: its own timestamp, or that of another call as before.
pub pending_moved :
    (calls : ℕ → Phase) (i : ℕ) (p : Phase) (j x : ℕ)
    → pending (put_phase calls i p j) ≡ some x
    → ((i ≡ j) × (pending p ≡ some x)) ⊎ ((i ≢ j) × (pending (calls j) ≡ some x))
pending_moved calls i p j x h = elim (Bool-cases (i == j)) [
  | inl e ↦ inl ((==_iff i j).0 e, rw e at h)
  | inr e ↦ inr (λ q. ground (arith, ==_iff i j), rw e at h)
]

pub phase_at : (s : State) (i : ℕ) (p : Phase) → Inv s → s.calls i ≡ p → PhaseOk s.hlc p
phase_at s i p inv e = rw e at (inv.calls_ok i)
