-- ===== src/Replica/Clock/Issue.antt =====
-- What every step of the calls of `update_hlc`, and of the statements that they leave in their
-- batches, keeps.
use ubiquisync.Prelude.{ℕ, ◌≤◌, ◌<◌, ◌≡◌, ◌≢◌, refl, List, ◌∷◌, arith}
use ubiquisync.Prelude.{Option, none, some, inl, inr}
use ubiquisync.Hlc.{Timestamp}
use ubiquisync.Replica.Clock.{Phase, State, put_phase, to_phase, upsert_hlc, Step, Reach}
use ubiquisync.Replica.Clock.Invariant.{
  AdvanceOk, propose_above, PhaseOk, pending, RowOk, Rises, Inv,
}
use ubiquisync.Replica.Clock.Invariant.{All-map, All-In, RowOk-mono, Rises-refl, Rises-trans}
use ubiquisync.Replica.Clock.Invariant.{moved, pending_moved, phase_at}

-- A move to a phase that has nothing pending.
to_phase-Inv :
    (s : State) (i : ℕ) (p : Phase)
    → Inv s
    → PhaseOk s.hlc p
    → pending p ≡ none
    → Inv (to_phase s i p)
to_phase-Inv s i p inv ok_p quiet =
    let other : (j x : ℕ)
        → pending (put_phase s.calls i p j) ≡ some x
        → pending (s.calls j) ≡ some x =
      λ j x h. elim (pending_moved s.calls i p j x h) [ inl (_, q) ↦ cc | inr (_, q) ↦ q ] in
    record {
      calls_ok = moved s s.hlc i p inv (omega arith) ok_p;
      bounded = inv.bounded;
      descending = inv.descending;
      alone = λ j k x h h'. inv.alone j k x (other j x h) (other k x h');
      waiting = λ j x h. inv.waiting j x (other j x h);
      persisted_issued = inv.persisted_issued;
      once = inv.once;
      row_ok = inv.row_ok;
    }

-- The state after a compare-and-swap that succeeded.
abbrev after_exchange : State → ℕ → Timestamp → State
after_exchange s i t = record s {
  hlc = t.value;
  calls = put_phase s.calls i (Phase.exchanged t);
  issued = t.value ∷ s.issued;
}

exchange-Inv :
    (s : State) (i : ℕ) (t : Timestamp) → s.hlc < t.value → Inv s → Inv (after_exchange s i t)
exchange-Inv s i t rise inv =
    let old : (j x : ℕ) → pending (s.calls j) ≡ some x → x ≤ s.hlc =
      λ j x h. All-In s.hlc x s.issued inv.bounded (inv.waiting j x h).0 in
    let now : (x : ℕ) → pending (Phase.exchanged t) ≡ some x → t.value ≡ x = λ x h. cc in
    let calls = put_phase s.calls i (Phase.exchanged t) in
    let move = pending_moved s.calls i (Phase.exchanged t) in
    record {
      calls_ok = moved s t.value i _ inv (omega arith) (omega arith);
      bounded = (omega arith, All-map s.issued (λ y h. omega arith) inv.bounded);
      descending = (All-map s.issued (λ y h. omega arith) inv.bounded, inv.descending);
      alone = λ j k x h h'. elim (move j x h) [
        | inl (e, q) ↦ elim (move k x h') [
          | inl (e', q') ↦ omega arith
          | inr (_, q') ↦ omega (arith, now x q, old k x q')
        ]
        | inr (_, q) ↦ elim (move k x h') [
          | inl (_, q') ↦ omega (arith, now x q', old j x q)
          | inr (_, q') ↦ inv.alone j k x q q'
        ]
      ];
      waiting = λ j x h. elim (move j x h) [
        | inl (_, q) ↦ (
          inl (omega (arith, now x q)),
          λ m.
              omega
                (arith, now x q, All-In s.hlc x s.issued inv.bounded (inv.persisted_issued x m)),
        )
        | inr (_, q) ↦ (inr (inv.waiting j x q).0, (inv.waiting j x q).1)
      ];
      persisted_issued = λ x m. inr (inv.persisted_issued x m);
      once = inv.once;
      row_ok = RowOk-mono s.hlc t.value s.stored s.executed (omega arith) inv.row_ok;
    }

abbrev after_persist : State → ℕ → Timestamp → State
after_persist s i t = record s {
  calls = put_phase s.calls i (Phase.returned t);
  persisted = t.value ∷ s.persisted;
}

persist-Inv :
    (s : State) (i : ℕ) (t : Timestamp)
    → s.calls i ≡ Phase.exchanged t
    → Inv s
    → Inv (after_persist s i t)
persist-Inv s i t at_i inv =
    let mine : pending (s.calls i) ≡ some t.value = cc in
    let other : (j x : ℕ)
        → pending (put_phase s.calls i (Phase.returned t) j) ≡ some x
        → (i ≢ j) × (pending (s.calls j) ≡ some x) =
      λ j x h. elim (pending_moved s.calls i (Phase.returned t) j x h) [
        | inl (_, q) ↦ cc
        | inr q ↦ q
      ] in
    record {
      calls_ok = moved s s.hlc i _ inv (omega arith) (phase_at s i (Phase.exchanged t) inv at_i);
      bounded = inv.bounded;
      descending = inv.descending;
      alone = λ j k x h h'. inv.alone j k x (other j x h).1 (other k x h').1;
      waiting = λ j x h. (
        (inv.waiting j x (other j x h).1).0,
        λ m. elim m [
          | inl e ↦ (other j x h).0 (inv.alone i j x (rw (e) mine) (other j x h).1)
          | inr k ↦ (inv.waiting j x (other j x h).1).1 k
        ],
      );
      persisted_issued = λ x m. elim m [
        | inl e ↦ rw e (inv.waiting i t.value mine).0
        | inr k ↦ inv.persisted_issued x k
      ];
      once = ((inv.waiting i t.value mine).1, inv.once);
      row_ok = inv.row_ok;
    }

-- The row after a statement ran: it did not fall, and still has no more than the clock.
upsert_hlc-RowOk :
    (hlc ts : ℕ) (row : Option ℕ) (executed : List ℕ)
    → ts ≤ hlc
    → RowOk hlc row executed
    → RowOk hlc (some (upsert_hlc ts row)) (ts ∷ executed) × Rises row (some (upsert_hlc ts row))
unfolding upsert_hlc
upsert_hlc-RowOk hlc ts none executed h e = rw e (((omega arith, tt), h), tt)
upsert_hlc-RowOk hlc ts (some r) executed h (below, r_hlc) =
    let up : (r ≤ upsert_hlc ts (some r))
        × (ts ≤ upsert_hlc ts (some r))
        × (upsert_hlc ts (some r) ≤ hlc) =
      ground arith in
    let (r_up, ts_up, up_hlc) = up in
    (((ts_up, All-map executed (λ y l. omega arith) below), up_hlc), r_up)

-- A step of the clock keeps the invariant, and neither the clock nor the row falls.
Step-Inv : {s u : State} → Step s u → Inv s → Inv u × (s.hlc ≤ u.hlc) × Rises s.stored u.stored
Step-Inv {s} (Step.load i f e) inv =
    let p = Phase.looping f s.hlc in
    (
      to_phase-Inv s i p inv (phase_at s i (Phase.entered f) inv e, omega arith) refl,
      omega arith,
      Rises-refl s.stored,
    )
Step-Inv {s} (Step.overflow i f l x e p) inv =
    (to_phase-Inv s i _ inv tt refl, omega arith, Rises-refl s.stored)
Step-Inv {s} (Step.unchanged i f l t e p q) inv =
    let at_l : AdvanceOk f × (l ≤ s.hlc) = phase_at s i _ inv e in
    (
      to_phase-Inv s i (Phase.returned t) inv (omega (arith, at_l.1)) refl,
      omega arith,
      Rises-refl s.stored,
    )
Step-Inv {s} (Step.exchange i f l t e p q c) inv =
    let at_l : AdvanceOk f × (l ≤ s.hlc) = phase_at s i _ inv e in
    let (up, _, _) = propose_above f l t at_l.0 p in
    let rise : s.hlc < t.value = omega arith in
    (exchange-Inv s i t rise inv, omega arith, Rises-refl s.stored)
Step-Inv {s} (Step.retry i f l t e p q) inv =
    let at_l : AdvanceOk f × (l ≤ s.hlc) = phase_at s i _ inv e in
    (
      to_phase-Inv s i (Phase.looping f s.hlc) inv (at_l.0, omega arith) refl,
      omega arith,
      Rises-refl s.stored,
    )
Step-Inv {s} (Step.persist i t e) inv = (persist-Inv s i t e inv, omega arith, Rises-refl s.stored)
Step-Inv {s} (Step.persist_failed i t x e) inv =
    (to_phase-Inv s i _ inv tt refl, omega arith, Rises-refl s.stored)
Step-Inv {s} (Step.execute ts m) inv =
    let below = All-In s.hlc ts s.issued inv.bounded (inv.persisted_issued ts m) in
    let (row_ok, up) = upsert_hlc-RowOk s.hlc ts s.stored s.executed below inv.row_ok in
    (
      record {
        calls_ok = inv.calls_ok;
        bounded = inv.bounded;
        descending = inv.descending;
        alone = inv.alone;
        waiting = inv.waiting;
        persisted_issued = inv.persisted_issued;
        once = inv.once;
        row_ok = row_ok;
      },
      omega arith,
      up,
    )

-- From a state with the invariant Inv, over every interleaving of the atomic accesses of the calls
-- of `update_hlc`, their calls of `persist_hlc`, those that fail included, and the runs of the
-- statements that are in a batch, in any order and any number of times, Inv holds, the clock does not
-- fall, and a row of the hlc table stays and its timestamp does not fall. Inv has: each timestamp
-- that an exchange stored in the clock is above all that were stored before it, and at most the clock,
-- as are the value that a call last read and the timestamp that a finished call returned; a timestamp
-- that is observed fits an i64; a timestamp in a batch was exchanged, and is there once; no two calls
-- wait to persist one timestamp, and one that waits was exchanged and is in no batch; the row is at
-- least every timestamp whose statement ran, and at most the clock. Nothing is claimed of the order
-- in which timestamps reach the batches.
pub Reach-Inv :
    {s u : State} → Reach s u → Inv s → Inv u × (s.hlc ≤ u.hlc) × Rises s.stored u.stored
Reach-Inv {s} Reach.here inv = (inv, omega arith, Rises-refl s.stored)
Reach-Inv {s} {u} (Reach.next {t} r st) inv =
    let (inv', up, rise) = Reach-Inv r inv in
    let (inv'', up', rise') = Step-Inv st inv' in
    (inv'', omega arith, Rises-trans s.stored t.stored u.stored rise rise')
