-- ===== src/Examples/Clock.antt =====
-- Two calls that store their timestamps in the clock in one order and persist them in the other.
use ubiquisync.Prelude.{ℕ, ◌^◌, ◌*◌, ◌+◌, ◌≡◌, ◌≤◌, refl, arith, inl, inr, some, [], ◌∷◌, ok}
use ubiquisync.Hlc.{
  Timestamp, WallTime, next_local, bump, from_parts, from_millis_and_counter, try_from_u64,
}
use ubiquisync.Replica.Clock.{
  Advance, advance, propose, Phase, State, put_phase, upsert_hlc, Step, Reach,
}
use ubiquisync.Replica.Clock.Invariant.{Inv, Rises}
use ubiquisync.Replica.Clock.Issue.{Reach-Inv}
use ubiquisync.Replica.Clock.Open.{load_hlc, opened, opened-Inv}

abbrev at_three : WallTime
at_three = record { millis = 3 }

abbrev event : Advance
event = Advance.local at_three

abbrev first : Timestamp
first = record { value = 3 * 2 ^ 16 }

abbrev second : Timestamp
second = record { value = 3 * 2 ^ 16 + 1 }

first_proposed : propose event 9 ≡ ok first
unfolding propose advance next_local from_parts from_millis_and_counter try_from_u64
first_proposed = refl

second_proposed : propose event (3 * 2 ^ 16) ≡ ok second
unfolding propose advance next_local from_parts from_millis_and_counter try_from_u64 bump
second_proposed = refl

-- The row has 9, the replica opened on it, and every call is about to start.
abbrev before : State
before = opened (record { value = 9 }) (some 9) (λ i. event)

before-Inv : Inv before
unfolding load_hlc
before-Inv = opened-Inv (some 9) (record { value = 9 }) (λ i. event) refl (λ i. tt)

abbrev calls : ℕ → Phase
calls =
    put_phase
      (put_phase
        (put_phase
          (put_phase
            (put_phase (put_phase before.calls 0 (Phase.looping event 9)) 0 (Phase.exchanged first))
            1 (Phase.looping event first.value))
          1 (Phase.exchanged second))
        1 (Phase.returned second))
      0 (Phase.returned first)

-- Call 1 loads after call 0 has exchanged, and persists first; both statements run in that order,
-- and the row has the greater timestamp.
abbrev after : State
after = record {
  hlc = second.value;
  calls = calls;
  stored = some second.value;
  issued = second.value ∷ first.value ∷ [];
  persisted = first.value ∷ second.value ∷ [];
  executed = first.value ∷ second.value ∷ [];
}

after_reached : Reach before after
unfolding upsert_hlc
after_reached =
    let start : Reach before before = Reach.here in
    let loaded = Reach.next start (Step.load 0 event refl) in
    let exchanged =
      Reach.next loaded
        (Step.exchange 0 event 9 first refl first_proposed (λ h. omega arith) refl) in
    let loaded' = Reach.next exchanged (Step.load 1 event refl) in
    let exchanged' =
      Reach.next loaded'
        (Step.exchange 1 event first.value second refl second_proposed (λ h. omega arith) refl) in
    let persisted' = Reach.next exchanged' (Step.persist 1 second refl) in
    let persisted = Reach.next persisted' (Step.persist 0 first refl) in
    let executed = Reach.next persisted (Step.execute second.value (inr (inl refl))) in
    Reach.next executed (Step.execute first.value (inl refl))

Reach-Inv_example : Inv after × (before.hlc ≤ after.hlc) × Rises before.stored after.stored
Reach-Inv_example = Reach-Inv after_reached before-Inv
