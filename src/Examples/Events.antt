-- ===== src/Examples/Events.antt =====
-- Concrete calls of the event bus.
use ubiquisync.Prelude.{ℕ, ◌≡◌, ◌≢◌, refl, List, [], ◌∷◌, ◌++◌, length, ◌+◌, arith}
use ubiquisync.Prelude.{Bool, true, false, ◌==◌, ==_iff, ==_refl, Bool-cases, ltb, ◌&&◌, inl, inr}
use ubiquisync.Prelude.{if◌then◌else◌, Option, none, some}
use ubiquisync.Event.{Channels, Inner, event_bus, insert, remove, retain}
use ubiquisync.Event.{publish, publish_all, publish_found, subscribe, drop, subscriber_buffer}
use ubiquisync.Event.Wf.{Wf}
use ubiquisync.Event.Deliver.{Delivers, Distinct, publish-Delivers}
use ubiquisync.Event.History.{Call, subscribes, publishes, drops, polls, step, run, run-Wf}
use ubiquisync.Event.History.{drop-subscribe}

-- Channels of numbers, that have room for 257 of them.
abbrev pub Chans : Type 0
Chans = ℕ × (ℕ → Bool) × (ℕ → List ℕ)

abbrev set {ℓ} : {A : Type ℓ} → (ℕ → A) → ℕ → A → ℕ → A
set f x a y = if x == y then a else f y

abbrev has_room : Chans → ℕ → Bool
has_room w x = w.1 x && ltb (length (w.2 x)) (subscriber_buffer + 1)

abbrev sent : Bool → ℕ → ℕ → Chans → Bool × Chans
sent true x e w = (true, (w.0, w.1, set w.2 x (w.2 x ++ (e ∷ []))))
sent false x e w = (false, w)

abbrev polled : List ℕ → ℕ → Chans → Option ℕ × Chans
polled [] x w = (none, w)
polled (e ∷ es) x w = (some e, (w.0, w.1, set w.2 x es))

set-same {ℓ} : {A : Type ℓ} (f : ℕ → A) (x : ℕ) (a : A) → set f x a x ≡ a
set-same f x a = rw (==_refl x) refl

set-other {ℓ} : {A : Type ℓ} (f : ℕ → A) (x : ℕ) (a : A) (y : ℕ) → x ≢ y → set f x a y ≡ f y
set-other f x a y n = elim (Bool-cases (x == y)) [
  | inl e ↦ absurd (n ((==_iff x y).0 e))
  | inr e ↦ rw e refl
]

sent-0 : (b : Bool) (x e : ℕ) (w : Chans) → (sent b x e w).0 ≡ b
sent-0 true x e w = refl
sent-0 false x e w = refl

sent-open : (b : Bool) (x e : ℕ) (w : Chans) → (sent b x e w).1.1 ≡ w.1
sent-open true x e w = refl
sent-open false x e w = refl

sent-count : (b : Bool) (x e : ℕ) (w : Chans) → (sent b x e w).1.0 ≡ w.0
sent-count true x e w = refl
sent-count false x e w = refl

sent-other : (b : Bool) (x e : ℕ) (w : Chans) (y : ℕ) → x ≢ y → (sent b x e w).1.2 y ≡ w.2 y
sent-other true x e w y n = set-other w.2 x (w.2 x ++ (e ∷ [])) y n
sent-other false x e w y n = refl

polled-count : (q : List ℕ) (x : ℕ) (w : Chans) → (polled q x w).1.0 ≡ w.0
polled-count [] x w = refl
polled-count (e ∷ es) x w = refl

abbrev chans : Channels ℕ Chans
chans = record {
  channel = λ n w. (w.0, (w.0 + 1, set w.1 w.0 true, set w.2 w.0 []));
  try_send = λ x e w. sent (has_room w x) x e w;
  poll_next = λ x w. polled (w.2 x) x w;
  close = λ x w. (w.0, set w.1 x false, w.2);
  made = λ w x. ltb x w.0;
  room = has_room;
  queue = λ w. w.2;
  channel_new = λ n w. ground arith;
  channel_made = λ n w. ground arith;
  channel_keeps = λ n w x h. ground arith;
  try_send_room = λ x e w. sent-0 (has_room w x) x e w;
  try_send_queue = λ x e w h. rw h (set-same w.2 x (w.2 x ++ (e ∷ [])));
  try_send_refused = λ x e w h. rw h refl;
  try_send_room_other =
      λ x y e w n. rw (sent-open (has_room w x) x e w, sent-other (has_room w x) x e w y n) refl;
  try_send_other = λ x y e w n. sent-other (has_room w x) x e w y n;
  try_send_made = λ x y e w. rw (sent-count (has_room w x) x e w) refl;
  poll_next_made = λ x y w. rw (polled-count (w.2 x) x w) refl;
  close_made = λ x y w. refl;
}

-- An event is for the targets of its number and of the next.
abbrev next_two : ℕ → List ℕ
next_two e = e ∷ (e + 1) ∷ []

abbrev no_chans : Chans
no_chans = (0, (λ x. false), λ x. [])

abbrev some_calls : List (Call ℕ ℕ)
some_calls =
    subscribes 7
    ∷ subscribes 8
    ∷ subscribes 8
    ∷ publishes 7
    ∷ polls 0
    ∷ drops (record { target = 8; id = 1; rx = 1 })
    ∷ []

abbrev bus_after : Inner ℕ × Chans
unfolding run step subscribe publish publish_all publish_found retain drop insert remove
bus_after = run chans ◌==◌ next_two some_calls (event_bus, no_chans)

test_run :
    (bus_after.0.targets 8 ≡ some ((2, 2) ∷ []))
    × (bus_after.1.2 0 ≡ [])
    × (bus_after.1.2 2 ≡ 7 ∷ [])
unfolding bus_after run step subscribe publish publish_all publish_found retain drop insert remove
test_run = (refl, refl, refl)

bus_after-Wf : Wf chans bus_after.0 bus_after.1
unfolding bus_after run
bus_after-Wf = run-Wf chans ◌==◌ ==_iff next_two some_calls no_chans (omega arith)

run-Wf_example : Wf chans bus_after.0 bus_after.1
unfolding bus_after run
run-Wf_example = run-Wf chans ◌==◌ ==_iff next_two some_calls no_chans (omega arith)

two_targets : Distinct {A = ℕ} (8 ∷ 9 ∷ [])
two_targets = ground arith

publish-Delivers_example :
    Delivers chans 8
      (8 ∷ 9 ∷ [])
      bus_after.0
      bus_after.1
      (publish chans ◌==◌ next_two 8 (bus_after.0, bus_after.1)).0
      (publish chans ◌==◌ next_two 8 (bus_after.0, bus_after.1)).1
unfolding publish
publish-Delivers_example =
    publish-Delivers chans ◌==◌ 8 ==_iff next_two bus_after.0 bus_after.1 two_targets bus_after-Wf

drop-subscribe_example :
    (drop chans ◌==◌ (subscribe chans ◌==◌ 8 (bus_after.0, bus_after.1)).0 (
      (subscribe chans ◌==◌ 8 (bus_after.0, bus_after.1)).1,
      (subscribe chans ◌==◌ 8 (bus_after.0, bus_after.1)).2,
    )).0.targets
      8
    ≡ bus_after.0.targets 8
drop-subscribe_example = drop-subscribe chans ◌==◌ ==_iff 8 bus_after.0 bus_after.1 bus_after-Wf 8
