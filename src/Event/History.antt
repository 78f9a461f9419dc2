-- ===== src/Event/History.antt =====
-- The event bus over any history of calls, and what a subscription leaves behind.
use ubiquisync.Prelude.{In, ℕ, ◌≡◌, ◌≢◌, ◌↔◌, ◌≤◌, ◌<◌, ◌+◌, ◌^◌, refl, ◌∙◌, ap, List, [], ◌∷◌}
use ubiquisync.Prelude.{Bool, true, ◌==◌, ==_iff, ==_refl, Bool-cases, arith, length}
use ubiquisync.Prelude.{inl, inr, Option, none, some}
use ubiquisync.Event.{Channels, Subscriber, Subscribers, Inner, Subscription, event_bus, or_default}
use ubiquisync.Event.{unless_empty, set_entry, insert, remove, publish_found, publish_all, publish}
use ubiquisync.Event.{subscribe, drop, drop_found, subscriber_buffer}
use ubiquisync.Event.Wf.{Wf, subs_of, fresh, publish_all-Wf, drop-Wf, subscribe-Wf, set_entry-elim}

-- The calls of publishers and subscribers; `polls` is a subscriber that takes an event from a channel.
pub data Call (Ev Tg : Type 0) : Type 0 where
  subscribes : Tg → Call Ev Tg
  publishes : Ev → Call Ev Tg
  drops : Subscription Tg → Call Ev Tg
  polls : ℕ → Call Ev Tg

event_bus-Wf : {Ev Tg W : Type 0} (ch : Channels Ev W) (w : W) → Wf ch (event_bus {Tg = Tg}) w
event_bus-Wf ch w = record {
  watched = λ t h. cc;
  apart = λ t. tt;
  below = λ t p h. absurd h;
  made = λ t p h. absurd h;
  across = λ t u p q h k eq. absurd h;
}

module _ {Ev Tg W : Type 0} (ch : Channels Ev W) (same : Tg → Tg → Bool)
    (targets_of : Ev → List Tg) where
  unfoldable pub step : Call Ev Tg → Inner Tg × W → Inner Tg × W
  unfolding subscribe publish drop
  step (subscribes t) s = ((subscribe ch same t s).1, (subscribe ch same t s).2)
  step (publishes e) s = publish ch same targets_of e s
  step (drops sub) s = drop ch same sub s
  step (polls x) s = (s.0, (ch.poll_next x s.1).1)

  unfoldable pub run : List (Call Ev Tg) → Inner Tg × W → Inner Tg × W
  unfolding step
  run [] s = s
  run (c ∷ calls) s = run calls (step c s)

module _ {Ev Tg W : Type 0} (ch : Channels Ev W) (same : Tg → Tg → Bool)
    (same_iff : (t u : Tg) → (same t u ≡ true) ↔ (t ≡ u)) (targets_of : Ev → List Tg) where
  publish_found-next_id :
      (e : Ev) (t : Tg) (o : Option Subscribers) (b : Inner Tg) (w : W)
      → (publish_found ch same e t o (b, w)).0.next_id ≡ b.next_id
  unfolding publish_found
  publish_found-next_id e t none b w = refl
  publish_found-next_id e t (some subs) b w = refl

  publish_all-next_id :
      (e : Ev) (ts : List Tg) (b : Inner Tg) (w : W)
      → (publish_all ch same e ts (b, w)).0.next_id ≡ b.next_id
  unfolding publish_all
  publish_all-next_id e [] b w = refl
  publish_all-next_id e (t ∷ ts) b w =
      let s = publish_found ch same e t (b.targets t) (b, w) in
      publish_all-next_id e ts s.0 s.1 ∙ publish_found-next_id e t (b.targets t) b w

  drop_found-next_id :
      (sub : Subscription Tg) (o : Option Subscribers) (b : Inner Tg)
      → (drop_found ch same sub o b).next_id ≡ b.next_id
  drop_found-next_id sub none b = refl
  drop_found-next_id sub (some subs) b = refl

  -- A call uses up at most one id.
  step-next_id :
      (c : Call Ev Tg) (b : Inner Tg) (w : W)
      → (step ch same targets_of c (b, w)).0.next_id ≤ b.next_id + 1
  unfolding step
  step-next_id (subscribes t) b w = ground arith
  step-next_id (publishes e) b w = omega (arith, publish_all-next_id e (targets_of e) b w)
  step-next_id (drops sub) b w = omega (arith, drop_found-next_id sub (b.targets sub.target) b)
  step-next_id (polls x) b w = omega arith

  step-Wf :
      (c : Call Ev Tg) (b : Inner Tg) (w : W)
      → b.next_id + 1 < 2 ^ 64
      → Wf ch b w
      → Wf ch (step ch same targets_of c (b, w)).0 (step ch same targets_of c (b, w)).1
  unfolding step
  step-Wf (subscribes t) b w lt v = subscribe-Wf same same_iff ch t b w lt v
  step-Wf (publishes e) b w lt v = publish_all-Wf same same_iff ch e (targets_of e) b w v
  step-Wf (drops sub) b w lt v = drop-Wf same same_iff ch sub b w v
  step-Wf (polls x) b w lt v = record {
    watched = v.watched;
    apart = v.apart;
    below = v.below;
    made = λ t p k. ch.poll_next_made x p.1 w ∙ v.made t p k;
    across = v.across;
  }

  run_from-Wf :
      (calls : List (Call Ev Tg)) (b : Inner Tg) (w : W)
      → b.next_id + length calls < 2 ^ 64
      → Wf ch b w
      → Wf ch (run ch same targets_of calls (b, w)).0 (run ch same targets_of calls (b, w)).1
  unfolding run
  run_from-Wf [] b w lt v = v
  run_from-Wf (c ∷ calls) b w lt v =
      let s = step ch same targets_of c (b, w) in
      let up = step-next_id c b w in
      run_from-Wf calls s.0 s.1 (omega arith) (step-Wf c b w (omega arith) v)

  -- After any sequence of fewer than 2 ^ 64 calls on a new bus, no target in its map is without
  -- subscribers, ids and senders stand once in the whole bus, the ids are below the next one, and
  -- each sender is that of a channel that was made.
  pub run-Wf :
      (calls : List (Call Ev Tg)) (w : W)
      → length calls < 2 ^ 64
      → Wf ch
          (run ch same targets_of calls (event_bus, w)).0
          (run ch same targets_of calls (event_bus, w)).1
  run-Wf calls w lt = run_from-Wf calls event_bus w (omega arith) (event_bus-Wf ch w)

-- An id that was inserted is removed again.
remove-insert :
    (id tx : ℕ) (subs : Subscribers)
    → ((q : Subscriber) → In q subs → q.0 ≢ id)
    → remove id (insert id tx subs) ≡ subs
unfolding remove insert
remove-insert id tx [] new = rw (==_refl id) refl
remove-insert id tx ((i, x) ∷ subs) new = elim (Bool-cases (i == id)) [
  | inl e ↦ absurd (new (i, x) (inl refl) ((==_iff i id).0 e))
  | inr e ↦ rw (e, e, remove-insert id tx subs (λ q k. new q (inr k))) refl
]

unless_empty-or_default : (o : Option Subscribers) → o ≢ some [] → unless_empty (or_default o) ≡ o
unless_empty-or_default none n = refl
unless_empty-or_default (some []) n = absurd (n refl)
unless_empty-or_default (some (s ∷ subs)) n = refl

drop_found-some :
    {Ev Tg W : Type 0} (ch : Channels Ev W) (same : Tg → Tg → Bool) (sub : Subscription Tg)
    (subs : Subscribers) (o : Option Subscribers) (b : Inner Tg)
    → o ≡ some subs
    → (drop_found ch same sub o b).targets
      ≡ set_entry same b.targets sub.target (unless_empty (remove sub.id subs))
drop_found-some ch same sub subs o b h = rw h refl

-- On a bus that is well formed, subscribing to a target and then dropping the subscription leaves
-- the entry of every target as it was.
pub drop-subscribe :
    {Ev Tg W : Type 0} (ch : Channels Ev W) (same : Tg → Tg → Bool)
    (same_iff : (t u : Tg) → (same t u ≡ true) ↔ (t ≡ u)) (t : Tg) (b : Inner Tg) (w : W)
    → Wf ch b w
    → (u : Tg)
    → (drop ch same
          (subscribe ch same t (b, w)).0
          ((subscribe ch same t (b, w)).1, (subscribe ch same t (b, w)).2)).0.targets
        u
      ≡ b.targets u
unfolding drop subscribe
drop-subscribe ch same same_iff t b w v u =
    let id = b.next_id in
    let tx = (ch.channel subscriber_buffer w).0 in
    let subs = insert id tx (subs_of b t) in
    let m = set_entry same b.targets t (some subs) in
    let found : m t ≡ some subs = rw ((same_iff t t).1 refl) refl in
    let back : unless_empty (remove id subs) ≡ b.targets t =
      rw
        (remove-insert id tx (subs_of b t)
          (λ q k. (fresh same same_iff ch subscriber_buffer b w v t q k).0))
        (unless_empty-or_default (b.targets t) (v.watched t)) in
    rw
      (drop_found-some ch same (subscribe ch same t (b, w)).0 subs (m t)
        (subscribe ch same t (b, w)).1 found)
      (set_entry-elim same same_iff m t (unless_empty (remove id subs)) u
        (λ e s. s ∙ back ∙ ap b.targets e)
        (λ n s.
          s
          ∙ set_entry-elim same same_iff b.targets t (some subs) u (λ e s'. absurd (n e))
              (λ n' s'. s')))
