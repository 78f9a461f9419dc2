-- ===== src/Event.antt =====
-- crates/ubiquisync-core/src/event.rs: the event bus, which hands events to the subscribers of their
-- targets. The channels are a library's; a call of one takes the state `W` of all channels and
-- returns it. The mutex makes each operation one step.
pub mod Retain
pub mod Deliver
pub mod Wf
pub mod History
use ubiquisync.Prelude.{ℕ, ◌≡◌, ◌≢◌, ◌+◌, ◌%◌, ◌^◌, List, [], ◌∷◌, ◌++◌, Bool, true, false, ◌==◌}
use ubiquisync.Prelude.{Option, none, some, if◌then◌else◌}

-- `futures_channel::mpsc`, by the handles of channels: `try_send` succeeds if the channel has room,
-- and then appends to its queue. Each channel has one sender, and no call touches another channel.
pub record Channels (Ev W : Type 0) : Type 0 where
  pub channel : ℕ → W → ℕ × W
  pub try_send : ℕ → Ev → W → Bool × W
  pub poll_next : ℕ → W → Option Ev × W
  pub close : ℕ → W → W
  pub made : W → ℕ → Bool
  pub room : W → ℕ → Bool
  pub queue : W → ℕ → List Ev
  pub channel_new : (n : ℕ) (w : W) → made w (channel n w).0 ≡ false
  pub channel_made : (n : ℕ) (w : W) → made (channel n w).1 (channel n w).0 ≡ true
  pub channel_keeps : (n : ℕ) (w : W) (x : ℕ) → made w x ≡ true → made (channel n w).1 x ≡ true
  pub try_send_room : (x : ℕ) (e : Ev) (w : W) → (try_send x e w).0 ≡ room w x
  pub try_send_queue :
      (x : ℕ) (e : Ev) (w : W)
      → room w x ≡ true
      → queue (try_send x e w).1 x ≡ queue w x ++ (e ∷ [])
  pub try_send_refused :
      (x : ℕ) (e : Ev) (w : W) → room w x ≡ false → queue (try_send x e w).1 x ≡ queue w x
  pub try_send_room_other :
      (x y : ℕ) (e : Ev) (w : W) → x ≢ y → room (try_send x e w).1 y ≡ room w y
  pub try_send_other : (x y : ℕ) (e : Ev) (w : W) → x ≢ y → queue (try_send x e w).1 y ≡ queue w y
  pub try_send_made : (x y : ℕ) (e : Ev) (w : W) → made (try_send x e w).1 y ≡ made w y
  pub poll_next_made : (x y : ℕ) (w : W) → made (poll_next x w).1 y ≡ made w y
  pub close_made : (x y : ℕ) (w : W) → made (close x w) y ≡ made w y

abbrev pub subscriber_buffer : ℕ
subscriber_buffer = 256

-- A subscription id and the sender of its channel.
abbrev pub Subscriber : Type 0
Subscriber = ℕ × ℕ

abbrev pub Subscribers : Type 0
Subscribers = List Subscriber

pub record Inner (Tg : Type 0) : Type 0 where
  pub targets : Tg → Option Subscribers
  pub next_id : ℕ

pub record Subscription (Tg : Type 0) : Type 0 where
  pub target : Tg
  pub id : ℕ
  pub rx : ℕ

-- `event_bus`: no target is watched.
abbrev pub event_bus : {Tg : Type 0} → Inner Tg
event_bus = record { targets = λ t. none; next_id = 0 }

-- `HashMap::insert` and `HashMap::remove` on the subscribers of a target.
unfoldable pub insert : ℕ → ℕ → Subscribers → Subscribers
insert id tx [] = (id, tx) ∷ []
insert id tx ((i, x) ∷ subs) =
    let rest = insert id tx subs in if i == id then (id, tx) ∷ subs else (i, x) ∷ rest

unfoldable pub remove : ℕ → Subscribers → Subscribers
remove id [] = []
remove id ((i, x) ∷ subs) = let rest = remove id subs in if i == id then rest else (i, x) ∷ rest

abbrev pub or_default : Option Subscribers → Subscribers
or_default none = []
or_default (some subs) = subs

-- An entry is removed when its last subscriber is gone.
abbrev pub unless_empty : Subscribers → Option Subscribers
unless_empty [] = none
unless_empty (s ∷ subs) = some (s ∷ subs)

abbrev pub retained : {W : Type 0} → Subscriber → Bool → Subscribers × W → Subscribers × W
retained s true (subs, w) = (s ∷ subs, w)
retained s false (subs, w) = (subs, w)

-- `retain` of the subscribers that the event can be sent to.
unfoldable pub retain : {Ev W : Type 0} → Channels Ev W → Ev → Subscribers → W → Subscribers × W
retain ch e [] w = ([], w)
retain ch e ((id, tx) ∷ subs) w =
    retained (id, tx) (ch.try_send tx e w).0 (retain ch e subs (ch.try_send tx e w).1)

-- `same` is the equality of targets. The map with another entry at a target.
abbrev pub set_entry :
    {Tg : Type 0}
    → (Tg → Tg → Bool)
    → (Tg → Option Subscribers)
    → Tg
    → Option Subscribers
    → Tg
    → Option Subscribers
set_entry same m t o u = if same t u then o else m u

-- `targets_of` is `RoutableEvent::targets`.
module _ {Ev Tg W : Type 0} (ch : Channels Ev W) (same : Tg → Tg → Bool) where
  unfoldable pub publish_found : Ev → Tg → Option Subscribers → Inner Tg × W → Inner Tg × W
  unfolding retain
  publish_found e t none (b, w) = (b, w)
  publish_found e t (some subs) (b, w) = (
    record b { targets = set_entry same b.targets t (unless_empty (retain ch e subs w).0) },
    (retain ch e subs w).1,
  )

  unfoldable pub publish_all : Ev → List Tg → Inner Tg × W → Inner Tg × W
  unfolding publish_found
  publish_all e [] s = s
  publish_all e (t ∷ ts) s = publish_all e ts (publish_found e t (s.0.targets t) s)

  unfoldable pub publish : (Ev → List Tg) → Ev → Inner Tg × W → Inner Tg × W
  unfolding publish_all
  publish targets_of e s = publish_all e (targets_of e) s

  unfoldable pub subscribe : Tg → Inner Tg × W → Subscription Tg × Inner Tg × W
  unfolding insert
  subscribe t (b, w) =
      let c = ch.channel subscriber_buffer w in
      (
        record { target = t; id = b.next_id; rx = c.0 },
        record {
          targets =
              set_entry same b.targets t (some (insert b.next_id c.0 (or_default (b.targets t))));
          next_id = (b.next_id + 1) % 2 ^ 64;
        },
        c.1,
      )

  abbrev pub drop_found : Subscription Tg → Option Subscribers → Inner Tg → Inner Tg
  drop_found sub none b = b
  drop_found sub (some subs) b = record b {
    targets = set_entry same b.targets sub.target (unless_empty (remove sub.id subs));
  }

  -- Dropping a subscription drops its receiver last.
  unfoldable pub drop : Subscription Tg → Inner Tg × W → Inner Tg × W
  unfolding remove
  drop sub (b, w) = (drop_found sub (b.targets sub.target) b, ch.close sub.rx w)
