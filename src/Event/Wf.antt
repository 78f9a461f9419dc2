-- ===== src/Event/Wf.antt =====
-- Well-formed states of the event bus, and that its operations keep them.
use ubiquisync.Prelude.{In, ℕ, ◌≡◌, ◌≢◌, ◌⊎◌, inl, inr, ◌↔◌, refl, sym, ◌∙◌, ap, List, [], ◌∷◌}
use ubiquisync.Prelude.{
  ◌<◌, ◌+◌, ◌^◌, Bool, true, false, Bool-cases, ◌==◌, arith, Option, none, some,
}
use ubiquisync.Prelude.{if◌then◌else◌}
use ubiquisync.Event.{Channels, Subscriber, Subscribers, Inner, Subscription, insert, remove}
use ubiquisync.Event.{or_default, unless_empty, set_entry, retain, publish_found, publish_all}
use ubiquisync.Event.{subscribe, drop, drop_found, subscriber_buffer}
use ubiquisync.Event.Retain.{Apart, insert-In, insert-Apart, remove-In, remove-Apart}
use ubiquisync.Event.Retain.{retain-In, retain-Apart, retain_made}

abbrev pub subs_of : {Tg : Type 0} → Inner Tg → Tg → Subscribers
subs_of b t = or_default (b.targets t)

-- A target in the map has a subscriber. Ids and senders stand once in the whole bus; the ids are
-- below the next one, and the channels exist.
pub record Wf {Ev Tg W : Type 0} (ch : Channels Ev W) (b : Inner Tg) (w : W) : Type 0 where
  pub watched : (t : Tg) → b.targets t ≢ some []
  pub apart : (t : Tg) → Apart (subs_of b t)
  pub below : (t : Tg) (p : Subscriber) → In p (subs_of b t) → p.0 < b.next_id
  pub made : (t : Tg) (p : Subscriber) → In p (subs_of b t) → ch.made w p.1 ≡ true
  pub across :
      (t u : Tg) (p q : Subscriber)
      → In p (subs_of b t)
      → In q (subs_of b u)
      → (p.0 ≡ q.0) ⊎ (p.1 ≡ q.1)
      → t ≡ u

pub or_default-unless_empty : (subs : Subscribers) → or_default (unless_empty subs) ≡ subs
or_default-unless_empty [] = refl
or_default-unless_empty (s ∷ subs) = refl

unless_empty-watched : (subs : Subscribers) → unless_empty subs ≢ some []
unless_empty-watched [] h = cc
unless_empty-watched (s ∷ subs) h = cc

if-cons :
    (c : Bool) (q r : Subscriber) (subs rest : Subscribers)
    → some (if c then q ∷ subs else r ∷ rest) ≢ some []
if-cons true q r subs rest h = cc
if-cons false q r subs rest h = cc

insert-watched : (id tx : ℕ) (subs : Subscribers) → some (insert id tx subs) ≢ some []
unfolding insert
insert-watched id tx [] h = cc
insert-watched id tx ((i, x) ∷ subs) h = if-cons (i == id) _ _ _ _ h

flip : {p q : Subscriber} → (p.0 ≡ q.0) ⊎ (p.1 ≡ q.1) → (q.0 ≡ p.0) ⊎ (q.1 ≡ p.1)
flip (inl h) = inl (sym h)
flip (inr h) = inr (sym h)

not_fresh :
    {p q : Subscriber} {id tx : ℕ}
    → (q.0 ≢ id) × (q.1 ≢ tx)
    → p ≡ (id, tx)
    → ¬ ((p.0 ≡ q.0) ⊎ (p.1 ≡ q.1))
not_fresh n f (inl h) = n.0 (sym h ∙ ap (λ s. s.0) f)
not_fresh n f (inr h) = n.1 (sym h ∙ ap (λ s. s.1) f)

module _ {Tg : Type 0} (same : Tg → Tg → Bool)
    (same_iff : (t u : Tg) → (same t u ≡ true) ↔ (t ≡ u)) where
  -- The entry of a map that was updated at a target.
  pub set_entry-elim {ℓ} :
      (m : Tg → Option Subscribers) (t : Tg) (o : Option Subscribers) (u : Tg) {P : Type ℓ}
      → (t ≡ u → set_entry same m t o u ≡ o → P)
      → (t ≢ u → set_entry same m t o u ≡ m u → P)
      → P
  set_entry-elim m t o u here there = elim (Bool-cases (same t u)) [
    | inl e ↦ here ((same_iff t u).0 e) (rw e refl)
    | inr e ↦ there (λ h. let s = (same_iff t u).1 h in cc) (rw e refl)
  ]

  -- An entry is made smaller, and removed when it is empty.
  pub shrink-Wf :
      {Ev W : Type 0} (ch : Channels Ev W) (b : Inner Tg) (w w' : W) (t : Tg) (subs : Subscribers)
      → Wf ch b w
      → ((x : ℕ) → ch.made w' x ≡ ch.made w x)
      → Apart subs
      → ((p : Subscriber) → In p subs → In p (subs_of b t))
      → Wf ch (record b { targets = set_entry same b.targets t (unless_empty subs) }) w'
  shrink-Wf ch b w w' t subs v made' a less =
      let m = set_entry same b.targets t (unless_empty subs) in
      let fewer : (u : Tg) (p : Subscriber) → In p (or_default (m u)) → In p (subs_of b u) = (λ u p.
        set_entry-elim b.targets t (unless_empty subs) u
          (λ e s. rw (s, or_default-unless_empty subs, ← e) (less p)) (λ n s. rw s (λ h. h))) in
      record {
        watched = λ u.
            set_entry-elim b.targets t (unless_empty subs) u
              (λ e s. rw s (unless_empty-watched subs)) (λ n s. rw s (v.watched u));
        apart = λ u.
            set_entry-elim b.targets t (unless_empty subs) u
              (λ e s. rw (s, or_default-unless_empty subs) a) (λ n s. rw s (v.apart u));
        below = λ u p h. v.below u p (fewer u p h);
        made = λ u p h. made' p.1 ∙ v.made u p (fewer u p h);
        across = λ u u' p q hp hq. v.across u u' p q (fewer u p hp) (fewer u' q hq);
      }

  module _ {Ev W : Type 0} (ch : Channels Ev W) where
    pub publish_found-Wf :
        (e : Ev) (t : Tg) (b : Inner Tg) (w : W) (o : Option Subscribers)
        → b.targets t ≡ o
        → Wf ch b w
        → Wf ch (publish_found ch same e t o (b, w)).0 (publish_found ch same e t o (b, w)).1
    unfolding publish_found
    publish_found-Wf e t b w none h v = v
    publish_found-Wf e t b w (some subs) h v =
        let a : Apart subs = rw (← ap or_default h) (v.apart t) in
        shrink-Wf ch b w (retain ch e subs w).1 t (retain ch e subs w).0 v (retain_made ch e subs w)
          (retain-Apart ch e subs w a) (λ p k. rw h ((retain-In ch e subs w a p).0 k).0)

    pub publish_all-Wf :
        (e : Ev) (ts : List Tg) (b : Inner Tg) (w : W)
        → Wf ch b w
        → Wf ch (publish_all ch same e ts (b, w)).0 (publish_all ch same e ts (b, w)).1
    unfolding publish_all
    publish_all-Wf e [] b w v = v
    publish_all-Wf e (t ∷ ts) b w v =
        let s = publish_found ch same e t (b.targets t) (b, w) in
        publish_all-Wf e ts s.0 s.1 (publish_found-Wf e t b w (b.targets t) refl v)

    drop_found-Wf :
        (sub : Subscription Tg) (b : Inner Tg) (w : W) (o : Option Subscribers)
        → b.targets sub.target ≡ o
        → Wf ch b w
        → Wf ch (drop_found ch same sub o b) (ch.close sub.rx w)
    drop_found-Wf sub b w none h v = record {
      watched = v.watched;
      apart = v.apart;
      below = v.below;
      made = λ t p k. ch.close_made sub.rx p.1 w ∙ v.made t p k;
      across = v.across;
    }
    drop_found-Wf sub b w (some subs) h v =
        shrink-Wf ch b w (ch.close sub.rx w) sub.target (remove sub.id subs) v
          (λ x. ch.close_made sub.rx x w)
          (remove-Apart sub.id subs (rw (← ap or_default h) (v.apart sub.target)))
          (λ p k. rw h ((remove-In sub.id subs p).0 k).0)

    pub drop-Wf :
        (sub : Subscription Tg) (b : Inner Tg) (w : W)
        → Wf ch b w
        → Wf ch (drop ch same sub (b, w)).0 (drop ch same sub (b, w)).1
    unfolding drop
    drop-Wf sub b w v = drop_found-Wf sub b w (b.targets sub.target) refl v

    -- A subscription gets an id and a channel that no other has.
    pub fresh :
        (n : ℕ) (b : Inner Tg) (w : W)
        → Wf ch b w
        → (u : Tg) (q : Subscriber) → In q (subs_of b u)
        → (q.0 ≢ b.next_id) × (q.1 ≢ (ch.channel n w).0)
    fresh n b w v u q k = (
      λ h. let lt = v.below u q k in omega arith,
      λ h.
          let old : ch.made w (ch.channel n w).0 ≡ true = ap (ch.made w) (sym h) ∙ v.made u q k in
          let new = ch.channel_new n w in cc,
    )

    -- The subscribers after an insertion.
    pub added :
        (m : Tg → Option Subscribers) (t : Tg) (id tx : ℕ)
        → ((q : Subscriber) → In q (or_default (m t)) → q.0 ≢ id)
        → (u : Tg) (p : Subscriber)
        → In p (or_default (set_entry same m t (some (insert id tx (or_default (m t)))) u))
        → ((t ≡ u) × (p ≡ (id, tx))) ⊎ In p (or_default (m u))
    added m t id tx new u p =
        set_entry-elim m t (some (insert id tx (or_default (m t)))) u
          (λ e s.
            rw (s, ← e)
              (λ h. elim ((insert-In id tx (or_default (m t)) new p).0 h) [
                | inl f ↦ inl (refl, f)
                | inr k ↦ inr k
              ]))
          (λ n s. rw s (λ h. inr h))

    pub subscribe-Wf :
        (t : Tg) (b : Inner Tg) (w : W)
        → b.next_id + 1 < 2 ^ 64
        → Wf ch b w
        → Wf ch (subscribe ch same t (b, w)).1 (subscribe ch same t (b, w)).2
    unfolding subscribe
    subscribe-Wf t b w lt v =
        let tx = (ch.channel subscriber_buffer w).0 in
        let subs = insert b.next_id tx (subs_of b t) in
        let new = fresh subscriber_buffer b w v in
        let old = added b.targets t b.next_id tx (λ q k. (new t q k).0) in
        record {
          watched = λ u.
              set_entry-elim b.targets t (some subs) u
                (λ e s. rw s (insert-watched b.next_id tx (subs_of b t)))
                (λ n s. rw s (v.watched u));
          apart = λ u.
              set_entry-elim b.targets t (some subs) u
                (λ e s. rw s (insert-Apart b.next_id tx (subs_of b t) (new t) (v.apart t)))
                (λ n s. rw s (v.apart u));
          below = λ u p h. elim (old u p h) [
            | inl f ↦ rw f.1 (omega arith)
            | inr k ↦ let below = v.below u p k in omega arith
          ];
          made = λ u p h. elim (old u p h) [
            | inl f ↦ rw f.1 (ch.channel_made subscriber_buffer w)
            | inr k ↦ ch.channel_keeps subscriber_buffer w p.1 (v.made u p k)
          ];
          across = λ u u' p q hp hq eq. elim (old u p hp) [
            | inl f ↦ elim (old u' q hq) [
              | inl g ↦ sym f.0 ∙ g.0
              | inr k ↦ absurd (not_fresh (new u' q k) f.1 eq)
            ]
            | inr j ↦ elim (old u' q hq) [
              | inl g ↦ absurd (not_fresh (new u p j) g.1 (flip eq))
              | inr k ↦ v.across u u' p q j k eq
            ]
          ];
        }
