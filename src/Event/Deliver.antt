-- ===== src/Event/Deliver.antt =====
-- Who gets an event that is published, and what the bus is afterwards.
use ubiquisync.Prelude.{In, ℕ, ◌≡◌, ◌≢◌, inl, inr, ◌↔◌, refl, sym, ◌∙◌, ap, List, [], ◌∷◌, ◌++◌}
use ubiquisync.Prelude.{Bool, true, Option, none, some, if◌then◌else◌}
use ubiquisync.Event.{Channels, Subscriber, Subscribers, Inner, or_default, unless_empty}
use ubiquisync.Event.{retain, publish_found, publish_all, publish}
use ubiquisync.Event.Retain.{Apart, retain-In, retain_queue, retain_other}
use ubiquisync.Event.Wf.{Wf, subs_of, set_entry-elim, or_default-unless_empty, publish_found-Wf}

abbrev pub Distinct : {A : Type 0} → List A → Type 0
Distinct [] = Unit {0}
Distinct (x ∷ xs) = (¬ In x xs) × Distinct xs

-- The subscribers of the targets `ts` get `e` at the end of their queues if their channels have
-- room, and leave the bus otherwise; no other subscriber and no other channel is touched.
pub record Delivers {Ev Tg W : Type 0} (ch : Channels Ev W) (e : Ev) (ts : List Tg) (b : Inner Tg)
    (w : W) (b' : Inner Tg) (w' : W) : Type 0 where
  pub others : (u : Tg) → ¬ In u ts → b'.targets u ≡ b.targets u
  pub stays :
      (u : Tg) (p : Subscriber)
      → In u ts
      → In p (subs_of b' u) ↔ (In p (subs_of b u) × (ch.room w p.1 ≡ true))
  pub gets :
      (u : Tg) (p : Subscriber)
      → In u ts
      → In p (subs_of b u)
      → ch.queue w' p.1 ≡ (if ch.room w p.1 then ch.queue w p.1 ++ (e ∷ []) else ch.queue w p.1)
  pub untouched :
      (x : ℕ)
      → ((u : Tg) (p : Subscriber) → In u ts → In p (subs_of b u) → p.1 ≢ x)
      → (ch.queue w' x ≡ ch.queue w x) × (ch.room w' x ≡ ch.room w x)

-- One target and then others.
sequence :
    {Ev Tg W : Type 0} (ch : Channels Ev W) (e : Ev) (t : Tg) (ts : List Tg) (b b1 b' : Inner Tg)
    (w w1 w' : W)
    → ¬ In t ts
    → Wf ch b w
    → Delivers ch e (t ∷ []) b w b1 w1
    → Delivers ch e ts b1 w1 b' w'
    → Delivers ch e (t ∷ ts) b w b' w'
sequence {Ev} {Tg} {W} ch e t ts b b1 b' w w1 w' new v one rest =
    let off : (u : Tg) → In u ts → b1.targets u ≡ b.targets u =
      (λ u k. one.others u (λ j. elim j [ inl f ↦ new (rw (← f) k) | inr j ↦ absurd j ])) in
    let same_chan : (u : Tg) (p : Subscriber)
        → In u ts
        → In p (subs_of b u)
        → (ch.queue w1 p.1 ≡ ch.queue w p.1) × (ch.room w1 p.1 ≡ ch.room w p.1) =
      (λ u p k j. one.untouched p.1 (λ u' q k' j' f. elim k' [
        | inl g ↦ new (rw (← g, v.across u' u q p j' j (inr f)) k)
        | inr g ↦ absurd g
      ])) in
    record {
      others = λ u n.
          rest.others u (λ k. n (inr k))
          ∙ one.others u (λ j. elim j [ inl f ↦ n (inl f) | inr j ↦ absurd j ]);
      stays = λ u p k. elim k [
        | inl f ↦ rw (f, rest.others t new) (one.stays t p (inl refl))
        | inr k ↦
            let r = rest.stays u p k in
            (
              λ h.
                  let j : In p (subs_of b u) = rw (← off u k) (r.0 h).0 in
                  (j, sym (same_chan u p k j).1 ∙ (r.0 h).1),
              λ h. r.1 (rw (off u k) h.0, (same_chan u p k h.0).1 ∙ h.1),
            )
      ];
      gets = λ u p k j. elim k [
        | inl f ↦
            (rest.untouched p.1 (λ u' q k' j' g.
              new (rw (← f, ← v.across u' u q p (rw (← off u' k') j') j (inr g)) k'))).0
            ∙ one.gets t p (inl refl) (rw (← f) j)
        | inr k ↦ let q = same_chan u p k j in rw (← q.0, ← q.1) (rest.gets u p k (rw (off u k) j))
      ];
      untouched = λ x n.
          let first =
            one.untouched x (λ u p k j. n u p (elim k [ inl f ↦ inl f | inr i ↦ absurd i ]) j) in
          let after = rest.untouched x (λ u p k j. n u p (inr k) (rw (← off u k) j)) in
          (after.0 ∙ first.0, after.1 ∙ first.1);
    }

module _ {Ev Tg W : Type 0} (ch : Channels Ev W) (same : Tg → Tg → Bool) (e : Ev)
    (same_iff : (t u : Tg) → (same t u ≡ true) ↔ (t ≡ u)) where
  -- One target.
  publish_found-Delivers :
      (t : Tg) (b : Inner Tg) (w : W) (o : Option Subscribers)
      → b.targets t ≡ o
      → Wf ch b w
      → Delivers ch e
          (t ∷ [])
          b
          w
          (publish_found ch same e t o (b, w)).0
          (publish_found ch same e t o (b, w)).1
  unfolding publish_found
  publish_found-Delivers t b w none h v =
      let nobody : (u : Tg) (p : Subscriber) → In u (t ∷ []) → ¬ In p (subs_of b u) =
        (λ u p k. elim k [ inl f ↦ rw (f, h) (λ j. j) | inr j ↦ absurd j ]) in
      record {
        others = λ u n. refl;
        stays = λ u p k. (λ j. absurd (nobody u p k j), λ j. absurd (nobody u p k j.0));
        gets = λ u p k j. absurd (nobody u p k j);
        untouched = λ x n. (refl, refl);
      }
  publish_found-Delivers t b w (some subs) h v =
      let a : Apart subs = rw (← ap or_default h) (v.apart t) in
      let new = unless_empty (retain ch e subs w).0 in
      let at : (u : Tg) → In u (t ∷ []) → u ≡ t =
        (λ u k. elim k [ inl f ↦ f | inr j ↦ absurd j ]) in
      record {
        others = λ u n.
            set_entry-elim same same_iff b.targets t new u (λ f s. absurd (n (inl (sym f))))
              (λ f s. s);
        stays = λ u p k.
            set_entry-elim same same_iff b.targets t new u
              (λ f s.
                rw (s, or_default-unless_empty (retain ch e subs w).0, at u k, h)
                  (retain-In ch e subs w a p))
              (λ f s. absurd (f (sym (at u k))));
        gets = λ u p k j. retain_queue ch e subs w a p (rw (← ap or_default h, ← at u k) j);
        untouched = λ x n. retain_other ch e subs w x (λ p j. n t p (inl refl) (rw h j));
      }

  -- Every target in turn.
  pub publish_all-Delivers :
      (ts : List Tg) (b : Inner Tg) (w : W)
      → Distinct ts
      → Wf ch b w
      → Delivers ch e ts b w (publish_all ch same e ts (b, w)).0 (publish_all ch same e ts (b, w)).1
  unfolding publish_all
  publish_all-Delivers [] b w d v = record {
    others = λ u n. refl;
    stays = λ u p k. absurd k;
    gets = λ u p k j. absurd k;
    untouched = λ x n. (refl, refl);
  }
  publish_all-Delivers (t ∷ ts) b w (new, d) v =
      let s = publish_found ch same e t (b.targets t) (b, w) in
      let one = publish_found-Delivers t b w (b.targets t) refl v in
      let rest =
        publish_all-Delivers ts s.0 s.1 d
          (publish_found-Wf same same_iff ch e t b w (b.targets t) refl v) in
      sequence ch e t ts b s.0 _ w s.1 _ new v one rest

  -- Publishing an event that names no target twice on a well-formed bus: each subscriber of its
  -- targets whose channel has room gets the event at the end of its queue and stays, each other one
  -- of them leaves the bus with its queue as it was, and no other target or channel is touched.
  pub publish-Delivers :
      (targets_of : Ev → List Tg) (b : Inner Tg) (w : W)
      → Distinct (targets_of e)
      → Wf ch b w
      → Delivers ch e
          (targets_of e)
          b
          w
          (publish ch same targets_of e (b, w)).0
          (publish ch same targets_of e (b, w)).1
  unfolding publish
  publish-Delivers targets_of b w d v = publish_all-Delivers (targets_of e) b w d v
