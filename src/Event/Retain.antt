-- ===== src/Event/Retain.antt =====
-- The subscribers of one target: what `retain`, `insert` and `remove` leave of them, and what the
-- channels have then.
use ubiquisync.Prelude.{ℕ, ◌≡◌, ◌≢◌, ◌⊎◌, inl, inr, ◌↔◌, refl, sym, ◌∙◌, ap, [], ◌∷◌, ◌++◌}
use ubiquisync.Prelude.{In, true, false, ◌==◌, ==_iff, Bool-cases, if◌then◌else◌}
use ubiquisync.Event.{Channels, Subscriber, Subscribers, retain, insert, remove}

-- No two subscribers have one id or one sender.
abbrev pub Apart : Subscribers → Type 0
Apart [] = Unit {0}
Apart (q ∷ subs) = ((p : Subscriber) → In p subs → (p.0 ≢ q.0) × (p.1 ≢ q.1)) × Apart subs

pub insert-In :
    (id tx : ℕ) (subs : Subscribers)
    → ((q : Subscriber) → In q subs → q.0 ≢ id)
    → (p : Subscriber) → In p (insert id tx subs) ↔ ((p ≡ (id, tx)) ⊎ In p subs)
unfolding insert
insert-In id tx [] new p = (λ h. h, λ h. h)
insert-In id tx ((i, x) ∷ subs) new p = elim (Bool-cases (i == id)) [
  | inl e ↦ absurd (new (i, x) (inl refl) ((==_iff i id).0 e))
  | inr e ↦
      let rest = insert-In id tx subs (λ q h. new q (inr h)) p in
      rw e (
        λ h. elim h [
          | inl f ↦ inr (inl f)
          | inr g ↦ elim (rest.0 g) [ inl f ↦ inl f | inr k ↦ inr (inr k) ]
        ],
        λ h. elim h [
          | inl f ↦ inr (rest.1 (inl f))
          | inr g ↦ elim g [ inl f ↦ inl f | inr k ↦ inr (rest.1 (inr k)) ]
        ],
      )
]

pub insert-Apart :
    (id tx : ℕ) (subs : Subscribers)
    → ((q : Subscriber) → In q subs → (q.0 ≢ id) × (q.1 ≢ tx))
    → Apart subs
    → Apart (insert id tx subs)
unfolding insert
insert-Apart id tx [] new a = (λ p h. absurd h, tt)
insert-Apart id tx ((i, x) ∷ subs) new (apart, a) = elim (Bool-cases (i == id)) [
  | inl e ↦ absurd ((new (i, x) (inl refl)).0 ((==_iff i id).0 e))
  | inr e ↦ rw e (
    λ p h. elim ((insert-In id tx subs (λ q k. (new q (inr k)).0) p).0 h) [
      | inl f ↦
          let n = new (i, x) (inl refl) in
          (λ g. n.0 (sym g ∙ ap (λ s. s.0) f), λ g. n.1 (sym g ∙ ap (λ s. s.1) f))
      | inr k ↦ apart p k
    ],
    insert-Apart id tx subs (λ q k. new q (inr k)) a,
  )
]

pub remove-In :
    (id : ℕ) (subs : Subscribers) (p : Subscriber)
    → In p (remove id subs) ↔ (In p subs × (p.0 ≢ id))
unfolding remove
remove-In id [] p = (λ h. absurd h, λ h. absurd h.0)
remove-In id ((i, x) ∷ subs) p =
    let rest = remove-In id subs p in
    elim (Bool-cases (i == id)) [
      | inl e ↦ rw e (
        λ h. (inr (rest.0 h).0, (rest.0 h).1),
        λ h. elim h.0 [
          | inl f ↦ absurd (h.1 (ap (λ s. s.0) f ∙ (==_iff i id).0 e))
          | inr k ↦ rest.1 (k, h.1)
        ],
      )
      | inr e ↦ rw e (
        λ h. elim h [
          | inl f ↦ (inl f, λ g. let eq = (==_iff i id).1 (sym (ap (λ s. s.0) f) ∙ g) in cc)
          | inr k ↦ (inr (rest.0 k).0, (rest.0 k).1)
        ],
        λ h. elim h.0 [ inl f ↦ inl f | inr k ↦ inr (rest.1 (k, h.1)) ],
      )
    ]

pub remove-Apart : (id : ℕ) (subs : Subscribers) → Apart subs → Apart (remove id subs)
unfolding remove
remove-Apart id [] a = tt
remove-Apart id ((i, x) ∷ subs) (apart, a) = elim (Bool-cases (i == id)) [
  | inl e ↦ rw e (remove-Apart id subs a)
  | inr e ↦ rw e (λ p h. apart p ((remove-In id subs p).0 h).0, remove-Apart id subs a)
]

module _ {Ev W : Type 0} (ch : Channels Ev W) (e : Ev) where
  -- A channel that is no subscriber's is not touched.
  pub retain_other :
      (subs : Subscribers) (w : W) (x : ℕ)
      → ((p : Subscriber) → In p subs → p.1 ≢ x)
      → (ch.queue (retain ch e subs w).1 x ≡ ch.queue w x)
        × (ch.room (retain ch e subs w).1 x ≡ ch.room w x)
  unfolding retain
  retain_other [] w x h = (refl, refl)
  retain_other ((i, y) ∷ subs) w x h =
      let rest = retain_other subs (ch.try_send y e w).1 x (λ p k. h p (inr k)) in
      let n : y ≢ x = h (i, y) (inl refl) in
      elim (Bool-cases (ch.try_send y e w).0) [
        | inl s ↦
            rw s (rest.0 ∙ ch.try_send_other y x e w n, rest.1 ∙ ch.try_send_room_other y x e w n)
        | inr s ↦
            rw s (rest.0 ∙ ch.try_send_other y x e w n, rest.1 ∙ ch.try_send_room_other y x e w n)
      ]

  pub retain_made :
      (subs : Subscribers) (w : W) (x : ℕ) → ch.made (retain ch e subs w).1 x ≡ ch.made w x
  unfolding retain
  retain_made [] w x = refl
  retain_made ((i, y) ∷ subs) w x =
      let rest = retain_made subs (ch.try_send y e w).1 x in
      elim (Bool-cases (ch.try_send y e w).0) [
        | inl s ↦ rw s (rest ∙ ch.try_send_made y x e w)
        | inr s ↦ rw s (rest ∙ ch.try_send_made y x e w)
      ]

  -- Those stay whose channel has room.
  pub retain-In :
      (subs : Subscribers) (w : W)
      → Apart subs
      → (p : Subscriber) → In p (retain ch e subs w).0 ↔ (In p subs × (ch.room w p.1 ≡ true))
  unfolding retain
  retain-In [] w a p = (λ h. absurd h, λ h. absurd h.0)
  retain-In ((i, y) ∷ subs) w (apart, a) p =
      let rest = retain-In subs (ch.try_send y e w).1 a p in
      let same_room : In p subs → ch.room (ch.try_send y e w).1 p.1 ≡ ch.room w p.1 =
        (λ k. ch.try_send_room_other y p.1 e w λ g. (apart p k).1 (sym g)) in
      let sent = ch.try_send_room y e w in
      elim (Bool-cases (ch.try_send y e w).0) [
        | inl s ↦ rw s (
          λ h. elim h [
            | inl f ↦ (inl f, ap (λ q. ch.room w q.1) f ∙ sym sent ∙ s)
            | inr k ↦ let r = rest.0 k in (inr r.0, sym (same_room r.0) ∙ r.1)
          ],
          λ h. elim h.0 [ inl f ↦ inl f | inr k ↦ inr (rest.1 (k, same_room k ∙ h.1)) ],
        )
        | inr s ↦ rw s (
          λ h. let r = rest.0 h in (inr r.0, sym (same_room r.0) ∙ r.1),
          λ h. elim h.0 [
            | inl f ↦ let full = sym (ap (λ q. ch.room w q.1) f) ∙ h.1 in cc
            | inr k ↦ rest.1 (k, same_room k ∙ h.1)
          ],
        )
      ]

  -- Each subscriber whose channel has room gets the event, at the end of its queue.
  pub retain_queue :
      (subs : Subscribers) (w : W)
      → Apart subs
      → (p : Subscriber) → In p subs
      → ch.queue (retain ch e subs w).1 p.1
        ≡ (if ch.room w p.1 then ch.queue w p.1 ++ (e ∷ []) else ch.queue w p.1)
  unfolding retain
  retain_queue [] w a p h = absurd h
  retain_queue ((i, y) ∷ subs) w (apart, a) p (inr k) =
      let n : y ≢ p.1 = (λ g. (apart p k).1 (sym g)) in
      let w' = (ch.try_send y e w).1 in
      let rest : ch.queue (retain ch e subs w').1 p.1
          ≡ (if ch.room w p.1 then ch.queue w p.1 ++ (e ∷ []) else ch.queue w p.1) =
        rw (← ch.try_send_room_other y p.1 e w n, ← ch.try_send_other y p.1 e w n)
          (retain_queue subs w' a p k) in
      elim (Bool-cases (ch.try_send y e w).0) [ inl s ↦ rw s rest | inr s ↦ rw s rest ]
  retain_queue ((i, y) ∷ subs) w (apart, a) p (inl f) =
      let w' = (ch.try_send y e w).1 in
      let rest : ch.queue (retain ch e subs w').1 y ≡ ch.queue w' y =
        (retain_other subs w' y (λ q k. (apart q k).1)).0 in
      let sent = ch.try_send_room y e w in
      elim (Bool-cases (ch.try_send y e w).0) [
        | inl s ↦
            let room : ch.room w y ≡ true = sym sent ∙ s in
            rw (f, s, room) (rest ∙ ch.try_send_queue y e w room)
        | inr s ↦
            let room : ch.room w y ≡ false = sym sent ∙ s in
            rw (f, s, room) (rest ∙ ch.try_send_refused y e w room)
      ]

pub retain-Apart :
    {Ev W : Type 0} (ch : Channels Ev W) (e : Ev) (subs : Subscribers) (w : W)
    → Apart subs
    → Apart (retain ch e subs w).0
unfolding retain
retain-Apart ch e [] w a = tt
retain-Apart ch e ((i, y) ∷ subs) w (apart, a) =
    let rest = retain-Apart ch e subs (ch.try_send y e w).1 a in
    elim (Bool-cases (ch.try_send y e w).0) [
      | inl s ↦ rw s (λ p h. apart p ((retain-In ch e subs (ch.try_send y e w).1 a p).0 h).0, rest)
      | inr s ↦ rw s rest
    ]
