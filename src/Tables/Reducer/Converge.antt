-- ===== src/Tables/Reducer/Converge.antt =====
-- No order of the ops of a log changes what the tables show, nor does a repeated op.
use ubiquisync.Prelude.{ℕ, ◌≡◌, refl, sym, ap, ◌∙◌, arith}
use ubiquisync.Prelude.{Option, none, some}
use ubiquisync.Prelude.{List, [], ◌∷◌, ◌++◌}
use ubiquisync.Tables.Op.{Op, Compare}
use ubiquisync.Tables.Reducer.{Cell, replay}
use ubiquisync.Tables.Reducer.{visible}
use ubiquisync.Tables.Reducer.Order.{join_comm, join_idem}
use ubiquisync.Tables.Reducer.Merged.{Merged, Spec, join_update}
use ubiquisync.Tables.Reducer.Merged.{absorb_row, absorb, absorb_all, view}
use mathlib.Core.Path.{fun_ext, ap₂}
use mathlib.Core.List.{Permᴰ}
use ubiquisync.Tables.Reducer.Replay.{no_tables, untouched_rows, replay-view}

module _ {V : Type 0} (db : Compare V) where
  join_update_comm :
      (ts ts' : ℕ) (o o' : Option (Option V)) (c : Cell V)
      → join_update db ts o (join_update db ts' o' c)
        ≡ join_update db ts' o' (join_update db ts o c)
  join_update_comm ts ts' none o' c = refl
  join_update_comm ts ts' (some v) none c = refl
  join_update_comm ts ts' (some v) (some v') c =
      join_comm db (record { lww = ts; value = v }) (record { lww = ts'; value = v' }) c

  join_update_idem :
      (ts : ℕ) (o : Option (Option V)) (c : Cell V)
      → join_update db ts o (join_update db ts o c) ≡ join_update db ts o c
  join_update_idem ts none c = refl
  join_update_idem ts (some v) c = join_idem db (record { lww = ts; value = v }) c

  same_row :
      {m n : Merged V}
      → m.seen ≡ n.seen
      → m.upserted ≡ n.upserted
      → m.deleted ≡ n.deleted
      → ((c : ℕ) → m.cells c ≡ n.cells c)
      → m ≡ n
  same_row p q r s = λ i. record { seen = p i; upserted = q i; deleted = r i; cells = λ c. s c i }

  absorb_row_comm :
      (e f : ℕ × Op V) (m : Merged V)
      → absorb_row db e (absorb_row db f m) ≡ absorb_row db f (absorb_row db e m)
  absorb_row_comm (ts, Op.upsert u) (ts', Op.upsert u') m =
      same_row refl (omega arith) refl (λ c. join_update_comm ts ts' _ _ (m.cells c))
  absorb_row_comm (ts, Op.upsert u) (ts', Op.delete d') m = refl
  absorb_row_comm (ts, Op.delete d) (ts', Op.upsert u') m = refl
  absorb_row_comm (ts, Op.delete d) (ts', Op.delete d') m =
      same_row refl refl (omega arith) (λ c. refl)

  absorb_row_idem :
      (e : ℕ × Op V) (m : Merged V) → absorb_row db e (absorb_row db e m) ≡ absorb_row db e m
  absorb_row_idem (ts, Op.upsert u) m =
      same_row refl (omega arith) refl (λ c. join_update_idem ts _ (m.cells c))
  absorb_row_idem (ts, Op.delete d) m = same_row refl refl (omega arith) (λ c. refl)

  absorb_comm :
      (e f : ℕ × Op V) (spec : Spec db)
      → absorb db e (absorb db f spec) ≡ absorb db f (absorb db e spec)
  unfolding absorb
  absorb_comm e f spec = fun_ext λ t. fun_ext λ k. ground (arith, absorb_row_comm e f (spec t k))

  absorb_idem : (e : ℕ × Op V) (spec : Spec db) → absorb db e (absorb db e spec) ≡ absorb db e spec
  unfolding absorb
  absorb_idem e spec = fun_ext λ t. fun_ext λ k. ground (arith, absorb_row_idem e (spec t k))

  absorb_all-absorb :
      (e : ℕ × Op V) (log : List (ℕ × Op V)) (spec : Spec db)
      → absorb_all db log (absorb db e spec) ≡ absorb db e (absorb_all db log spec)
  unfolding absorb_all
  absorb_all-absorb e [] spec = refl
  absorb_all-absorb e (f ∷ log) spec =
      ap (absorb_all db log) (absorb_comm f e spec) ∙ absorb_all-absorb e log (absorb db f spec)

  absorb_all-perm :
      {log log' : List (ℕ × Op V)}
      → Permᴰ log log'
      → (spec : Spec db) → absorb_all db log spec ≡ absorb_all db log' spec
  unfolding absorb_all
  absorb_all-perm Permᴰ.nil spec = refl
  absorb_all-perm (Permᴰ.cons {b = b} {l₁ = l₁} p h) spec =
      ap (λ a. absorb_all db l₁ (absorb db a spec)) p ∙ absorb_all-perm h (absorb db b spec)
  absorb_all-perm (Permᴰ.swap {a = a} {b = b} {l = l} p q) spec =
      ap (absorb_all db l) (absorb_comm b a spec)
      ∙ ap₂ (λ x y. absorb_all db l (absorb db x (absorb db y spec))) p q
  absorb_all-perm (Permᴰ.trans h k) spec = absorb_all-perm h spec ∙ absorb_all-perm k spec

  -- Two replicas that have the same ops show the same rows, in whatever orders the ops reached them.
  pub replay-perm :
      (log log' : List (ℕ × Op V))
      → Permᴰ log log'
      → (t : ℕ) (k : List V)
      → visible db ((replay db log (no_tables db) t).rows k)
        ≡ visible db ((replay db log' (no_tables db) t).rows k)
  replay-perm log log' h t k =
      replay-view db log t k
      ∙ ap (λ (s : Spec db). view db (s t k)) (absorb_all-perm h (untouched_rows db))
      ∙ sym (replay-view db log' t k)

  absorb_all-snoc :
      (log : List (ℕ × Op V)) (e : ℕ × Op V) (spec : Spec db)
      → absorb_all db (log ++ (e ∷ [])) spec ≡ absorb db e (absorb_all db log spec)
  unfolding absorb_all
  absorb_all-snoc [] e spec = refl
  absorb_all-snoc (f ∷ log) e spec = absorb_all-snoc log e (absorb db f spec)

  absorb_all_twice :
      (e : ℕ × Op V) (log : List (ℕ × Op V)) (spec : Spec db)
      → absorb_all db (e ∷ log ++ (e ∷ [])) spec ≡ absorb_all db (e ∷ log) spec
  unfolding absorb_all
  absorb_all_twice e log spec =
      absorb_all-snoc log e (absorb db e spec)
      ∙ ap (absorb db e) (absorb_all-absorb e log spec)
      ∙ absorb_idem e (absorb_all db log spec)
      ∙ sym (absorb_all-absorb e log spec)

  -- An op that is delivered once more, after any other ops, changes no row that shows.
  pub replay_twice :
      (e : ℕ × Op V) (log : List (ℕ × Op V)) (t : ℕ) (k : List V)
      → visible db ((replay db (e ∷ log ++ (e ∷ [])) (no_tables db) t).rows k)
        ≡ visible db ((replay db (e ∷ log) (no_tables db) t).rows k)
  replay_twice e log t k =
      replay-view db (e ∷ log ++ (e ∷ [])) t k
      ∙ ap (λ (s : Spec db). view db (s t k)) (absorb_all_twice e log (untouched_rows db))
      ∙ sym (replay-view db (e ∷ log) t k)
