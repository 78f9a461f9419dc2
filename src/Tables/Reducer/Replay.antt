-- ===== src/Tables/Reducer/Replay.antt =====
-- Replaying a log: the tables show what the specification says.
use ubiquisync.Prelude.{ℕ, ◌≡◌, refl}
use ubiquisync.Prelude.{◌==◌, if◌then◌else◌, Bool-cases, inl, inr}
use ubiquisync.Prelude.{List, [], ◌∷◌, ==_iff}
use ubiquisync.Tables.Op.{Op, Upsert, Delete, Compare}
use ubiquisync.Tables.Reducer.{Table, no_table, apply_upsert, apply_delete, apply, replay}
use ubiquisync.Tables.Reducer.{all_updates, visible}
use ubiquisync.Tables.Reducer.Merged.{Merged, Spec, untouched, absorb_upsert, absorb_delete}
use ubiquisync.Tables.Reducer.Merged.{absorb, absorb_all, view}
use ubiquisync.Tables.Reducer.Refine.{Refines}
use ubiquisync.Tables.Reducer.Rows.{upsert_row-Stored, delete_row-Stored, Refines-ensure_columns}
use ubiquisync.Tables.Reducer.Rows.{visible-view}

module _ {V : Type 0} (db : Compare V) where
  -- Every row of a table refines the specification.
  abbrev TableOk : Table V → (List V → Merged V) → Type 0
  TableOk table spec = (k : List V) → Refines db table.cols (table.rows k) (spec k)

  apply_upsert-TableOk :
      (ts : ℕ) (u : Upsert V) (table : Table V) (spec : List V → Merged V)
      → TableOk table spec
      → TableOk (apply_upsert db ts u table) (λ k.
        if db.same_key u.primary_key k
        then absorb_upsert db ts (all_updates u) (spec k)
        else spec k)
  unfolding apply_upsert
  apply_upsert-TableOk ts u table spec ok_t k = elim (Bool-cases (db.same_key u.primary_key k)) [
    | inl e ↦
        let path = (db.same_key_iff u.primary_key k).0 e in
        rw (e, ← path) (upsert_row-Stored db ts (all_updates u) table.cols _ _ (ok_t u.primary_key))
    | inr e ↦ rw e (Refines-ensure_columns db (all_updates u) table.cols _ _ (ok_t k))
  ]

  apply_delete-TableOk :
      (ts : ℕ) (d : Delete V) (table : Table V) (spec : List V → Merged V)
      → TableOk table spec
      → TableOk
          (apply_delete db ts d table)
          (λ k. if db.same_key d.primary_key k then absorb_delete db ts (spec k) else spec k)
  unfolding apply_delete
  apply_delete-TableOk ts d table spec ok_t k = elim (Bool-cases (db.same_key d.primary_key k)) [
    | inl e ↦
        let path = (db.same_key_iff d.primary_key k).0 e in
        rw (e, ← path) (delete_row-Stored db ts table.cols _ _ (ok_t d.primary_key))
    | inr e ↦ rw e (ok_t k)
  ]

  abbrev AllOk : (ℕ → Table V) → Spec db → Type 0
  AllOk tables spec = (t : ℕ) → TableOk (tables t) (spec t)

  apply-AllOk :
      (e : ℕ × Op V) (tables : ℕ → Table V) (spec : Spec db)
      → AllOk tables spec
      → AllOk (apply db e tables) (absorb db e spec)
  unfolding apply absorb
  apply-AllOk (ts, Op.upsert u) tables spec ok_t t = elim (Bool-cases (u.table_id == t)) [
    | inl e ↦
        let path = (==_iff u.table_id t).0 e in
        rw (e, ← path)
          (apply_upsert-TableOk ts u (tables u.table_id) (spec u.table_id) (ok_t u.table_id))
    | inr e ↦ rw e (ok_t t)
  ]
  apply-AllOk (ts, Op.delete d) tables spec ok_t t = elim (Bool-cases (d.table_id == t)) [
    | inl e ↦
        let path = (==_iff d.table_id t).0 e in
        rw (e, ← path)
          (apply_delete-TableOk ts d (tables d.table_id) (spec d.table_id) (ok_t d.table_id))
    | inr e ↦ rw e (ok_t t)
  ]

  replay-AllOk :
      (log : List (ℕ × Op V)) (tables : ℕ → Table V) (spec : Spec db)
      → AllOk tables spec
      → AllOk (replay db log tables) (absorb_all db log spec)
  unfolding replay absorb_all
  replay-AllOk [] tables spec h = h
  replay-AllOk (e ∷ log) tables spec h =
      replay-AllOk log (apply db e tables) (absorb db e spec) (apply-AllOk e tables spec h)

  abbrev pub no_tables : ℕ → Table V
  no_tables t = no_table

  abbrev pub untouched_rows : Spec db
  untouched_rows t k = untouched

  -- After any log on empty tables, each row shows exactly what the specification says of its ops.
  -- A row that no op names shows nothing. Another row shows unless its greatest delete is strictly
  -- newer than its greatest upsert, where a row without upserts counts as upserted at 0: an upsert
  -- at the timestamp of the delete keeps the row, and a row with nothing but deletes at 0 shows, with
  -- all columns NULL. A column of a row that shows has its greatest write by timestamp and then by
  -- value, unless the greatest delete is strictly newer than that write, and is NULL otherwise.
  pub replay-view :
      (log : List (ℕ × Op V)) (t : ℕ) (k : List V)
      → visible db ((replay db log no_tables t).rows k)
        ≡ view db (absorb_all db log untouched_rows t k)
  replay-view log t k =
      visible-view db _ _ _ (replay-AllOk log no_tables untouched_rows (λ t' k'. refl) t k)
