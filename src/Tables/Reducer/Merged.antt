-- ===== src/Tables/Reducer/Merged.antt =====
-- The specification of a row: what all the ops on it amount to, in whatever order they come. Each
-- field only ever takes a maximum.
use ubiquisync.Prelude.{
  ℕ, List, [], ◌∷◌, Bool, true, false, ◌&&◌, max, Option, none, some, leb, ◌==◌, if◌then◌else◌,
}
use ubiquisync.Tables.Op.{Op, Compare}
use ubiquisync.Tables.Reducer.{Cell, no_cell, all_updates, update_of, clear_cell}
use ubiquisync.Tables.Reducer.Order.{join}

pub record Merged (V : Type 0) : Type 0 where
  pub seen : Bool
  pub upserted : ℕ
  pub deleted : ℕ
  pub cells : ℕ → Cell V

abbrev pub untouched : {V : Type 0} → Merged V
untouched = record { seen = false; upserted = 0; deleted = 0; cells = λ c. no_cell }

module _ {V : Type 0} (db : Compare V) where
  -- The greatest write of a column, by timestamp and then by value.
  abbrev pub join_update : ℕ → Option (Option V) → Cell V → Cell V
  join_update ts none cell = cell
  join_update ts (some v) cell = join db (record { lww = ts; value = v }) cell

  abbrev pub absorb_upsert : ℕ → List (ℕ × Option V) → Merged V → Merged V
  absorb_upsert ts us m = record {
    seen = true;
    upserted = max m.upserted ts;
    deleted = m.deleted;
    cells = λ c. join_update ts (update_of c us) (m.cells c);
  }

  abbrev pub absorb_delete : ℕ → Merged V → Merged V
  absorb_delete ts m = record {
    seen = true;
    upserted = m.upserted;
    deleted = max m.deleted ts;
    cells = m.cells;
  }

  abbrev pub Spec : Type 0
  Spec = ℕ → List V → Merged V

  abbrev pub absorb_row : ℕ × Op V → Merged V → Merged V
  absorb_row (ts, Op.upsert u) m = absorb_upsert ts (all_updates u) m
  absorb_row (ts, Op.delete d) m = absorb_delete ts m

  -- Whether an op names the row of a table.
  abbrev pub names : Op V → ℕ → List V → Bool
  names (Op.upsert u) t k = u.table_id == t && db.same_key u.primary_key k
  names (Op.delete d) t k = d.table_id == t && db.same_key d.primary_key k

  unfoldable pub absorb : ℕ × Op V → Spec → Spec
  absorb e spec t k = if names e.1 t k then absorb_row e (spec t k) else spec t k

  unfoldable pub absorb_all : List (ℕ × Op V) → Spec → Spec
  unfolding absorb
  absorb_all [] spec = spec
  absorb_all (e ∷ log) spec = absorb_all log (absorb e spec)

  -- A row that an op names shows, unless the greatest delete is strictly newer than the greatest
  -- upsert, where no upsert counts as one at 0; a column shows its greatest write, unless the greatest
  -- delete is strictly newer than that. At equal timestamps the upsert stays.
  unfoldable pub view : Merged V → Option (ℕ → Option V)
  view m =
      if m.seen && leb m.deleted m.upserted
      then some (λ c. (clear_cell db m.deleted (m.cells c)).value)
      else none
