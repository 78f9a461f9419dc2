-- ===== src/Tables/Reducer.antt =====
-- crates/ubiquisync-tables/src/reducer: what the statements that `apply_upsert` and `apply_delete`
-- build do to the stored rows. A statement is read as SQL defines it: on a conflict every SET
-- expression and the WHERE clause see the row as it was, and a comparison with NULL does not hold.
pub mod Order
pub mod Merged
pub mod Refine
pub mod Rows
pub mod Replay
pub mod Converge
use ubiquisync.Prelude.{ℕ, List, [], ◌∷◌, ◌++◌, map, Bool, true, false, ◌&&◌, ◌||◌, not, max}
use ubiquisync.Prelude.{Option, none, some, ltb, leb, ◌==◌, if◌then◌else◌}
use ubiquisync.Tables.Op.{Op, Upsert, Delete, ColumnSet, Compare}

-- A value column and its timestamp column, `NULL` and 0 until the first write.
pub record Cell (V : Type 0) : Type 0 where
  pub lww : ℕ
  pub value : Option V

pub record Row (V : Type 0) : Type 0 where
  pub upsert_ts : ℕ
  pub deleted_ts : ℕ
  pub cols : ℕ → Cell V

-- `PhysicalTableSchema::cols` and the stored rows.
pub record Table (V : Type 0) : Type 0 where
  pub cols : List ℕ
  pub rows : List V → Option (Row V)

abbrev pub no_cell : {V : Type 0} → Cell V
no_cell = record { lww = 0; value = none }

-- What `ensure_table` creates for a table id that was not seen before.
abbrev pub no_table : {V : Type 0} → Table V
no_table = record { cols = []; rows = λ k. none }

abbrev pub has_column : ℕ → List ℕ → Bool
has_column c [] = false
has_column c (d ∷ cols) = c == d || has_column c cols

-- The columns that an upsert writes, with NULL as `none`.
abbrev pub all_updates : {V : Type 0} → Upsert V → List (ℕ × Option V)
all_updates u =
    map (λ (s : ColumnSet _). (s.column_id, some s.value)) u.sets
    ++ map (λ (c : ℕ). (c, none)) u.nulls

abbrev pub update_of : {V : Type 0} → ℕ → List (ℕ × Option V) → Option (Option V)
update_of c [] = none
update_of c ((d, v) ∷ us) = if c == d then some v else update_of c us

-- `sync_upsert_schema`: every column that the upsert names exists before its statement runs.
unfoldable pub ensure_columns : {V : Type 0} → List (ℕ × Option V) → List ℕ → List ℕ
ensure_columns [] cols = cols
ensure_columns ((c, v) ∷ us) cols = ensure_columns us (if has_column c cols then cols else c ∷ cols)

module _ {V : Type 0} (db : Compare V) where
  -- `EXCLUDED.col > table.col`.
  abbrev pub sql_gt : Option V → Option V → Bool
  sql_gt none b = false
  sql_gt (some a) none = false
  sql_gt (some a) (some b) = db.gt a b

  -- `EXCLUDED.col IS NOT NULL AND table.col IS NULL`.
  abbrev pub only_new : Option V → Option V → Bool
  only_new none b = false
  only_new (some a) none = true
  only_new (some a) (some b) = false

  -- `tiebreak_sql` and `lww_winner_sql_with_tiebreak`, of a new cell against the stored one.
  unfoldable pub tiebreak : Cell V → Cell V → Bool
  tiebreak new old =
      new.lww == old.lww && (sql_gt new.value old.value || only_new new.value old.value)

  unfoldable pub wins : Cell V → Cell V → Bool
  unfolding tiebreak
  wins new old = ltb old.lww new.lww || tiebreak new old

  -- The two SET clauses of a written column.
  unfoldable pub merge_cell : Cell V → Cell V → Cell V
  merge_cell new old = record {
    lww = max old.lww new.lww;
    value = if wins new old then new.value else old.value;
  }

  -- A column under an upsert: written by its clauses, or not named by it.
  abbrev pub merge_update : ℕ → Option (Option V) → Cell V → Cell V
  merge_update ts none old = old
  merge_update ts (some v) old = merge_cell (record { lww = ts; value = v }) old

  -- The winner clauses of the WHERE, joined by OR.
  unfoldable pub any_wins : ℕ → List (ℕ × Option V) → (ℕ → Cell V) → Bool
  any_wins ts [] cols = false
  any_wins ts ((c, v) ∷ us) cols =
      wins (record { lww = ts; value = v }) (cols c) || any_wins ts us cols

  -- The INSERT of `apply_upsert`, and its DO UPDATE.
  unfoldable pub insert_upsert : ℕ → List (ℕ × Option V) → Row V
  insert_upsert ts us = record {
    upsert_ts = ts;
    deleted_ts = 0;
    cols = λ c. elim (update_of c us) [ none ↦ no_cell | some v ↦ record { lww = ts; value = v } ];
  }

  unfoldable pub update_upsert : ℕ → List (ℕ × Option V) → Row V → Row V
  update_upsert ts us row =
      if (ltb row.upsert_ts ts || any_wins ts us row.cols) && leb row.deleted_ts ts
      then record {
        upsert_ts = max row.upsert_ts ts;
        deleted_ts = row.deleted_ts;
        cols = λ c. merge_update ts (update_of c us) (row.cols c);
      }
      else row

  -- The CASE clauses of `apply_delete` for one column.
  abbrev pub clear_cell : ℕ → Cell V → Cell V
  clear_cell ts cell = if ltb cell.lww ts then no_cell else cell

  -- The INSERT of `apply_delete`, and its DO UPDATE over the columns that the table has.
  abbrev pub insert_delete : ℕ → Row V
  insert_delete ts = record { upsert_ts = 0; deleted_ts = ts; cols = λ c. no_cell }

  unfoldable pub update_delete : ℕ → List ℕ → Row V → Row V
  update_delete ts cols row =
      if ltb row.deleted_ts ts
      then record {
        upsert_ts = row.upsert_ts;
        deleted_ts = max row.deleted_ts ts;
        cols = λ c. if has_column c cols then clear_cell ts (row.cols c) else row.cols c;
      }
      else row

  -- A statement changes the row of its primary key and no other.
  abbrev pub put_row : (List V → Option (Row V)) → List V → Row V → List V → Option (Row V)
  put_row rows k row j = if db.same_key k j then some row else rows j

  abbrev pub upsert_row : ℕ → List (ℕ × Option V) → Option (Row V) → Row V
  upsert_row ts us none = insert_upsert ts us
  upsert_row ts us (some row) = update_upsert ts us row

  abbrev pub delete_row : ℕ → List ℕ → Option (Row V) → Row V
  delete_row ts cols none = insert_delete ts
  delete_row ts cols (some row) = update_delete ts cols row

  unfoldable pub apply_upsert : ℕ → Upsert V → Table V → Table V
  apply_upsert ts u table = record {
    cols = ensure_columns (all_updates u) table.cols;
    rows =
        put_row table.rows u.primary_key (upsert_row ts (all_updates u) (table.rows u.primary_key));
  }

  unfoldable pub apply_delete : ℕ → Delete V → Table V → Table V
  apply_delete ts d table = record {
    cols = table.cols;
    rows = put_row table.rows d.primary_key (delete_row ts table.cols (table.rows d.primary_key));
  }

  -- `prepare` and `apply` of one valid op of a log entry with its timestamp, on all tables.
  abbrev pub put_table : (ℕ → Table V) → ℕ → Table V → ℕ → Table V
  put_table tables i table j = if i == j then table else tables j

  unfoldable pub apply : ℕ × Op V → (ℕ → Table V) → ℕ → Table V
  unfolding apply_upsert apply_delete
  apply (ts, Op.upsert u) tables =
      put_table tables u.table_id (apply_upsert ts u (tables u.table_id))
  apply (ts, Op.delete d) tables =
      put_table tables d.table_id (apply_delete ts d (tables d.table_id))

  unfoldable pub replay : List (ℕ × Op V) → (ℕ → Table V) → ℕ → Table V
  unfolding apply
  replay [] tables = tables
  replay (e ∷ log) tables = replay log (apply e tables)

  -- The row as the view of `TableSchema::view_sql` shows it: the values of its columns, unless it
  -- is tombstoned.
  unfoldable pub visible : Option (Row V) → Option (ℕ → Option V)
  visible none = none
  visible (some row) =
      if leb row.deleted_ts row.upsert_ts then some (λ c. (row.cols c).value) else none
