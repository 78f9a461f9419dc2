-- ===== src/Tables/Reducer/Refine.antt =====
-- The stored rows refine the specification: the statements skip and clear, and lose nothing.
use ubiquisync.Prelude.{ℕ, ◌≤◌, ◌<◌, ◌≡◌, refl, sym, ap, ◌∙◌, arith, true, false, max}
use ubiquisync.Prelude.{Option, none, some, leb, if◌then◌else◌}
use ubiquisync.Prelude.{List, [], ◌∷◌, ==_iff}
use ubiquisync.Tables.Op.{Compare}
use ubiquisync.Tables.Reducer.{Cell, Row, no_cell, wins, merge_cell, any_wins, clear_cell}
use ubiquisync.Tables.Reducer.{has_column, update_of, ensure_columns, insert_upsert}
use ubiquisync.Tables.Reducer.{update_upsert}
use ubiquisync.Tables.Reducer.{merge_update}
use native.Mathlib.Decide.{dec_lt}
use ubiquisync.Tables.Reducer.Order.{join, merge_cell-join}
use ubiquisync.Tables.Reducer.Merged.{Merged, untouched, join_update}

pub ensure_columns-has_column :
    {V : Type 0} (us : List (ℕ × Option V)) (cols : List ℕ) (c : ℕ)
    → has_column c (ensure_columns us cols) ≡ false
    → (has_column c cols ≡ false) × (update_of c us ≡ none)
unfolding ensure_columns
ensure_columns-has_column [] cols c h = (h, refl)
ensure_columns-has_column ((d, v) ∷ us) cols c h =
    ground (arith, ensure_columns-has_column us (if has_column d cols then cols else d ∷ cols) c h)

module _ {V : Type 0} (db : Compare V) where
  -- A write that is not older than the delete, on a cleared cell and on the greatest one.
  merge_cell-clear_cell :
      (deleted : ℕ) (new cell : Cell V)
      → deleted ≤ new.lww
      → merge_cell db new (clear_cell db deleted cell) ≡ clear_cell db deleted (join db new cell)
  unfolding join wins
  merge_cell-clear_cell deleted new cell h =
      merge_cell-join db new (clear_cell db deleted cell) ∙ ground arith

  -- A write that is older than the delete shows nowhere.
  clear_cell-join :
      (deleted : ℕ) (new cell : Cell V)
      → new.lww < deleted
      → clear_cell db deleted (join db new cell) ≡ clear_cell db deleted cell
  unfolding join wins
  clear_cell-join deleted new cell h = ground arith

  pub clear_cell-clear_cell :
      (a b : ℕ) (cell : Cell V)
      → a < b
      → clear_cell db b (clear_cell db a cell) ≡ clear_cell db b cell
  clear_cell-clear_cell a b cell h = ground arith

  pub clear_cell-no_cell : (a : ℕ) → clear_cell db a no_cell ≡ no_cell
  clear_cell-no_cell a = ground arith

  -- Where no column wins, no column would change.
  any_wins-update_of :
      (ts : ℕ) (us : List (ℕ × Option V)) (cols : ℕ → Cell V) (c : ℕ) (v : Option V)
      → any_wins db ts us cols ≡ false
      → update_of c us ≡ some v
      → wins db (record { lww = ts; value = v }) (cols c) ≡ false
  unfolding any_wins
  any_wins-update_of ts [] cols c v h e = cc
  any_wins-update_of ts ((d, w) ∷ us) cols c v h e =
      ground (arith, ==_iff c d, any_wins-update_of ts us cols c v)

  -- How a stored row stands for the greatest writes: its columns are those that no newer delete
  -- cleared. Its upsert timestamp may lag behind only while the row is tombstoned.
  pub record Stored (cols : List ℕ) (row : Row V) (m : Merged V) : Type 0 where
    pub seen : m.seen ≡ true
    pub deleted : row.deleted_ts ≡ m.deleted
    pub cells : (c : ℕ) → row.cols c ≡ clear_cell db m.deleted (m.cells c)
    pub below : row.upsert_ts ≤ m.upserted
    pub exact : m.deleted ≤ m.upserted → row.upsert_ts ≡ m.upserted
    pub known : (c : ℕ) → has_column c cols ≡ false → row.cols c ≡ no_cell

  abbrev pub Refines : List ℕ → Option (Row V) → Merged V → Type 0
  Refines cols none m = m ≡ untouched
  Refines cols (some row) m = Stored cols row m

  merge_update-clear_cell :
      (ts deleted : ℕ) (o : Option (Option V)) (cell : Cell V)
      → deleted ≤ ts
      → merge_update db ts o (clear_cell db deleted cell)
        ≡ clear_cell db deleted (join_update db ts o cell)
  merge_update-clear_cell ts deleted none cell h = refl
  merge_update-clear_cell ts deleted (some v) cell h =
      merge_cell-clear_cell deleted (record { lww = ts; value = v }) cell h

  clear_cell-join_update :
      (ts deleted : ℕ) (o : Option (Option V)) (cell : Cell V)
      → ts < deleted
      → clear_cell db deleted (join_update db ts o cell) ≡ clear_cell db deleted cell
  clear_cell-join_update ts deleted none cell h = refl
  clear_cell-join_update ts deleted (some v) cell h =
      clear_cell-join deleted (record { lww = ts; value = v }) cell h

  merge_update_loser :
      (ts : ℕ) (us : List (ℕ × Option V)) (cols : ℕ → Cell V) (c : ℕ) (o : Option (Option V))
      → any_wins db ts us cols ≡ false
      → update_of c us ≡ o
      → merge_update db ts o (cols c) ≡ cols c
  merge_update_loser ts us cols c none h e = refl
  merge_update_loser ts us cols c (some v) h e =
      merge_cell-join db (record { lww = ts; value = v }) (cols c)
      ∙ unfold join in ground (arith, any_wins-update_of ts us cols c v h e)

  -- The DO UPDATE of an upsert leaves a row alone that a newer delete has tombstoned, and merges
  -- every column that it names in any other, whether or not its WHERE clause holds.
  update_upsert_early :
      (ts : ℕ) (us : List (ℕ × Option V)) (row : Row V)
      → ts < row.deleted_ts
      → update_upsert db ts us row ≡ row
  unfolding update_upsert
  update_upsert_early ts us row h = ground arith

  update_upsert_late :
      (ts : ℕ) (us : List (ℕ × Option V)) (row : Row V) (c : ℕ)
      → row.deleted_ts ≤ ts
      → (update_upsert db ts us row).cols c ≡ merge_update db ts (update_of c us) (row.cols c)
  unfolding update_upsert
  update_upsert_late ts us row c h =
      ground (arith, merge_update_loser ts us row.cols c (update_of c us))

  pub update_upsert-cells :
      (ts : ℕ) (us : List (ℕ × Option V)) {cols : List ℕ} {row : Row V} {m : Merged V}
      → Stored cols row m
      → (c : ℕ)
      → (update_upsert db ts us row).cols c
        ≡ clear_cell db m.deleted (join_update db ts (update_of c us) (m.cells c))
  update_upsert-cells ts us {row} {m} st c = elim (dec_lt ts m.deleted) [
    | yes early ↦
        rw (update_upsert_early ts us row (omega (arith, st.deleted)), st.cells c)
          (sym (clear_cell-join_update ts m.deleted (update_of c us) (m.cells c) early))
    | no late ↦
        rw (update_upsert_late ts us row c (omega (arith, st.deleted)), st.cells c)
          (merge_update-clear_cell ts m.deleted (update_of c us) (m.cells c) (omega arith))
  ]

  -- The timestamps of the row after it.
  pub update_upsert-stamps :
      (ts : ℕ) (us : List (ℕ × Option V)) (row : Row V)
      → ((update_upsert db ts us row).deleted_ts ≡ row.deleted_ts)
        × ((update_upsert db ts us row).upsert_ts
            ≡ (if leb row.deleted_ts ts then max row.upsert_ts ts else row.upsert_ts))
  unfolding update_upsert
  update_upsert-stamps ts us row = ground arith

  pub update_upsert-known :
      (ts : ℕ) (us : List (ℕ × Option V)) {cols : List ℕ} {row : Row V} {m : Merged V}
      → Stored cols row m
      → (c : ℕ) → has_column c (ensure_columns us cols) ≡ false
      → (update_upsert db ts us row).cols c ≡ no_cell
  unfolding update_upsert
  update_upsert-known ts us {cols} {row} st c h =
      let (old, e) = ensure_columns-has_column us cols c h in
      ground (arith, st.known c old, ap (λ o. merge_update db ts o (row.cols c)) e)

  pub insert_upsert-cells :
      (ts : ℕ) (us : List (ℕ × Option V)) (c : ℕ) (o : Option (Option V))
      → update_of c us ≡ o
      → (insert_upsert db ts us).cols c ≡ clear_cell db 0 (join_update db ts o no_cell)
  unfolding insert_upsert join wins
  insert_upsert-cells ts us c none e = ground arith
  insert_upsert-cells ts us c (some none) e = ground arith
  insert_upsert-cells ts us c (some (some v)) e = ground arith
