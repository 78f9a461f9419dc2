-- ===== src/Tables/Reducer/Rows.antt =====
-- Each statement takes a row that refines the specification to one that refines its next state.
use ubiquisync.Prelude.{ℕ, ◌≡◌, refl, sym, ap, ◌∙◌, arith, max}
use ubiquisync.Prelude.{Option, none, some}
use ubiquisync.Prelude.{List}
use ubiquisync.Tables.Op.{Compare}
use ubiquisync.Tables.Reducer.{Cell, Row, no_cell, clear_cell, update_of}
use ubiquisync.Tables.Reducer.{ensure_columns, insert_upsert}
use ubiquisync.Tables.Reducer.{update_delete, upsert_row, delete_row, visible}
use ubiquisync.Tables.Reducer.Merged.{Merged, absorb_upsert, absorb_delete, view}
use ubiquisync.Tables.Reducer.Refine.{Stored, Refines, update_upsert-cells, update_upsert-stamps}
use ubiquisync.Tables.Reducer.Refine.{
  update_upsert-known, insert_upsert-cells, clear_cell-clear_cell,
}
use ubiquisync.Tables.Reducer.Refine.{ensure_columns-has_column, clear_cell-no_cell}
use mathlib.Core.Path.{fun_ext}

module _ {V : Type 0} (db : Compare V) where
  pub upsert_row-Stored :
      (ts : ℕ) (us : List (ℕ × Option V)) (cols : List ℕ) (o : Option (Row V)) (m : Merged V)
      → Refines db cols o m
      → Stored db (ensure_columns us cols) (upsert_row db ts us o) (absorb_upsert db ts us m)
  upsert_row-Stored ts us cols none m r = rw r (record {
    seen = refl;
    deleted = unfold insert_upsert in refl;
    cells = λ c. insert_upsert-cells db ts us c (update_of c us) refl;
    below = unfold insert_upsert in omega arith;
    exact = λ h. unfold insert_upsert in omega arith;
    known =
        λ c h. unfold insert_upsert in ground (arith, (ensure_columns-has_column us cols c h).1);
  })
  upsert_row-Stored ts us cols (some row) m st =
      let (del, up) = update_upsert-stamps db ts us row in
      record {
        seen = refl;
        deleted = del ∙ st.deleted;
        cells = update_upsert-cells db ts us st;
        below = ground (arith, up, st.below);
        exact = λ h. ground (arith, up, st.below, st.exact, st.deleted);
        known = update_upsert-known db ts us st;
      }

  update_delete-cells :
      (ts : ℕ) (cols : List ℕ) {row : Row V} {m : Merged V}
      → Stored db cols row m
      → (c : ℕ)
      → (update_delete db ts cols row).cols c ≡ clear_cell db (max m.deleted ts) (m.cells c)
  unfolding update_delete
  update_delete-cells ts cols {row} {m} st c =
      ground (
        arith,
        st.deleted,
        st.cells c,
        st.known c,
        clear_cell-clear_cell db m.deleted ts (m.cells c),
      )

  update_delete-stamps :
      (ts : ℕ) (cols : List ℕ) (row : Row V)
      → ((update_delete db ts cols row).deleted_ts ≡ max row.deleted_ts ts)
        × ((update_delete db ts cols row).upsert_ts ≡ row.upsert_ts)
  unfolding update_delete
  update_delete-stamps ts cols row = ground arith

  update_delete-known :
      (ts : ℕ) (cols : List ℕ) (row : Row V) (c : ℕ)
      → (row.cols c ≡ no_cell)
      → (update_delete db ts cols row).cols c ≡ no_cell
  unfolding update_delete
  update_delete-known ts cols row c h = ground arith

  pub delete_row-Stored :
      (ts : ℕ) (cols : List ℕ) (o : Option (Row V)) (m : Merged V)
      → Refines db cols o m
      → Stored db cols (delete_row db ts cols o) (absorb_delete db ts m)
  delete_row-Stored ts cols none m r = rw r (record {
    seen = refl;
    deleted = omega arith;
    cells = λ c. sym (clear_cell-no_cell db (max 0 ts));
    below = omega arith;
    exact = λ h. omega arith;
    known = λ c h. refl;
  })
  delete_row-Stored ts cols (some row) m st =
      let (del, up) = update_delete-stamps ts cols row in
      record {
        seen = refl;
        deleted = omega (arith, del, st.deleted);
        cells = update_delete-cells ts cols st;
        below = omega (arith, up, st.below);
        exact = λ h. up ∙ st.exact (omega arith);
        known = λ c h. update_delete-known ts cols row c (st.known c h);
      }

  -- New columns of the table change nothing for its other rows.
  pub Refines-ensure_columns :
      (us : List (ℕ × Option V)) (cols : List ℕ) (o : Option (Row V)) (m : Merged V)
      → Refines db cols o m
      → Refines db (ensure_columns us cols) o m
  Refines-ensure_columns us cols none m r = r
  Refines-ensure_columns us cols (some row) m st = record {
    seen = st.seen;
    deleted = st.deleted;
    cells = st.cells;
    below = st.below;
    exact = st.exact;
    known = λ c h. st.known c (ensure_columns-has_column us cols c h).0;
  }

  -- A row shows what its specification shows.
  pub visible-view :
      (cols : List ℕ) (o : Option (Row V)) (m : Merged V)
      → Refines db cols o m
      → visible db o ≡ view db m
  unfolding visible view
  visible-view cols none m r = rw r
  visible-view cols (some row) m st =
      let shown : (c : ℕ) → (row.cols c).value ≡ (clear_cell db m.deleted (m.cells c)).value =
        λ c. ap (λ (x : Cell V). x.value) (st.cells c) in
      rw (fun_ext shown) (ground (arith, st.seen, st.deleted, st.below, st.exact))
