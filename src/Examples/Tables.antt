-- ===== src/Examples/Tables.antt =====
-- A log of two ops on one row, over a table whose values are numbers.
use ubiquisync.Prelude.{ℕ, ◌≡◌, refl, arith, List, [], ◌∷◌, ◌++◌, Option, none, some}
use ubiquisync.Prelude.{ltb}
use ubiquisync.Prelude.{same_bytes, same_bytes_iff}
use ubiquisync.Tables.Op.{Op, Compare}
use ubiquisync.Tables.Reducer.{replay, visible, update_upsert, update_delete, insert_upsert}
use ubiquisync.Tables.Reducer.{merge_cell, wins, ensure_columns}
use ubiquisync.Tables.Reducer.Merged.{view, absorb_all}
use ubiquisync.Tables.Reducer.Replay.{no_tables, untouched_rows, replay-view}
use ubiquisync.Tables.Reducer.Converge.{replay-perm, replay_twice}
use mathlib.Core.List.{Permᴰ}

-- Numbers under their order.
abbrev numbers : Compare ℕ
numbers = record {
  gt = λ a b. ltb b a;
  same_key = same_bytes;
  gt_irrefl = λ a. ground arith;
  gt_trans = λ a b c h k. ground arith;
  gt_total = λ a b h k. ground arith;
  same_key_iff = same_bytes_iff;
}

-- At 5 columns 1 and 2 are set to 40 and NULL, at 3 the row is deleted.
abbrev written : ℕ × Op ℕ
written = (
  5,
  Op.upsert (record {
    table_id = 7;
    primary_key = 1 ∷ [];
    sets = record { column_id = 1; value = 40 } ∷ [];
    nulls = 2 ∷ [];
  }),
)

abbrev deleted : ℕ × Op ℕ
deleted = (3, Op.delete (record { table_id = 7; primary_key = 1 ∷ [] }))

-- Whether a row shows, and what it shows in a column.
abbrev column : ℕ → Option (ℕ → Option ℕ) → Option (Option ℕ)
column c none = none
column c (some cells) = some (cells c)

abbrev delete_at : ℕ → ℕ × Op ℕ
delete_at ts = (ts, Op.delete (record { table_id = 7; primary_key = 1 ∷ [] }))

abbrev shown : List (ℕ × Op ℕ) → ℕ → Option (Option ℕ)
shown log c = column c (visible numbers ((replay numbers log (no_tables numbers) 7).rows (1 ∷ [])))

-- A write stays against a delete at its timestamp, whichever comes first.
tie_before : shown (delete_at 5 ∷ written ∷ []) 1 ≡ some (some 40)
unfolding visible replay update_upsert merge_cell wins
tie_before = refl

tie_after : shown (written ∷ delete_at 5 ∷ []) 1 ≡ some (some 40)
unfolding visible replay update_delete insert_upsert ensure_columns
tie_after = refl

newer_delete : shown (written ∷ delete_at 6 ∷ []) 1 ≡ none
unfolding visible replay update_delete insert_upsert
newer_delete = refl

-- A delete at 0 alone leaves a row of NULLs.
delete_at_zero : shown (delete_at 0 ∷ []) 1 ≡ some none
unfolding visible replay
delete_at_zero = refl

delete_at_one : shown (delete_at 1 ∷ []) 1 ≡ none
unfolding visible replay
delete_at_one = refl

replay-view_example :
    visible numbers ((replay numbers (written ∷ deleted ∷ []) (no_tables numbers) 7).rows (1 ∷ []))
    ≡ view numbers (absorb_all numbers (written ∷ deleted ∷ []) (untouched_rows numbers) 7 (1 ∷ []))
replay-view_example = replay-view numbers (written ∷ deleted ∷ []) 7 (1 ∷ [])

replay-perm_example :
    visible numbers ((replay numbers (written ∷ deleted ∷ []) (no_tables numbers) 7).rows (1 ∷ []))
    ≡ visible numbers
        ((replay numbers (deleted ∷ written ∷ []) (no_tables numbers) 7).rows (1 ∷ []))
replay-perm_example =
    replay-perm numbers (written ∷ deleted ∷ []) (deleted ∷ written ∷ []) (Permᴰ.swap refl refl) 7
      (1 ∷ [])

replay_twice_example :
    visible numbers (
      (replay numbers (written ∷ (deleted ∷ []) ++ (written ∷ [])) (no_tables numbers) 7).rows
        (1 ∷ []))
    ≡ visible numbers
        ((replay numbers (written ∷ deleted ∷ []) (no_tables numbers) 7).rows (1 ∷ []))
replay_twice_example = replay_twice numbers written (deleted ∷ []) 7 (1 ∷ [])
