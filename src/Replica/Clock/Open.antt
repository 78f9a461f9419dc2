-- ===== src/Replica/Clock/Open.antt =====
-- The clock of a replica that opens: `load_hlc`, and crates/ubiquisync-sql/src/db/row.rs as far as
-- it reads the row.
use ubiquisync.Prelude.{
  ℕ, ◌≤◌, ◌≡◌, Option, none, some, List, [], ◌∷◌, In, length, ltb, refl, arith,
}
use ubiquisync.Prelude.{Result, ok, err, map_err, ◌>>=◌, if◌then◌else◌}
use ubiquisync.Hlc.{Timestamp}
use ubiquisync.Replica.Clock.{Advance, DbError, HlcError, Phase, State}
use ubiquisync.Replica.Clock.Invariant.{AdvanceOk, Inv, RowOk, All-In}

module _ {A : Type 0} where
  -- A row of the result is what its decoding gives.
  abbrev first : List (Result DbError A) → Result DbError (Option A)
  first [] = ok none
  first (ok r ∷ rows) = ok (some r)
  first (err e ∷ rows) = err e

  abbrev one : List (Result DbError A) → Result DbError (Option A)
  one rows =
      if ltb 1 (length rows) then err (DbError.unexpected_row_count (length rows)) else first rows

abbrev or_default : Option Timestamp → Timestamp
or_default none = record { value = 0 }
or_default (some ts) = ts

-- The argument is what the query for the row with id 1 gives.
unfoldable pub load_hlc :
    Result DbError (List (Result DbError Timestamp)) → Result HlcError Timestamp
load_hlc selected = do
  rows ← map_err HlcError.db selected
  row ← map_err HlcError.db (one rows)
  ok (or_default row)

-- What a table with the primary key id gives to that query.
abbrev pub select_row : Option ℕ → List (Result DbError Timestamp)
select_row none = []
select_row (some row) = ok (record { value = row }) ∷ []

-- A replica that opened with this clock on this row, before any of its calls has loaded the clock.
abbrev pub opened : Timestamp → Option ℕ → (ℕ → Advance) → State
opened ts row advances = record {
  hlc = ts.value;
  calls = λ i. Phase.entered (advances i);
  stored = row;
  issued = [];
  persisted = [];
  executed = [];
}

loaded-RowOk :
    (row : Option ℕ) (ts : Timestamp)
    → load_hlc (ok (select_row row)) ≡ ok ts
    → RowOk ts.value row []
unfolding load_hlc
loaded-RowOk none ts e = refl
loaded-RowOk (some row) ts e = (tt, ground arith)

-- A replica that opens on a row starts in the invariant.
pub opened-Inv :
    (row : Option ℕ) (ts : Timestamp) (advances : ℕ → Advance)
    → load_hlc (ok (select_row row)) ≡ ok ts
    → ((i : ℕ) → AdvanceOk (advances i))
    → Inv (opened ts row advances)
opened-Inv row ts advances e advances_ok = record {
  calls_ok = advances_ok;
  bounded = tt;
  descending = tt;
  alone = λ i j x h. cc;
  waiting = λ i x h. cc;
  persisted_issued = λ x m. m;
  once = tt;
  row_ok = loaded-RowOk row ts e;
}

at_least :
    (hlc t : ℕ) (row : Option ℕ) (executed : List ℕ) (ts : Timestamp)
    → RowOk hlc row executed
    → In t executed
    → load_hlc (ok (select_row row)) ≡ ok ts
    → t ≤ ts.value
unfolding load_hlc
at_least hlc t none executed ts e m q = absurd (rw e at m)
at_least hlc t (some row) executed ts (below, _) m q =
    let l = All-In row t executed below m in ground arith

-- A replica that opens again on the row takes a clock no less than any timestamp whose statement
-- ran before.
pub load_hlc-executed :
    (s : State) (t : ℕ) (ts : Timestamp)
    → Inv s
    → In t s.executed
    → load_hlc (ok (select_row s.stored)) ≡ ok ts
    → t ≤ ts.value
load_hlc-executed s t ts inv m q = at_least s.hlc t s.stored s.executed ts inv.row_ok m q
