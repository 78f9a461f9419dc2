-- ===== src/Replica/Clock.antt =====
-- crates/ubiquisync-sql/src/replica/hlc.rs: the replica's clock, one atomic u64 that all threads
-- advance by compare-and-swap.
pub mod Skew
pub mod Invariant
pub mod Issue
pub mod Open
use ubiquisync.Prelude.{Bytes, In, Option, none, some}
use ubiquisync.Prelude.{ℕ, ◌-◌, ◌≡◌, ◌≢◌, List, ◌∷◌, Bool, ◌&&◌, ltb, ◌==◌, if◌then◌else◌}
use ubiquisync.Prelude.{Result, ok, err, map_err, ◌>>=◌}
use ubiquisync.Hlc.{
  Timestamp, WallTime, TimestampOverflow, next_local, next_after, try_from_u64, wall,
}

-- An error of the database: the texts and the cause that some of them carry are opaque bytes, and a
-- type of the database is a number. An i128 is its two's complement pattern.
pub data DbError : Type 0 where
  sql : Bytes → DbError
  unique_violation : DbError
  type_mismatch : Bytes → Option ℕ → DbError
  decode_error : Bytes → DbError
  integer_out_of_range : ℕ → DbError
  column_out_of_bounds : ℕ → DbError
  column_value_count_mismatch : ℕ → ℕ → DbError
  unexpected_null : DbError
  unexpected_row_count : ℕ → DbError
  readonly_violation : DbError

pub data HlcError : Type 0 where
  db : DbError → HlcError
  overflow : TimestampOverflow → HlcError
  skew : Timestamp → WallTime → HlcError

abbrev pub max_skew_ms : ℕ
max_skew_ms = 60_000

unfoldable pub check_skew : WallTime → Timestamp → Result HlcError (Unit {0})
check_skew local remote =
    let remote_ms = wall remote in
    if ltb local.millis remote_ms.millis && ltb max_skew_ms (remote_ms.millis - local.millis)
    then err (HlcError.skew remote local)
    else ok tt

-- The closures that `local_hlc` and `observe_remote_hlc` hand to `update_hlc`.
pub data Advance : Type 0 where
  local : WallTime → Advance
  observe : Timestamp → Advance

unfoldable pub advance : Advance → Timestamp → Result TimestampOverflow Timestamp
advance (local wall_ms) ts = next_local ts wall_ms
advance (observe remote) ts = next_after ts remote

-- One round of the loop of `update_hlc` before its compare-and-swap: the timestamp to store.
unfoldable pub propose : Advance → ℕ → Result TimestampOverflow Timestamp
unfolding advance
propose f last_raw = do last_ts ← try_from_u64 last_raw; advance f last_ts

-- Where a call of `update_hlc` stands: before its load, with the value that it last read, after its
-- compare-and-swap and before `persist_hlc`, or finished.
pub data Phase : Type 0 where
  entered : Advance → Phase
  looping : Advance → ℕ → Phase
  exchanged : Timestamp → Phase
  returned : Timestamp → Phase
  failed : HlcError → Phase

-- The shared atomic, the calls in progress, and the timestamp in the row of the hlc table, if there
-- is one. Three histories, last first: the timestamps that an exchange stored in the atomic, those
-- whose statement `persist_hlc` put in a batch, in the order of its calls, and those whose statement
-- the database ran.
pub record State : Type 0 where
  pub hlc : ℕ
  pub calls : ℕ → Phase
  pub stored : Option ℕ
  pub issued : List ℕ
  pub persisted : List ℕ
  pub executed : List ℕ

abbrev pub put_phase : (ℕ → Phase) → ℕ → Phase → ℕ → Phase
put_phase calls i p j = if i == j then p else calls j

abbrev pub to_phase : State → ℕ → Phase → State
to_phase s i p = record s { calls = put_phase s.calls i p }

-- The statement of `persist_hlc`: the row is inserted, and on a conflict it takes the timestamp if
-- that is greater.
unfoldable pub upsert_hlc : ℕ → Option ℕ → ℕ
upsert_hlc excluded none = excluded
upsert_hlc excluded (some row) = if ltb row excluded then excluded else row

-- One atomic access of one call, one call of `persist_hlc`, or one statement that the database runs.
-- `compare_exchange_weak` may fail though the value is the expected one, so `retry` has no condition
-- on it. Any statement that is in a batch may run, whichever batch came first.
pub data Step (s : State) : State → Type 0 where
  load :
      (i : ℕ) (f : Advance)
      → s.calls i ≡ Phase.entered f
      → Step s (to_phase s i (Phase.looping f s.hlc))
  overflow :
      (i : ℕ) (f : Advance) (last_raw : ℕ) (e : TimestampOverflow)
      → s.calls i ≡ Phase.looping f last_raw
      → propose f last_raw ≡ err e
      → Step s (to_phase s i (Phase.failed (HlcError.overflow e)))
  unchanged :
      (i : ℕ) (f : Advance) (last_raw : ℕ) (next_ts : Timestamp)
      → s.calls i ≡ Phase.looping f last_raw
      → propose f last_raw ≡ ok next_ts
      → next_ts.value ≡ last_raw
      → Step s (to_phase s i (Phase.returned next_ts))
  exchange :
      (i : ℕ) (f : Advance) (last_raw : ℕ) (next_ts : Timestamp)
      → s.calls i ≡ Phase.looping f last_raw
      → propose f last_raw ≡ ok next_ts
      → next_ts.value ≢ last_raw
      → s.hlc ≡ last_raw
      → Step s (record s {
        hlc = next_ts.value;
        calls = put_phase s.calls i (Phase.exchanged next_ts);
        issued = next_ts.value ∷ s.issued;
      })
  retry :
      (i : ℕ) (f : Advance) (last_raw : ℕ) (next_ts : Timestamp)
      → s.calls i ≡ Phase.looping f last_raw
      → propose f last_raw ≡ ok next_ts
      → next_ts.value ≢ last_raw
      → Step s (to_phase s i (Phase.looping f s.hlc))
  persist :
      (i : ℕ) (ts : Timestamp)
      → s.calls i ≡ Phase.exchanged ts
      → Step s (record s {
        calls = put_phase s.calls i (Phase.returned ts);
        persisted = ts.value ∷ s.persisted;
      })
  persist_failed :
      (i : ℕ) (ts : Timestamp) (e : DbError)
      → s.calls i ≡ Phase.exchanged ts
      → Step s (to_phase s i (Phase.failed (HlcError.db e)))
  execute :
      (ts : ℕ)
      → In ts s.persisted
      → Step s (record s { stored = some (upsert_hlc ts s.stored); executed = ts ∷ s.executed })

pub data Reach (s : State) : State → Type 0 where
  here : Reach s s
  next : {t u : State} → Reach s t → Step t u → Reach s u
