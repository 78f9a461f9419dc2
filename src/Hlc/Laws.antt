-- ===== src/Hlc/Laws.antt =====
-- Parts, order and successor of a timestamp, and what its clock operations return.
use ubiquisync.Prelude.{ℕ, ◌+◌, ◌*◌, ◌^◌, ◌≤◌, ◌<◌, ◌≡◌, ◌↔◌, ◌⊎◌, arith, max}
use ubiquisync.Prelude.{Result, ok, err, ltb, if◌then◌else◌}
use ubiquisync.Prelude.Bits.{bit_or_fields_left}
use ubiquisync.Hlc.{Timestamp, WallTime, TimestampOverflow, millis_max, from_parts}
use ubiquisync.Hlc.{
  from_millis_and_counter, millis, counter, bump, next_local, next_after, IsTimestamp,
}
use ubiquisync.Hlc.{try_from_i64, try_from_u64, to_i64, to_u64}

abbrev pub overflow : Result TimestampOverflow Timestamp
overflow = err TimestampOverflow.timestamp_overflow

-- The packed value is the sum of its parts.
pub from_millis_and_counter-eq :
    (m c : ℕ)
    → c < 2 ^ 16
    → from_millis_and_counter m c
      ≡ (if ltb millis_max m then overflow else ok (record { value = m * 2 ^ 16 + c }))
unfolding from_millis_and_counter
from_millis_and_counter-eq m c hc = ground (arith, bit_or_fields_left 16 c m hc)

-- Packing a counter of 16 bits returns a timestamp exactly if the milliseconds have at most 47 bits
-- and the timestamp has these milliseconds and this counter.
pub from_parts_lem :
    (now : WallTime) (c : ℕ) (t : Timestamp)
    → c < 2 ^ 16
    → (from_parts now c ≡ ok t)
      ↔ ((now.millis ≤ millis_max) × (millis t ≡ now.millis) × (counter t ≡ c))
unfolding from_parts
from_parts_lem now c t hc = (
  λ e. ground (arith, from_millis_and_counter-eq now.millis c hc),
  λ h. ground (arith, from_millis_and_counter-eq now.millis c hc),
)

-- Timestamps are ordered as their parts are: by milliseconds, then by counter.
pub lt_iff_parts :
    (a b : Timestamp)
    → (a.value < b.value)
      ↔ ((millis a < millis b) ⊎ ((millis a ≡ millis b) × (counter a < counter b)))
lt_iff_parts a b = (λ h. grind arith, λ h. omega arith)

-- `bump` of a timestamp that fits an i64 is the successor, and fails exactly at the last timestamp.
pub bump_lem :
    (t : Timestamp)
    → IsTimestamp t
    → bump t
      ≡ (if ltb (t.value + 1) (2 ^ 63) then ok (record { value = t.value + 1 }) else overflow)
unfolding bump
bump_lem t h = ground (
  arith,
  from_millis_and_counter-eq (millis t + 1) 0 (omega arith),
  from_millis_and_counter-eq (millis t) (counter t + 1),
)

-- A timestamp with the given value, or an overflow where it does not fit an i64.
abbrev pub at_value : ℕ → Result TimestampOverflow Timestamp
at_value v = if ltb v (2 ^ 63) then ok (record { value = v }) else overflow

-- On a clock that fits an i64 `next_local` gives the least timestamp that is above the clock and not behind the wall time, and
-- fails exactly where the wall time or that timestamp does not fit.
pub next_local_lem :
    (t : Timestamp) (now : WallTime)
    → IsTimestamp t
    → next_local t now ≡ (
        if ltb millis_max now.millis
        then overflow
        else at_value (max (t.value + 1) (now.millis * 2 ^ 16)))
unfolding next_local from_parts
next_local_lem t now h =
    ground (arith, from_millis_and_counter-eq now.millis 0 (omega arith), bump_lem t h)

-- For timestamps that fit an i64 `next_after` gives the least timestamp that is above the observed one and not below the clock,
-- and fails exactly where that does not fit.
pub next_after_lem :
    (t other : Timestamp)
    → IsTimestamp t
    → IsTimestamp other
    → next_after t other ≡ at_value (max t.value (other.value + 1))
unfolding next_after
next_after_lem t other h k = ground (arith, bump_lem other k)

-- The i64 that is stored for a timestamp converts back, and no negative i64 or u64 past the range
-- of an i64 converts.
pub try_from_lem :
    (v : ℕ) (t : Timestamp)
    → ((try_from_i64 v ≡ ok t) ↔ (IsTimestamp t × (to_i64 t ≡ v)))
      × ((try_from_u64 v ≡ ok t) ↔ (IsTimestamp t × (to_u64 t ≡ v)))
unfolding try_from_i64 try_from_u64
try_from_lem v t = ((λ e. ground arith, λ h. ground arith), (λ e. ground arith, λ h. ground arith))
