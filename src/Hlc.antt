-- ===== src/Hlc.antt =====
-- crates/ubiquisync-core/src/hlc/mod.rs: the hybrid logical clock. A timestamp packs 47 bits of
-- milliseconds above a 16-bit counter; it fits an i64.
pub mod Laws
use ubiquisync.Prelude.{ℕ, ◌+◌, ◌-◌, ◌*◌, ◌/◌, ◌%◌, ◌^◌, ◌<◌, bit_or, Bool}
use ubiquisync.Prelude.{Result, ok, err, ltb, leb, ◌==◌, if◌then◌else◌, ◌>>=◌}

pub record Timestamp : Type 0 where
  pub value : ℕ

pub record WallTime : Type 0 where
  pub millis : ℕ

pub data TimestampOverflow : Type 0 where
  timestamp_overflow : TimestampOverflow

abbrev pub counter_bits : ℕ
counter_bits = 16

abbrev pub millis_bits : ℕ
millis_bits = 63 - counter_bits

abbrev pub millis_max : ℕ
millis_max = 2 ^ millis_bits - 1

abbrev pub u16_max : ℕ
u16_max = 2 ^ 16 - 1

unfoldable pub from_millis_and_counter : ℕ → ℕ → Result TimestampOverflow Timestamp
from_millis_and_counter millis counter =
    if ltb millis_max millis
    then err TimestampOverflow.timestamp_overflow
    else ok (record { value = bit_or (millis * 2 ^ 16 % 2 ^ 64) counter })

unfoldable pub from_parts : WallTime → ℕ → Result TimestampOverflow Timestamp
from_parts timestamp counter = from_millis_and_counter timestamp.millis counter

-- `fn millis` and `fn counter` of a timestamp; `as u16` keeps the low 16 bits.
abbrev pub millis : Timestamp → ℕ
millis t = t.value / 2 ^ 16

abbrev pub counter : Timestamp → ℕ
counter t = t.value % 2 ^ 16

abbrev pub wall : Timestamp → WallTime
wall t = record { millis = millis t }

unfoldable pub bump : Timestamp → Result TimestampOverflow Timestamp
bump t =
    if counter t == u16_max
    then from_millis_and_counter (millis t + 1) 0
    else from_millis_and_counter (millis t) (counter t + 1)

unfoldable pub next_local : Timestamp → WallTime → Result TimestampOverflow Timestamp
next_local t now = do new ← from_parts now 0; if ltb t.value new.value then ok new else bump t

unfoldable pub next_after : Timestamp → Timestamp → Result TimestampOverflow Timestamp
next_after t other = if leb t.value other.value then bump other else ok t

unfoldable pub try_from_u64 : ℕ → Result TimestampOverflow Timestamp
try_from_u64 value =
    if ltb (2 ^ 63 - 1) value
    then err TimestampOverflow.timestamp_overflow
    else ok (record { value = value })

-- An i64 is its two's complement pattern: it is negative from 2 ^ 63 on.
unfoldable pub try_from_i64 : ℕ → Result TimestampOverflow Timestamp
try_from_i64 value =
    if leb (2 ^ 63) value
    then err TimestampOverflow.timestamp_overflow
    else ok (record { value = value })

-- `From<Timestamp> for u64`, and for i64 by `as i64`.
abbrev pub to_u64 : Timestamp → ℕ
to_u64 t = t.value

abbrev pub to_i64 : Timestamp → ℕ
to_i64 t = t.value % 2 ^ 64

-- What the constructors ensure: the value fits an i64.
abbrev pub IsTimestamp : Timestamp → Type 0
IsTimestamp t = t.value < 2 ^ 63
