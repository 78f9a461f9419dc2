-- ===== src/Examples/Hlc.antt =====
-- Timestamps at the edges of their range.
use ubiquisync.Prelude.{◌^◌, ◌-◌, ◌+◌, ◌*◌, ◌≡◌, ◌↔◌, arith, max, ok, ltb, if◌then◌else◌}
use ubiquisync.Hlc.{Timestamp, WallTime, millis_max, next_local, next_after}
use ubiquisync.Hlc.{try_from_i64, try_from_u64, IsTimestamp, to_i64, to_u64}
use ubiquisync.Hlc.Laws.{next_local_lem, next_after_lem, try_from_lem, at_value, overflow}

abbrev packed : Timestamp
packed = record { value = 3 * 2 ^ 16 + 5 }

-- The counter is full, so that the next timestamp is in the next millisecond.
abbrev full : Timestamp
full = record { value = 4 * 2 ^ 16 - 1 }

abbrev at_three : WallTime
at_three = record { millis = 3 }

next_local_lem_example :
    next_local full at_three
    ≡ (if ltb millis_max 3 then overflow else at_value (max (full.value + 1) (3 * 2 ^ 16)))
next_local_lem_example = next_local_lem full at_three (omega arith)

next_after_lem_example : next_after packed full ≡ at_value (max packed.value (full.value + 1))
next_after_lem_example = next_after_lem packed full (omega arith) (omega arith)

try_from_lem_example :
    ((try_from_i64 (2 ^ 63) ≡ ok packed) ↔ (IsTimestamp packed × (to_i64 packed ≡ 2 ^ 63)))
    × ((try_from_u64 (2 ^ 63) ≡ ok packed) ↔ (IsTimestamp packed × (to_u64 packed ≡ 2 ^ 63)))
try_from_lem_example = try_from_lem (2 ^ 63) packed
