-- ===== src/Replica/Clock/Skew.antt =====
-- The window of `check_skew`.
use ubiquisync.Prelude.{◌+◌, ◌≤◌, ◌≡◌, ◌↔◌, arith, ok}
use ubiquisync.Hlc.{Timestamp, WallTime, wall}
use ubiquisync.Replica.Clock.{check_skew, max_skew_ms}

-- A remote timestamp is accepted exactly if it is at most 60 seconds ahead of the wall clock; the
-- past is never refused.
pub check_skew_lem :
    (now : WallTime) (remote : Timestamp)
    → (check_skew now remote ≡ ok tt) ↔ ((wall remote).millis ≤ now.millis + max_skew_ms)
unfolding check_skew
check_skew_lem now remote = (λ e. ground arith, λ h. ground arith)
