-- ===== src/CallHistory/Tests.antt =====
-- The theorems on the call history range at concrete requests.
use porta_phone_adapter.Base.{ℕ, ◌+◌, ◌*◌, ◌/◌, ◌≤◌, none, some, arith}
use porta_phone_adapter.CallHistory.{
  second, day, Datetime, naive, east, naive_utc, call_history_range,
}
use porta_phone_adapter.CallHistory.Range.{cleared_stays_cleared}

-- 2025-01-01, and half a second later in a zone an hour to the east.
abbrev today : ℕ
today = 739251 * day

abbrev cleared : Datetime
cleared = record { wall = today + 500000; zone = east (3600 * second) }

abbrev asked : Datetime
asked = record { wall = today; zone = naive }

cleared_stays_cleared_example :
    naive_utc (cleared.wall) (cleared.zone)
    ≤ (call_history_range today 24 none (some asked) (some cleared)).0 / second * second
unfolding naive_utc
cleared_stays_cleared_example =
    cleared_stays_cleared today 24 none (some asked) cleared (ground arith)
