-- ===== src/CallHistory.antt =====
-- app/bss/adapters/portaswitch/adapter.py: the date range of a call history request. A datetime is
-- its microseconds from the first that the type has, with the offset of its zone where it has one.
pub mod Range
mod Tests
use porta_phone_adapter.Base.{
  ℕ, zero, suc, ◌+◌, ◌-◌, ◌*◌, ◌/◌, ◌%◌, ◌≡◌, max, Bool, true, false, not, ◌&&◌, ◌||◌, Option, none,
  some, ltb, leb, ◌==◌, if◌then◌else◌,
}

abbrev pub second : ℕ
second = 1000000

abbrev pub day : ℕ
day = 86400 * second

-- `CALL_HISTORY_MIN_DATE`, `CALL_HISTORY_MAX_DATE` and `datetime.max`
abbrev pub min_date : ℕ
min_date = 719162 * day

abbrev pub max_date : ℕ
max_date = 3286817 * day

abbrev pub last_datetime : ℕ
last_datetime = 3652059 * day - 1

-- A zone: none, or its offset from UTC.
pub data Zone : Type 0 where
  naive : Zone
  east west : ℕ → Zone

pub record Datetime : Type 0 where
  pub wall : ℕ
  pub zone : Zone

-- `_as_naive_utc`; a moment outside the type keeps its wall clock.
unfoldable pub naive_utc : ℕ → Zone → ℕ
naive_utc wall naive = wall
naive_utc wall (east offset) = if leb offset wall then wall - offset else wall
naive_utc wall (west offset) = if leb (wall + offset) last_datetime then wall + offset else wall

unfoldable pub as_naive_utc : Option Datetime → Option ℕ
as_naive_utc none = none
as_naive_utc (some t) = some (naive_utc (t.wall) (t.zone))

-- `_call_history_window_start`, with the window in hours.
unfoldable pub window_start : ℕ → ℕ → ℕ
window_start time_to window_hours =
    let window = window_hours * 3600 * second in
    if window_hours == 0
    then min_date
    else if leb (time_to - min_date) window
    then min_date
    else time_to - window

abbrev pub resolve_to : ℕ → ℕ → Option ℕ → ℕ
resolve_to now window_hours none = if window_hours == 0 then max_date else now
resolve_to now window_hours (some time_to) = time_to

abbrev pub resolve_from : ℕ → ℕ → Option ℕ → ℕ
resolve_from time_to window_hours none = window_start time_to window_hours
resolve_from time_to window_hours (some time_from) = time_from

-- The floor rounded up to the second, unless it lies in the last second of the type.
unfoldable pub round_floor : ℕ → ℕ
round_floor floor =
    if not (floor % second == 0) && ltb floor (last_datetime - last_datetime % second)
    then floor - floor % second + second
    else floor

unfoldable pub apply_floor : ℕ → Option ℕ → ℕ
apply_floor time_from none = time_from
apply_floor time_from (some floor) = max time_from (round_floor floor)

-- `_call_history_range`, at the naive UTC time `now`.
unfoldable pub call_history_range :
    ℕ → ℕ → Option Datetime → Option Datetime → Option Datetime → ℕ × ℕ
call_history_range now window_hours time_from time_to time_floor =
    let to = resolve_to now window_hours (as_naive_utc time_to) in
    let from = resolve_from to window_hours (as_naive_utc time_from) in
    (apply_floor from (as_naive_utc time_floor), to)
