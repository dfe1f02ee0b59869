-- ===== src/CallHistory/Range.antt =====
-- What the range of a call history request holds.
use porta_phone_adapter.Base.{
  ℕ, ◌+◌, ◌-◌, ◌*◌, ◌/◌, ◌%◌, ◌≤◌, ◌<◌, ◌≡◌, ◌≢◌, ◌⊎◌, inl, inr, refl, false, Option, none, some,
  arith, leb, ◌==◌, Bool-cases,
}
use porta_phone_adapter.CallHistory.{
  second, min_date, last_datetime, Datetime, naive_utc, as_naive_utc, window_start, round_floor,
  apply_floor, call_history_range,
}

round_floor-le : (floor : ℕ) → floor ≤ round_floor floor
unfolding round_floor
round_floor-le floor = ground arith

round_floor-whole :
    (floor : ℕ) → floor < last_datetime - last_datetime % second → round_floor floor % second ≡ 0
unfolding round_floor
round_floor-whole floor h = ground arith

-- A history that was cleared stays cleared: whatever range the client asks for, the second that
-- the billing is sent as the start of the range is not before the moment of clearing, for every
-- such moment before the last second that a datetime can hold.
pub cleared_stays_cleared :
    (now window_hours : ℕ) (time_from time_to : Option Datetime) (floor : Datetime)
    → naive_utc (floor.wall) (floor.zone) < last_datetime - last_datetime % second
    → let (from, to) = call_history_range now window_hours time_from time_to (some floor) in
      naive_utc (floor.wall) (floor.zone) ≤ from / second * second
unfolding call_history_range apply_floor as_naive_utc
cleared_stays_cleared now window_hours time_from time_to floor h =
    let f = naive_utc (floor.wall) (floor.zone) in
    let le = round_floor-le f in let whole = round_floor-whole f h in omega arith

window_start-cases :
    (to window_hours : ℕ)
    → window_hours ≢ 0
    → ((window_start to window_hours ≡ min_date) × (to ≤ min_date + window_hours * 3600 * second))
      ⊎ ((window_start to window_hours + window_hours * 3600 * second ≡ to)
          × (min_date < window_start to window_hours))
unfolding window_start
window_start-cases to window_hours on =
    let off : (window_hours == 0) ≡ false = ground arith in
    elim (Bool-cases (leb (to - min_date) (window_hours * 3600 * second))) [
      | inl a ↦ rw (off, a) (inl (refl, ground arith))
      | inr a ↦ rw (off, a) (inr (ground arith, ground arith))
    ]

-- The bounds that the client gives are kept, and only a missing start is bounded: without a
-- cleared history, a given end and a given start are the range, as UTC; and with the window on, a
-- missing start lies the window before the end, or at the earliest date where the end is at most
-- a window after that date.
pub range_window :
    (now window_hours : ℕ) (time_to : Datetime) (time_from : Option Datetime)
    → window_hours ≢ 0
    → let (from, to) = call_history_range now window_hours time_from (some time_to) none in
      (to ≡ naive_utc (time_to.wall) (time_to.zone))
      × ((as_naive_utc time_from ≡ some from)
          ⊎ ((time_from ≡ none)
              × (((from ≡ min_date) × (to ≤ min_date + window_hours * 3600 * second))
                  ⊎ ((from + window_hours * 3600 * second ≡ to) × (min_date < from)))))
unfolding call_history_range apply_floor as_naive_utc
range_window now window_hours time_to none on =
    (refl, inr (refl, window_start-cases (naive_utc (time_to.wall) (time_to.zone)) window_hours on))
range_window now window_hours time_to (some t) on = (refl, inl refl)
