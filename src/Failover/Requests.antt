-- ===== src/Failover/Requests.antt =====
-- The reactive mode: when a probe of the main site starts, and what its end can do.
use porta_phone_adapter.Base.{ℕ, ◌≤◌, ◌≡◌, refl, Bool, true, false, none, some, arith}
use porta_phone_adapter.Failover.{
  SiteState, raised, returned, main, standby, standalone, normal, init, set_probe,
  set_standby_probe, report_unreachable, next_targets, recently, run_probe, poll_once, note_answers,
  decide, tick_on_main, tick_on_standby, switch,
}
use porta_phone_adapter.Failover.Invariant.{Step, Reach, here, next}

-- A request sends the probe off only from a reactive pod on the standby, with the probe set and
-- none in flight, and `recheck_interval` after the last one; it then notes the time.
pub probe_spacing :
    (loop : Bool) (now : ℕ) (s : SiteState)
    → s.probe_in_flight ≡ false
    → ((next_targets loop now main standby s).1).probe_in_flight ≡ true
    → let t = (next_targets loop now main standby s).1 in
      (s.mode_aware ≡ false)
      × (s.active ≡ standby)
      × (s.probe ≡ true)
      × (t.last_probe ≡ some now)
      × (recently now s.recheck_interval s.last_probe ≡ false)
unfolding next_targets
probe_spacing loop now s e h =
    (ground arith, ground arith, ground arith, ground arith, ground arith)

-- The events of an outage at the moment the sites begin to report their mode.
pub outage : ℕ → ℕ → ℕ → ℕ → SiteState
outage recheck back poll down =
    poll_once raised (returned (some standalone))
      (next_targets true 0 main standby (
        report_unreachable
          (next_targets true 0 main standby
            (set_standby_probe (set_probe (init recheck back poll down)))).1)).1

pub outage-Reach :
    (recheck back poll down : ℕ)
    → Reach (init recheck back poll down) (outage recheck back poll down)
unfolding outage next_targets set_probe set_standby_probe report_unreachable init
outage-Reach recheck back poll down =
    next
      (next
        (next (next (next (next here Step.probe_set) Step.standby_probe_set) (Step.request true 0))
          Step.unreachable)
        (Step.request true 0))
      (Step.tick raised (returned (some standalone)) refl)

-- With a switch-back threshold of one there is an order of events from the start of a pod after
-- which its mode-aware tracker, whose standby has just reported standalone while the main site gave
-- no answer, is on the main site: a probe sent off before the sites reported their mode ends with
-- normal.
pub late_probe_overrides_monitor :
    (recheck back poll down : ℕ)
    → back ≤ 1
    → (s : SiteState) × Reach (init recheck back poll down) s
      × (s.mode_aware ≡ true)
      × (s.last_modes ≡ (none, some standalone))
      × (s.active ≡ main)
unfolding outage init set_probe set_standby_probe next_targets report_unreachable poll_once
    note_answers decide tick_on_main tick_on_standby switch run_probe
late_probe_overrides_monitor recheck back poll down h = (
  run_probe (returned (some normal)) (outage recheck back poll down),
  next (outage-Reach recheck back poll down) (Step.probed (returned (some normal)) refl),
  ground arith,
  ground arith,
  ground arith,
)
