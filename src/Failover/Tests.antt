-- ===== src/Failover/Tests.antt =====
-- The theorems on the active-site tracker at concrete pods.
use porta_phone_adapter.Base.{◌≡◌, refl, inl, inr, true, false, none, some, List, [], ◌∷◌, arith}
use porta_phone_adapter.Failover.{
  SiteState, Answer, raised, returned, main, standby, standalone, normal, secondary, init,
}
use porta_phone_adapter.Failover.Invariant.{Reach, Inv, init-Inv, Reach-Inv}
use porta_phone_adapter.Failover.Ticks.{ticks, recovery_returns, lost_main_switches}
use porta_phone_adapter.Failover.Requests.{outage, outage-Reach, late_probe_overrides_monitor}

-- A mode-aware pod on the main site that has seen one down tick of three.
abbrev on_main : SiteState
on_main = record {
  active = main;
  recheck_interval = 30;
  switch_back_threshold = 2;
  last_probe = none;
  normal_streak = 0;
  probe_in_flight = false;
  confirm_in_flight = false;
  probe = true;
  standby_probe = true;
  poll_interval = 10;
  main_down_threshold = 3;
  mode_aware = true;
  main_down_streak = 1;
  last_modes = (none, some normal);
  monitor_task = true;
}

abbrev on_standby : SiteState
on_standby = record on_main { active = standby; main_down_streak = 0 }

on_standby-Inv : Inv on_standby
on_standby-Inv = record {
  back = omega arith;
  down = omega arith;
  probing = λ e. refl;
  confirming = λ e. refl;
  monitoring = λ e. (refl, refl);
}

Reach-Inv_example : Inv (outage 30 2 10 3)
Reach-Inv_example = Reach-Inv (outage-Reach 30 2 10 3) (init-Inv 30 2 10 3)

abbrev down_ticks : List (Answer × Answer)
down_ticks =
    (raised, returned (some normal)) ∷ (returned (some secondary), returned (some normal)) ∷ []

lost_main_switches_example : (ticks down_ticks on_main).active ≡ standby
lost_main_switches_example =
    lost_main_switches down_ticks on_main (inl refl, refl, refl, (inr refl, refl, refl, tt)) refl
      refl (omega arith) (omega arith)

abbrev back_ticks : List (Answer × Answer)
back_ticks =
    (returned (some normal), returned (some secondary)) ∷ (returned (some normal), raised) ∷ []

recovery_returns_example : (ticks back_ticks on_standby).active ≡ main
recovery_returns_example =
    recovery_returns back_ticks on_standby on_standby-Inv (refl, refl, (refl, refl, tt))
      (omega arith)

late_probe_overrides_monitor_example :
    (s : SiteState) × Reach (init 30 1 10 3) s
    × (s.mode_aware ≡ true)
    × (s.last_modes ≡ (none, some standalone))
    × (s.active ≡ main)
late_probe_overrides_monitor_example = late_probe_overrides_monitor 30 1 10 3 (omega arith)
