-- ===== src/Failover/Invariant.antt =====
-- What every history of events keeps, and which events may move the pod.
use porta_phone_adapter.Base.{ℕ, ◌<◌, ◌≡◌, Bool, Option, true, arith, List, [], ◌∷◌}
use porta_phone_adapter.Failover.{
  SiteState, Answer, Mode, main, standby, init, set_probe, set_standby_probe, next_targets,
  report_unreachable, report_slow, confirm_outage, run_probe, note_answers, tick_on_main,
  tick_on_standby, decide, poll_once, answered, mode_of,
}

-- The events that reach the tracker, in any order. A task ends only while it is in flight, and a
-- tick needs the monitor.
pub data Step (s : SiteState) : SiteState → Type 0 where
  probe_set : Step s (set_probe s)
  standby_probe_set : Step s (set_standby_probe s)
  request : (loop : Bool) (now : ℕ) → Step s (next_targets loop now main standby s).1
  unreachable : Step s (report_unreachable s)
  slow : (loop : Bool) → Step s (report_slow loop s)
  confirmed : (a : Answer) → s.confirm_in_flight ≡ true → Step s (confirm_outage a s)
  probed : (a : Answer) → s.probe_in_flight ≡ true → Step s (run_probe a s)
  tick : (a b : Answer) → s.monitor_task ≡ true → Step s (poll_once a b s)

pub data Reach (s : SiteState) : SiteState → Type 0 where
  here : Reach s s
  next : {t u : SiteState} → Reach s t → Step t u → Reach s u

-- The streaks stay below their thresholds, and a task runs only where its probe is set.
pub record Inv (s : SiteState) : Type 0 where
  pub back : s.normal_streak < s.switch_back_threshold
  pub down : s.main_down_streak < s.main_down_threshold
  pub probing : s.probe_in_flight ≡ true → s.probe ≡ true
  pub confirming : s.confirm_in_flight ≡ true → s.probe ≡ true
  pub monitoring : s.monitor_task ≡ true → (s.probe ≡ true) × (s.standby_probe ≡ true)

pub init-Inv : (a b c d : ℕ) → Inv (init a b c d)
unfolding init
init-Inv a b c d = ground arith

request-Inv :
    (loop : Bool) (now : ℕ) (s : SiteState) → Inv s → Inv (next_targets loop now main standby s).1
unfolding next_targets
request-Inv loop now s v = ground arith

run_probe-Inv : (a : Answer) (s : SiteState) → Inv s → Inv (run_probe a s)
unfolding run_probe
run_probe-Inv a s v = ground arith

report_slow-Inv : (loop : Bool) (s : SiteState) → Inv s → Inv (report_slow loop s)
unfolding report_slow
report_slow-Inv loop s v = ground arith

confirm_outage-Inv : (a : Answer) (s : SiteState) → Inv s → Inv (confirm_outage a s)
unfolding confirm_outage
confirm_outage-Inv a s v = ground arith

note_answers-Inv : (ms : List Mode) (s : SiteState) → Inv s → Inv (note_answers ms s)
unfolding note_answers
note_answers-Inv [] s v = v
note_answers-Inv (m ∷ ms) s v = ground arith

tick_on_main-Inv : (m b : Option Mode) (s : SiteState) → Inv s → Inv (tick_on_main m b s)
unfolding tick_on_main
tick_on_main-Inv m b s v = ground arith

tick_on_standby-Inv : (m b : Option Mode) (s : SiteState) → Inv s → Inv (tick_on_standby m b s)
unfolding tick_on_standby
tick_on_standby-Inv m b s v = ground arith

decide-Inv : (m b : Option Mode) (s : SiteState) → Inv s → Inv (decide m b s)
unfolding decide
decide-Inv m b s v = ground (arith, tick_on_main-Inv m b s v, tick_on_standby-Inv m b s v)

pub poll_once-Inv : (a b : Answer) (s : SiteState) → Inv s → Inv (poll_once a b s)
unfolding poll_once
poll_once-Inv a b s v = decide-Inv (mode_of a) (mode_of b) _ (
    note_answers-Inv (answered (mode_of a) (mode_of b))
      (record s { last_modes = (mode_of a, mode_of b) }) (ground arith))

Step-Inv : {s t : SiteState} → Step s t → Inv s → Inv t
unfolding set_probe set_standby_probe report_unreachable
Step-Inv probe_set v = ground arith
Step-Inv standby_probe_set v = ground arith
Step-Inv {s} (request loop now) v = request-Inv loop now s v
Step-Inv {s} unreachable v = ground arith
Step-Inv {s} (slow loop) v = report_slow-Inv loop s v
Step-Inv {s} (confirmed a _) v = confirm_outage-Inv a s v
Step-Inv {s} (probed a _) v = run_probe-Inv a s v
Step-Inv {s} (tick a b _) v = poll_once-Inv a b s v

-- After any sequence of events, from any state where it holds, the streaks are below their
-- thresholds (a streak that reaches its threshold has switched the pod), and no task runs without
-- its probe.
pub Reach-Inv : {s t : SiteState} → Reach s t → Inv s → Inv t
Reach-Inv here v = v
Reach-Inv (next r st) v = Step-Inv st (Reach-Inv r v)

-- The event is a monitor tick or the end of a reactive probe.
abbrev pub Decides : {s t : SiteState} → Step s t → Type 0
Decides (probed a _) = Unit {0}
Decides (tick a b _) = Unit {0}
Decides _ = ⊥

-- Once the sites report their mode, no event but a monitor tick or the end of a probe moves the pod
-- or ends that regime: no failed, slow or ordinary request, and no confirmation.
pub mode_aware_stays :
    {s t : SiteState} (st : Step s t)
    → ¬ Decides st
    → s.mode_aware ≡ true
    → (t.active ≡ s.active) × (t.mode_aware ≡ true)
unfolding set_probe set_standby_probe report_unreachable next_targets report_slow confirm_outage
mode_aware_stays probe_set h e = ground arith
mode_aware_stays standby_probe_set h e = ground arith
mode_aware_stays (request loop now) h e = ground arith
mode_aware_stays unreachable h e = ground arith
mode_aware_stays (slow loop) h e = ground arith
mode_aware_stays (confirmed a _) h e = ground arith
mode_aware_stays (probed a _) h e = absurd (h tt)
mode_aware_stays (tick a b _) h e = absurd (h tt)
