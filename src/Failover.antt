-- ===== src/Failover.antt =====
-- app/bss/adapters/portaswitch/failover.py: the active-site tracker of one pod.
-- Time is a natural number of seconds and an argument; whether an event loop runs, and what a
-- probe answered, are arguments too. A fire-and-forget task is its in-flight flag: the state with
-- the flag set is between the start of the task and its end, and the end is an operation here.
pub mod Invariant
pub mod Ticks
pub mod Requests
mod Tests
use Prim.Native.String.{String}
use porta_phone_adapter.Base.{
  ℕ, ◌+◌, ◌-◌, max, Bool, true, false, not, ◌&&◌, ◌||◌, Option, none, some, List, [], ◌∷◌, ltb, leb,
  if◌then◌else◌,
}

-- `Site`
pub data Site : Type 0 where
  main standby : Site

-- The `operating_mode` of a site: the four of BA-47641, "unknown", and any other text.
pub data Mode : Type 0 where
  normal secondary standalone read_only unknown : Mode
  other : String → Mode

-- What a probe coroutine did: it raised (or ran out of time), or it returned a mode or None.
pub data Answer : Type 0 where
  raised : Answer
  returned : Option Mode → Answer

-- `SiteState`, after `__init__`. `probe` and `standby_probe` say whether the callables are set.
pub record SiteState : Type 0 where
  pub active : Site
  pub recheck_interval : ℕ
  pub switch_back_threshold : ℕ
  pub last_probe : Option ℕ
  pub normal_streak : ℕ
  pub probe_in_flight : Bool
  pub confirm_in_flight : Bool
  pub probe : Bool
  pub standby_probe : Bool
  pub poll_interval : ℕ
  pub main_down_threshold : ℕ
  pub mode_aware : Bool
  pub main_down_streak : ℕ
  pub last_modes : Option Mode × Option Mode
  pub monitor_task : Bool

-- `__init__`: recheck interval, switch-back threshold, poll interval, main-down threshold.
unfoldable pub init : ℕ → ℕ → ℕ → ℕ → SiteState
init recheck back poll down = record {
  active = main;
  recheck_interval = recheck;
  switch_back_threshold = max 1 back;
  last_probe = none;
  normal_streak = 0;
  probe_in_flight = false;
  confirm_in_flight = false;
  probe = false;
  standby_probe = false;
  poll_interval = max 1 poll;
  main_down_threshold = max 1 down;
  mode_aware = false;
  main_down_streak = 0;
  last_modes = (none, none);
  monitor_task = false;
}

unfoldable pub set_probe : SiteState → SiteState
set_probe s = record s { probe = true }

unfoldable pub set_standby_probe : SiteState → SiteState
set_standby_probe s = record s { standby_probe = true }

abbrev pub is_main : Site → Bool
is_main main = true
is_main standby = false

-- The comparisons of a mode with the constants that the switching reads.
abbrev pub is_normal : Option Mode → Bool
is_normal (some normal) = true
is_normal _ = false

abbrev pub is_secondary : Option Mode → Bool
is_secondary (some secondary) = true
is_secondary _ = false

abbrev pub is_standalone : Option Mode → Bool
is_standalone (some standalone) = true
is_standalone _ = false

abbrev pub is_none : Option Mode → Bool
is_none none = true
is_none (some _) = false

-- `m in KNOWN_OPERATING_MODES`
abbrev pub known : Mode → Bool
known unknown = false
known (other _) = false
known _ = true

-- `_switch`
unfoldable pub switch : Site → SiteState → SiteState
switch site s = record s { active = site; main_down_streak = 0; normal_streak = 0 }

-- `report_unreachable`
unfoldable pub report_unreachable : SiteState → SiteState
report_unreachable s = if s.mode_aware then s else record s { active = standby; normal_streak = 0 }

-- `report_slow`; `loop` says whether an event loop is running. The task that it starts ends with
-- `confirm_outage`.
unfoldable pub report_slow : Bool → SiteState → SiteState
unfolding report_unreachable
report_slow loop s =
    if s.mode_aware
    then s
    else if not (is_main s.active) || s.confirm_in_flight
    then s
    else if not s.probe
    then report_unreachable s
    else record s { confirm_in_flight = loop }

-- A probe that raised counts as no answer (`_ask`, `_confirm_outage`).
abbrev pub mode_of : Answer → Option Mode
mode_of raised = none
mode_of (returned m) = m

-- `_confirm_outage`, from the answer of its probe on.
unfoldable pub confirm_outage : Answer → SiteState → SiteState
unfolding report_unreachable
confirm_outage a s =
    let mode = mode_of a in
    let t = if is_none mode || is_secondary mode then report_unreachable s else s in
    record t { confirm_in_flight = false }

-- `_ensure_monitor`
unfoldable pub ensure_monitor : Bool → SiteState → SiteState
ensure_monitor loop s =
    if s.monitor_task || not s.probe || not s.standby_probe
    then s
    else record s { monitor_task = loop }

abbrev pub recently : ℕ → ℕ → Option ℕ → Bool
recently now interval none = false
recently now interval (some last) = ltb now (last + interval)

-- `_maybe_schedule_probe`. The task that it starts ends with `run_probe`.
unfoldable pub maybe_schedule_probe : Bool → ℕ → SiteState → SiteState
maybe_schedule_probe loop now s =
    if not s.probe || s.probe_in_flight
    then s
    else if recently now s.recheck_interval s.last_probe
    then s
    else record s { last_probe = some now; probe_in_flight = loop }

-- `_run_probe`, from the answer of its probe on.
unfoldable pub run_probe : Answer → SiteState → SiteState
run_probe a s =
    let counted =
      if leb s.switch_back_threshold (s.normal_streak + 1)
      then record s { active = main; normal_streak = 0 }
      else record s { normal_streak = s.normal_streak + 1 } in
    let t = if is_normal (mode_of a) then counted else record s { normal_streak = 0 } in
    record t { probe_in_flight = false }

-- `next_targets`
unfoldable pub next_targets {ℓ} : {A : Type ℓ} → Bool → ℕ → A → A → SiteState → List A × SiteState
unfolding ensure_monitor maybe_schedule_probe
next_targets loop now main_server standby_server s =
    let t = ensure_monitor loop s in
    if t.mode_aware
    then ((if is_main t.active then main_server else standby_server) ∷ [], t)
    else if is_main t.active
    then (main_server ∷ standby_server ∷ [], t)
    else (standby_server ∷ [], maybe_schedule_probe loop now t)

-- `answered` of `poll_once`: the modes of the sites that answered.
abbrev pub answered : Option Mode → Option Mode → List Mode
answered none none = []
answered none (some b) = b ∷ []
answered (some a) none = a ∷ []
answered (some a) (some b) = a ∷ b ∷ []

abbrev pub any_known : List Mode → Bool
any_known [] = false
any_known (m ∷ ms) = known m || any_known ms

abbrev pub same : Bool → Bool → Bool
same true b = b
same false b = not b

-- The part of `poll_once` that follows whether the sites report their mode.
unfoldable pub note_answers : List Mode → SiteState → SiteState
note_answers [] s = s
note_answers (m ∷ ms) s =
    let aware = any_known (m ∷ ms) in
    if same aware s.mode_aware
    then s
    else record s { mode_aware = aware; main_down_streak = 0; normal_streak = 0 }

-- The decision of `poll_once` while the main site is active.
unfoldable pub tick_on_main : Option Mode → Option Mode → SiteState → SiteState
unfolding switch
tick_on_main m b s =
    if is_standalone b
    then switch standby s
    else if not (is_none b) && (is_none m || is_secondary m)
    then (if leb s.main_down_threshold (s.main_down_streak + 1)
        then switch standby s
        else record s { main_down_streak = s.main_down_streak + 1 })
    else record s { main_down_streak = 0 }

-- The decision of `poll_once` while the secondary site is active.
unfoldable pub tick_on_standby : Option Mode → Option Mode → SiteState → SiteState
unfolding switch
tick_on_standby m b s =
    if is_normal m && not (is_standalone b)
    then (if leb s.switch_back_threshold (s.normal_streak + 1)
        then switch main s
        else record s { normal_streak = s.normal_streak + 1 })
    else record s { normal_streak = 0 }

-- The last part of `poll_once`.
unfoldable pub decide : Option Mode → Option Mode → SiteState → SiteState
decide m b s =
    if not s.mode_aware
    then s
    else if is_main s.active
    then tick_on_main m b s
    else tick_on_standby m b s

-- `poll_once`: one monitor tick, from the answers of the two probes on (`_ask`).
unfoldable pub poll_once : Answer → Answer → SiteState → SiteState
poll_once a b s =
    let m = mode_of a in
    let n = mode_of b in decide m n (note_answers (answered m n) (record s { last_modes = (m, n) }))
