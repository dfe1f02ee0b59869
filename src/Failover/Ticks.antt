-- ===== src/Failover/Ticks.antt =====
-- What a series of monitor ticks makes of the pod.
use porta_phone_adapter.Base.{
  ℕ, suc, ◌+◌, ◌≤◌, ◌<◌, ◌≡◌, ◌⊎◌, inr, Bool, true, false, Option, none, some, List, [], ◌∷◌, arith,
  length,
}
use porta_phone_adapter.Failover.{
  SiteState, Answer, returned, Mode, main, standby, standalone, poll_once, mode_of, is_normal,
  is_secondary, is_standalone, known, note_answers, decide, tick_on_main, tick_on_standby, switch,
  answered,
}
use porta_phone_adapter.Failover.Invariant.{Inv, poll_once-Inv}

-- The answers of the two sites, main first, on the ticks of a stretch of time.
pub ticks : List (Answer × Answer) → SiteState → SiteState
ticks [] s = s
ticks ((a, b) ∷ r) s = ticks r (poll_once a b s)

-- A standby that reports standalone takes the pod on that very tick, whatever went before and
-- whatever the main site answers, and the pod is mode-aware after it.
pub standalone_tick :
    (a : Answer) (s : SiteState)
    → let t = poll_once a (returned (some standalone)) s in
      (t.active ≡ standby) × (t.mode_aware ≡ true)
unfolding poll_once note_answers decide tick_on_main tick_on_standby switch
standalone_tick a s = ground arith

-- When neither site answers, the tick moves neither the active site nor the mode of switching.
pub silent_tick :
    (a b : Answer) (s : SiteState)
    → mode_of a ≡ none
    → mode_of b ≡ none
    → let t = poll_once a b s in (t.active ≡ s.active) × (t.mode_aware ≡ s.mode_aware)
unfolding poll_once note_answers decide tick_on_main tick_on_standby switch
silent_tick a b s e f = ground arith

-- The main site reports normal, and the other one is not standalone.
abbrev pub Back : List (Answer × Answer) → Type 0
Back [] = Unit {0}
Back ((a, b) ∷ r) = (is_normal (mode_of a) ≡ true) × (is_standalone (mode_of b) ≡ false) × Back r

-- Where the pod stands after `k` such ticks.
abbrev Returning : ℕ → SiteState → Type 0
Returning k s = (s.active ≡ main) ⊎ ((0 < k → s.mode_aware ≡ true) × (k ≤ s.normal_streak))

decide_back :
    (k : ℕ) (m b : Option Mode) (s : SiteState)
    → is_normal m ≡ true
    → is_standalone b ≡ false
    → s.mode_aware ≡ true
    → (s.active ≡ main) ⊎ (k ≤ s.normal_streak)
    → Returning (suc k) (decide m b s)
unfolding decide tick_on_main tick_on_standby switch
decide_back k m b s e f g h = ground arith

noted_back :
    (k : ℕ) (a b : Answer) (s : SiteState)
    → is_normal (mode_of a) ≡ true
    → Returning k s
    → let t =
        note_answers
          (answered (mode_of a) (mode_of b))
          (record s { last_modes = (mode_of a, mode_of b) }) in
      (t.mode_aware ≡ true) × ((t.active ≡ main) ⊎ (k ≤ t.normal_streak))
unfolding note_answers
noted_back k a b s e h = ground arith

back_tick :
    (k : ℕ) (a b : Answer) (s : SiteState)
    → is_normal (mode_of a) ≡ true
    → is_standalone (mode_of b) ≡ false
    → Returning k s
    → Returning (suc k) (poll_once a b s)
unfolding poll_once
back_tick k a b s e f h =
    let (aware, at) = noted_back k a b s e h in decide_back k (mode_of a) (mode_of b) _ e f aware at

poll_once-switch_back_threshold :
    (a b : Answer) (s : SiteState)
    → (poll_once a b s).switch_back_threshold ≡ s.switch_back_threshold
unfolding poll_once note_answers decide tick_on_main tick_on_standby switch
poll_once-switch_back_threshold a b s = ground arith

ticks-Returning :
    (k : ℕ) (r : List (Answer × Answer)) (s : SiteState)
    → Back r
    → Inv s
    → Returning k s
    → s.switch_back_threshold ≤ k + length r
    → (ticks r s).active ≡ main
unfolding ticks
ticks-Returning k [] s h v at n = ground arith
ticks-Returning k ((a, b) ∷ r) s h v at n =
    ticks-Returning (suc k) r (poll_once a b s) h.2 (poll_once-Inv a b s v)
      (back_tick k a b s h.0 h.1 at) (omega (arith, poll_once-switch_back_threshold a b s))

-- From any state that keeps the invariant, also a reactive one, `switch_back_threshold` ticks in a
-- row on which the main site reports normal and the other is not standalone bring the pod to the
-- main site, and more of them leave it there.
pub recovery_returns :
    (r : List (Answer × Answer)) (s : SiteState)
    → Inv s
    → Back r
    → s.switch_back_threshold ≤ length r
    → (ticks r s).active ≡ main
recovery_returns r s v h n =
    ticks-Returning 0 r s h v (inr ((λ p. absurd (omega arith)), omega arith)) (omega arith)

-- No tick sees the standby standalone.
abbrev pub Calm : List (Answer × Answer) → Type 0
Calm [] = Unit {0}
Calm ((a, b) ∷ r) = (is_standalone (mode_of b) ≡ false) × Calm r

calm_tick :
    (a b : Answer) (s : SiteState)
    → is_standalone (mode_of b) ≡ false
    → s.active ≡ main
    → s.main_down_streak + 1 < s.main_down_threshold
    → let t = poll_once a b s in
      (t.active ≡ main)
      × (t.main_down_streak ≤ s.main_down_streak + 1)
      × (t.main_down_threshold ≡ s.main_down_threshold)
unfolding poll_once note_answers decide tick_on_main tick_on_standby switch
calm_tick a b s f e n = ground arith

-- Without a standalone report the pod does not leave the main site before the streak could have
-- reached its threshold, whatever the sites answer.
pub main_kept :
    (r : List (Answer × Answer)) (s : SiteState)
    → Calm r
    → s.active ≡ main
    → s.main_down_streak + length r < s.main_down_threshold
    → (ticks r s).active ≡ main
unfolding ticks
main_kept [] s h e n = e
main_kept ((a, b) ∷ r) s h e n =
    let (e', le, same) = calm_tick a b s h.0 e (omega arith) in
    main_kept r (poll_once a b s) h.1 e' (omega arith)

abbrev pub is_known : Option Mode → Bool
is_known none = false
is_known (some m) = known m

-- The main site is down (no answer, or secondary) while the standby reports a known mode other
-- than standalone.
abbrev pub Down : List (Answer × Answer) → Type 0
Down [] = Unit {0}
Down ((a, b) ∷ r) =
    ((mode_of a ≡ none) ⊎ (is_secondary (mode_of a) ≡ true))
    × (is_known (mode_of b) ≡ true)
    × (is_standalone (mode_of b) ≡ false)
    × Down r

module _ (a b : Answer) (s : SiteState) (h : (mode_of a ≡ none) ⊎ (is_secondary (mode_of a) ≡ true))
    (k : is_known (mode_of b) ≡ true) (f : is_standalone (mode_of b) ≡ false) (e : s.active ≡ main)
    (g : s.mode_aware ≡ true) where
  down_tick_last :
      s.main_down_threshold ≤ s.main_down_streak + 1 → (poll_once a b s).active ≡ standby
  unfolding poll_once note_answers decide tick_on_main tick_on_standby switch
  down_tick_last n = ground arith

  down_tick_more :
      s.main_down_streak + 1 < s.main_down_threshold
      → let t = poll_once a b s in
        (t.active ≡ main)
        × (t.mode_aware ≡ true)
        × (t.main_down_streak ≡ s.main_down_streak + 1)
        × (t.main_down_threshold ≡ s.main_down_threshold)
  unfolding poll_once note_answers decide tick_on_main tick_on_standby switch
  down_tick_more n = ground arith

-- A mode-aware pod on the main site is on the standby once down ticks in a row (the main site gives
-- no answer or reports secondary, the standby a known mode other than standalone) have filled its
-- streak, below the threshold before them, up to `main_down_threshold`.
pub lost_main_switches :
    (r : List (Answer × Answer)) (s : SiteState)
    → Down r
    → s.active ≡ main
    → s.mode_aware ≡ true
    → s.main_down_streak < s.main_down_threshold
    → s.main_down_streak + length r ≡ s.main_down_threshold
    → (ticks r s).active ≡ standby
unfolding ticks
lost_main_switches [] s h e g n m = absurd (omega arith)
lost_main_switches ((a, b) ∷ []) s h e g n m = down_tick_last a b s h.0 h.1 h.2 e g (omega arith)
lost_main_switches ((a, b) ∷ (c ∷ r)) s h e g n m =
    let (e', g', streak, same) = down_tick_more a b s h.0 h.1 h.2 e g (omega arith) in
    lost_main_switches (c ∷ r) (poll_once a b s) h.3 e' g' (omega arith) (omega arith)
