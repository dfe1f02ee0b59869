-- ===== src/HttpApi/Routing.antt =====
-- Where a request goes, and what its failure does to the pod.
use porta_phone_adapter.Base.{
  ℕ, zero, suc, ◌+◌, ◌/◌, ◌≤◌, ◌<◌, ◌≡◌, ◌≢◌, ◌⊎◌, Bool, true, false, Option, none, some, [], ◌∷◌,
  arith, if◌then◌else◌,
}
use porta_phone_adapter.Base.Eq.{Text, text_key, beq_refl, beq_ne}
use porta_phone_adapter.Failover.{
  SiteState, Site, main, standby, report_unreachable, report_slow, next_targets, ensure_monitor,
  is_main,
}
use porta_phone_adapter.HttpApi.{
  Connector, Reply, settle, unreachable, note_site, request_targets, send_targets, state_targets,
  send_rest_request, inflight_limit, pool_size, absent,
}

-- At least one request may be in flight. Unless the pool holds a single connection, fewer may be
-- in flight than it holds; from three connections on at least two slots, and at least a tenth of
-- the pool, stay free.
pub inflight_limit_headroom :
    (m : Option ℕ)
    → let total = pool_size m in
      (1 ≤ inflight_limit m)
      × ((total ≤ 1) ⊎ (inflight_limit m < total))
      × ((total ≤ 2) ⊎ ((inflight_limit m + 2 ≤ total) × (inflight_limit m + total / 10 ≤ total)))
unfolding inflight_limit
inflight_limit_headroom none = ground arith
inflight_limit_headroom (some zero) = ground arith
inflight_limit_headroom (some (suc n)) = ground arith

-- The connector with the tracker at hand, and the site that its pod is on.
abbrev pub deployed : Connector → SiteState → Connector
deployed c s = record c { site_state = some s }

abbrev pub pod : Connector → Option Site
pod c = elim c.site_state [ none ↦ none | some s ↦ some s.active ]

module _ (loop : Bool) (now : ℕ) (c : Connector) (s : SiteState)
    (set : absent c.standby_server ≡ false) where
  targets_aware :
      s.mode_aware ≡ true
      → request_targets loop now (deployed c s) [] ≡ (
        (if is_main s.active then c.api_server else c.standby_server) ∷ [],
        deployed c (ensure_monitor loop s),
      )
  unfolding request_targets state_targets next_targets
  targets_aware e = ground arith

  targets_main :
      s.mode_aware ≡ false
      → s.active ≡ main
      → request_targets loop now (deployed c s) []
        ≡ (c.api_server ∷ c.standby_server ∷ [], deployed c (ensure_monitor loop s))
  unfolding request_targets state_targets next_targets
  targets_main e f = ground arith

module _ {ℓ} {B : Type ℓ} (exchange : Text → Reply B) (loop : Bool) (now : ℕ) (c : Connector)
    (s : SiteState) (set : absent c.standby_server ≡ false)
    (apart : c.standby_server ≢ c.api_server) where
  -- A reactive pod on the main site, with another server as standby, cannot reach the main site:
  -- the request is sent once more, to the standby, whose answer is the result, and the pod is on
  -- the standby afterwards.
  pub failover_request :
      s.mode_aware ≡ false
      → s.active ≡ main
      → unreachable (exchange c.api_server) ≡ true
      → let (r, c') = send_rest_request exchange loop now (deployed c s) [] in
        (r ≡ settle (exchange c.standby_server)) × (pod c' ≡ some standby)
  unfolding send_rest_request send_targets note_site report_unreachable ensure_monitor
  failover_request e f u =
      rw (targets_main loop now c s set e f)
        (ground (arith, beq_refl c.api_server, beq_ne c.standby_server c.api_server apart))

  -- A reactive pod on the main site, with another server as standby and the probe set, gets any
  -- answer but an unreachable one from the main site alone, and it stays on the main site, a slow
  -- answer (a read or write timeout) included.
  pub answered_request :
      s.mode_aware ≡ false
      → s.active ≡ main
      → s.probe ≡ true
      → unreachable (exchange c.api_server) ≡ false
      → let (r, c') = send_rest_request exchange loop now (deployed c s) [] in
        (r ≡ settle (exchange c.api_server)) × (pod c' ≡ some main)
  unfolding send_rest_request send_targets note_site report_slow ensure_monitor
  answered_request e f p u =
      rw (targets_main loop now c s set e f) (ground (arith, beq_refl c.api_server))

  -- A reactive pod on the standby asks the standby alone, whatever happens to the request, and the
  -- request leaves it there.
  pub standby_request :
      s.mode_aware ≡ false
      → s.active ≡ standby
      → let (r, c') = send_rest_request exchange loop now (deployed c s) [] in
        (r ≡ settle (exchange c.standby_server)) × (pod c' ≡ some standby)
  unfolding send_rest_request request_targets state_targets next_targets send_targets note_site
  standby_request e f = ground (arith, beq_ne c.standby_server c.api_server apart)

  -- A mode-aware pod with another server as standby asks its active site alone, and no outcome of
  -- the request moves it.
  pub aware_request :
      s.mode_aware ≡ true
      → let (r, c') = send_rest_request exchange loop now (deployed c s) [] in
        (r ≡ settle (exchange (if is_main s.active then c.api_server else c.standby_server)))
        × (pod c' ≡ some s.active)
  unfolding send_rest_request send_targets note_site report_unreachable report_slow ensure_monitor
  aware_request e =
      rw (targets_aware loop now c s set e)
        (ground (arith, beq_refl c.api_server, beq_ne c.standby_server c.api_server apart))
