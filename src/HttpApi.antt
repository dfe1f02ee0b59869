-- ===== src/HttpApi.antt =====
-- app/bss/async_http_api.py: `AsyncHTTPAPIConnector`, the way of one request to a site. The HTTP
-- exchange itself is httpx: what it does with a base URL is an argument, a `Reply`. The admission
-- semaphore is asyncio's; the size that the code gives it is `inflight_limit`.
pub mod Routing
pub mod Sync
pub mod Login
mod Tests
use porta_phone_adapter.Base.{
  ℕ, zero, suc, ◌+◌, ◌-◌, ◌/◌, max, Bool, true, false, not, ◌&&◌, Option, none, some, List, [], ◌∷◌,
  if◌then◌else◌,
}
use porta_phone_adapter.Base.Eq.{Text, text_eq}
use porta_phone_adapter.Failover.{SiteState, report_unreachable, report_slow, next_targets}

abbrev pub default_max_connections : ℕ
default_max_connections = 100

abbrev pub inflight_min_headroom : ℕ
inflight_min_headroom = 2

-- `total` of `inflight_limit`; no limit, and one that is not positive, is the default.
abbrev pub pool_size : Option ℕ → ℕ
pool_size none = default_max_connections
pool_size (some zero) = default_max_connections
pool_size (some (suc n)) = suc n

-- `inflight_limit`. `int(total * 0.1)` is the tenth, rounded down: the double 0.1 is a little more
-- than a tenth, and for pools below 2^50 by too little to reach the next whole number.
unfoldable pub inflight_limit : Option ℕ → ℕ
inflight_limit max_connections =
    let total = pool_size max_connections in max 1 (total - max inflight_min_headroom (total / 10))

-- `AsyncHTTPAPIConnector`: `_verify_https_standby` is None unless it is set.
pub record Connector : Type 0 where
  pub api_server : Text
  pub site_state : Option SiteState
  pub standby_server : Text
  pub verify_https : Bool
  pub verify_https_standby : Option Bool

-- Texts that are None or empty count as absent.
abbrev pub absent : Text → Bool
absent [] = true
absent (c ∷ cs) = false

-- `_verify_for`
unfoldable pub verify_for : Connector → Text → Bool
verify_for c base = elim c.verify_https_standby [
  | none ↦ c.verify_https
  | some b ↦
      if not (absent c.standby_server) && text_eq base c.standby_server then b else c.verify_https
]

-- What httpx does with a request: a decoded 2xx answer, or an `httpx.HTTPError`. The answer of an
-- HTTP error status is its decoded body, if it has one.
pub data Reply {ℓ} (B : Type ℓ) : Type ℓ where
  success : B → Reply B
  connect_error connect_timeout read_timeout write_timeout pool_timeout : Reply B
  status_error : Option B → Reply B
  other_error : Reply B

-- What the caller gets: the answer, or the 500 whose trace carries 408, or 500 with the body.
pub data Sent {ℓ} (B : Type ℓ) : Type ℓ where
  returned : B → Sent B
  timed_out : Sent B
  failed : Option B → Sent B
  nothing : Sent B

-- The result of a request that is not sent again.
unfoldable pub settle {ℓ} : {B : Type ℓ} → Reply B → Sent B
settle (success b) = returned b
settle connect_error = failed none
settle connect_timeout = timed_out
settle read_timeout = timed_out
settle write_timeout = timed_out
settle pool_timeout = timed_out
settle (status_error b) = failed b
settle other_error = failed none

-- `unreachable` and `slow` of `_send_rest_request`.
abbrev pub unreachable {ℓ} : {B : Type ℓ} → Reply B → Bool
unreachable connect_error = true
unreachable connect_timeout = true
unreachable _ = false

abbrev pub slow {ℓ} : {B : Type ℓ} → Reply B → Bool
slow read_timeout = true
slow write_timeout = true
slow _ = false

abbrev pub note : (SiteState → SiteState) → Option SiteState → Option SiteState
note f none = none
note f (some s) = some (f s)

-- `_note_site_unreachable` and `_note_site_slow`
unfoldable pub note_site : (SiteState → SiteState) → Connector → Text → Connector
note_site f c base =
    if text_eq base c.api_server then record c { site_state = note f c.site_state } else c

-- The targets by the tracker, when no server is given.
unfoldable pub state_targets : Bool → ℕ → Connector → Option SiteState → List Text × Connector
state_targets loop now c none = (c.api_server ∷ [], c)
state_targets loop now c (some s) =
    if absent c.standby_server
    then (c.api_server ∷ [], c)
    else (let (targets, s') = next_targets loop now c.api_server c.standby_server s in
        (targets, record c { site_state = some s' }))

-- `_request_targets`
unfoldable pub request_targets : Bool → ℕ → Connector → Text → List Text × Connector
request_targets loop now c (k ∷ server) = ((k ∷ server) ∷ [], c)
request_targets loop now c [] = state_targets loop now c c.site_state

-- The loop of `_send_rest_request` over the targets.
unfoldable pub send_targets {ℓ} :
    {B : Type ℓ} → (Text → Reply B) → Bool → Connector → List Text → Sent B × Connector
send_targets exchange loop c [] = (nothing, c)
send_targets exchange loop c (t ∷ []) =
    let r = exchange t in
    (
      settle r,
      if unreachable r
          then note_site report_unreachable c t
          else if slow r
          then note_site (report_slow loop) c t
          else c,
    )
send_targets exchange loop c (t ∷ (u ∷ ts)) =
    let r = exchange t in
    let rest = send_targets exchange loop (note_site report_unreachable c t) (u ∷ ts) in
    if unreachable r
    then rest
    else (settle r, if slow r then note_site (report_slow loop) c t else c)

-- `_send_rest_request`, with the explicit server, empty for None.
unfoldable pub send_rest_request {ℓ} :
    {B : Type ℓ} → (Text → Reply B) → Bool → ℕ → Connector → Text → Sent B × Connector
send_rest_request exchange loop now c server =
    let (targets, c') = request_targets loop now c server in send_targets exchange loop c' targets
