-- ===== src/HttpApi/Tests.antt =====
-- The theorems on requests at a concrete connector.
use porta_phone_adapter.Base.{
  ℕ, ◌+◌, ◌≡◌, refl, true, false, none, some, [], ◌∷◌, arith, if◌then◌else◌,
}
use porta_phone_adapter.Base.Eq.{Text, text_eq, text_key}
use porta_phone_adapter.Base.Result.{ok}
use porta_phone_adapter.Failover.{SiteState, main, standby}
use porta_phone_adapter.HttpApi.{
  Connector, Reply, success, connect_timeout, returned, settle, send_rest_request,
}
use porta_phone_adapter.HttpApi.Routing.{deployed, pod, failover_request}
use porta_phone_adapter.HttpApi.Login.{OAuthSession, Billing}

abbrev server_main : Text
server_main = b'm' ∷ []

abbrev server_standby : Text
server_standby = b's' ∷ []

abbrev connector : Connector
connector = record {
  api_server = server_main;
  site_state = none;
  standby_server = server_standby;
  verify_https = true;
  verify_https_standby = some false;
}

abbrev reactive : SiteState
reactive = record {
  active = main;
  recheck_interval = 30;
  switch_back_threshold = 2;
  last_probe = none;
  normal_streak = 0;
  probe_in_flight = false;
  confirm_in_flight = false;
  probe = true;
  standby_probe = true;
  poll_interval = 10;
  main_down_threshold = 3;
  mode_aware = false;
  main_down_streak = 0;
  last_modes = (none, none);
  monitor_task = false;
}

abbrev aware : SiteState
aware = record reactive { mode_aware = true; monitor_task = true }

-- The main site is unreachable, slow, or answers; the standby answers 7.
abbrev main_lost : Text → Reply ℕ
main_lost t = if text_eq t server_main then connect_timeout else success 7

apart : ¬ (server_standby ≡ server_main)
apart e = ground arith

failover_request_example :
    ((send_rest_request main_lost true 9 (deployed connector reactive) []).0 ≡ returned 7)
    × (pod (send_rest_request main_lost true 9 (deployed connector reactive) []).1 ≡ some standby)
unfolding text_eq settle
failover_request_example =
    failover_request main_lost true 9 connector reactive refl apart refl refl refl

-- A billing that counts its logins.
abbrev token : OAuthSession
token = record {
  access_token = some (b't' ∷ []);
  access_token_expires_at = some 5000000000;
  refresh_token = b'r' ∷ [];
}

abbrev billing : Billing
billing = record { State = ℕ; login = λ n. (ok token, n + 1); refresh = λ n s. (ok token, n) }
