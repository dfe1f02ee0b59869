-- ===== src/Sessions/Management.antt =====
-- app/bss/adapters/session_management.py: `SessionManagement`. A method returns what it raised or
-- gave, and the storage as it left it. `started` is explained at `still_active`.
use porta_phone_adapter.Base.{ℕ, Bool, Option, none, some, [], if◌then◌else◌}
use porta_phone_adapter.Base.Eq.{Text}
use porta_phone_adapter.Base.Result.{Result, ok, err, Raised, webtrit, crash}
use porta_phone_adapter.Sessions.{
  SessionInfo, Stored, session, outdated, SessionStorage, still_active, get_session, create_session,
  store_session, delete_session,
}

abbrev pub Outcome : Type 0 → Type 0
Outcome A = Result Raised A × SessionStorage

-- The clock of the process that handles a request: when it loaded the code, and the present.
pub record Clock : Type 0 where
  pub started : ℕ
  pub present : ℕ

abbrev pub clock_at : ℕ → ℕ → Clock
clock_at started present = record { started = started; present = present }

-- `session.still_active()`: the call leaves the default argument as it was evaluated at the load.
abbrev pub still_active_by_default : Clock → SessionInfo → Bool
still_active_by_default clock s = still_active clock.started s

-- `validate_session`, on what the database holds. An outdated object has no `still_active`.
unfoldable pub validate_found : Clock → SessionStorage → Text → Option Stored → Outcome SessionInfo
validate_found clock st access none = (err (webtrit 401 (some "access_token_invalid")), st)
validate_found clock st access (some outdated) = (err crash, st)
validate_found clock st access (some (session s)) =
    if still_active_by_default clock s
    then (ok s, st)
    else (err (webtrit 401 (some "access_token_expired")), (delete_session st access []).0)

unfoldable pub validate_session : Clock → SessionStorage → Text → Outcome SessionInfo
validate_session clock st access = validate_found clock st access (get_session st access [])

-- `refresh_session`, on what the database holds; the time and the ids of the new session.
unfoldable pub refresh_found :
    ℕ → SessionStorage → Text → ℕ → Text → Text → Option Stored → Outcome SessionInfo
refresh_found started st refresh now access' refresh' none =
    (err (webtrit 401 (some "refresh_token_invalid")), st)
refresh_found started st refresh now access' refresh' (some outdated) =
    (err (webtrit 401 (some "old_format")), st)
refresh_found started st refresh now access' refresh' (some (session s)) =
    if still_active started s
    then (let new = create_session st now access' refresh' s.user_id in
        (ok new, (delete_session (store_session st now new) s.access_token refresh).0))
    else (
      err (webtrit 401 (some "refresh_token_expired")),
      (delete_session st s.access_token refresh).0,
    )

unfoldable pub refresh_session : ℕ → SessionStorage → Text → ℕ → Text → Text → Outcome SessionInfo
refresh_session started st refresh now access' refresh' =
    refresh_found started st refresh now access' refresh' (get_session st [] refresh)

-- `close_session`, on what the database holds. An outdated object has no `refresh_token`.
unfoldable pub close_found : SessionStorage → Text → Option Stored → Outcome Bool
close_found st access none = (err (webtrit 401 none), st)
close_found st access (some outdated) = (err crash, st)
close_found st access (some (session s)) =
    let (st', found) = delete_session st access s.refresh_token in (ok found, st')

unfoldable pub close_session : SessionStorage → Text → Outcome Bool
close_session st access = close_found st access (get_session st access [])
