-- ===== src/Portaswitch/Session.antt =====
-- app/bss/adapters/portaswitch/adapter.py: the check, the refresh and the end of a session of the
-- account realm. The account realm is a parameter, `Realm`, and so is what Python takes for a text
-- of digits, which need not be those of ASCII.
mod Owner
mod Tests
use porta_phone_adapter.Base.{
  ℕ, zero, suc, ◌+◌, Bool, true, false, ◌&&◌, Option, none, some, List, [], ◌∷◌, if◌then◌else◌,
}
use porta_phone_adapter.Base.Eq.{Text, text_key}
use porta_phone_adapter.Base.Dict.{Dict, lookup}
use porta_phone_adapter.Base.Result.{Result, ok, err}
use porta_phone_adapter.Portaswitch.{
  Fault, Failure, adapter, M, ◌>>=◌, ◌>>◌, ret, fail, on_fault, after, billing, handled, untraced,
  ping_token_rejected, refresh_failed, token_rejected, logout_token_rejected, session_gone,
}
use porta_phone_adapter.Portaswitch.Account.{AccountInfo, LoginData, Api}
use porta_phone_adapter.Portaswitch.Limits.{Adapter}
use porta_phone_adapter.Portaswitch.SignIn.{Step, call, ask, login_account, is_version_with_token}
use porta_phone_adapter.Portaswitch.Recordings.{access_token_expired}

-- `jwt.decode`: the `i_account` claim, none where it is missing; or what it raises.
pub data Decoded : Type 0 where
  claims : Option ℕ → Decoded
  expired_signature malformed : Decoded

-- The account realm of the switch.
pub record Realm (S : Type 0) : Type 0 where
  pub decode : Text → Decoded
  -- The `user_id` of the session, zero for none.
  pub ping : S → Text → Result Failure ℕ × S
  pub refresh : S → Text → Result Failure LoginData × S
  -- Whether `success` is 1.
  pub logout : S → Text → Result Failure Bool × S
  pub account : S → Text → Result Failure AccountInfo
  -- `str.isdigit`, and the number of the account that the switch reads such a text as.
  pub isdigit : Text → Bool
  pub account_number : Text → ℕ

pub record ValidSession : Type 0 where
  pub user_id : ℕ
  pub access_token : Text

pub record RefreshedSession : Type 0 where
  pub user_id : ℕ
  pub access_token : Text
  pub refresh_token : Text
  pub expires_at : ℕ
  pub expires_in : ℕ
  pub customer_id : Option ℕ

abbrev pub access_token_invalid : Failure
access_token_invalid = adapter 401 (some "access_token_invalid")

abbrev pub session_upgrade_needed : Failure
session_upgrade_needed = adapter 401 (some "session_upgrade_needed")

abbrev pub refresh_token_invalid : Failure
refresh_token_invalid = adapter 422 (some "refresh_token_invalid")

abbrev pub session_close : Failure
session_close = adapter 422 none

abbrev pub ping_fault : Fault → Option Failure
ping_fault ping_token_rejected = some access_token_invalid
ping_fault _ = none

abbrev pub refresh_fault : Fault → Option Failure
refresh_fault refresh_failed = some refresh_token_invalid
refresh_fault token_rejected = some refresh_token_invalid
refresh_fault _ = none

-- `close_session`: what the handler answers instead of an error.
abbrev pub closed_by : Fault → Result Failure Bool
closed_by logout_token_rejected = err session_close
closed_by session_gone = ok true
closed_by code = err (billing code)

abbrev pub closed : Result Failure Bool → Result Failure Bool
closed (ok success) = ok success
closed (err (billing code)) = closed_by code
closed (err (adapter status code)) = err (adapter status code)
closed (err untraced) = err untraced
closed (err Failure.crash) = err Failure.crash

module _ (api : Api) where
  -- `_emulate_account_login`; the account that is missing fails when its fields are read.
  abbrev pub login_found : Text → Option AccountInfo → Step api LoginData
  login_found uuid none = is_version_with_token api >>= λ tokens. fail Failure.crash
  login_found uuid (some a) = login_account api uuid a

  unfoldable pub emulate_account_login : Text → ℕ → Step api LoginData
  emulate_account_login uuid i_account =
      ask api (λ s. api.account_by_number s i_account) >>= login_found uuid

module _ (api : Api) (realm : Realm api.State) where
  abbrev pub valid_for : Text → ℕ → Step api ValidSession
  valid_for token zero = fail access_token_invalid
  valid_for token (suc i) = ret (record { user_id = suc i; access_token = token })

  -- ENABLE_ON_DEMAND_SESSION_MIGRATION, the token, and what it decodes to.
  abbrev pub validate_decoded : Bool → Text → Decoded → Step api ValidSession
  validate_decoded migration token expired_signature = fail access_token_expired
  validate_decoded migration token malformed =
      fail (if migration then session_upgrade_needed else access_token_invalid)
  validate_decoded migration token (claims (some i_account)) =
      ret (record { user_id = i_account; access_token = token })
  validate_decoded migration token (claims none) =
      on_fault ping_fault (call api (λ s. realm.ping s token)) >>= valid_for token

  -- `validate_session`
  unfoldable pub validate_session : Bool → Text → Step api ValidSession
  validate_session migration token = validate_decoded migration token (realm.decode token)

  -- `self._hash_dictionary.get(refresh_token, refresh_token)`
  abbrev pub account_meant : Text → Option ℕ → ℕ
  account_meant token none = realm.account_number token
  account_meant token (some i_account) = i_account

  abbrev pub new_tokens : Bool → Dict Text ℕ → Text → Text → Step api LoginData
  new_tokens true hashes uuid token =
      emulate_account_login api uuid (account_meant token (lookup token hashes))
  new_tokens false hashes uuid token = call api (λ s. realm.refresh s token)

  abbrev pub refreshed : ℕ → LoginData → AccountInfo → Step api RefreshedSession
  refreshed now login a = ret (record {
    user_id = a.i_account;
    access_token = login.access_token;
    refresh_token = login.refresh_token;
    expires_at = now + login.expires_in;
    expires_in = login.expires_in;
    customer_id = a.i_customer;
  })

  abbrev pub with_owner : ℕ → LoginData → Step api RefreshedSession
  with_owner now login = ask api (λ s. realm.account s login.access_token) >>= refreshed now login

  -- `refresh_session`
  unfoldable pub refresh_session : Bool → Dict Text ℕ → Text → ℕ → Text → Step api RefreshedSession
  refresh_session migration hashes uuid now token =
      on_fault refresh_fault
        (new_tokens (migration && realm.isdigit token) hashes uuid token >>= with_owner now)

  unfoldable pub close_session : Text → Step api Bool
  close_session token s = let r = call api (λ t. realm.logout t token) s in (closed (r.0), r.1)
