-- ===== src/Portaswitch/SignIn.antt =====
-- app/bss/adapters/portaswitch/adapter.py: the sign-in with a login and a password. The token that
-- `uuid.uuid4` makes, and the time, are arguments.
mod Gate
mod Tests
use porta_phone_adapter.Base.{
  ℕ, zero, suc, ◌+◌, Bool, true, false, not, ◌&&◌, Option, none, some, List, [], ◌∷◌, ◌==◌,
  if◌then◌else◌,
}
use porta_phone_adapter.Base.Eq.{Text, text_eq}
use porta_phone_adapter.Base.Result.{Result, ok, err}
use porta_phone_adapter.Release.{numbers, at_least}
use porta_phone_adapter.Portaswitch.{
  Fault, Failure, adapter, M, ◌>>=◌, ◌>>◌, ret, fail, read, require, on_fault, auth_failed,
  brute_force, token_rejected,
}
use porta_phone_adapter.Portaswitch.Account.{AccountInfo, master_of, addons_allowed, LoginData, Api}
use porta_phone_adapter.Portaswitch.Limits.{
  Adapter, Clock, DeviceLimits, read_device_limits, Settings as LimitSettings,
}

-- SIGNIN_CREDENTIALS, ALLOWED_ADDONS and the settings of the device limits.
pub data Credentials : Type 0 where
  sip self_care : Credentials

pub record Settings : Type 0 where
  pub credentials : Credentials
  pub allowed_addons : List Text
  pub limits : LimitSettings

pub record SessionInfo : Type 0 where
  pub user_id : ℕ
  pub access_token : Text
  pub refresh_token : Text
  pub expires_at : ℕ
  pub expires_in : ℕ
  pub device_limits : DeviceLimits

abbrev pub incorrect_credentials : Failure
incorrect_credentials = adapter 401 (some "incorrect_credentials")

abbrev pub addon_required : Failure
addon_required = adapter 403 (some "addon_required")

abbrev pub user_authentication : Failure
user_authentication = adapter 401 none

abbrev pub sign_in_fault : Fault → Option Failure
sign_in_fault auth_failed = some user_authentication
sign_in_fault brute_force = some user_authentication
sign_in_fault token_rejected = some user_authentication
sign_in_fault _ = none

abbrev pub same_text : Option Text → Option Text → Bool
same_text none none = true
same_text (some a) (some b) = text_eq a b
same_text _ _ = false

abbrev pub password_of : Credentials → AccountInfo → Option Text
password_of sip a = a.h323_password
password_of self_care a = a.password

-- `not account_info or account_info[password_attr] != password`, negated.
abbrev pub right_password : Credentials → Option Text → AccountInfo → Bool
right_password by password a = same_text (password_of by a) password

-- PORTASWITCH_VERSION_WITH_TOKEN
abbrev pub version_with_token : List ℕ
version_with_token = 128 ∷ []

module _ (api : Api) where
  abbrev pub Step : Type 0 → Type 0
  Step A = M (Adapter api.State) A

  abbrev pub moved :
      {A : Type 0}
      → Adapter api.State
      → Result Failure A × api.State
      → Result Failure A × Adapter api.State
  moved s (r, switch) = (
    r,
    record {
      switch = switch;
      account_limits_cache = s.account_limits_cache;
      customer_limits_cache = s.customer_limits_cache;
      env_email_cache = s.env_email_cache;
      otps = s.otps;
    },
  )

  -- A call of the switch that changes it.
  abbrev pub call : {A : Type 0} → (api.State → Result Failure A × api.State) → Step A
  call f s = moved s (f s.switch)

  -- A call that only reads.
  abbrev pub ask : {A : Type 0} → (api.State → Result Failure A) → Step A
  ask f = read (λ s. f s.switch)

  -- The record of the master of an alias in place of its own.
  abbrev pub master_if : ℕ → Option AccountInfo → Step (Option AccountInfo)
  master_if zero a = ret a
  master_if (suc i) a = ask (λ s. api.account_by_number s (suc i))

  abbrev pub resolve_master : Option AccountInfo → Step (Option AccountInfo)
  resolve_master none = ret none
  resolve_master (some a) = master_if (master_of a) (some a)

  abbrev pub required : Failure → Option AccountInfo → Step AccountInfo
  required f none = fail f
  required f (some a) = ret a

  abbrev pub token_if :
      Text
      → Result Failure (Unit {0}) × Adapter api.State
      → Result Failure (Option Text) × Adapter api.State
  token_if token (ok u, s) = (ok (some token), s)
  token_if token (err f, s) = (ok none, s)

  -- `_get_or_create_api_token`
  abbrev pub given_or_created : Text → ℕ → Text → Step (Option Text)
  given_or_created uuid i_account [] =
      λ s. token_if uuid (call (λ t. api.update_api_token t i_account uuid) s)
  given_or_created uuid i_account (c ∷ token) = ret (some (c ∷ token))

  unfoldable pub get_or_create_api_token : Text → AccountInfo → Step (Option Text)
  get_or_create_api_token uuid a = given_or_created uuid a.i_account a.api_token

  -- `_is_portaswitch_version_with_token`
  unfoldable pub is_version_with_token : Step Bool
  is_version_with_token =
      ask api.version >>= λ version. ret (at_least (numbers none version) version_with_token)

  abbrev pub login_by : AccountInfo → Option Text → Step LoginData
  login_by a (some (c ∷ token)) = call (λ t. api.login t a.login none (some (c ∷ token)))
  login_by a (some []) = call (λ t. api.login t a.login a.password none)
  login_by a none = call (λ t. api.login t a.login a.password none)

  abbrev pub login_if : Text → AccountInfo → Bool → Step LoginData
  login_if uuid a true = get_or_create_api_token uuid a >>= login_by a
  login_if uuid a false = call (λ t. api.login t a.login a.password a.password)

  -- `_login_account`
  unfoldable pub login_account : Text → AccountInfo → Step LoginData
  login_account uuid a = is_version_with_token >>= login_if uuid a

  abbrev pub with_limits : LimitSettings → Clock → AccountInfo → Step DeviceLimits
  with_limits settings clock a s =
      let r = read_device_limits api settings clock a s in (ok (r.0), r.1)

  abbrev pub account_named : Credentials → Text → Step (Option AccountInfo)
  account_named sip login = ask (λ s. api.account_by_id s login)
  account_named self_care login = ask (λ s. api.account_by_login s login)

  abbrev pub session_of : ℕ → ℕ → LoginData → DeviceLimits → SessionInfo
  session_of now i_account login device_limits = record {
    user_id = i_account;
    access_token = login.access_token;
    refresh_token = login.refresh_token;
    expires_at = now + login.expires_in;
    expires_in = login.expires_in;
    device_limits = device_limits;
  }

  abbrev pub session_with : ℕ → ℕ → DeviceLimits → LoginData → Step SessionInfo
  session_with now i_account device_limits login =
      ret (session_of now i_account login device_limits)

  abbrev pub login_with : Text → ℕ → ℕ → AccountInfo → DeviceLimits → Step SessionInfo
  login_with uuid now i_account a device_limits =
      login_account uuid a >>= session_with now i_account device_limits

  -- The device limits, the login and the session of an account, which is opened for `i_account`.
  unfoldable pub open_session :
      LimitSettings → Clock → Text → ℕ → ℕ → AccountInfo → Step SessionInfo
  open_session limits clock uuid now i_account a =
      with_limits limits clock a >>= login_with uuid now i_account a

  unfoldable pub open_allowed : Settings → Clock → Text → ℕ → AccountInfo → Step SessionInfo
  open_allowed settings clock uuid now a =
      require (addons_allowed settings.allowed_addons a) addon_required
      >> open_session settings.limits clock uuid now a.i_account a

  unfoldable pub checked_sign_in :
      Settings → Clock → Text → ℕ → Option Text → AccountInfo → Step SessionInfo
  checked_sign_in settings clock uuid now password a =
      require (right_password settings.credentials password a) incorrect_credentials
      >> open_allowed settings clock uuid now a

  abbrev pub master_required : Failure → Option AccountInfo → Step AccountInfo
  master_required f a = resolve_master a >>= required f

  unfoldable pub account_to_sign_in : Settings → Text → Step AccountInfo
  account_to_sign_in settings login =
      account_named settings.credentials login >>= master_required incorrect_credentials

  -- `authenticate`
  unfoldable pub authenticate : Settings → Clock → Text → ℕ → Text → Option Text → Step SessionInfo
  authenticate settings clock uuid now login password =
      on_fault sign_in_fault
        (account_to_sign_in settings login >>= checked_sign_in settings clock uuid now password)
