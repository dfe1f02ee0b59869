-- ===== src/Portaswitch/Otp.antt =====
-- app/bss/adapters/portaswitch/adapter.py and otp_storage.py: the sign-in with a one-time password
-- that the switch makes. The storage is that in memory. The encryption of the stored session, the
-- id of an OTP and the times are arguments; the sending address and the account are read together,
-- the address first.
mod Gate
mod Once
mod Tests
use porta_phone_adapter.Base.{
  ℕ, zero, suc, ◌-◌, Bool, true, false, not, ◌&&◌, ◌||◌, Option, none, some, List, [], ◌∷◌, ltb,
  ◌==◌, if◌then◌else◌,
}
use porta_phone_adapter.Base.Eq.{Text, text_key}
use porta_phone_adapter.Base.Dict.{Dict, lookup, insert, erase}
use porta_phone_adapter.Base.Result.{Result, ok, err}
use porta_phone_adapter.Portaswitch.{
  Fault, Failure, adapter, M, ◌>>=◌, ◌>>◌, ret, fail, require, on_fault, empty_recipients,
  must_change_password,
}
use porta_phone_adapter.Portaswitch.Account.{AccountInfo, addons_allowed, member, StoredOtp, Api}
use porta_phone_adapter.Portaswitch.Limits.{Adapter, Clock}
use porta_phone_adapter.Portaswitch.Email.{find_account_by_email}
use porta_phone_adapter.Portaswitch.SignIn.{
  Settings, SessionInfo, addon_required, Step, call, ask, required, master_required, open_session,
}

-- ENV_EMAIL_CACHE_TTL
abbrev pub env_email_ttl : ℕ
env_email_ttl = 3600

-- `encrypt_secret` and `decrypt_secret` with ADMIN_API_TOKEN
pub record Cipher : Type 0 where
  pub encrypt : Text → Text
  pub decrypt : Text → Option Text

pub record OtpResponse : Type 0 where
  pub otp_id : Text
  pub delivery_from : Option Text

abbrev pub not_found_user : Failure
not_found_user = adapter 404 none

abbrev pub external_api_issue : Failure
external_api_issue = adapter 500 (some "external_api_issue")

abbrev pub otp_expired : Failure
otp_expired = adapter 401 (some "otp_expired")

abbrev pub incorrect_otp_code : Failure
incorrect_otp_code = adapter 401 (some "incorrect_otp_code")

abbrev pub generate_fault : Fault → Option Failure
generate_fault empty_recipients = some (adapter 422 (some "delivery_channel_unspecified"))
generate_fault _ = none

abbrev pub validate_fault : Fault → Option Failure
validate_fault must_change_password = some (adapter 422 none)
validate_fault _ = none

-- The session of the switch, encrypted; none where there is none.
abbrev pub sealed : Cipher → Text → Option Text
sealed cipher [] = none
sealed cipher (c ∷ token) = some (cipher.encrypt (c ∷ token))

-- The session that the code is verified in.
abbrev pub opened : Cipher → Option Text → Option Text
opened cipher none = none
opened cipher (some []) = none
opened cipher (some (c ∷ token)) = cipher.decrypt (c ∷ token)

module _ (api : Api) where
  abbrev pub with_otps : Adapter api.State → Dict Text StoredOtp → Adapter api.State
  with_otps s otps = record {
    switch = s.switch;
    account_limits_cache = s.account_limits_cache;
    customer_limits_cache = s.customer_limits_cache;
    env_email_cache = s.env_email_cache;
    otps = otps;
  }

  -- OtpStorageInMemory: `store` and `delete`; `retrieve` is a lookup.
  unfoldable pub store_otp : Text → StoredOtp → Step api (Unit {0})
  store_otp otp_id otp s = (ok tt, with_otps s (insert otp_id otp s.otps))

  unfoldable pub delete_otp : Text → Step api (Unit {0})
  delete_otp otp_id s = (ok tt, with_otps s (erase otp_id s.otps))

  -- `_notification_email`
  abbrev pub email_read : ℕ → Result Failure (Option Text) → Step api (Option Text)
  email_read stored_at (err f) s = (ok none, s)
  email_read stored_at (ok email) s = (
    ok email,
    record {
      switch = s.switch;
      account_limits_cache = s.account_limits_cache;
      customer_limits_cache = s.customer_limits_cache;
      env_email_cache = some (stored_at, email);
      otps = s.otps;
    },
  )

  abbrev pub email_cached : ℕ → ℕ → Option (ℕ × Option Text) → Step api (Option Text)
  email_cached now stored_at none s = email_read stored_at (api.env_email s.switch) s
  email_cached now stored_at (some (at, email)) s =
      if ltb (now - at) env_email_ttl
      then (ok email, s)
      else email_read stored_at (api.env_email s.switch) s

  unfoldable pub notification_email : ℕ → ℕ → Step api (Option Text)
  notification_email now stored_at s = email_cached now stored_at s.env_email_cache s

  -- The account of an id, or of an email address where no account has that id.
  abbrev pub or_by_email : Text → Option AccountInfo → Step api (Option AccountInfo)
  or_by_email user_id (some a) = ret (some a)
  or_by_email user_id none = ask api (find_account_by_email api user_id)

  abbrev pub required_account : Option AccountInfo → Step api AccountInfo
  required_account none = fail not_found_user
  required_account (some a) = master_required api not_found_user (some a)

  unfoldable pub account_for_otp : Text → Step api AccountInfo
  account_for_otp user_id =
      ask api (λ s. api.account_by_id s user_id) >>= or_by_email user_id >>= required_account

  abbrev pub store_created : Cipher → Text → Text → Option Text → ℕ → Step api OtpResponse
  store_created cipher otp_id user_id delivery_from i_account s =
      (store_otp otp_id (record {
        i_account = i_account;
        user_ref = user_id;
        stored_token = sealed cipher (api.current_access_token s.switch);
      })
          >> ret (record { otp_id = otp_id; delivery_from = delivery_from }))
        s

  unfoldable pub create_otp :
      Settings → Cipher → Text → Text → Option Text → AccountInfo → Step api OtpResponse
  create_otp settings cipher otp_id user_id delivery_from a =
      require (addons_allowed settings.allowed_addons a) addon_required
      >> (call api (λ t. api.create_otp t a.i_account) >>= λ success.
          require success external_api_issue
          >> store_created cipher otp_id user_id delivery_from a.i_account)

  -- `generate_otp`
  unfoldable pub generate_otp : Settings → Cipher → ℕ → ℕ → Text → Text → Step api OtpResponse
  generate_otp settings cipher now stored_at otp_id user_id = on_fault generate_fault (
      notification_email now stored_at >>= λ delivery_from.
      account_for_otp user_id >>= create_otp settings cipher otp_id user_id delivery_from)

  unfoldable pub sign_in_verified : Settings → Clock → Text → ℕ → Text → ℕ → Step api SessionInfo
  sign_in_verified settings clock uuid now otp_id i_account =
      delete_otp otp_id
      >> (ask api (λ s. api.account_by_number s i_account)
          >>= required api not_found_user
          >>= open_session api settings.limits clock uuid now i_account)

  unfoldable pub verify_stored :
      Settings
      → List Text
      → Cipher
      → Clock
      → Text
      → ℕ
      → Text
      → Text
      → StoredOtp
      → Step api SessionInfo
  verify_stored settings ignored cipher clock uuid now otp_id code otp =
      call api (λ t. api.verify_otp t code (opened cipher otp.stored_token)) >>= λ success.
      require (member otp.user_ref ignored || success) incorrect_otp_code
      >> sign_in_verified settings clock uuid now otp_id otp.i_account

  abbrev pub stored_or_expired :
      (StoredOtp → Step api SessionInfo) → Option StoredOtp → Step api SessionInfo
  stored_or_expired verify none = fail otp_expired
  stored_or_expired verify (some otp) = if otp.i_account == 0 then fail otp_expired else verify otp

  -- `validate_otp`
  unfoldable pub validate_otp :
      Settings → List Text → Cipher → Clock → Text → ℕ → Text → Text → Step api SessionInfo
  validate_otp settings ignored cipher clock uuid now otp_id code = on_fault validate_fault (λ s.
      stored_or_expired (verify_stored settings ignored cipher clock uuid now otp_id code)
        (lookup otp_id s.otps) s)
