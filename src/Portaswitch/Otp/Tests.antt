-- ===== src/Portaswitch/Otp/Tests.antt =====
-- The theorems on one-time passwords at the sample switch.
use porta_phone_adapter.Base.{ℕ, ◌+◌, ◌≡◌, refl, true, none, some, [], ◌∷◌}
use porta_phone_adapter.Base.Eq.{codes, text_eq, text_key}
use porta_phone_adapter.Base.Dict.{lookup, insert, erase}
use porta_phone_adapter.Base.Result.{ok, err}
use porta_phone_adapter.Release.{numbers, at_least}
use porta_phone_adapter.Portaswitch.Account.{AccountInfo, master_of, addons_allowed, StoredOtp}
use porta_phone_adapter.Portaswitch.Sample.{
  api, owner, start, settings, limit_settings, clock, given, cipher,
}
use porta_phone_adapter.Portaswitch.Limits.{Adapter, read_device_limits}
use porta_phone_adapter.Portaswitch.SignIn.{
  SessionInfo, call, moved, session_of, login_account, is_version_with_token,
  get_or_create_api_token, open_session,
}
use porta_phone_adapter.Portaswitch.Otp.{
  OtpResponse, generate_otp, create_otp, store_otp, delete_otp, notification_email, account_for_otp,
  validate_otp, verify_stored, sign_in_verified, otp_expired,
}
use porta_phone_adapter.Portaswitch.Otp.Gate.{otp_needs_account, opened_for}
use porta_phone_adapter.Portaswitch.Otp.Once.{otp_used_once}

abbrev otp : StoredOtp
otp = record { i_account = 7; user_ref = codes "200"; stored_token = some (codes "#adm") }

abbrev response : OtpResponse
response = record { otp_id = codes "o1"; delivery_from = none }

-- The state with the OTP of the alias open.
abbrev open_state : Adapter ℕ
open_state = record {
  switch = 1;
  account_limits_cache = [];
  customer_limits_cache = [];
  env_email_cache = some (2, none);
  otps = (codes "o1", otp) ∷ [];
}

requested :
    generate_otp (api []) settings cipher 1 2 (codes "o1") (codes "200") start
    ≡ (ok response, open_state)
unfolding generate_otp create_otp store_otp notification_email account_for_otp master_of
    addons_allowed text_eq insert
requested = refl

otp_needs_account_example :
    (a : AccountInfo) × (s1 : Adapter ℕ) × (s2 : Adapter ℕ) × (account_for_otp
        (api [])
        (codes "200")
        s1
      ≡ (ok a, s2))
    × (addons_allowed (codes "phone" ∷ []) a ≡ true)
    × ((call (api []) (λ u. (ok true, u + 1)) s2).0 ≡ ok true)
    × (lookup (codes "o1") open_state.otps
        ≡ some (opened_for (api []) cipher (codes "200") a.i_account open_state))
otp_needs_account_example =
    otp_needs_account (api []) settings cipher 1 2 (codes "o1") (codes "200") start open_state
      response requested

-- The state after the code was verified, after the limits were read, and after the login.
abbrev verified : Adapter ℕ
verified = record {
  switch = 2;
  account_limits_cache = [];
  customer_limits_cache = [];
  env_email_cache = some (2, none);
  otps = [];
}

abbrev limits_read : Adapter ℕ
limits_read = (read_device_limits (api []) limit_settings clock owner verified).1

abbrev signed_in : Adapter ℕ
signed_in = (moved (api []) limits_read (ok tt, limits_read.switch + 1)).1

abbrev session : SessionInfo
session =
    session_of (api []) 500 7 given
      ((read_device_limits (api []) limit_settings clock owner verified).0)

validated :
    validate_otp
      (api [])
      settings
      []
      cipher
      clock
      (codes "u")
      500
      (codes "o1")
      (codes "1234")
      open_state
    ≡ (ok session, signed_in)
unfolding validate_otp verify_stored sign_in_verified delete_otp open_session login_account
    is_version_with_token get_or_create_api_token numbers at_least lookup erase text_eq
validated = refl

otp_used_once_example :
    validate_otp
      (api [])
      settings
      []
      cipher
      clock
      (codes "u")
      501
      (codes "o1")
      (codes "1234")
      signed_in
    ≡ (err otp_expired, signed_in)
otp_used_once_example =
    otp_used_once (api []) settings settings [] [] cipher cipher clock clock (codes "u") (codes "u")
      500 501 (codes "o1") (codes "1234") (codes "1234") open_state signed_in session validated
