-- ===== src/Portaswitch/SignIn/Tests.antt =====
-- The theorems on the sign-in at the sample switch.
use porta_phone_adapter.Base.{ℕ, ◌+◌, ◌≡◌, refl, true, some, [], ◌∷◌}
use porta_phone_adapter.Base.Eq.{codes, text_eq}
use porta_phone_adapter.Base.Result.{ok, err}
use porta_phone_adapter.Release.{numbers, at_least}
use porta_phone_adapter.Portaswitch.Account.{AccountInfo, master_of, addons_allowed}
use porta_phone_adapter.Portaswitch.Sample.{
  api, owner, start, settings, limit_settings, clock, given,
}
use porta_phone_adapter.Portaswitch.Limits.{Adapter, read_device_limits}
use porta_phone_adapter.Portaswitch.SignIn.{
  SessionInfo, right_password, incorrect_credentials, account_to_sign_in, authenticate, moved,
  session_of, is_version_with_token, get_or_create_api_token, login_account, sip,
}
use porta_phone_adapter.Portaswitch.SignIn.Gate.{
  session_needs_password, sign_in_refused, right_password_signs_in,
}

-- The state that the reads of the limits leave, and that after the login.
abbrev read : Adapter ℕ
read = (read_device_limits (api []) limit_settings clock owner start).1

abbrev signed_in : Adapter ℕ
signed_in = (moved (api []) read (ok tt, read.switch + 1)).1

abbrev session : SessionInfo
session =
    session_of (api []) 500 7 given
      ((read_device_limits (api []) limit_settings clock owner start).0)

logs_in :
    (s : Adapter ℕ)
    → login_account (api []) (codes "u") owner s ≡ moved (api []) s (ok given, s.switch + 1)
unfolding login_account is_version_with_token get_or_create_api_token numbers at_least
logs_in s = refl

sign_in_refused_example :
    authenticate (api []) settings clock (codes "u") 500 (codes "200") (some (codes "web")) start
    ≡ (err incorrect_credentials, start)
unfolding account_to_sign_in master_of text_eq addons_allowed
sign_in_refused_example =
    sign_in_refused (api []) settings clock (codes "u") 500 (codes "200") (some (codes "web")) start
      owner refl refl

signs_in :
    authenticate (api []) settings clock (codes "u") 500 (codes "200") (some (codes "sip")) start
    ≡ (ok session, signed_in)
unfolding account_to_sign_in master_of text_eq addons_allowed
signs_in =
    right_password_signs_in (api []) settings clock (codes "u") 500 (codes "200")
      (some (codes "sip")) start signed_in owner given refl refl refl (logs_in read)

session_needs_password_example :
    (a : AccountInfo) × (account_to_sign_in (api []) settings (codes "200") start ≡ (ok a, start))
    × (right_password sip (some (codes "sip")) a ≡ true)
    × (addons_allowed (codes "phone" ∷ []) a ≡ true)
    × (session.user_id ≡ a.i_account)
session_needs_password_example =
    session_needs_password (api []) settings clock (codes "u") 500 (codes "200")
      (some (codes "sip")) start signed_in session signs_in
