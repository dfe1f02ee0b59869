-- ===== src/Portaswitch/Otp/Once.antt =====
-- app/bss/adapters/portaswitch/adapter.py: an OTP signs in once, and a wrong code leaves it open.
use porta_phone_adapter.Base.{
  ℕ, ◌≡◌, refl, sym, ap, ◌∙◌, Bool, true, false, ◌||◌, Option, none, some, List, [], ◌∷◌, ◌==◌,
  Bool-cases, inl, inr, if◌then◌else◌,
}
use porta_phone_adapter.Base.Eq.{Text, text_key}
use porta_phone_adapter.Base.Dict.{lookup, erase, lookup-erase_self}
use porta_phone_adapter.Base.Result.{Result, ok, err}
use porta_phone_adapter.Release.{numbers, at_least}
use porta_phone_adapter.Portaswitch.{
  ret, Failure, after, ◌>>=◌, ◌>>◌, fail, after-ok, rescue-ok, handled, require,
}
use porta_phone_adapter.Portaswitch.Account.{AccountInfo, member, StoredOtp, Api}
use porta_phone_adapter.Portaswitch.Limits.{
  Adapter, Clock, Settings as LimitSettings, read_device_limits, read_owner_limits, limits_owner,
}
use porta_phone_adapter.Portaswitch.SignIn.{
  Settings, SessionInfo, Step, call, ask, moved, required, with_limits, login_account, login_with,
  login_by, login_if, session_with, open_session, is_version_with_token, get_or_create_api_token,
  given_or_created, token_if, version_with_token,
}
use porta_phone_adapter.Portaswitch.Otp.{
  Cipher, otp_expired, incorrect_otp_code, not_found_user, validate_fault, opened, delete_otp,
  with_otps, sign_in_verified, verify_stored, stored_or_expired, validate_otp,
}

module _ (api : Api) where
  -- A step that leaves the open OTPs as they are.
  abbrev KeepsOtps : {A : Type 0} → Step api A → Type 0
  KeepsOtps m = (s : Adapter api.State) → ((m s).1).otps ≡ s.otps

  bind-KeepsOtps :
      {A B : Type 0} (m : Step api A) (f : A → Step api B)
      → KeepsOtps m
      → ((a : A) → KeepsOtps (f a))
      → KeepsOtps (m >>= f)
  bind-KeepsOtps {A = A} m f km kf s = after_keeps (m s) ∙ km s
    where
      after_keeps : (r : Result Failure A × Adapter api.State) → ((after f r).1).otps ≡ (r.1).otps
      after_keeps (ok a, t) = kf a t
      after_keeps (err e, t) = refl

  limits-KeepsOtps :
      (settings : LimitSettings) (clock : Clock) (a : AccountInfo)
      → KeepsOtps (with_limits api settings clock a)
  unfolding read_device_limits
  limits-KeepsOtps settings clock a s = owner_keeps (limits_owner api a s.switch)
    where
      owner_keeps :
          (o : Result Failure AccountInfo)
          → ((read_owner_limits api settings clock a o s).1).otps ≡ s.otps
      owner_keeps (ok owner) = refl
      owner_keeps (err f) = refl

  token-KeepsOtps :
      (uuid : Text) (i_account : ℕ) (token : Text)
      → KeepsOtps (given_or_created api uuid i_account token)
  token-KeepsOtps uuid i_account [] s = created (api.update_api_token s.switch i_account uuid)
    where
      created :
          (r : Result Failure (Unit {0}) × api.State)
          → ((token_if api uuid (moved api s r)).1).otps ≡ s.otps
      created (ok u, t) = refl
      created (err f, t) = refl
  token-KeepsOtps uuid i_account (c ∷ token) s = refl

  login_by-KeepsOtps : (a : AccountInfo) (token : Option Text) → KeepsOtps (login_by api a token)
  login_by-KeepsOtps a none s = refl
  login_by-KeepsOtps a (some []) s = refl
  login_by-KeepsOtps a (some (c ∷ token)) s = refl

  login_if-KeepsOtps :
      (uuid : Text) (a : AccountInfo) (tokens : Bool) → KeepsOtps (login_if api uuid a tokens)
  unfolding get_or_create_api_token
  login_if-KeepsOtps uuid a true s =
      bind-KeepsOtps (given_or_created api uuid a.i_account a.api_token) (login_by api a)
        (token-KeepsOtps uuid a.i_account a.api_token) (login_by-KeepsOtps a) s
  login_if-KeepsOtps uuid a false s = refl

  login-KeepsOtps : (uuid : Text) (a : AccountInfo) → KeepsOtps (login_account api uuid a)
  unfolding login_account is_version_with_token
  login-KeepsOtps uuid a =
      bind-KeepsOtps (is_version_with_token api) (login_if api uuid a) version_keeps
        (login_if-KeepsOtps uuid a)
    where
      version_keeps : KeepsOtps (is_version_with_token api)
      version_keeps =
          bind-KeepsOtps (ask api api.version)
            (λ version. ret (at_least (numbers none version) version_with_token)) (λ s. refl)
            (λ version s. refl)

  session-KeepsOtps :
      (settings : LimitSettings) (clock : Clock) (uuid : Text) (now i_account : ℕ) (a : AccountInfo)
      → KeepsOtps (open_session api settings clock uuid now i_account a)
  unfolding open_session
  session-KeepsOtps settings clock uuid now i_account a =
      bind-KeepsOtps (with_limits api settings clock a) (login_with api uuid now i_account a)
        (limits-KeepsOtps settings clock a)
        (λ limits.
          bind-KeepsOtps (login_account api uuid a) (session_with api now i_account limits)
            (login-KeepsOtps uuid a) (λ login s. refl))

  verified-forgets :
      (settings : Settings) (clock : Clock) (uuid : Text) (now : ℕ) (otp_id : Text) (i_account : ℕ)
      (s : Adapter api.State)
      → ((sign_in_verified api settings clock uuid now otp_id i_account s).1).otps
        ≡ erase otp_id s.otps
  unfolding sign_in_verified delete_otp
  verified-forgets settings clock uuid now otp_id i_account s =
      bind-KeepsOtps
        (ask api (λ t. api.account_by_number t i_account) >>= required api not_found_user)
        (open_session api settings.limits clock uuid now i_account)
        (bind-KeepsOtps (ask api (λ t. api.account_by_number t i_account))
          (required api not_found_user) (λ t. refl) required_keeps)
        (session-KeepsOtps settings.limits clock uuid now i_account)
        (with_otps api s (erase otp_id s.otps))
    where
      required_keeps : (o : Option AccountInfo) → KeepsOtps (required api not_found_user o)
      required_keeps none t = refl
      required_keeps (some a) t = refl

  -- What a verification that ends well leaves.
  stored-forgets :
      (settings : Settings) (ignored : List Text) (cipher : Cipher) (clock : Clock) (uuid : Text)
      (now : ℕ) (otp_id code : Text) (otp : StoredOtp) (s t : Adapter api.State)
      (session : SessionInfo)
      → verify_stored api settings ignored cipher clock uuid now otp_id code otp s ≡ (ok session, t)
      → lookup otp_id t.otps ≡ none
  unfolding verify_stored
  stored-forgets settings ignored cipher clock uuid now otp_id code otp s t session h =
      let sign_in = sign_in_verified api settings clock uuid now otp_id otp.i_account in
      let (success, s1, e1, h1) =
        after-ok
          (λ success.
            require (member otp.user_ref ignored || success) incorrect_otp_code >> sign_in)
          (call api (λ u. api.verify_otp u code (opened cipher otp.stored_token)) s) session t h in
      let (u, s2, e2, h2) =
        after-ok (λ _. sign_in)
          (require (member otp.user_ref ignored || success) incorrect_otp_code s1) session t h1 in
      let forgotten = verified-forgets settings clock uuid now otp_id otp.i_account s2 in
      ap (λ d. lookup otp_id d) (sym (ap (λ p. (p.1).otps) h2) ∙ forgotten)
      ∙ lookup-erase_self otp_id s2.otps

  -- An OTP signs in at most once: after a validation that gave a session, every validation of the
  -- same OTP, with whatever code and at whatever time, ends with 401 otp_expired and changes
  -- nothing.
  pub otp_used_once :
      (settings settings' : Settings) (ignored ignored' : List Text) (cipher cipher' : Cipher)
      (clock clock' : Clock) (uuid uuid' : Text) (now now' : ℕ) (otp_id code code' : Text)
      (s t : Adapter api.State) (session : SessionInfo)
      → validate_otp api settings ignored cipher clock uuid now otp_id code s ≡ (ok session, t)
      → validate_otp api settings' ignored' cipher' clock' uuid' now' otp_id code' t
        ≡ (err otp_expired, t)
  unfolding validate_otp handled
  otp_used_once settings settings' ignored ignored' cipher cipher' clock clock' uuid uuid' now now'
        otp_id code code' s t session h =
      let verify = verify_stored api settings ignored cipher clock uuid now otp_id code in
      let r =
        rescue-ok (handled validate_fault) (stored_or_expired api verify (lookup otp_id s.otps) s)
          session t h in
      rw (gone (lookup otp_id s.otps) r) refl
    where
      chosen : StoredOtp → Bool → Step api SessionInfo
      chosen otp missing =
          if missing
          then fail otp_expired
          else verify_stored api settings ignored cipher clock uuid now otp_id code otp

      gone :
          (o : Option StoredOtp)
          → stored_or_expired api
              (verify_stored api settings ignored cipher clock uuid now otp_id code)
              o
              s
            ≡ (ok session, t)
          → lookup otp_id t.otps ≡ none
      gone none h = cc
      gone (some otp) h = elim (Bool-cases (otp.i_account == 0)) [
        | inl missing ↦ let refused = sym (ap (λ b. chosen otp b s) missing) ∙ h in cc
        | inr there ↦
            stored-forgets settings ignored cipher clock uuid now otp_id code otp s t session
              (sym (ap (λ b. chosen otp b s) there) ∙ h)
      ]

  -- A code that the switch does not accept, for an OTP that is open and whose user is not one of
  -- those let through, ends with 401 incorrect_otp_code: nobody is logged in, and all open OTPs
  -- stay open.
  pub wrong_code_keeps :
      (settings : Settings) (ignored : List Text) (cipher : Cipher) (clock : Clock) (uuid : Text)
      (now : ℕ) (otp_id code : Text) (s : Adapter api.State) (otp : StoredOtp) (switch : api.State)
      → lookup otp_id s.otps ≡ some otp
      → (otp.i_account == 0) ≡ false
      → member otp.user_ref ignored ≡ false
      → api.verify_otp s.switch code (opened cipher otp.stored_token) ≡ (ok false, switch)
      → validate_otp api settings ignored cipher clock uuid now otp_id code s
        ≡ moved api s (err incorrect_otp_code, switch)
  unfolding validate_otp verify_stored handled
  wrong_code_keeps settings ignored cipher clock uuid now otp_id code s otp switch l i m v =
      rw (l, i, v, m) refl
