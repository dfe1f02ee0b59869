-- ===== src/Portaswitch/SignIn/Gate.antt =====
-- app/bss/adapters/portaswitch/adapter.py: who gets a session by a sign-in, and who does not.
use porta_phone_adapter.Base.{
  ℕ, ◌≡◌, refl, sym, ap, ◌∙◌, true, false, ◌&&◌, Bool-cases, inl, inr, if◌then◌else◌, Option, none,
  some, [], ◌∷◌, zero, suc,
}
use porta_phone_adapter.Base.Eq.{Text}
use porta_phone_adapter.Base.Result.{Result, ok, err}
use porta_phone_adapter.Release.{numbers, at_least}
use porta_phone_adapter.Portaswitch.{
  Failure, after, after-ok, rescue-ok, require-ok, handled, require,
}
use porta_phone_adapter.Portaswitch.Account.{AccountInfo, master_of, addons_allowed, LoginData, Api}
use porta_phone_adapter.Portaswitch.Limits.{
  Adapter, Clock, read_device_limits, Settings as LimitSettings,
}
use porta_phone_adapter.Portaswitch.SignIn.{
  Settings, SessionInfo, right_password, incorrect_credentials, addon_required, sign_in_fault,
  moved, version_with_token, is_version_with_token, get_or_create_api_token, session_of,
  session_with, open_allowed, ask, master_required, required, master_if, account_named, Credentials,
  sip, self_care, login_account, open_session, checked_sign_in, account_to_sign_in, authenticate,
}

module _ (api : Api) where
  -- The steps before the login leave the state as it is.
  ask-keeps :
      {A : Type 0} (r : api.State → Result Failure A) (s t : Adapter api.State) (x : A)
      → ask api r s ≡ (ok x, t)
      → s ≡ t
  ask-keeps r s t x h = ap (λ p. p.1) h

  pub master_required-keeps :
      (f : Failure) (o : Option AccountInfo) (s t : Adapter api.State) (a : AccountInfo)
      → master_required api f o s ≡ (ok a, t)
      → s ≡ t
  master_required-keeps f none s t a h = ap (λ p. p.1) h
  master_required-keeps f (some b) s t a h = master-keeps (master_of b) (some b) h
    where
      required-keeps :
          (o : Option AccountInfo) (s : Adapter api.State) → required api f o s ≡ (ok a, t) → s ≡ t
      required-keeps none s h = ap (λ p. p.1) h
      required-keeps (some b) s h = ap (λ p. p.1) h

      master-keeps :
          (i : ℕ) (o : Option AccountInfo)
          → after (required api f) (master_if api i o s) ≡ (ok a, t)
          → s ≡ t
      master-keeps zero o h = required-keeps o s h
      master-keeps (suc i) o h =
          let (x, s1, e, h1) = after-ok (required api f) (master_if api (suc i) o s) a t h in
          ap (λ p. p.1) e ∙ required-keeps x s1 h1

  account-keeps :
      (settings : Settings) (login : Text) (s t : Adapter api.State) (a : AccountInfo)
      → account_to_sign_in api settings login s ≡ (ok a, t)
      → s ≡ t
  unfolding account_to_sign_in
  account-keeps settings login s t a h =
      let (x, s1, e, h1) =
        after-ok (master_required api incorrect_credentials)
          (account_named api settings.credentials login s) a t h in
      named-keeps settings.credentials s s1 x e
      ∙ master_required-keeps incorrect_credentials x s1 t a h1
    where
      named-keeps :
          (by : Credentials) (s t : Adapter api.State) (x : Option AccountInfo)
          → account_named api by login s ≡ (ok x, t)
          → s ≡ t
      named-keeps sip s t x h = ap (λ p. p.1) h
      named-keeps self_care s t x h = ap (λ p. p.1) h

  pub open_session-user :
      (limits : LimitSettings) (clock : Clock) (uuid : Text) (now i_account : ℕ) (a : AccountInfo)
      (s t : Adapter api.State) (session : SessionInfo)
      → open_session api limits clock uuid now i_account a s ≡ (ok session, t)
      → session.user_id ≡ i_account
  unfolding open_session
  open_session-user limits clock uuid now i_account a s t session h =
      let (device_limits, s1) = read_device_limits api limits clock a s in
      let (login, s2, e, g) =
        after-ok (session_with api now i_account device_limits) (login_account api uuid a s1)
          session t h in
      ap (λ r. user_or i_account (r.0)) (sym g)
    where
      user_or : ℕ → Result Failure SessionInfo → ℕ
      user_or i (ok session) = session.user_id
      user_or i (err f) = i

  -- A sign-in that gives a session has read an account by its login, or the master in place of an
  -- alias; the password that was given is the account's, the account has an add-on of the allowed
  -- ones if the setting names any, and the session is that account's.
  pub session_needs_password :
      (settings : Settings) (clock : Clock) (uuid : Text) (now : ℕ) (login : Text)
      (password : Option Text) (s t : Adapter api.State) (session : SessionInfo)
      → authenticate api settings clock uuid now login password s ≡ (ok session, t)
      → (a : AccountInfo) × (account_to_sign_in api settings login s ≡ (ok a, s))
        × (right_password settings.credentials password a ≡ true)
        × (addons_allowed settings.allowed_addons a ≡ true)
        × (session.user_id ≡ a.i_account)
  unfolding authenticate checked_sign_in open_allowed handled
  session_needs_password settings clock uuid now login password s t session h =
      let r =
        rescue-ok (handled sign_in_fault)
          (after (checked_sign_in api settings clock uuid now password)
            (account_to_sign_in api settings login s))
          session t h in
      let (a, s1, e1, h1) =
        after-ok (checked_sign_in api settings clock uuid now password)
          (account_to_sign_in api settings login s) session t r in
      let (u, s2, e2, h2) =
        after-ok (λ _. open_allowed api settings clock uuid now a)
          (require (right_password settings.credentials password a) incorrect_credentials s1)
          session t h1 in
      let right = require-ok _ incorrect_credentials s1 s2 u e2 in
      let (v, s3, e3, h3) =
        after-ok (λ _. open_session api settings.limits clock uuid now a.i_account a)
          (require (addons_allowed settings.allowed_addons a) addon_required s2) session t h2 in
      let allowed = require-ok _ addon_required s2 s3 v e3 in
      let same = account-keeps settings login s s1 a e1 in
      (
        a,
        e1 ∙ ap (λ x. (ok a, x)) (sym same),
        right.0,
        allowed.0,
        open_session-user settings.limits clock uuid now a.i_account a s3 t session h3,
      )

  -- Where the account is read: with a wrong password the sign-in ends with 401
  -- incorrect_credentials, with the right one and none of the allowed add-ons with 403
  -- addon_required; nobody is logged in, and the switch and the caches stay as they were.
  pub sign_in_refused :
      (settings : Settings) (clock : Clock) (uuid : Text) (now : ℕ) (login : Text)
      (password : Option Text) (s : Adapter api.State) (a : AccountInfo)
      → account_to_sign_in api settings login s ≡ (ok a, s)
      → (right_password settings.credentials password a && addons_allowed settings.allowed_addons a)
        ≡ false
      → authenticate api settings clock uuid now login password s ≡ (
        err (
            if right_password settings.credentials password a
            then addon_required
            else incorrect_credentials),
        s,
      )
  unfolding authenticate checked_sign_in open_allowed handled
  sign_in_refused settings clock uuid now login password s a h g =
      elim (Bool-cases (right_password settings.credentials password a)) [
        | inl right ↦
            let refused : addons_allowed settings.allowed_addons a ≡ false =
              sym (ap (λ b. b && addons_allowed settings.allowed_addons a) right) ∙ g in
            rw (h, right, refused) refl
        | inr wrong ↦ rw (h, wrong) refl
      ]

  -- Where the account is read, the password is right and the account has an allowed add-on: if the
  -- login into the account realm succeeds, the sign-in gives its session with the device limits,
  -- whatever the reads of the limits did.
  pub right_password_signs_in :
      (settings : Settings) (clock : Clock) (uuid : Text) (now : ℕ) (login : Text)
      (password : Option Text) (s t : Adapter api.State) (a : AccountInfo) (given : LoginData)
      → account_to_sign_in api settings login s ≡ (ok a, s)
      → right_password settings.credentials password a ≡ true
      → addons_allowed settings.allowed_addons a ≡ true
      → login_account api uuid a ((read_device_limits api settings.limits clock a s).1)
        ≡ (ok given, t)
      → authenticate api settings clock uuid now login password s ≡ (
        ok (
            session_of api now a.i_account given
              ((read_device_limits api settings.limits clock a s).0)),
        t,
      )
  unfolding authenticate checked_sign_in open_allowed open_session
  right_password_signs_in settings clock uuid now login password s t a given h right allowed l =
      rw (h, right, allowed, l) refl

  -- With a release from MR128 on, an account without a token of its own is logged in with the new
  -- one where the switch takes it, and with its password where the switch does not; an error of
  -- that update never reaches the caller.
  pub missing_token_created :
      (uuid : Text) (c : ℕ) (a : AccountInfo) (s : Adapter api.State) (version : Text)
      (r : Result Failure (Unit {0})) (t : api.State)
      → api.version s.switch ≡ ok version
      → at_least (numbers none version) version_with_token ≡ true
      → a.api_token ≡ []
      → api.update_api_token s.switch a.i_account (c ∷ uuid) ≡ (r, t)
      → login_account api (c ∷ uuid) a s
        ≡ moved api s (elim r [
          | ok u ↦ api.login t a.login none (some (c ∷ uuid))
          | err f ↦ api.login t a.login a.password none
        ])
  unfolding login_account is_version_with_token get_or_create_api_token
  missing_token_created uuid c a s version (ok u) t v m e h = rw (v, m, e, h) refl
  missing_token_created uuid c a s version (err f) t v m e h = rw (v, m, e, h) refl
