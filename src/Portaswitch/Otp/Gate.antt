-- ===== src/Portaswitch/Otp/Gate.antt =====
-- app/bss/adapters/portaswitch/adapter.py: who gets an OTP, and the sign-in that follows it.
use porta_phone_adapter.Base.{ℕ, ◌≡◌, sym, ap, ◌∙◌, Bool, true, Option, some}
use porta_phone_adapter.Base.Eq.{Text, text_key}
use porta_phone_adapter.Base.Dict.{lookup, lookup-insert_self}
use porta_phone_adapter.Base.Result.{ok}
use porta_phone_adapter.Portaswitch.{
  after, ◌>>=◌, ◌>>◌, after-ok, rescue-ok, require-ok, handled, require,
}
use porta_phone_adapter.Portaswitch.Account.{AccountInfo, addons_allowed, StoredOtp, Api}
use porta_phone_adapter.Portaswitch.Limits.{Adapter}
use porta_phone_adapter.Portaswitch.SignIn.{Settings, Step, call, addon_required}
use porta_phone_adapter.Portaswitch.Otp.{
  Cipher, OtpResponse, external_api_issue, generate_fault, sealed, store_otp, store_created,
  notification_email, account_for_otp, create_otp, generate_otp,
}

module _ (api : Api) where
  -- What is open for an account after its OTP was made.
  abbrev pub opened_for : Cipher → Text → ℕ → Adapter api.State → StoredOtp
  opened_for cipher user_id i_account t = record {
    i_account = i_account;
    user_ref = user_id;
    stored_token = sealed cipher (api.current_access_token t.switch);
  }

  created-stored :
      (settings : Settings) (cipher : Cipher) (otp_id user_id : Text) (email : Option Text)
      (a : AccountInfo) (s t : Adapter api.State) (r : OtpResponse)
      → create_otp api settings cipher otp_id user_id email a s ≡ (ok r, t)
      → (addons_allowed settings.allowed_addons a ≡ true)
        × ((call api (λ u. api.create_otp u a.i_account) s).0 ≡ ok true)
        × (lookup otp_id t.otps ≡ some (opened_for cipher user_id a.i_account t))
  unfolding create_otp store_otp
  created-stored settings cipher otp_id user_id email a s t r h =
      let store = store_created api cipher otp_id user_id email a.i_account in
      let checked : Bool → Step api OtpResponse =
        λ success. require success external_api_issue >> store in
      let (u, s1, e1, h1) =
        after-ok (λ _. call api (λ u. api.create_otp u a.i_account) >>= checked)
          (require (addons_allowed settings.allowed_addons a) addon_required s) r t h in
      let allowed = require-ok _ addon_required s s1 u e1 in
      let (success, s2, e2, h2) =
        after-ok checked (call api (λ u. api.create_otp u a.i_account) s1) r t h1 in
      let (v, s3, e3, h3) = after-ok (λ _. store) (require success external_api_issue s2) r t h2 in
      let succeeded = require-ok success external_api_issue s2 s3 v e3 in
      (
        allowed.0,
        ap (λ x. (call api (λ u. api.create_otp u a.i_account) x).0) (allowed.1)
            ∙ ap (λ p. p.0) e2
            ∙ ap ok (succeeded.0),
        sym (ap (λ p. lookup otp_id ((p.1).otps)) h3)
            ∙ lookup-insert_self otp_id (opened_for cipher user_id a.i_account s3) s3.otps
            ∙ ap (λ x. some (opened_for cipher user_id a.i_account x)) (ap (λ p. p.1) h3),
      )

  -- The account of a request for an OTP is the one that is found after the address was read.
  generated-stored :
      (settings : Settings) (cipher : Cipher) (now stored_at : ℕ) (otp_id user_id : Text)
      (s t : Adapter api.State) (r : OtpResponse)
      → generate_otp api settings cipher now stored_at otp_id user_id s ≡ (ok r, t)
      → (a : AccountInfo) × (s2 : Adapter api.State) × (account_for_otp api user_id
            ((notification_email api now stored_at s).1)
          ≡ (ok a, s2))
        × (addons_allowed settings.allowed_addons a ≡ true)
        × ((call api (λ u. api.create_otp u a.i_account) s2).0 ≡ ok true)
        × (lookup otp_id t.otps ≡ some (opened_for cipher user_id a.i_account t))
  unfolding generate_otp
  generated-stored settings cipher now stored_at otp_id user_id s t r h =
      let with_email : Option Text → Step api OtpResponse = λ email.
        account_for_otp api user_id >>= create_otp api settings cipher otp_id user_id email in
      let h0 =
        rescue-ok (handled generate_fault)
          (after with_email (notification_email api now stored_at s)) r t h in
      let (email, s1, e1, h1) =
        after-ok with_email (notification_email api now stored_at s) r t h0 in
      let (a, s2, e2, h2) =
        after-ok (create_otp api settings cipher otp_id user_id email)
          (account_for_otp api user_id s1) r t h1 in
      let (allowed, made, kept) = created-stored settings cipher otp_id user_id email a s2 t r h2 in
      (a, s2, ap (λ p. account_for_otp api user_id (p.1)) e1 ∙ e2, allowed, made, kept)

  -- Where a request for an OTP succeeds: an account was found for the user, the master in place of
  -- an alias; it has an allowed add-on if the setting names any; the switch has made the OTP for
  -- it; and under the id of the OTP it is open for that account, with the encrypted session of the
  -- switch.
  pub otp_needs_account :
      (settings : Settings) (cipher : Cipher) (now stored_at : ℕ) (otp_id user_id : Text)
      (s t : Adapter api.State) (r : OtpResponse)
      → generate_otp api settings cipher now stored_at otp_id user_id s ≡ (ok r, t)
      → (a : AccountInfo) × (s1 : Adapter api.State) × (s2 : Adapter api.State) × (account_for_otp
            api user_id s1
          ≡ (ok a, s2))
        × (addons_allowed settings.allowed_addons a ≡ true)
        × ((call api (λ u. api.create_otp u a.i_account) s2).0 ≡ ok true)
        × (lookup otp_id t.otps ≡ some (opened_for cipher user_id a.i_account t))
  otp_needs_account settings cipher now stored_at otp_id user_id s t r h =
      let (a, s2, found, allowed, made, kept) =
        generated-stored settings cipher now stored_at otp_id user_id s t r h in
      (a, (notification_email api now stored_at s).1, s2, found, allowed, made, kept)
