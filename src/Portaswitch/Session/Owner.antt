-- ===== src/Portaswitch/Session/Owner.antt =====
-- app/bss/adapters/portaswitch/adapter.py: whose session a token is taken for.
use porta_phone_adapter.Base.{
  ℕ, zero, suc, ◌≡◌, ◌≢◌, refl, sym, ap, ◌∙◌, ◌⊎◌, inl, inr, Bool, true, false, ◌&&◌, none, some,
  arith,
}
use porta_phone_adapter.Base.Eq.{Text, text_key}
use porta_phone_adapter.Base.Dict.{Dict, lookup}
use porta_phone_adapter.Base.Result.{ok, err, ok_inj}
use porta_phone_adapter.Portaswitch.{
  after, after-ok, rescue-ok, handled, rescue, billing, session_gone,
}
use porta_phone_adapter.Portaswitch.Account.{AccountInfo, LoginData, Api}
use porta_phone_adapter.Portaswitch.Limits.{Adapter}
use porta_phone_adapter.Portaswitch.SignIn.{call, ask, moved}
use porta_phone_adapter.Portaswitch.Session.{
  Decoded, claims, expired_signature, malformed, Realm, ValidSession, RefreshedSession, ping_fault,
  refresh_fault, valid_for, validate_decoded, validate_session, new_tokens, with_owner, refreshed,
  refresh_session, emulate_account_login, account_meant, close_session,
}

module _ (api : Api) (realm : Realm api.State) where
  valid_for-user :
      (token : Text) (i : ℕ) (s t : Adapter api.State) (session : ValidSession)
      → valid_for api realm token i s ≡ (ok session, t)
      → (session.user_id ≡ i) × (session.user_id ≢ 0)
  valid_for-user token zero s t session h = cc
  valid_for-user token (suc i) s t session h =
      let same : session.user_id ≡ suc i =
        ap (λ x. x.user_id) (ok_inj session _ (ap (λ p. p.0) (sym h))) in
      (same, λ e. absurd (omega (arith, same, e)))

  -- A token that is accepted is one that decodes to claims and has not expired by itself; it is
  -- accepted as the session of the account that its claims name, or, where they name none, of the
  -- user that the switch answers for it, who is not zero.
  pub accepted_token_owner :
      (migration : Bool) (token : Text) (s t : Adapter api.State) (session : ValidSession)
      → validate_session api realm migration token s ≡ (ok session, t)
      → (realm.decode token ≡ claims (some session.user_id))
        ⊎ ((realm.decode token ≡ claims none)
            × ((realm.ping s.switch token).0 ≡ ok session.user_id)
            × (session.user_id ≢ 0))
  unfolding validate_session
  accepted_token_owner migration token s t session h = by_claims (realm.decode token) refl h
    where
      by_claims :
          (d : Decoded)
          → realm.decode token ≡ d
          → validate_decoded api realm migration token d s ≡ (ok session, t)
          → (realm.decode token ≡ claims (some session.user_id))
            ⊎ ((realm.decode token ≡ claims none)
                × ((realm.ping s.switch token).0 ≡ ok session.user_id)
                × (session.user_id ≢ 0))
      by_claims expired_signature e q = cc
      by_claims malformed e q = cc
      by_claims (claims (some i)) e q =
          inl (
            e
            ∙ ap (λ u. claims (some u)) (ap (λ x. x.user_id) (ok_inj _ session (ap (λ p. p.0) q))))
      by_claims (claims none) e q =
          let (user, s1, e1, q1) =
            after-ok (valid_for api realm token)
              (rescue (handled ping_fault) (call api (λ u. realm.ping u token) s)) session t q in
          let pinged =
            rescue-ok (handled ping_fault) (call api (λ u. realm.ping u token) s) user s1 e1 in
          let (same, given) = valid_for-user token user s1 t session q1 in
          inr (e, ap (λ p. p.0) pinged ∙ ap ok (sym same), given)

  -- With the migration of sessions enabled, a refresh token made of digits alone is not taken to
  -- the switch as a token: the account that the table of hashes has for it, or, where it has none,
  -- the account that the switch reads the digits as, is logged in, with no other proof. The session is
  -- that of the account that the new access token belongs to.
  pub migration_takes_number :
      (hashes : Dict Text ℕ) (uuid : Text) (now : ℕ) (token : Text) (s t : Adapter api.State)
      (login : LoginData) (a : AccountInfo)
      → realm.isdigit token ≡ true
      → emulate_account_login api uuid (account_meant api realm token (lookup token hashes)) s
        ≡ (ok login, t)
      → realm.account t.switch login.access_token ≡ ok a
      → refresh_session api realm true hashes uuid now token s ≡ refreshed api realm now login a t
  unfolding refresh_session
  migration_takes_number hashes uuid now token s t login a digits l o = rw (digits, l, o) refl

  -- A refresh of a session that succeeds, without the migration of sessions or with a token that is
  -- not made of digits alone, as `str.isdigit` counts them: the switch has accepted the refresh token, and the session is that of
  -- the account that the new access token belongs to.
  pub refresh_needs_token :
      (migration : Bool) (hashes : Dict Text ℕ) (uuid : Text) (now : ℕ) (token : Text)
      (s t : Adapter api.State) (session : RefreshedSession)
      → (migration && realm.isdigit token) ≡ false
      → refresh_session api realm migration hashes uuid now token s ≡ (ok session, t)
      → (login : LoginData) × (a : AccountInfo) × ((realm.refresh s.switch token).0 ≡ ok login)
        × (realm.account t.switch login.access_token ≡ ok a)
        × (session.user_id ≡ a.i_account)
        × (session.access_token ≡ login.access_token)
  unfolding refresh_session
  refresh_needs_token migration hashes uuid now token s t session plain h =
      let r =
        rescue-ok (handled refresh_fault)
          (after (with_owner api realm now)
            (new_tokens api realm (migration && realm.isdigit token) hashes uuid token s))
          session t h in
      let (login, s1, e1, h1) =
        after-ok (with_owner api realm now)
          (new_tokens api realm (migration && realm.isdigit token) hashes uuid token s) session t
          r in
      let accepted : call api (λ u. realm.refresh u token) s ≡ (ok login, s1) =
        sym (ap (λ b. new_tokens api realm b hashes uuid token s) plain) ∙ e1 in
      let (a, s2, e2, h2) =
        after-ok (refreshed api realm now login)
          (ask api (λ u. realm.account u login.access_token) s1) session t h1 in
      let kept : s1 ≡ t = ap (λ p. p.1) e2 ∙ ap (λ p. p.1) h2 in
      let given = ok_inj session _ (ap (λ p. p.0) (sym h2)) in
      (
        login,
        a,
        ap (λ p. p.0) accepted,
        ap (λ x. realm.account (x.switch) login.access_token) (sym kept) ∙ ap (λ p. p.0) e2,
        ap (λ x. x.user_id) given,
        ap (λ x. x.access_token) given,
      )

  -- The end of a session succeeds where the switch says that the session is already gone, and the
  -- adapter answers whatever success the switch answers.
  pub gone_session_closes :
      (token : Text) (s : Adapter api.State) (t : api.State) (success : Bool)
      → (realm.logout s.switch token ≡ (ok success, t))
        ⊎ ((realm.logout s.switch token ≡ (err (billing session_gone), t)) × (success ≡ true))
      → close_session api realm token s ≡ moved api s (ok success, t)
  unfolding close_session
  gone_session_closes token s t success (inl h) = rw h refl
  gone_session_closes token s t success (inr (h, e)) = rw (h, e) refl
