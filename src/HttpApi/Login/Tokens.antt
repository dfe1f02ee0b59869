-- ===== src/HttpApi/Login/Tokens.antt =====
-- When a request logs in, and what it carries.
use porta_phone_adapter.Base.{
  ℕ, ◌≡◌, refl, ap, ◌∙◌, sym, inl, inr, true, false, Option, none, some, [], ◌∷◌, arith, ltb,
  if◌then◌else◌, Bool-cases,
}
use porta_phone_adapter.Base.Eq.{Text, text_key}
use porta_phone_adapter.Base.Dict.{lookup, insert, lookup-insert_self}
use porta_phone_adapter.Base.Result.{Result, ok, err, Raised, webtrit, crash}
use porta_phone_adapter.HttpApi.Login.{
  OAuthSession, Billing, TokenTable, User, is_absent, no_token, is_none, valid_session, due,
  withdrawn, Outcome, usable, obtained, renew_by, session_in_progress, logged_in, login_unless,
  acquire, with_api_key, key_session, session_for,
}

some_token : (t : Option Text) → no_token t ≡ false → is_none t ≡ false
some_token none h = h
some_token (some t) h = refl

module _ (billing : Billing) where
  valid_present :
      (now : ℕ) (s : OAuthSession)
      → valid_session now (some s) ≡ true
      → no_token s.access_token ≡ false
  unfolding valid_session
  valid_present now s h = ground arith

  obtained_present :
      (tokens : TokenTable) (r : Result Raised OAuthSession × billing.State) (s : OAuthSession)
      → (obtained billing tokens r).0 ≡ ok (some s)
      → no_token s.access_token ≡ false
  unfolding obtained
  obtained_present tokens (err r, b) s h = cc
  obtained_present tokens (ok t, b) s h = elim (Bool-cases (no_token t.access_token)) [
    | inl a ↦ let e : usable billing t ≡ none = rw a refl in ground arith
    | inr a ↦ let same : t ≡ s = ground arith in ap (λ x. no_token x.access_token) (sym same) ∙ a
  ]

  logged_present :
      (user : User) (tokens : TokenTable) (r : Result Raised OAuthSession × billing.State)
      (s : OAuthSession)
      → (logged_in billing user tokens r).0 ≡ ok s
      → is_none s.access_token ≡ false
  unfolding logged_in
  logged_present user tokens (err r, b) s h = cc
  logged_present user tokens (ok t, b) s h = elim (Bool-cases (is_none t.access_token)) [
    | inl a ↦ ground arith
    | inr a ↦ let same : t ≡ s = ground arith in ap (λ x. is_none x.access_token) (sym same) ∙ a
  ]

  no_key :
      (user : User) (s : OAuthSession) (tokens : TokenTable) (b : billing.State)
      → user.api_key ≡ []
      → with_api_key billing user (ok s, tokens, b) ≡ (ok s, tokens, b)
  unfolding with_api_key
  no_key user s tokens b h = ap (λ k. (ok (key_session billing k s), tokens, b)) h

  login_stored :
      (user : User) (s : OAuthSession) (tokens : TokenTable) (b b' : billing.State)
      → user.password_missing ≡ false
      → billing.login b ≡ (ok s, b')
      → is_none s.access_token ≡ false
      → login_unless billing user (ok none, tokens, b) ≡ (ok s, insert user.user_id s tokens, b')
  unfolding login_unless logged_in
  login_stored user s tokens b b' password login present =
      ap
        (λ m.
          if m
          then (err (webtrit 401 (some "access_token_expired")), tokens, b)
          else logged_in billing user tokens (billing.login b))
        password
      ∙ ap (logged_in billing user tokens) login
      ∙ ap
          (λ m.
            if m
            then (err crash, insert user.user_id s tokens, b')
            else (ok s, insert user.user_id s tokens, b'))
          present

  -- A login serves the requests after it: for a user without a stored session, without an
  -- `api_key` and with a password, a login that gives a session with a token is the only call of
  -- the billing that two requests make, as long as that session is valid at the second one; both
  -- carry it.
  pub login_once :
      (now later : ℕ) (user : User) (tokens : TokenTable) (b b' : billing.State) (s : OAuthSession)
      → lookup user.user_id tokens ≡ none
      → user.password_missing ≡ false
      → user.api_key ≡ []
      → billing.login b ≡ (ok s, b')
      → valid_session later (some s) ≡ true
      → let (first, tokens', after) = session_for billing now user tokens b in
        (first ≡ ok s)
        × (after ≡ b')
        × (session_for billing later user tokens' after ≡ (ok s, tokens', after))
  unfolding session_for acquire session_in_progress
  login_once now later user tokens b b' s missing password key login valid =
      let present = some_token s.access_token (valid_present later s valid) in
      let opened : session_for billing now user tokens b
          ≡ (ok s, insert user.user_id s tokens, b') =
        ap (λ o. with_api_key billing user (acquire billing now user tokens b o)) missing
        ∙ ap (with_api_key billing user) (login_stored user s tokens b b' password login present)
        ∙ no_key user s (insert user.user_id s tokens) b' key in
      let again : acquire billing later user (insert user.user_id s tokens) b' (some s)
          ≡ (ok s, insert user.user_id s tokens, b') =
        rw (acquire, valid) refl in
      rw opened (
        refl,
        refl,
        ap
              (λ o.
                with_api_key billing user
                  (acquire billing later user (insert user.user_id s tokens) b' o))
              (lookup-insert_self user.user_id s tokens)
            ∙ ap (with_api_key billing user) again
            ∙ no_key user s (insert user.user_id s tokens) b' key,
      )

  renew_present :
      (now : ℕ) (user : Text) (tokens : TokenTable) (b : billing.State) (s t : OAuthSession)
      (exp : Option ℕ)
      → (renew_by billing now user tokens b s exp).0 ≡ ok (some t)
      → no_token t.access_token ≡ false
  unfolding renew_by
  renew_present now user tokens b s t none h =
      obtained_present tokens (ok s, b) t (unfold obtained in h)
  renew_present now user tokens b s t (some exp) h = elim (Bool-cases (no_token s.access_token)) [
    | inl a ↦ ground arith
    | inr a ↦ elim (Bool-cases (ltb exp now)) [
      | inl c ↦
          obtained_present (insert user (withdrawn s) tokens)
            (if is_absent s.refresh_token then billing.login b else billing.refresh b (withdrawn s))
            t (ground arith)
      | inr c ↦ elim (Bool-cases (due now exp s)) [
        | inl d ↦ obtained_present tokens (billing.refresh b s) t (ground arith)
        | inr d ↦
            let same : s ≡ t = ground arith in ap (λ x. no_token x.access_token) (sym same) ∙ a
      ]
    ]
  ]

  progress_present :
      (now : ℕ) (user : Text) (tokens : TokenTable) (b : billing.State) (o : Option OAuthSession)
      (t : OAuthSession)
      → (session_in_progress billing now user tokens b o).0 ≡ ok (some t)
      → no_token t.access_token ≡ false
  unfolding session_in_progress
  progress_present now user tokens b none t h = cc
  progress_present now user tokens b (some s) t h =
      renew_present now user tokens b s t (s.access_token_expires_at) h

  unless_present :
      (user : User) (r : Outcome billing (Option OAuthSession)) (s : OAuthSession)
      → ((t : OAuthSession) → r.0 ≡ ok (some t) → no_token t.access_token ≡ false)
      → (login_unless billing user r).0 ≡ ok s
      → is_none s.access_token ≡ false
  unfolding login_unless
  unless_present user (err e, tokens, b) s p h = cc
  unless_present user (ok (some t), tokens, b) s p h =
      let same : t ≡ s = ground arith in
      ap (λ x. is_none x.access_token) (sym same) ∙ some_token t.access_token (p t refl)
  unless_present user (ok none, tokens, b) s p h = elim (Bool-cases (user.password_missing)) [
    | inl a ↦ ground arith
    | inr a ↦ logged_present user tokens (billing.login b) s (ground arith)
  ]

  acquire_present :
      (now : ℕ) (user : User) (tokens : TokenTable) (b : billing.State) (o : Option OAuthSession)
      (s : OAuthSession)
      → (acquire billing now user tokens b o).0 ≡ ok s
      → is_none s.access_token ≡ false
  unfolding acquire
  acquire_present now user tokens b none s h =
      unless_present user (session_in_progress billing now user.user_id tokens b none) s
        (progress_present now user.user_id tokens b none) h
  acquire_present now user tokens b (some t) s h = elim (Bool-cases (valid_session now (some t))) [
    | inl a ↦
        let same : t ≡ s = ground arith in
        ap (λ x. is_none x.access_token) (sym same)
        ∙ some_token t.access_token (valid_present now t a)
    | inr a ↦
        unless_present user (session_in_progress billing now user.user_id tokens b (some t)) s
          (progress_present now user.user_id tokens b (some t)) (ground arith)
  ]

  key_present :
      (user : User) (r : Outcome billing OAuthSession) (s : OAuthSession)
      → ((t : OAuthSession) → r.0 ≡ ok t → is_none t.access_token ≡ false)
      → (with_api_key billing user r).0 ≡ ok s
      → is_none s.access_token ≡ false
  unfolding with_api_key
  key_present user (err e, tokens, b) s p h = cc
  key_present user (ok t, tokens, b) s p h =
      let same : key_session billing (user.api_key) t ≡ s = ground arith in
      ap (λ x. is_none x.access_token) (sym same) ∙ key_cases (user.api_key) t (p t refl)
    where
      key_cases :
          (key : Text) (u : OAuthSession)
          → is_none u.access_token ≡ false
          → is_none ((key_session billing key u).access_token) ≡ false
      key_cases [] u q = q
      key_cases (c ∷ key) u q = refl

  -- No request goes out without a token: whatever is stored, and whatever the billing answers, the
  -- access token of a session that a request carries is not None.
  pub carried_present :
      (now : ℕ) (user : User) (tokens : TokenTable) (b : billing.State) (s : OAuthSession)
      → (session_for billing now user tokens b).0 ≡ ok s
      → is_none s.access_token ≡ false
  unfolding session_for
  carried_present now user tokens b s h =
      key_present user (acquire billing now user tokens b (lookup user.user_id tokens)) s
        (acquire_present now user tokens b (lookup user.user_id tokens)) h
