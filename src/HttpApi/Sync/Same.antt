-- ===== src/HttpApi/Sync/Same.antt =====
-- The blocking connector and the asynchronous one come to the same session.
use porta_phone_adapter.Base.{
  ℕ, ◌≡◌, refl, ap, ◌∙◌, inl, inr, true, false, Option, none, some, [], ◌∷◌, ◌-◌, ◌*◌, not, ◌&&◌,
  arith, ltb, if◌then◌else◌, Bool-cases,
}
use porta_phone_adapter.Base.Eq.{Text, text_key}
use porta_phone_adapter.Base.Dict.{lookup, insert}
use porta_phone_adapter.Base.Result.{Result, ok, err, Raised, webtrit}
use porta_phone_adapter.HttpApi.Login.{
  OAuthSession, Billing, TokenTable, User, is_absent, no_token, valid_session, due, withdrawn,
  obtained,
}
use porta_phone_adapter.HttpApi.Login
use porta_phone_adapter.HttpApi.Sync.{
  Calls, Reply, store_auth_session, checked, expired, session_until, renewed, session_in_progress,
  log_in, current, keyed, with_key, session_for,
}

-- What a call of the billing gives, with the table as it was.
abbrev pub untouched : {S A : Type 0} → TokenTable → Result Raised A × S → Reply S A
untouched tokens (r, b) = (r, tokens, b)

-- The calls of a billing that leave the table alone.
abbrev pub calls_of : Billing → Calls
calls_of billing = record {
  State = billing.State;
  login = λ user tokens b. untouched tokens (billing.login b);
  refresh = λ user s tokens b. untouched tokens (billing.refresh b s);
}

-- The outcome of the asynchronous connector, as a request carries it.
unfoldable pub carried :
    (billing : Billing)
    → Login.Outcome billing OAuthSession
    → Login.Outcome billing (Option OAuthSession)
carried billing (err e, tokens, b) = (err e, tokens, b)
carried billing (ok s, tokens, b) = (ok (some s), tokens, b)

module _ (billing : Billing) where
  checked_same :
      (tokens : TokenTable) (r : Result Raised OAuthSession × billing.State)
      → checked (calls_of billing) (untouched tokens r) ≡ obtained billing tokens r
  unfolding checked obtained
  checked_same tokens (ok s, b) = refl
  checked_same tokens (err e, b) = refl

  expired_same :
      (user : User) (tokens : TokenTable) (b : billing.State) (s : OAuthSession)
      → checked (calls_of billing) (expired (calls_of billing) user s tokens b)
        ≡ obtained billing tokens
            (if is_absent s.refresh_token then billing.login b else billing.refresh b (withdrawn s))
  unfolding expired
  expired_same user tokens b s = elim (Bool-cases (is_absent s.refresh_token)) [
    | inl a ↦ rw a (checked_same tokens (billing.login b))
    | inr a ↦ rw a (checked_same tokens (billing.refresh b (withdrawn s)))
  ]

  kept_same :
      (tokens : TokenTable) (b : billing.State) (s : OAuthSession)
      → no_token s.access_token ≡ false
      → checked (calls_of billing) (ok s, tokens, b) ≡ (ok (some s), tokens, b)
  unfolding checked
  kept_same tokens b s h = ap (λ m. (ok (if m then none else some s), tokens, b)) h

  soon_same :
      (now : ℕ) (user : User) (tokens : TokenTable) (b : billing.State) (s : OAuthSession) (exp : ℕ)
      → no_token s.access_token ≡ false
      → checked (calls_of billing) (
          if ltb (exp - now) (15 * 60 * 1000000) && not (is_absent s.refresh_token)
          then untouched tokens (billing.refresh b s)
          else (ok s, tokens, b))
        ≡ (if due now exp s
            then obtained billing tokens (billing.refresh b s)
            else (ok (some s), tokens, b))
  soon_same now user tokens b s exp present =
      elim (Bool-cases (ltb (exp - now) (15 * 60 * 1000000))) [
        | inl e ↦ elim (Bool-cases (is_absent s.refresh_token)) [
          | inl a ↦ rw e (rw a (kept_same tokens b s present))
          | inr a ↦ rw e (rw a (checked_same tokens (billing.refresh b s)))
        ]
        | inr e ↦ elim (Bool-cases (is_absent s.refresh_token)) [
          | inl a ↦ rw e (rw a (kept_same tokens b s present))
          | inr a ↦ rw e (rw a (kept_same tokens b s present))
        ]
      ]

  until_same :
      (now : ℕ) (user : User) (tokens : TokenTable) (b : billing.State) (s : OAuthSession) (exp : ℕ)
      → no_token s.access_token ≡ false
      → checked (calls_of billing) (session_until (calls_of billing) now user s exp tokens b) ≡ (
          if ltb exp now
          then obtained billing (insert user.user_id (withdrawn s) tokens) (
              if is_absent s.refresh_token
              then billing.login b
              else billing.refresh b (withdrawn s))
          else if due now exp s
          then obtained billing tokens (billing.refresh b s)
          else (ok (some s), tokens, b))
  unfolding session_until
  until_same now user tokens b s exp present = elim (Bool-cases (ltb exp now)) [
    | inl e ↦ rw e (expired_same user (insert user.user_id (withdrawn s) tokens) b s)
    | inr e ↦ rw e (soon_same now user tokens b s exp present)
  ]

  renewed_same :
      (now : ℕ) (user : User) (tokens : TokenTable) (b : billing.State) (s : OAuthSession)
      (exp : Option ℕ)
      → checked (calls_of billing) (renewed (calls_of billing) now user s exp tokens b)
        ≡ Login.renew_by billing now user.user_id tokens b s exp
  unfolding renewed checked Login.renew_by
  renewed_same now user tokens b s none = refl
  renewed_same now user tokens b s (some exp) = elim (Bool-cases (no_token s.access_token)) [
    | inl a ↦ rw a (ap (λ m. (ok (if m then none else some s), tokens, b)) a)
    | inr a ↦ rw a (until_same now user tokens b s exp a)
  ]

  progress_same :
      (now : ℕ) (user : User) (tokens : TokenTable) (b : billing.State) (o : Option OAuthSession)
      → session_in_progress (calls_of billing) now user o tokens b
        ≡ Login.session_in_progress billing now user.user_id tokens b o
  unfolding session_in_progress Login.session_in_progress
  progress_same now user tokens b none = refl
  progress_same now user tokens b (some s) =
      renewed_same now user tokens b s s.access_token_expires_at

  logged_same :
      (user : User) (tokens : TokenTable) (r : Result Raised OAuthSession × billing.State)
      → log_in (calls_of billing) user (untouched tokens r) ≡ Login.logged_in billing user tokens r
  unfolding log_in store_auth_session Login.logged_in
  logged_same user tokens (err e, b) = refl
  logged_same user tokens (ok s, b) = refl

  current_same :
      (user : User) (r : Login.Outcome billing (Option OAuthSession))
      → current (calls_of billing) user r ≡ Login.login_unless billing user r
  unfolding current log_in store_auth_session Login.login_unless Login.logged_in
  current_same user (err e, tokens, b) = refl
  current_same user (ok (some s), tokens, b) = refl
  current_same user (ok none, tokens, b) =
      ap
        (λ m.
          if user.password_missing
          then (err (webtrit 401 (some "access_token_expired")), tokens, b)
          else m)
        (logged_same user tokens (billing.login b))

  key_same : (key : Text) (s : OAuthSession) → with_key key s ≡ Login.key_session billing key s
  key_same [] s = refl
  key_same (c ∷ key) s = refl

  keyed_same :
      (user : User) (r : Login.Outcome billing OAuthSession)
      → keyed (calls_of billing) user r ≡ carried billing (Login.with_api_key billing user r)
  unfolding keyed carried Login.with_api_key
  keyed_same user (err e, tokens, b) = refl
  keyed_same user (ok s, tokens, b) = ap (λ k. (ok (some k), tokens, b)) (key_same user.api_key s)

  valid_kept :
      (now : ℕ) (user : Text) (tokens : TokenTable) (b : billing.State) (s : OAuthSession)
      (exp : Option ℕ)
      → not (no_token s.access_token) && Login.unexpired now s exp ≡ true
      → Login.renew_by billing now user tokens b s exp ≡ (ok (some s), tokens, b)
  unfolding Login.renew_by
  valid_kept now user tokens b s none h = ground arith
  valid_kept now user tokens b s (some exp) h = ground arith

  valid_same :
      (now : ℕ) (user : User) (tokens : TokenTable) (b : billing.State) (s : OAuthSession)
      → valid_session now (some s) ≡ true
      → Login.login_unless billing user
          (Login.session_in_progress billing now user.user_id tokens b (some s))
        ≡ (ok s, tokens, b)
  unfolding valid_session Login.session_in_progress Login.login_unless
  valid_same now user tokens b s v =
      ap (Login.login_unless billing user)
        (valid_kept now user.user_id tokens b s s.access_token_expires_at v)

  acquire_same :
      (now : ℕ) (user : User) (tokens : TokenTable) (b : billing.State) (o : Option OAuthSession)
      → Login.login_unless billing user
          (Login.session_in_progress billing now user.user_id tokens b o)
        ≡ Login.acquire billing now user tokens b o
  unfolding Login.acquire
  acquire_same now user tokens b none = refl
  acquire_same now user tokens b (some s) = elim (Bool-cases (valid_session now (some s))) [
    | inl v ↦ rw v (valid_same now user tokens b s v)
    | inr v ↦ rw v refl
  ]

  -- The two connectors agree: with a billing whose calls leave the table of tokens alone, a request
  -- of the blocking connector that does not turn the login off comes to the same session or error
  -- as one of the asynchronous connector, with the same table and the same calls of the billing.
  pub blocking_like_async :
      (now : ℕ) (user : User) (tokens : TokenTable) (b : billing.State)
      → session_for (calls_of billing) false now user tokens b
        ≡ carried billing (Login.session_for billing now user tokens b)
  unfolding session_for Login.session_for
  blocking_like_async now user tokens b =
      let stored = lookup user.user_id tokens in
      ap (λ r. keyed (calls_of billing) user (current (calls_of billing) user r))
        (progress_same now user tokens b stored)
      ∙ ap (keyed (calls_of billing) user) (
          current_same user (Login.session_in_progress billing now user.user_id tokens b stored)
          ∙ acquire_same now user tokens b stored)
      ∙ keyed_same user (Login.acquire billing now user tokens b stored)
