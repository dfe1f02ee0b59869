-- ===== src/HttpApi/Login.antt =====
-- app/bss/async_http_api.py: `AsyncHTTPAPIConnectorWithLogin`, how a request comes to its session. The
-- calls `login` and `refresh` of the billing are parameters; a missing refresh token is the empty text.
pub mod Tokens
use porta_phone_adapter.Base.{
  ℕ, zero, suc, ◌+◌, ◌-◌, ◌*◌, Bool, true, false, not, ◌&&◌, ◌||◌, Option, none, some, List, [],
  ◌∷◌, ltb, if◌then◌else◌,
}
use porta_phone_adapter.Base.Eq.{Text, text_key}
use porta_phone_adapter.Base.Dict.{Dict, lookup, insert, erase}
use porta_phone_adapter.Base.Result.{Result, ok, err, Raised, webtrit, crash}

-- `OAuthSessionData`
pub record OAuthSession : Type 0 where
  pub access_token : Option Text
  pub access_token_expires_at : Option ℕ
  pub refresh_token : Text

-- The billing: its state, and what its two calls do.
pub record Billing : Type 1 where
  pub State : Type 0
  pub login : State → Result Raised OAuthSession × State
  pub refresh : State → OAuthSession → Result Raised OAuthSession × State

-- `SHARED_TOKENS`
abbrev pub TokenTable : Type 0
TokenTable = Dict Text OAuthSession

-- The user of a request: `str(user)`, whether its password is None, and its `api_key`.
pub record User : Type 0 where
  pub user_id : Text
  pub password_missing : Bool
  pub api_key : Text

-- `not text` of a text, and of one or None.
abbrev pub is_absent : Text → Bool
is_absent [] = true
is_absent (c ∷ t) = false

abbrev pub no_token : Option Text → Bool
no_token none = true
no_token (some t) = is_absent t

abbrev pub is_none : Option Text → Bool
is_none none = true
is_none (some t) = false

-- `REFRESH_TOKEN_IN_ADVANCE`, in microseconds.
abbrev pub refresh_in_advance : ℕ
refresh_in_advance = 15 * 60 * 1000000

-- The tests on the expiry of a token that has not expired.
abbrev pub due : ℕ → ℕ → OAuthSession → Bool
due now exp s = not (is_absent s.refresh_token) && ltb (exp - now) refresh_in_advance

abbrev pub unexpired : ℕ → OAuthSession → Option ℕ → Bool
unexpired now s none = true
unexpired now s (some exp) = not (ltb exp now) && not (due now exp s)

-- `_valid_session`
unfoldable pub valid_session : ℕ → Option OAuthSession → Bool
valid_session now none = false
valid_session now (some s) =
    not (no_token s.access_token) && unexpired now s s.access_token_expires_at

-- The token that is withdrawn from the session object, which the table shares.
abbrev pub withdrawn : OAuthSession → OAuthSession
withdrawn s = record s { access_token = none }

-- The tokens that `__init__` begins with: under the user None, an `api_token` that it is given.
unfoldable pub init_tokens : Text → Option ℕ → TokenTable
init_tokens [] expires_at = []
init_tokens (c ∷ api_token) expires_at =
    let given : OAuthSession = record {
      access_token = some (c ∷ api_token);
      access_token_expires_at = expires_at;
      refresh_token = [];
    } in
    insert [] given []

-- `extract_access_token`; `expires_in` is in seconds, and a missing one is zero.
abbrev pub expiry_of : ℕ → ℕ → Option ℕ
expiry_of now zero = none
expiry_of now (suc n) = some (now + suc n * 1000000)

unfoldable pub extract_access_token : ℕ → ℕ → Option Text → Text → OAuthSession
extract_access_token now expires_in access refresh = record {
  access_token = access;
  access_token_expires_at = expiry_of now expires_in;
  refresh_token = refresh;
}

module _ (billing : Billing) where
  -- What a call gives, and the state of the table and of the billing after it.
  abbrev pub Outcome : Type 0 → Type 0
  Outcome A = Result Raised A × TokenTable × billing.State

  -- `auth_session if auth_session.access_token else None`
  abbrev pub usable : OAuthSession → Option OAuthSession
  usable s = if no_token s.access_token then none else some s

  unfoldable pub obtained :
      TokenTable → Result Raised OAuthSession × billing.State → Outcome (Option OAuthSession)
  obtained tokens (err r, b) = (err r, tokens, b)
  obtained tokens (ok s, b) = (ok (usable s), tokens, b)

  unfoldable pub renew_by :
      ℕ
      → Text
      → TokenTable
      → billing.State
      → OAuthSession
      → Option ℕ
      → Outcome (Option OAuthSession)
  renew_by now user tokens b s none = (ok (usable s), tokens, b)
  renew_by now user tokens b s (some exp) =
      if no_token s.access_token
      then (ok none, tokens, b)
      else if ltb exp now
      then obtained (insert user (withdrawn s) tokens)
          (if is_absent s.refresh_token then billing.login b else billing.refresh b (withdrawn s))
      else if due now exp s
      then obtained tokens (billing.refresh b s)
      else (ok (some s), tokens, b)

  -- `session_in_progress`
  unfoldable pub session_in_progress :
      ℕ → Text → TokenTable → billing.State → Option OAuthSession → Outcome (Option OAuthSession)
  session_in_progress now user tokens b none = (ok none, tokens, b)
  session_in_progress now user tokens b (some s) =
      renew_by now user tokens b s s.access_token_expires_at

  -- `store_auth_session` after a login, and the check that it gave a token.
  unfoldable pub logged_in :
      User → TokenTable → Result Raised OAuthSession × billing.State → Outcome OAuthSession
  logged_in user tokens (err r, b) = (err r, tokens, b)
  logged_in user tokens (ok s, b) =
      let stored = insert user.user_id s tokens in
      if is_none s.access_token then (err crash, stored, b) else (ok s, stored, b)

  unfoldable pub login_unless : User → Outcome (Option OAuthSession) → Outcome OAuthSession
  login_unless user (err r, tokens, b) = (err r, tokens, b)
  login_unless user (ok (some s), tokens, b) = (ok s, tokens, b)
  login_unless user (ok none, tokens, b) =
      if user.password_missing
      then (err (webtrit 401 (some "access_token_expired")), tokens, b)
      else logged_in user tokens (billing.login b)

  unfoldable pub acquire :
      ℕ → User → TokenTable → billing.State → Option OAuthSession → Outcome OAuthSession
  acquire now user tokens b none =
      login_unless user (session_in_progress now user.user_id tokens b none)
  acquire now user tokens b (some s) =
      if valid_session now (some s)
      then (ok s, tokens, b)
      else login_unless user (session_in_progress now user.user_id tokens b (some s))

  abbrev pub key_session : Text → OAuthSession → OAuthSession
  key_session [] s = s
  key_session (c ∷ key) s = record {
    access_token = some (c ∷ key);
    access_token_expires_at = none;
    refresh_token = [];
  }

  unfoldable pub with_api_key : User → Outcome OAuthSession → Outcome OAuthSession
  with_api_key user (err r, tokens, b) = (err r, tokens, b)
  with_api_key user (ok s, tokens, b) = (ok (key_session user.api_key s), tokens, b)

  -- `send_rest_request`, up to the session that the request carries.
  unfoldable pub session_for : ℕ → User → TokenTable → billing.State → Outcome OAuthSession
  session_for now user tokens b =
      with_api_key user (acquire now user tokens b (lookup user.user_id tokens))
