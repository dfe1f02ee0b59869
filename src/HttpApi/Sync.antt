-- ===== src/HttpApi/Sync.antt =====
-- app/bss/http_api.py: `HTTPAPIConnectorWithLogin`, the blocking twin of the asynchronous connector:
-- the session of a request, with and without `turn_off_login`, and its header. The calls `login` and
-- `refresh` belong to an adapter and may write the table of tokens; they are parameters. A missing
-- refresh token is the empty text, and the clock stands still during one request.
pub mod Same
pub mod Tests
use porta_phone_adapter.Base.{
  ℕ, ◌-◌, ◌*◌, Bool, true, false, not, ◌&&◌, Option, none, some, [], ◌∷◌, ltb, if◌then◌else◌,
}
use porta_phone_adapter.Base.Eq.{Text, text_key}
use porta_phone_adapter.Base.Dict.{lookup, insert, erase}
use porta_phone_adapter.Base.Result.{Result, ok, err, Raised, webtrit, crash}
use porta_phone_adapter.HttpApi.Login.{
  OAuthSession, TokenTable, User, is_absent, no_token, is_none, withdrawn,
}

-- What a call of the connector gives, with the table and the state of the far side after it.
abbrev pub Reply : Type 0 → Type 0 → Type 0
Reply S A = Result Raised A × TokenTable × S

-- The two calls that an adapter fills in.
pub record Calls : Type 1 where
  pub State : Type 0
  pub login : User → TokenTable → State → Reply State OAuthSession
  pub refresh : User → OAuthSession → TokenTable → State → Reply State OAuthSession

-- `delete_auth_session`
unfoldable pub delete_auth_session : User → TokenTable → Option OAuthSession × TokenTable
delete_auth_session user tokens = (lookup user.user_id tokens, erase user.user_id tokens)

-- `store_auth_session`
unfoldable pub store_auth_session : OAuthSession → User → TokenTable → OAuthSession × TokenTable
store_auth_session s user tokens = (s, insert user.user_id s tokens)

-- `if hasattr(user, 'api_key') and user.api_key`
abbrev pub with_key : Text → OAuthSession → OAuthSession
with_key [] s = s
with_key (c ∷ key) s = record {
  access_token = some (c ∷ key);
  access_token_expires_at = none;
  refresh_token = [];
}

module _ (calls : Calls) where
  -- `auth_session if auth_session.access_token else None`
  unfoldable pub checked : Reply calls.State OAuthSession → Reply calls.State (Option OAuthSession)
  checked (err r, tokens, b) = (err r, tokens, b)
  checked (ok s, tokens, b) = (ok (if no_token s.access_token then none else some s), tokens, b)

  -- The token has expired: it is withdrawn from the session, which the table shares.
  unfoldable pub expired :
      User → OAuthSession → TokenTable → calls.State → Reply calls.State OAuthSession
  expired user s tokens b =
      if is_absent s.refresh_token
      then calls.login user tokens b
      else calls.refresh user (withdrawn s) tokens b

  -- The body of `session_in_progress` for a session with a token that expires.
  unfoldable pub session_until :
      ℕ → User → OAuthSession → ℕ → TokenTable → calls.State → Reply calls.State OAuthSession
  session_until now user s exp tokens b =
      if ltb exp now
      then expired user s (insert user.user_id (withdrawn s) tokens) b
      else if ltb (exp - now) (15 * 60 * 1000000) && not (is_absent s.refresh_token)
      then calls.refresh user s tokens b
      else (ok s, tokens, b)

  unfoldable pub renewed :
      ℕ → User → OAuthSession → Option ℕ → TokenTable → calls.State → Reply calls.State OAuthSession
  renewed now user s none tokens b = (ok s, tokens, b)
  renewed now user s (some exp) tokens b =
      if no_token s.access_token then (ok s, tokens, b) else session_until now user s exp tokens b

  -- `session_in_progress`
  unfoldable pub session_in_progress :
      ℕ
      → User
      → Option OAuthSession
      → TokenTable
      → calls.State
      → Reply calls.State (Option OAuthSession)
  session_in_progress now user none tokens b = (ok none, tokens, b)
  session_in_progress now user (some s) tokens b =
      checked (renewed now user s s.access_token_expires_at tokens b)

  -- What follows the login: the session is stored, then its token is looked at.
  unfoldable pub log_in : User → Reply calls.State OAuthSession → Reply calls.State OAuthSession
  log_in user (err r, tokens, b) = (err r, tokens, b)
  log_in user (ok s, tokens, b) =
      let (kept, stored) = store_auth_session s user tokens in
      if is_none kept.access_token then (err crash, stored, b) else (ok kept, stored, b)

  unfoldable pub current :
      User → Reply calls.State (Option OAuthSession) → Reply calls.State OAuthSession
  current user (err r, tokens, b) = (err r, tokens, b)
  current user (ok (some s), tokens, b) = (ok s, tokens, b)
  current user (ok none, tokens, b) =
      if user.password_missing
      then (err (webtrit 401 (some "access_token_expired")), tokens, b)
      else log_in user (calls.login user tokens b)

  unfoldable pub keyed :
      User → Reply calls.State OAuthSession → Reply calls.State (Option OAuthSession)
  keyed user (err r, tokens, b) = (err r, tokens, b)
  keyed user (ok s, tokens, b) = (ok (some (with_key user.api_key s)), tokens, b)

  -- `send_rest_request`, up to the session that the request carries.
  unfoldable pub session_for :
      Bool → ℕ → User → TokenTable → calls.State → Reply calls.State (Option OAuthSession)
  session_for true now user tokens b = (ok (lookup user.user_id tokens), tokens, b)
  session_for false now user tokens b =
      keyed user (current user (session_in_progress now user (lookup user.user_id tokens) tokens b))

-- `add_auth_info`: the token that the Authorization header of the request bears.
unfoldable pub bearer : Option OAuthSession → Option Text
bearer none = none
bearer (some s) = if no_token s.access_token then none else s.access_token
