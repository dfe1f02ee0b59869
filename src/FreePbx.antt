-- ===== src/FreePbx.antt =====
-- app/bss/adapters/freepbx.py: how `FreePBXAPI` logs in. Its calls go through the blocking connector
-- without a user, so that all requests share the session of the user None, the empty key. The
-- request to the PBX is a parameter; an empty answer to it is one without a token.
pub mod Renewal
pub mod Tests
use porta_phone_adapter.Base.{ℕ, Bool, true, false, Option, none, some, [], if◌then◌else◌}
use porta_phone_adapter.Base.Eq.{Text, text_key}
use porta_phone_adapter.Base.Dict.{lookup}
use porta_phone_adapter.Base.Result.{Result, ok, err, Raised, crash}
use porta_phone_adapter.HttpApi.Login.{
  OAuthSession, TokenTable, User, is_absent, no_token, extract_access_token,
}
use porta_phone_adapter.HttpApi.Sync.{Calls, Reply, store_auth_session, bearer}

-- What the form of `_request_token` asks for.
pub data Grant : Type 0 where
  client_credentials : Grant
  refresh_grant : Text → Grant

-- The answer: `expires_in` in seconds, zero for none, and the two tokens.
pub record Tokens : Type 0 where
  pub expires_in : ℕ
  pub access : Option Text
  pub renewal : Text

-- The PBX: its state, and its answer to a token request with or without a bearer.
pub record Pbx : Type 1 where
  pub State : Type 0
  pub token : Option Text → Grant → State → Result Raised Tokens × State

-- `user=None`, which has no password and no key to look at.
abbrev pub nobody : User
nobody = record { user_id = []; password_missing = false; api_key = [] }

abbrev pub session_of : ℕ → Tokens → OAuthSession
session_of now r = extract_access_token now r.expires_in r.access r.renewal

module _ (pbx : Pbx) (now : ℕ) where
  -- `_request_token`
  unfoldable pub taken :
      TokenTable → Result Raised Tokens × pbx.State → Reply pbx.State OAuthSession
  taken tokens (err e, b) = (err e, tokens, b)
  taken tokens (ok r, b) = if no_token r.access then (err crash, tokens, b) else (
    ok ((store_auth_session (session_of now r) nobody tokens).0),
    (store_auth_session (session_of now r) nobody tokens).1,
    b,
  )

  unfoldable pub request_token : Grant → TokenTable → pbx.State → Reply pbx.State OAuthSession
  request_token grant tokens b = taken tokens (pbx.token (bearer (lookup [] tokens)) grant b)

  -- `login`
  unfoldable pub login : User → TokenTable → pbx.State → Reply pbx.State OAuthSession
  login user tokens b = request_token client_credentials tokens b

  -- `refresh`
  unfoldable pub refresh :
      User → OAuthSession → TokenTable → pbx.State → Reply pbx.State OAuthSession
  refresh user s tokens b = request_token (refresh_grant s.refresh_token) tokens b

  abbrev pub calls : Calls
  calls = record { State = pbx.State; login = login; refresh = refresh }
