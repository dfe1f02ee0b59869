-- ===== src/HttpApi/Sync/Tests.antt =====
-- The session of a request on small tables.
use porta_phone_adapter.Base.{ℕ, ◌+◌, ◌≡◌, refl, true, false, none, some, [], ◌∷◌}
use porta_phone_adapter.Base.Eq.{text_key, text_eq, codes}
use porta_phone_adapter.Base.Dict.{lookup, erase}
use porta_phone_adapter.Base.Result.{ok, err, webtrit}
use porta_phone_adapter.HttpApi.Login.{OAuthSession, Billing, TokenTable, User}
use porta_phone_adapter.HttpApi.Login
use porta_phone_adapter.HttpApi.Sync.{
  session_for, delete_auth_session, keyed, current, session_in_progress, checked, renewed,
  session_until, expired,
}
use porta_phone_adapter.HttpApi.Sync.Same.{calls_of, carried, blocking_like_async}

abbrev fresh : OAuthSession
fresh = record {
  access_token = some (codes "new");
  access_token_expires_at = none;
  refresh_token = [];
}

abbrev expiring : OAuthSession
expiring = record {
  access_token = some (codes "old");
  access_token_expires_at = some 5;
  refresh_token = codes "again";
}

-- It counts its calls.
abbrev billing : Billing
billing = record { State = ℕ; login = λ b. (ok fresh, b + 1); refresh = λ b s. (ok fresh, b + 1) }

abbrev user : User
user = record { user_id = codes "7"; password_missing = false; api_key = [] }

abbrev closed : User
closed = record { user_id = codes "8"; password_missing = true; api_key = [] }

abbrev tokens : TokenTable
tokens = (codes "7", expiring) ∷ []

expired_token_refreshed : (session_for (calls_of billing) false 9 user tokens 0).0 ≡ ok (some fresh)
unfolding session_for keyed current session_in_progress lookup text_eq checked renewed session_until
    expired
expired_token_refreshed = refl

closed_session_refused :
    session_for (calls_of billing) false 9 closed tokens 0
    ≡ (err (webtrit 401 (some "access_token_expired")), tokens, 0)
unfolding session_for keyed current session_in_progress lookup text_eq
closed_session_refused = refl

login_turned_off :
    session_for (calls_of billing) true 9 user tokens 0 ≡ (ok (some expiring), tokens, 0)
unfolding session_for lookup text_eq
login_turned_off = refl

deleted_session_gone : delete_auth_session user tokens ≡ (some expiring, [])
unfolding delete_auth_session lookup erase text_eq
deleted_session_gone = refl

blocking_like_async_example :
    session_for (calls_of billing) false 9 user tokens 0
    ≡ carried billing (Login.session_for billing 9 user tokens 0)
blocking_like_async_example = blocking_like_async billing 9 user tokens 0
