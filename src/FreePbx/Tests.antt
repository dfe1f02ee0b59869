-- ===== src/FreePbx/Tests.antt =====
-- The renewal of a session on a small PBX.
use porta_phone_adapter.Base.{ℕ, ◌+◌, ◌≡◌, refl, false, some, [], ◌∷◌}
use porta_phone_adapter.Base.Dict.{lookup}
use porta_phone_adapter.Base.Eq.{text_key, text_eq, codes}
use porta_phone_adapter.Base.Result.{ok}
use porta_phone_adapter.HttpApi.Login.{
  OAuthSession, TokenTable, valid_session, extract_access_token,
}
use porta_phone_adapter.HttpApi.Sync.{
  session_for, keyed, current, session_in_progress, log_in, store_auth_session,
}
use porta_phone_adapter.FreePbx.{
  Pbx, Tokens, nobody, session_of, calls, login, request_token, taken,
}
use porta_phone_adapter.FreePbx.Renewal.{renewal_lasts}

abbrev reply : Tokens
reply = record { expires_in = 3600; access = some (codes "new"); renewal = codes "next" }

-- It counts its calls.
abbrev pbx : Pbx
pbx = record { State = ℕ; token = λ bearing grant b. (ok reply, b + 1) }

abbrev stored : OAuthSession
stored = record {
  access_token = some (codes "old");
  access_token_expires_at = some 5;
  refresh_token = codes "again";
}

abbrev tokens : TokenTable
tokens = ([], stored) ∷ []

first_login : (session_for (calls pbx 9) false 9 nobody [] 0).0 ≡ ok (some (session_of 9 reply))
unfolding session_for keyed current session_in_progress lookup text_eq log_in login request_token
    taken store_auth_session extract_access_token
first_login = refl

renewal_lasts_example :
    let (first, tokens', after) = session_for (calls pbx 9) false 9 nobody tokens 0 in
    (first ≡ ok (some (session_of 9 reply)))
    × (after ≡ 1)
    × (session_for (calls pbx 60) false 60 nobody tokens' after
        ≡ (ok (some (session_of 9 reply)), tokens', after))
unfolding lookup text_eq valid_session extract_access_token
renewal_lasts_example =
    renewal_lasts pbx 9 60 5 tokens 0 1 stored reply refl refl refl refl refl (λ bearing. refl) refl
