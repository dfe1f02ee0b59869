-- ===== src/Portaswitch/Session/Tests.antt =====
-- The theorems on sessions of the account realm at the sample switch.
use porta_phone_adapter.Base.{ℕ, ◌+◌, ◌≡◌, ◌≢◌, refl, ◌⊎◌, true, none, some, []}
use porta_phone_adapter.Base.Eq.{codes}
use porta_phone_adapter.Base.Result.{ok}
use porta_phone_adapter.RecordingId.{is_number}
use porta_phone_adapter.Portaswitch.Recordings.{to_number}
use porta_phone_adapter.Portaswitch.Account.{AccountInfo, LoginData}
use porta_phone_adapter.Portaswitch.Sample.{api, owner, start, given}
use porta_phone_adapter.Portaswitch.Limits.{Adapter}
use porta_phone_adapter.Portaswitch.SignIn.{moved}
use porta_phone_adapter.Portaswitch.Session.{
  claims, Realm, ValidSession, RefreshedSession, validate_session, refresh_session,
}
use porta_phone_adapter.Portaswitch.Session.Owner.{accepted_token_owner, refresh_needs_token}

-- A realm whose tokens name no account, all of the account 7.
abbrev realm : Realm ℕ
realm = record {
  decode = λ token. claims none;
  ping = λ s token. (ok 7, s + 1);
  refresh = λ s token. (ok given, s + 1);
  logout = λ s token. (ok true, s + 1);
  account = λ s token. ok owner;
  isdigit = is_number;
  account_number = to_number 0;
}

abbrev after : Adapter ℕ
after = (moved (api []) start (ok tt, 1)).1

abbrev valid : ValidSession
valid = record { user_id = 7; access_token = codes "t" }

accepted : validate_session (api []) realm true (codes "t") start ≡ (ok valid, after)
unfolding validate_session
accepted = refl

accepted_token_owner_example :
    (claims none ≡ claims (some 7))
    ⊎ ((claims none ≡ claims none) × ((realm.ping 0 (codes "t")).0 ≡ ok 7) × (valid.user_id ≢ 0))
accepted_token_owner_example =
    accepted_token_owner (api []) realm true (codes "t") start after valid accepted

abbrev refreshed : RefreshedSession
refreshed = record {
  user_id = 7;
  access_token = codes "acc";
  refresh_token = codes "ref";
  expires_at = 560;
  expires_in = 60;
  customer_id = some 3;
}

renewed :
    refresh_session (api []) realm true [] (codes "u") 500 (codes "r1") start
    ≡ (ok refreshed, after)
unfolding refresh_session
renewed = refl

refresh_needs_token_example :
    (login : LoginData) × (a : AccountInfo) × ((realm.refresh 0 (codes "r1")).0 ≡ ok login)
    × (realm.account 1 login.access_token ≡ ok a)
    × (7 ≡ a.i_account)
    × (codes "acc" ≡ login.access_token)
refresh_needs_token_example =
    refresh_needs_token (api []) realm true [] (codes "u") 500 (codes "r1") start after refreshed
      refl renewed
