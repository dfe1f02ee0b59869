-- ===== src/Sessions/Tests.antt =====
-- The theorems on sessions and one-time passwords at concrete tokens and codes.
use porta_phone_adapter.Base.{◌≤◌, ◌<◌, ◌≡◌, refl, ◌⊎◌, none, some, List, [], ◌∷◌, arith}
use porta_phone_adapter.Base.Eq.{Text, text_eq, text_key}
use porta_phone_adapter.Base.Dict.{lookup}
use porta_phone_adapter.Base.Result.{ok, err, webtrit}
use porta_phone_adapter.Sessions.{
  SessionInfo, session, SessionStorage, refresh_token_index, get_session, create_session,
  refresh_copy, store_session, still_active,
}
use porta_phone_adapter.Sessions.Management.{clock_at, validate_session, refresh_session}
use porta_phone_adapter.Sessions.Rotation.{refresh_rotates}
use porta_phone_adapter.Sessions.Expiry.{validate_by_start, refresh_index_opens}
use porta_phone_adapter.Sessions.Otp.{Otp, Handler, validate_otp}
use porta_phone_adapter.Sessions.Otp.Attempts.{
  Bounded, try_all, validate_otp-Bounded, attempts_counted,
}

abbrev storage : SessionStorage
storage = record { session_db = []; session_expiration = 24; refresh_token_expiration = 48 }

abbrev access : Text
access = b'a' ∷ []

abbrev refresh : Text
refresh = b'r' ∷ []

abbrev access_next : Text
access_next = b'b' ∷ []

abbrev refresh_next : Text
refresh_next = b's' ∷ []

abbrev user : Text
user = b'u' ∷ []

abbrev open_session : SessionInfo
open_session = record {
  user_id = user;
  access_token = access;
  refresh_token = refresh;
  expires_at = 86400000000;
  expires_in = 86400;
  document_ttl = 0;
}

abbrev index : Text
index = b'R' ∷ b'r' ∷ []

abbrev stored : SessionStorage
stored = record storage {
  session_db = (access, session open_session) ∷ (index, session open_session) ∷ [];
}

refresh_rotates_example :
    let new = create_session stored 0 access_next refresh_next user in
    let (r, st') = refresh_session 0 stored refresh 0 access_next refresh_next in
    (r ≡ ok new)
    × (get_session st' access_next [] ≡ some (session new))
    × (get_session st' [] refresh_next ≡ some (session (refresh_copy stored 0 new)))
    × (get_session st' access [] ≡ none)
    × (get_session st' [] refresh ≡ none)
unfolding get_session lookup still_active refresh_token_index text_eq
refresh_rotates_example =
    refresh_rotates 0 stored refresh 0 access_next refresh_next open_session (λ e. cc) (λ e. cc)
      refl refl (λ e. ground arith) (λ e. ground arith) (λ e. ground arith) (λ e. ground arith)
      (λ e. ground arith) (λ e. ground arith)

-- The session has ended by the present and is still accepted.
validate_by_start_example :
    let (r, st') = validate_session (clock_at 5 90000000000) stored access in
    ((5 < open_session.expires_at) × (r ≡ ok open_session) × (st' ≡ stored))
    ⊎ ((open_session.expires_at ≤ 5)
        × (r ≡ err (webtrit 401 (some "access_token_expired")))
        × (get_session st' access [] ≡ none))
unfolding get_session lookup text_eq
validate_by_start_example = validate_by_start 5 90000000000 stored access open_session refl

refresh_index_opens_example :
    let st' = store_session storage 0 open_session in
    validate_session (clock_at 5 9) st' (refresh_token_index refresh)
    ≡ (ok (refresh_copy storage 0 open_session), st')
refresh_index_opens_example = refresh_index_opens 5 9 storage 0 open_session (omega arith)

abbrev otp : Otp
otp = record { otp_expected_code = b'7' ∷ []; attempts = 4; user_id = user; expires_at = 900 }

abbrev spent : Otp
spent = record otp { attempts = 6 }

abbrev otp_id : Text
otp_id = b'o' ∷ []

abbrev handler : Handler
handler = record { otp_db = (otp_id, otp) ∷ []; sessions = storage }

handler-Bounded : Bounded handler
unfolding lookup text_eq
handler-Bounded k v h = ground arith

validate_otp-Bounded_example : Bounded (validate_otp handler otp_id (b'1' ∷ []) 5 access refresh).1
validate_otp-Bounded_example =
    validate_otp-Bounded handler otp_id (b'1' ∷ []) 5 access refresh handler-Bounded

abbrev wrong : List Text
wrong = (b'1' ∷ []) ∷ (b'2' ∷ []) ∷ []

attempts_counted_example :
    lookup otp_id (try_all handler otp_id wrong 5 access refresh).otp_db ≡ some spent
unfolding lookup text_eq
attempts_counted_example =
    attempts_counted otp_id 5 access refresh handler otp wrong refl (omega arith)
      ((λ e. ground arith), ((λ e. ground arith), tt)) (omega arith)
