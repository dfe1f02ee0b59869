-- ===== src/Sessions.antt =====
-- app/bss/sessions.py (`SessionStorage`), app/bss/types.py (`SessionInfo`) and the dictionary of
-- app/bss/dbs/__init__.py that holds the sessions. Times are microseconds; the ids that `uuid`
-- makes are arguments.
pub mod Management
pub mod Rotation
pub mod Expiry
pub mod Otp
mod Tests
use porta_phone_adapter.Base.{
  ℕ, ◌+◌, ◌-◌, ◌*◌, ◌%◌, Bool, true, false, Option, none, some, List, [], ◌∷◌, ltb,
}
use porta_phone_adapter.Base.Eq.{Text, text_key}
use porta_phone_adapter.Base.Dict.{Dict, lookup, insert, erase}

pub record SessionInfo : Type 0 where
  pub user_id : Text
  pub access_token : Text
  pub refresh_token : Text
  pub expires_at : ℕ
  pub expires_in : ℕ
  pub document_ttl : ℕ

-- What the database holds: a session, or an object of the time before refresh tokens had one.
pub data Stored : Type 0 where
  session : SessionInfo → Stored
  outdated : Stored

-- `SessionStorage`: the database and the two lifetimes, in hours.
pub record SessionStorage : Type 0 where
  pub session_db : Dict Text Stored
  pub session_expiration : ℕ
  pub refresh_token_expiration : ℕ

abbrev pub second : ℕ
second = 1000000

-- `SessionInfo.still_active`. Its default argument `datetime.now()` is evaluated once, when the
-- class is defined: `started` is the time at which the process loaded the module.
unfoldable pub still_active : ℕ → SessionInfo → Bool
still_active started s = ltb started s.expires_at

-- `__refresh_token_index`
unfoldable pub refresh_token_index : Text → Text
refresh_token_index id = b'R' ∷ id

-- `get_session`; no refresh token is the empty text.
unfoldable pub get_session : SessionStorage → Text → Text → Option Stored
get_session st access [] = lookup access st.session_db
get_session st access (c ∷ refresh) = lookup (refresh_token_index (c ∷ refresh)) st.session_db

-- `create_session`, with the time and the two generated ids.
unfoldable pub create_session : SessionStorage → ℕ → Text → Text → Text → SessionInfo
create_session st now access refresh user =
    let late = now + st.session_expiration * 3600 * second in
    let expiration = late - late % second in
    record {
      user_id = user;
      access_token = access;
      refresh_token = refresh;
      expires_at = expiration;
      expires_in = st.session_expiration * 3600;
      document_ttl = expiration + 5 * 60 * second;
    }

-- The copy of the session that is found by its refresh token.
unfoldable pub refresh_copy : SessionStorage → ℕ → SessionInfo → SessionInfo
refresh_copy st now s = record s { expires_at = now + st.refresh_token_expiration * 3600 * second }

-- `store_session`
unfoldable pub store_session : SessionStorage → ℕ → SessionInfo → SessionStorage
store_session st now s = record st {
  session_db =
      insert (refresh_token_index s.refresh_token) (session (refresh_copy st now s))
        (insert s.access_token (session s) st.session_db);
}

abbrev pub present {ℓ} : {A : Type ℓ} → Option A → Bool
present none = false
present (some _) = true

-- `__delete_session`: `pop`, and whether something was there.
unfoldable pub delete_one : SessionStorage → Text → SessionStorage × Bool
delete_one st token = (
  record st { session_db = erase token st.session_db },
  elim (lookup token st.session_db) [ none ↦ false | some _ ↦ true ],
)

-- `delete_session`
unfoldable pub delete_session : SessionStorage → Text → Text → SessionStorage × Bool
delete_session st access [] = delete_one st access
delete_session st access (c ∷ refresh) =
    delete_one (delete_one st (refresh_token_index (c ∷ refresh))).0 access
