-- ===== src/Sessions/Otp.antt =====
-- app/bss/adapters/otp.py: `SampleOTPHandler`, over the session storage. Times are microseconds.
-- `random.randrange` and the configuration are arguments; so is whether the mail was sent.
pub mod Attempts
pub mod Code
use Prim.Native.String.{String}
use porta_phone_adapter.Base.{
  ℕ, zero, suc, ◌+◌, ◌-◌, ◌*◌, ◌/◌, ◌%◌, ◌^◌, Bool, true, false, not, Option, none, some, List, [],
  ◌∷◌, ◌++◌, ltb, if◌then◌else◌, length, replicate,
}
use porta_phone_adapter.Base.Eq.{Text, text_key, text_eq}
use porta_phone_adapter.Base.Dict.{Dict, lookup, insert, erase}
use porta_phone_adapter.Base.Result.{Result, ok, err, Raised, webtrit}
use porta_phone_adapter.Sessions.{
  SessionInfo, SessionStorage, second, create_session, store_session,
}

-- `OTP`
pub record Otp : Type 0 where
  pub otp_expected_code : Text
  pub attempts : ℕ
  pub user_id : Text
  pub expires_at : ℕ

-- What the handler keeps: `otp_db` and `sessions`.
pub record Handler : Type 0 where
  pub otp_db : Dict Text Otp
  pub sessions : SessionStorage

abbrev pub Outcome : Type 0 → Type 0
Outcome A = Result Raised A × Handler

-- The decimal digits of a number, in front of `acc`. The fuel is at least the number.
unfoldable pub decimal : ℕ → ℕ → Text → Text
decimal zero n acc = (b'0' + n) ∷ acc
decimal (suc f) n acc =
    let rest = decimal f (n / 10) ((b'0' + n % 10) ∷ acc) in
    if ltb n 10 then (b'0' + n) ∷ acc else rest

-- `"{:06d}".format(code)`
unfoldable pub six_digits : ℕ → Text
six_digits code = let digits = decimal code code [] in replicate (6 - length digits) b'0' ++ digits

abbrev pub default_otp_length : ℕ
default_otp_length = 6

-- The length in use: a configured one below three is replaced by the default.
unfoldable pub used_length : ℕ → ℕ
used_length n = if ltb n 3 then default_otp_length else n

-- The code of a new OTP: `randrange(a, b)` gives a number from `a` to `b - 1`.
unfoldable pub new_code : (ℕ → ℕ → ℕ) → ℕ → Option ℕ → ℕ
new_code randrange configured none =
    let n = used_length configured in randrange (10 ^ (n - 1)) (10 ^ n - 1)
new_code randrange configured (some fixed) = fixed

-- What `generate_otp` reads: the configuration, the user's data, the clock and the outside world.
pub record Request : Type 0 where
  pub user_id : Text
  -- None: no such user; an empty text: no email.
  pub email : Option Text
  pub randrange : ℕ → ℕ → ℕ
  pub otp_length : ℕ
  -- PERMANENT_OTP_CODE
  pub permanent_code : Option ℕ
  pub otp_id : Text
  -- minutes
  pub otp_validity : ℕ
  pub now : ℕ
  pub sent : Bool

unfoldable pub new_otp : Request → Otp
new_otp r = record {
  otp_expected_code = six_digits (new_code r.randrange r.otp_length r.permanent_code);
  attempts = 0;
  user_id = r.user_id;
  expires_at = r.now + r.otp_validity * 60 * second;
}

-- `generate_otp`, by the email of the user; it gives the id.
unfoldable pub generate_for : Handler → Request → Option Text → Outcome Text
generate_for h r none = (err (webtrit 404 none), h)
generate_for h r (some []) = (err (webtrit 404 none), h)
generate_for h r (some (c ∷ email)) =
    let h' = record h { otp_db = insert r.otp_id (new_otp r) h.otp_db } in
    if not r.sent then (err (webtrit 500 none), h') else (ok r.otp_id, h')

unfoldable pub generate_otp : Handler → Request → Outcome Text
generate_otp h r = generate_for h r r.email

abbrev pub max_attempts : ℕ
max_attempts = 5

unfoldable pub drop_otp : Handler → Text → Handler
drop_otp h otp_id = record h { otp_db = erase otp_id h.otp_db }

-- A code that is not the expected one.
unfoldable pub wrong_code : Handler → Text → Otp → Outcome SessionInfo
wrong_code h otp_id o =
    if ltb max_attempts o.attempts
    then (err (webtrit 422 (some "otp_verification_attempts_exceeded")), drop_otp h otp_id)
    else (
      err (webtrit 401 none),
      record h { otp_db = insert otp_id (record o { attempts = o.attempts + 1 }) h.otp_db },
    )

-- The expected code: a session is created and stored, and the OTP goes.
unfoldable pub right_code : Handler → Text → Otp → ℕ → Text → Text → Outcome SessionInfo
right_code h otp_id o now access refresh =
    let s = create_session h.sessions now access refresh o.user_id in
    (ok s, drop_otp (record h { sessions = store_session h.sessions now s }) otp_id)

-- `validate_otp`, on what the database holds.
unfoldable pub validate_found :
    Handler → Text → Text → ℕ → Text → Text → Option Otp → Outcome SessionInfo
validate_found h otp_id code now access refresh none = (err (webtrit 404 none), h)
validate_found h otp_id code now access refresh (some o) =
    if ltb o.expires_at now
    then (err (webtrit 422 (some "otp_expired")), drop_otp h otp_id)
    else if text_eq o.otp_expected_code code
    then right_code h otp_id o now access refresh
    else wrong_code h otp_id o

unfoldable pub validate_otp : Handler → Text → Text → ℕ → Text → Text → Outcome SessionInfo
validate_otp h otp_id code now access refresh =
    validate_found h otp_id code now access refresh (lookup otp_id h.otp_db)
