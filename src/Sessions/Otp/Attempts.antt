-- ===== src/Sessions/Otp/Attempts.antt =====
-- How often a code can be tried.
use porta_phone_adapter.Base.{
  ℕ, ◌+◌, ◌≤◌, ◌<◌, ◌≡◌, refl, ◌≢◌, inl, inr, Option, none, some, List, [], ◌∷◌, ◌∙◌, arith, ltb,
  lt→ltb, le→ltb, length, Bool-cases, ap,
}
use porta_phone_adapter.Base.Eq.{Text, text_key, text_eq, beq_ne}
use porta_phone_adapter.Base.Dict.{
  lookup, insert, lookup-insert_self, lookup-erase_self, Every, insert-Every, erase-Every,
}
use porta_phone_adapter.Base.Result.{err, webtrit}
use porta_phone_adapter.Sessions.Otp.{
  Otp, Handler, Request, generate_otp, generate_for, new_otp, max_attempts, drop_otp, wrong_code,
  right_code, validate_found, validate_otp,
}

abbrev pub Few : Otp → Type 0
Few o = o.attempts ≤ max_attempts + 1

-- No OTP in the database has counted more than `max_attempts + 1` wrong codes.
abbrev pub Bounded : Handler → Type 0
Bounded h = Every Few h.otp_db

-- A new OTP keeps the bound, whether or not its mail is sent.
generate_otp-Bounded : (h : Handler) (r : Request) → Bounded h → Bounded (generate_otp h r).1
unfolding generate_otp
generate_otp-Bounded h r b = by_email r.email
  where
    by_email : (email : Option Text) → Bounded (generate_for h r email).1
    by_email none = unfold generate_for in b
    by_email (some []) = unfold generate_for in b
    by_email (some (c ∷ email)) =
        unfold generate_for new_otp in
        elim (Bool-cases r.sent) [
          | inl e ↦ rw e (insert-Every Few r.otp_id (new_otp r) h.otp_db (omega arith) b)
          | inr e ↦ rw e (insert-Every Few r.otp_id (new_otp r) h.otp_db (omega arith) b)
        ]

wrong_code-Bounded :
    (h : Handler) (otp_id : Text) (o : Otp) → Bounded h → Bounded (wrong_code h otp_id o).1
unfolding wrong_code drop_otp
wrong_code-Bounded h otp_id o b = elim (Bool-cases (ltb max_attempts o.attempts)) [
  | inl e ↦ rw e (erase-Every Few otp_id h.otp_db b)
  | inr e ↦
      rw e
        (insert-Every Few otp_id (record o { attempts = o.attempts + 1 }) h.otp_db (ground arith) b)
]

-- If no OTP has counted more than `max_attempts + 1` wrong codes, none has after `validate_otp`,
-- whatever code is presented for whatever OTP.
pub validate_otp-Bounded :
    (h : Handler) (otp_id code : Text) (now : ℕ) (access refresh : Text)
    → Bounded h
    → Bounded (validate_otp h otp_id code now access refresh).1
unfolding validate_otp
validate_otp-Bounded h otp_id code now access refresh b = found (lookup otp_id h.otp_db)
  where
    found : (o : Option Otp) → Bounded (validate_found h otp_id code now access refresh o).1
    found none = unfold validate_found in b
    found (some o) =
        unfold validate_found right_code drop_otp in
        elim (Bool-cases (ltb o.expires_at now)) [
          | inl e ↦ rw e (erase-Every Few otp_id h.otp_db b)
          | inr e ↦ rw e (elim (Bool-cases (text_eq o.otp_expected_code code)) [
            | inl f ↦ rw f (erase-Every Few otp_id h.otp_db b)
            | inr f ↦ rw f (wrong_code-Bounded h otp_id o b)
          ])
        ]

-- The codes in the order in which they are presented for one OTP, all at one time.
pub try_all : Handler → Text → List Text → ℕ → Text → Text → Handler
try_all h otp_id [] now access refresh = h
try_all h otp_id (c ∷ cs) now access refresh =
    try_all (validate_otp h otp_id c now access refresh).1 otp_id cs now access refresh

abbrev pub Wrong : Text → List Text → Type 0
Wrong expected [] = Unit {0}
Wrong expected (c ∷ cs) = (expected ≢ c) × Wrong expected cs

module _ (otp_id : Text) (now : ℕ) (access refresh : Text) where
  wrong_step :
      (h : Handler) (o : Otp) (c : Text)
      → lookup otp_id h.otp_db ≡ some o
      → now ≤ o.expires_at
      → o.otp_expected_code ≢ c
      → validate_otp h otp_id c now access refresh ≡ wrong_code h otp_id o
  unfolding validate_otp validate_found
  wrong_step h o c held live n =
      rw (held, validate_found, le→ltb o.expires_at now live, beq_ne o.otp_expected_code c n)

  abbrev counted : Handler → Otp → Handler
  counted h o = record h {
    otp_db = insert otp_id (record o { attempts = o.attempts + 1 }) h.otp_db;
  }

  counted_step :
      (h : Handler) (o : Otp) (c : Text)
      → lookup otp_id h.otp_db ≡ some o
      → now ≤ o.expires_at
      → o.otp_expected_code ≢ c
      → o.attempts ≤ max_attempts
      → (validate_otp h otp_id c now access refresh).1 ≡ counted h o
  counted_step h o c held live n le =
      rw (wrong_step h o c held live n)
        (unfold wrong_code in rw (le→ltb max_attempts o.attempts le))

  -- Wrong codes that come in time are counted one by one, as long as the counter does not go past
  -- `max_attempts + 1`: the OTP is still there after them, with its expected code and its end, and
  -- its counter has grown by their number.
  pub attempts_counted :
      (h : Handler) (o : Otp) (cs : List Text)
      → lookup otp_id h.otp_db ≡ some o
      → now ≤ o.expires_at
      → Wrong o.otp_expected_code cs
      → o.attempts + length cs ≤ max_attempts + 1
      → lookup otp_id (try_all h otp_id cs now access refresh).otp_db
        ≡ some (record o { attempts = o.attempts + length cs })
  unfolding try_all
  attempts_counted h o [] held live w le = held ∙ ap some (ground arith)
  attempts_counted h o (c ∷ cs) held live w le =
      rw (counted_step h o c held live w.0 (omega arith), try_all)
        (attempts_counted (counted h o) (record o { attempts = o.attempts + 1 }) cs
            (lookup-insert_self otp_id _ h.otp_db) live w.1 (omega arith)
          ∙ ap some (ground arith))

  -- A wrong code in time for an OTP whose counter is past `max_attempts` erases it, and the answer
  -- is 422 otp_verification_attempts_exceeded.
  pub exhausted_otp_erased :
      (h : Handler) (o : Otp) (c : Text)
      → lookup otp_id h.otp_db ≡ some o
      → now ≤ o.expires_at
      → o.otp_expected_code ≢ c
      → max_attempts < o.attempts
      → let (r, h') = validate_otp h otp_id c now access refresh in
        (r ≡ err (webtrit 422 (some "otp_verification_attempts_exceeded")))
        × (lookup otp_id h'.otp_db ≡ none)
  exhausted_otp_erased h o c held live n more = rw (wrong_step h o c held live n) (
      unfold wrong_code drop_otp in
      rw (lt→ltb max_attempts o.attempts more) (refl, lookup-erase_self otp_id h.otp_db))
