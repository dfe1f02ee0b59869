-- ===== src/Portaswitch.antt =====
-- app/bss/adapters/portaswitch: what the methods of the adapter share. A method is a function from
-- the state of the adapter and of the switch to its result and the state after it. The switch is
-- a parameter, `Api`; a missing text is the empty one, a missing number zero.
pub mod Account
pub mod Limits
pub mod Email
pub mod SignIn
pub mod Otp
pub mod Session
pub mod Recordings
pub mod Voicemail
pub mod Offices
pub mod Numbers
pub mod Calls
mod Sample
use Prim.Native.String.{String}
use porta_phone_adapter.Base.{
  ℕ, ◌≡◌, refl, sym, ap, ◌∙◌, Bool, true, false, Option, none, some, List, [], ◌∷◌,
}
use porta_phone_adapter.Base.Result.{Result, ok, err}

-- The fault codes that the adapter tells apart.
pub data Fault : Type 0 where
  auth_failed brute_force token_rejected refresh_failed logout_token_rejected session_gone : Fault
  ping_token_rejected must_change_password empty_recipients xdr_not_found : Fault
  invalid_call_recording_id transcription_not_found forbidden_account_access : Fault
  unified_messaging_disabled : Fault
  other_fault : String → Fault

-- What a method can raise: a `WebTritErrorException` of the adapter itself with its HTTP status and
-- its code, one of the switch with a fault code or without, and an exception of another class.
pub data Failure : Type 0 where
  adapter : ℕ → Option String → Failure
  billing : Fault → Failure
  untraced : Failure
  crash : Failure

-- A handler `except WebTritErrorException`: `extract_fault_code` raises an error without a fault
-- code again, and the handler raises one that it does not name again.
abbrev pub or_again : Fault → Option Failure → Failure
or_again code none = billing code
or_again code (some f) = f

unfoldable pub handled : (Fault → Option Failure) → Failure → Failure
handled by (billing code) = or_again code (by code)
handled by (adapter status code) = adapter status code
handled by untraced = untraced
handled by crash = crash

abbrev pub M : Type 0 → Type 0 → Type 0
M S A = S → Result Failure A × S

module _ {S : Type 0} where
  abbrev pub after : {A B : Type 0} → (A → M S B) → Result Failure A × S → Result Failure B × S
  after f (ok a, s) = f a s
  after f (err e, s) = (err e, s)

  infixl 5 ◌>>=◌ ◌>>◌
  abbrev pub ◌>>=◌ : {A B : Type 0} → M S A → (A → M S B) → M S B
  ◌>>=◌ m f s = after f (m s)

  abbrev pub ◌>>◌ : {B : Type 0} → M S (Unit {0}) → M S B → M S B
  m >> k = m >>= λ _. k

  abbrev pub ret : {A : Type 0} → A → M S A
  ret a s = (ok a, s)

  abbrev pub fail : {A : Type 0} → Failure → M S A
  fail e s = (err e, s)

  -- A read of the state.
  abbrev pub read : {A : Type 0} → (S → Result Failure A) → M S A
  read r s = (r s, s)

  abbrev pub require : Bool → Failure → M S (Unit {0})
  require true e = ret tt
  require false e = fail e

  abbrev pub rescue :
      {A : Type 0} → (Failure → Failure) → Result Failure A × S → Result Failure A × S
  rescue f (ok a, s) = (ok a, s)
  rescue f (err e, s) = (err (f e), s)

  -- `try: m except WebTritErrorException: ...`
  abbrev pub on_fault : {A : Type 0} → (Fault → Option Failure) → M S A → M S A
  on_fault by m s = rescue (handled by) (m s)

  -- Inversion of a bind and of a handler that end well.
  pub after-ok :
      {A B : Type 0} (f : A → M S B) (r : Result Failure A × S) (b : B) (t : S)
      → after f r ≡ (ok b, t)
      → (a : A) × (s : S) × (r ≡ (ok a, s)) × (f a s ≡ (ok b, t))
  after-ok f (ok a, s) b t h = (a, s, refl, h)
  after-ok f (err e, s) b t h = cc

  pub rescue-ok :
      {A : Type 0} (f : Failure → Failure) (r : Result Failure A × S) (a : A) (t : S)
      → rescue f r ≡ (ok a, t)
      → r ≡ (ok a, t)
  rescue-ok f (ok b, s) a t h = h
  rescue-ok f (err e, s) a t h = cc

  pub require-ok :
      (b : Bool) (e : Failure) (s t : S) (u : Unit {0})
      → require b e s ≡ (ok u, t)
      → (b ≡ true) × (s ≡ t)
  require-ok true e s t u h = (refl, ap (λ p. p.1) h)
  require-ok false e s t u h = cc
