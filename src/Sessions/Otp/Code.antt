-- ===== src/Sessions/Otp/Code.antt =====
-- The code of a new OTP.
use porta_phone_adapter.Base.{
  ℕ, zero, suc, ◌+◌, ◌-◌, ◌*◌, ◌/◌, ◌%◌, ◌^◌, ◌≤◌, ◌<◌, ◌≡◌, refl, none, [], ◌∷◌, ◌++◌, ◌∙◌, arith,
  ltb, length, replicate, Bool-cases, inl, inr, ap, length-append, length-replicate,
}
use native.Mathlib.Nat.{pow-succ'}
use porta_phone_adapter.Base.Eq.{Text}
use porta_phone_adapter.Sessions.Otp.{decimal, six_digits, used_length, new_code}

-- What `randrange(a, b)` promises: a number from `a` to `b - 1`.
abbrev pub InRange : (ℕ → ℕ → ℕ) → Type 0
InRange randrange = (a b : ℕ) → a < b → (a ≤ randrange a b) × (randrange a b < b)

pow_pred : (n : ℕ) → (10 ≤ 10 ^ suc n) × (10 ^ suc n ≡ 10 * 10 ^ n)
pow_pred zero = omega arith
pow_pred (suc n) = omega (arith, pow_pred n, pow-succ' 10 n, pow-succ' 10 (suc n))

room : (n : ℕ) → 3 ≤ n → (10 ≤ 10 ^ (n - 1)) × (10 ^ n ≡ 10 * 10 ^ (n - 1))
room zero h = absurd (omega arith)
room (suc zero) h = absurd (omega arith)
room (suc (suc n)) h =
    let e : suc (suc n) - 1 ≡ suc n = omega arith in
    rw e (omega (arith, pow_pred n, pow_pred (suc n)))

used_length_ge : (n : ℕ) → 3 ≤ used_length n
unfolding used_length
used_length_ge n = ground arith

-- Without a permanent code, and with a source that keeps to its range, the code of a new OTP has
-- exactly the digits of the length in use, which is at least three, and it is never the greatest
-- number of that length.
pub new_code_range :
    (randrange : ℕ → ℕ → ℕ) (configured : ℕ)
    → InRange randrange
    → let n = used_length configured in
      let code = new_code randrange configured none in
      (3 ≤ n) × (10 ^ (n - 1) ≤ code) × (code + 2 ≤ 10 ^ n)
unfolding new_code
new_code_range randrange configured r =
    let n = used_length configured in
    let (big, times) = room n (used_length_ge configured) in
    let (lo, hi) = r (10 ^ (n - 1)) (10 ^ n - 1) (omega arith) in
    (used_length_ge configured, lo, omega arith)

-- The number that a text of digits stands for.
abbrev pub value_from : ℕ → Text → ℕ
value_from acc [] = acc
value_from acc (c ∷ cs) = value_from (acc * 10 + (c - b'0')) cs

value-decimal : (f n : ℕ) (acc : Text) → n ≤ f → value_from 0 (decimal f n acc) ≡ value_from n acc
unfolding decimal
value-decimal zero n acc h =
    let e : 0 + (b'0' + n - b'0') ≡ n = omega arith in ap (λ k. value_from k acc) e
value-decimal (suc f) n acc h = elim (Bool-cases (ltb n 10)) [
  | inl small ↦
      rw small
        (let e : 0 * 10 + (b'0' + n - b'0') ≡ n = omega arith in ap (λ k. value_from k acc) e)
  | inr large ↦ rw large (
      value-decimal f (n / 10) ((b'0' + n % 10) ∷ acc) (ground arith)
      ∙ (let e : n / 10 * 10 + (b'0' + n % 10 - b'0') ≡ n = omega arith in
          ap (λ k. value_from k acc) e))
]

value-zeros : (k : ℕ) (t : Text) → value_from 0 (replicate k b'0' ++ t) ≡ value_from 0 t
value-zeros zero t = refl
value-zeros (suc k) t = value-zeros k t

-- The formatted code reads back as the code, and has six characters or more.
pub six_digits_reads_back :
    (code : ℕ) → (value_from 0 (six_digits code) ≡ code) × (6 ≤ length (six_digits code))
unfolding six_digits
six_digits_reads_back code = (
  value-zeros (6 - length (decimal code code [])) (decimal code code [])
      ∙ value-decimal code code [] (omega arith),
  omega (
    arith,
    length-append (replicate (6 - length (decimal code code [])) b'0') (decimal code code []),
    length-replicate {A = ℕ} (6 - length (decimal code code [])) b'0',
  ),
)
