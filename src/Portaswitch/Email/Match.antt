-- ===== src/Portaswitch/Email/Match.antt =====
-- app/bss/adapters/portaswitch/adapter.py: the set of accounts that carry an address, whatever the
-- pages their rows come in.
use porta_phone_adapter.Base.{
  ℕ, ◌≤◌, ◌<◌, ◌≡◌, ◌≢◌, refl, sym, ap, ◌∙◌, Bool, true, false, ◌&&◌, ◌||◌, List, [], ◌∷◌, ◌++◌,
  arith, ◌==◌, length, Bool-cases, inl, inr, length-append, subst,
}
use porta_phone_adapter.Base.Eq.{Text}
use porta_phone_adapter.Portaswitch.Account.{AccountInfo}
use porta_phone_adapter.Portaswitch.Email.{has_email, among, add_match, add_matches}

-- A row of account number `i` carries the address.
unfoldable pub carries : Text → ℕ → List AccountInfo → Bool
carries address i [] = false
carries address i (row ∷ rows) =
    (row.i_account == i && has_email row.email address) || carries address i rows

pub add_matches-append :
    (address : Text) (xs ys : List AccountInfo) (m : List ℕ)
    → add_matches address (xs ++ ys) m ≡ add_matches address ys (add_matches address xs m)
unfolding add_matches
add_matches-append address [] ys m = refl
add_matches-append address (x ∷ xs) ys m = add_matches-append address xs ys _

length-add_match : (i : ℕ) (m : List ℕ) → length m ≤ length (add_match i m)
length-add_match i m = elim (Bool-cases (among i m)) [
  | inl h ↦ rw h (omega arith)
  | inr h ↦ rw h (omega (arith, length-append m (i ∷ [])))
]

pub length-add_matches :
    (address : Text) (xs : List AccountInfo) (m : List ℕ)
    → length m ≤ length (add_matches address xs m)
unfolding add_matches
length-add_matches address [] m = omega arith
length-add_matches address (x ∷ xs) m = elim (Bool-cases (has_email x.email address)) [
  | inl h ↦ rw h (
      omega (
        arith,
        length-add_match x.i_account m,
        length-add_matches address xs (add_match x.i_account m),
      ))
  | inr h ↦ rw h (length-add_matches address xs m)
]

or_assoc : (a b c : Bool) → ((a || b) || c) ≡ (a || ((b && true) || c))
or_assoc true b c = refl
or_assoc false true c = refl
or_assoc false false c = refl

skipped : (a b c : Bool) → (a || c) ≡ (a || ((b && false) || c))
skipped true b c = refl
skipped false true c = refl
skipped false false c = refl

among-append : (i j : ℕ) (m : List ℕ) → among i (m ++ j ∷ []) ≡ (among i m || (j == i))
among-append i j [] = ground arith
among-append i j (k ∷ m) = ground (arith, among-append i j m)

among-add_match : (i j : ℕ) (m : List ℕ) → among i (add_match j m) ≡ (among i m || (j == i))
among-add_match i j m = elim (Bool-cases (among j m)) [
  | inl h ↦ rw h (elim (Bool-cases (j == i)) [
    | inl g ↦
        let same : j ≡ i = ground arith in
        let old : among i m ≡ true = subst (λ k. among k m ≡ true) same h in rw (g, old) refl
    | inr g ↦ rw g (ground arith)
  ])
  | inr h ↦ rw h (among-append i j m)
]

pub among-add_matches :
    (address : Text) (i : ℕ) (xs : List AccountInfo) (m : List ℕ)
    → among i (add_matches address xs m) ≡ (among i m || carries address i xs)
unfolding add_matches carries
among-add_matches address i [] m = ground arith
among-add_matches address i (x ∷ xs) m = elim (Bool-cases (has_email x.email address)) [
  | inl h ↦ rw h (
      among-add_matches address i xs (add_match x.i_account m)
      ∙ rw (among-add_match i x.i_account m)
          (or_assoc (among i m) (x.i_account == i) (carries address i xs)))
  | inr h ↦ rw h (
      among-add_matches address i xs m
      ∙ skipped (among i m) (x.i_account == i) (carries address i xs))
]

-- Every number stands in the list once.
abbrev pub Once : List ℕ → Type 0
Once [] = Unit {0}
Once (i ∷ m) = (among i m ≡ false) × Once m

append-Once : (j : ℕ) (m : List ℕ) → among j m ≡ false → Once m → Once (m ++ j ∷ [])
append-Once j [] h o = (refl, tt)
append-Once j (k ∷ m) h (new, o) =
    let other : (j == k) ≡ false = ground arith in
    (among-append k j m ∙ rw (new, other) refl, append-Once j m (ground arith) o)

add_match-Once : (j : ℕ) (m : List ℕ) → Once m → Once (add_match j m)
add_match-Once j m o = elim (Bool-cases (among j m)) [
  | inl h ↦ rw h o
  | inr h ↦ rw h (append-Once j m h o)
]

pub add_matches-Once :
    (address : Text) (xs : List AccountInfo) (m : List ℕ) → Once m → Once (add_matches address xs m)
unfolding add_matches
add_matches-Once address [] m o = o
add_matches-Once address (x ∷ xs) m o = elim (Bool-cases (has_email x.email address)) [
  | inl h ↦
      rw h (add_matches-Once address xs (add_match x.i_account m) (add_match-Once x.i_account m o))
  | inr h ↦ rw h (add_matches-Once address xs m o)
]

-- Two numbers in the list make it longer than one.
pub two_among : (i j : ℕ) (m : List ℕ) → i ≢ j → among i m ≡ true → among j m ≡ true → 1 < length m
two_among i j [] n h g = cc
two_among i j (k ∷ []) n h g =
    let a : k ≡ i = ground arith in let b : k ≡ j = ground arith in absurd (n (sym a ∙ b))
two_among i j (k ∷ l ∷ m) n h g = omega arith

-- A list that has one number and no other is that number.
pub only_among :
    (i : ℕ) (m : List ℕ)
    → Once m
    → among i m ≡ true
    → ((j : ℕ) → among j m ≡ true → j ≡ i)
    → m ≡ i ∷ []
only_among i [] o h all = cc
only_among i (k ∷ []) o h all = ap (λ x. x ∷ []) (all k (ground arith))
only_among i (k ∷ l ∷ m) (new, o) h all =
    let a = all k (ground arith) in let b = all l (ground arith) in absurd (ground arith)
