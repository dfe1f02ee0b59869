-- ===== src/Base/Eq.antt =====
-- Boolean equality as an interface, for the keys of the dictionaries.
use porta_phone_adapter.Base.Tests.{◌==◌ as nat_beq, ==_iff, Bool-cases}
use Prim.Native.Nat.{ℕ}
use Prim.Native.Char.{code}
use Prim.Native.String.{String}
use mathlib.Core.Path.{◌≡◌, refl}
use mathlib.Core.Logic.{◌↔◌, ◌≢◌, inl, inr}
use mathlib.Core.Bool.{Bool, true, false, ◌&&◌}
use mathlib.Core.Option.{Option, none, some}
use mathlib.Core.List.{List, [], ◌∷◌}
use native.Mathlib.Omega.{arith}

pub record Eq {ℓ} (A : Type ℓ) : Type ℓ where
  pub beq : A → A → Bool
  pub beq_iff : (a b : A) → (beq a b ≡ true) ↔ (a ≡ b)

module _ {ℓ} {A : Type ℓ} ⦃e : Eq A⦄ where
  pub beq_refl : (a : A) → e.beq a a ≡ true
  beq_refl a = (e.beq_iff a a).1 refl

  pub beq_ne : (a b : A) → a ≢ b → e.beq a b ≡ false
  beq_ne a b n = elim (Bool-cases (e.beq a b)) [
    | inl h ↦ absurd (n ((e.beq_iff a b).0 h))
    | inr h ↦ h
  ]

instance abbrev pub nat_eq : Eq ℕ
nat_eq = record { beq = nat_beq; beq_iff = ==_iff }

abbrev pub option_beq : Option ℕ → Option ℕ → Bool
option_beq none none = true
option_beq none (some b) = false
option_beq (some a) none = false
option_beq (some a) (some b) = nat_beq a b

pub option_beq_iff : (a b : Option ℕ) → (option_beq a b ≡ true) ↔ (a ≡ b)
option_beq_iff none none = ((λ _. refl), (λ _. refl))
option_beq_iff none (some b) = ((λ h. cc), (λ h. cc))
option_beq_iff (some a) none = ((λ h. cc), (λ h. cc))
option_beq_iff (some a) (some b) = ((λ h. ground arith), (λ h. ground arith))

instance abbrev pub option_eq : Eq (Option ℕ)
option_eq = record { beq = option_beq; beq_iff = option_beq_iff }

-- A text is the list of its code points.
abbrev pub Text : Type 0
Text = List ℕ

abbrev pub codes : String → Text
codes String.[] = []
codes (String.◌∷◌ c s) = code c ∷ codes s

unfoldable pub text_eq : Text → Text → Bool
text_eq [] [] = true
text_eq [] (b ∷ bs) = false
text_eq (a ∷ xs) [] = false
text_eq (a ∷ xs) (b ∷ bs) = nat_beq a b && text_eq xs bs

pub text_eq_iff : (s t : Text) → (text_eq s t ≡ true) ↔ (s ≡ t)
unfolding text_eq
text_eq_iff [] [] = ((λ _. refl), (λ _. refl))
text_eq_iff [] (b ∷ bs) = ((λ h. cc), (λ h. cc))
text_eq_iff (a ∷ xs) [] = ((λ h. cc), (λ h. cc))
text_eq_iff (a ∷ xs) (b ∷ bs) =
    ((λ h. ground (arith, (text_eq_iff xs bs).0)), (λ h. ground (arith, (text_eq_iff xs bs).1)))

instance abbrev pub text_key : Eq Text
text_key = record { beq = text_eq; beq_iff = text_eq_iff }
