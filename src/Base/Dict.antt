-- ===== src/Base/Dict.antt =====
-- A Python dict in insertion order: `d.get(k)`, `d[k] = v`, `d.pop(k, None)`.
use porta_phone_adapter.Base.Eq.{Eq, beq_refl, beq_ne}
use porta_phone_adapter.Base.Tests.{if◌then◌else◌, Bool-cases}
use mathlib.Core.Path.{◌≡◌, refl, sym, ◌∙◌, subst}
use mathlib.Core.Logic.{◌≢◌, inl, inr}
use mathlib.Core.Bool.{true, false, false≢true}
use mathlib.Core.Option.{Option, none, some}
use mathlib.Core.List.{List, [], ◌∷◌}

abbrev pub Dict {ℓ κ} : Type ℓ → Type κ → Type (ℓ ⊔ κ)
Dict K V = List (K × V)

module _ {ℓ κ} {K : Type ℓ} {V : Type κ} ⦃e : Eq K⦄ where
  unfoldable pub lookup : K → Dict K V → Option V
  lookup k [] = none
  lookup k ((j, v) ∷ d) = if e.beq j k then some v else lookup k d

  -- An old key keeps its place; a new one goes to the end.
  unfoldable pub insert : K → V → Dict K V → Dict K V
  insert k v [] = (k, v) ∷ []
  insert k v ((j, w) ∷ d) = if e.beq j k then (j, v) ∷ d else (j, w) ∷ insert k v d

  unfoldable pub erase : K → Dict K V → Dict K V
  erase k [] = []
  erase k ((j, v) ∷ d) = if e.beq j k then erase k d else (j, v) ∷ erase k d

  pub lookup-insert_self : (k : K) (v : V) (d : Dict K V) → lookup k (insert k v d) ≡ some v
  unfolding lookup insert
  lookup-insert_self k v [] = rw (beq_refl k)
  lookup-insert_self k v ((j, w) ∷ d) = elim (Bool-cases (e.beq j k)) [
    | inl h ↦ rw (h, h)
    | inr h ↦ rw (h, h) (lookup-insert_self k v d)
  ]

  pub lookup-insert_ne :
      (j k : K) (v : V) (d : Dict K V) → k ≢ j → lookup j (insert k v d) ≡ lookup j d
  unfolding lookup insert
  lookup-insert_ne j k v [] n = rw (beq_ne k j n)
  lookup-insert_ne j k v ((i, w) ∷ d) n = elim (Bool-cases (e.beq i k)) [
    | inl h ↦ rw (h, beq_ne i j (λ q. n (sym ((e.beq_iff i k).0 h) ∙ q)))
    | inr h ↦
        rw h (elim (Bool-cases (e.beq i j)) [
          | inl g ↦ rw g
          | inr g ↦ rw g (lookup-insert_ne j k v d n)
        ])
  ]

  pub lookup-erase_self : (k : K) (d : Dict K V) → lookup k (erase k d) ≡ none
  unfolding lookup erase
  lookup-erase_self k [] = refl
  lookup-erase_self k ((j, w) ∷ d) = elim (Bool-cases (e.beq j k)) [
    | inl h ↦ rw h (lookup-erase_self k d)
    | inr h ↦ rw (h, h) (lookup-erase_self k d)
  ]

  pub lookup-erase_ne : (j k : K) (d : Dict K V) → k ≢ j → lookup j (erase k d) ≡ lookup j d
  unfolding lookup erase
  lookup-erase_ne j k [] n = refl
  lookup-erase_ne j k ((i, w) ∷ d) n = elim (Bool-cases (e.beq i k)) [
    | inl h ↦ rw (h, beq_ne i j (λ q. n (sym ((e.beq_iff i k).0 h) ∙ q))) (lookup-erase_ne j k d n)
    | inr h ↦
        rw h
          (elim (Bool-cases (e.beq i j)) [ inl g ↦ rw g | inr g ↦ rw g (lookup-erase_ne j k d n) ])
  ]

none≢some {ℓ} : {A : Type ℓ} {a : A} → none ≢ some a
none≢some h = cc

pub some_inj {ℓ} : {A : Type ℓ} {a b : A} → some a ≡ some b → a ≡ b
some_inj h = cc

-- Every value that a key finds.
abbrev pub Every {ℓ κ μ} :
    {K : Type ℓ} {V : Type κ} ⦃e : Eq K⦄ → (V → Type μ) → Dict K V → Type (ℓ ⊔ κ ⊔ μ)
Every {K} {V} P d = (k : K) (v : V) → lookup k d ≡ some v → P v

module _ {ℓ κ μ} {K : Type ℓ} {V : Type κ} ⦃e : Eq K⦄ (P : V → Type μ) where
  pub insert-Every : (k : K) (v : V) (d : Dict K V) → P v → Every P d → Every P (insert k v d)
  insert-Every k v d p all j w h = elim (Bool-cases (e.beq k j)) [
    | inl same ↦ subst P (some_inj (sym (lookup-insert_self k v d) ∙ at same)) p
    | inr other ↦ all j w (sym (lookup-insert_ne j k v d (differ other)) ∙ h)
  ]
    where
      at : e.beq k j ≡ true → lookup k (insert k v d) ≡ some w
      at same = subst (λ x. lookup x (insert k v d) ≡ some w) (sym ((e.beq_iff k j).0 same)) h

      differ : e.beq k j ≡ false → k ≢ j
      differ other q = false≢true (sym other ∙ (e.beq_iff k j).1 q)

  pub erase-Every : (k : K) (d : Dict K V) → Every P d → Every P (erase k d)
  erase-Every k d all j w h = elim (Bool-cases (e.beq k j)) [
    | inl same ↦ absurd (none≢some (sym (lookup-erase_self k d) ∙ at same))
    | inr other ↦ all j w (sym (lookup-erase_ne j k d (differ other)) ∙ h)
  ]
    where
      at : e.beq k j ≡ true → lookup k (erase k d) ≡ some w
      at same = subst (λ x. lookup x (erase k d) ≡ some w) (sym ((e.beq_iff k j).0 same)) h

      differ : e.beq k j ≡ false → k ≢ j
      differ other q = false≢true (sym other ∙ (e.beq_iff k j).1 q)
