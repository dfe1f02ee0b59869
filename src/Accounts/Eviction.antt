-- ===== src/Accounts/Eviction.antt =====
-- The eviction loop ends, and what it leaves in the cache.
use porta_phone_adapter.Base.{
  ℕ, zero, suc, ◌+◌, ◌-◌, ◌≤◌, ◌≡◌, ◌≢◌, refl, sym, ap, ◌∙◌, ◌⊎◌, inl, inr, false, ◌&&◌, Option,
  none, some, [], ◌∷◌, arith, ltb, ◌==◌, length, Bool-cases, Option-cases, subst,
}
use porta_phone_adapter.Base.Eq.{nat_eq}
use porta_phone_adapter.Base.Dict.{Dict, lookup, erase, lookup-erase_ne}
use porta_phone_adapter.Accounts.{
  Entry, Cache, total_rows, older, oldest, drop_entry, evict_entry, evict_one, evict_loop,
  evict_accounts_over_limit, max_rows,
}

-- Every customer has one entry, as the keys of a dict.
abbrev pub Unique : Dict ℕ Entry → Type 0
Unique [] = Unit {0}
Unique ((k, e) ∷ d) = (lookup k d ≡ none) × Unique d

older-cases :
    (just k : ℕ) (e : Entry) (rest : Option (ℕ × Entry)) (j : ℕ) (f : Entry)
    → older just k e rest ≡ some (j, f)
    → ((j ≡ k) × (f ≡ e)) ⊎ (rest ≡ some (j, f))
older-cases just k e none j f h = ground arith
older-cases just k e (some (i, g)) j f h = ground arith

oldest-found :
    (just : ℕ) (d : Dict ℕ Entry) (j : ℕ) (f : Entry)
    → Unique d
    → oldest just d ≡ some (j, f)
    → lookup j d ≡ some f
unfolding oldest lookup
oldest-found just [] j f u h = cc
oldest-found just ((k, e) ∷ d) j f u h = elim (older-cases just k e (oldest just d) j f h) [
  | inl (a, b) ↦ ground arith
  | inr a ↦
      let ih = oldest-found just d j f (u.1) a in
      elim (Bool-cases (k == j)) [
        | inl c ↦
            let same : k ≡ j = ground arith in
            let gone : lookup j d ≡ none = subst (λ i. lookup i d ≡ none) same (u.0) in cc
        | inr c ↦ rw c ih
      ]
]

erase-absent : (k : ℕ) (d : Dict ℕ Entry) → lookup k d ≡ none → erase k d ≡ d
unfolding lookup erase
erase-absent k [] h = refl
erase-absent k ((j, e) ∷ d) h =
    let other : (j == k) ≡ false = ground arith in
    rw other (ap (◌∷◌ (j, e)) (erase-absent k d (ground arith)))

-- An entry that is erased takes its rows and its place.
erase-total :
    (k : ℕ) (e : Entry) (d : Dict ℕ Entry)
    → Unique d
    → lookup k d ≡ some e
    → (total_rows (erase k d) + length e.accounts ≡ total_rows d)
      × (length (erase k d) + 1 ≡ length d)
unfolding lookup erase
erase-total k e [] u h = cc
erase-total k e ((j, f) ∷ d) u h = elim (Bool-cases (j == k)) [
  | inl a ↦
      let key : j ≡ k = ground arith in
      let same : erase k d ≡ d = erase-absent k d (subst (λ i. lookup i d ≡ none) key (u.0)) in
      let here : f ≡ e = ground arith in rw (a, same, here) ((omega arith), omega arith)
  | inr a ↦
      let (ih, ih') = erase-total k e d (u.1) (ground arith) in
      rw a ((omega (arith, ih)), omega (arith, ih'))
]

erase-Unique : (k : ℕ) (d : Dict ℕ Entry) → Unique d → Unique (erase k d)
unfolding erase
erase-Unique k [] u = tt
erase-Unique k ((j, f) ∷ d) u = elim (Bool-cases (j == k)) [
  | inl a ↦ rw a (erase-Unique k d (u.1))
  | inr a ↦
      let other : k ≢ j = λ q. ground arith in
      rw a (lookup-erase_ne j k d other ∙ u.0, erase-Unique k d (u.1))
]

-- What holds before every turn of the loop.
abbrev Counted : ℕ × Cache → Type 0
Counted (total, s) = (total ≡ total_rows (s.accounts_cache)) × Unique (s.accounts_cache)

evict_entry-Counted :
    (just total : ℕ) (s : Cache) (next : ℕ × Cache) (o : Option (ℕ × Entry))
    → oldest just (s.accounts_cache) ≡ o
    → Counted (total, s)
    → evict_entry total s o ≡ some next
    → Counted next × (length ((next.1).accounts_cache) + 1 ≡ length (s.accounts_cache))
unfolding evict_entry drop_entry
evict_entry-Counted just total s next none o c h = cc
evict_entry-Counted just total s next (some (k, e)) o c h =
    let found = oldest-found just (s.accounts_cache) k e (c.1) o in
    let (rows, size) = erase-total k e (s.accounts_cache) (c.1) found in
    let uniq = erase-Unique k (s.accounts_cache) (c.1) in
    let step : next ≡ (total - length e.accounts, drop_entry k s) = ground arith in
    rw step (((omega arith), uniq), size)

evict_one-Counted :
    (just : ℕ) (st next : ℕ × Cache)
    → Counted st
    → evict_one just st ≡ some next
    → Counted next × (length ((next.1).accounts_cache) + 1 ≡ length ((st.1).accounts_cache))
unfolding evict_one
evict_one-Counted just (total, s) next c h =
    evict_entry-Counted just total s next (oldest just (s.accounts_cache)) refl c (ground arith)

evict_one-alone :
    (just total : ℕ) (s : Cache) → length (s.accounts_cache) ≤ 1 → evict_one just (total, s) ≡ none
unfolding evict_one
evict_one-alone just total s h =
    let short : (ltb max_rows total && ltb 1 (length (s.accounts_cache))) ≡ false = ground arith in
    rw short refl

-- With as much fuel as there are entries the loop comes to its own end.
evict_loop-ends :
    (n just : ℕ) (st : ℕ × Cache)
    → Counted st
    → length ((st.1).accounts_cache) ≤ n
    → (evict_one just (evict_loop n just st) ≡ none) × Counted (evict_loop n just st)
unfolding evict_loop
evict_loop-ends zero just (total, s) c h = (evict_one-alone just total s (omega arith), c)
evict_loop-ends (suc n) just st c h = elim (Option-cases (evict_one just st)) [
  | inl a ↦ rw (evict_loop, a) (a, c)
  | inr (next, b) ↦
      let (c', size) = evict_one-Counted just st next c b in
      rw (evict_loop, b) (evict_loop-ends n just next c' (omega arith))
]

-- Where the loop ends: within the budget, with at most one entry, with no entry but the one just
-- stored, or at an oldest entry that is empty.
abbrev pub Settled : ℕ → ℕ → Cache → Type 0
Settled just total s =
    (total ≤ max_rows)
    ⊎ (length (s.accounts_cache) ≤ 1)
    ⊎ (oldest just (s.accounts_cache) ≡ none)
    ⊎ (k : ℕ) × (e : Entry) × (oldest just (s.accounts_cache) ≡ some (k, e))
      × (length e.accounts ≡ 0)

entry_empty :
    (total : ℕ) (s : Cache) (k : ℕ) (e : Entry)
    → evict_entry total s (some (k, e)) ≡ none
    → length e.accounts ≡ 0
unfolding evict_entry
entry_empty total s k e h = ground arith

settled : (just total : ℕ) (s : Cache) → evict_one just (total, s) ≡ none → Settled just total s
unfolding evict_one
settled just total s h = elim (Option-cases (oldest just (s.accounts_cache))) [
  | inl a ↦ inr (inr (inl a))
  | inr ((k, e), b) ↦ elim (Bool-cases (ltb max_rows total && ltb 1 (length (s.accounts_cache)))) [
    | inl c ↦
        let over : evict_one just (total, s)
            ≡ evict_entry total s (oldest just (s.accounts_cache)) =
          rw (evict_one, c) refl in
        let entry : evict_entry total s (some (k, e)) ≡ none =
          ap (evict_entry total s) (sym b) ∙ sym over ∙ h in
        inr (inr (inr (k, e, b, entry_empty total s k e entry)))
    | inr c ↦ ground arith
  ]
]

total_replaced :
    (just total : ℕ) (s : Cache)
    → total ≡ total_rows (s.accounts_cache)
    → Settled just total s
    → Settled just (total_rows (s.accounts_cache)) s
total_replaced just total s e h = subst (λ t. Settled just t s) e h

-- The eviction comes to its own end and not merely to that of the fuel, and it leaves the cache
-- within its budget of rows, except where at most one entry is left, or no entry but the one just
-- stored, or the oldest other entry is empty. (The dict has one entry for a customer.)
pub eviction_bounds :
    (just : ℕ) (s : Cache)
    → Unique (s.accounts_cache)
    → let after = evict_accounts_over_limit just s in
      Settled just (total_rows (after.accounts_cache)) after
unfolding evict_accounts_over_limit
eviction_bounds just s u =
    let n = length (s.accounts_cache) in
    let st : ℕ × Cache = (total_rows (s.accounts_cache), s) in
    let (ends, c) = evict_loop-ends n just st (refl, u) (omega arith) in
    let out = evict_loop n just st in
    total_replaced just (out.0) (out.1) (c.0) (settled just (out.0) (out.1) ends)
