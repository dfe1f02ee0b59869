-- ===== src/Portaswitch/Limits/Direct.antt =====
-- app/bss/adapters/portaswitch/adapter.py: the cached reads of the limits against reads of the switch
-- alone.
use porta_phone_adapter.Base.{
  ℕ, zero, suc, ◌≡◌, refl, sym, ap, ◌∙◌, Bool, true, false, ◌&&◌, Option, none, some, List, [], ◌∷◌,
  ◌++◌, ltb, length, Bool-cases, inl, inr, if◌then◌else◌, ◌-◌,
}
use porta_phone_adapter.Base.Eq.{Eq}
use porta_phone_adapter.Base.Dict.{lookup, erase}
use porta_phone_adapter.Base.Result.{Result, ok, err}
use porta_phone_adapter.Portaswitch.{Failure}
use porta_phone_adapter.Portaswitch.Account.{CustomField}
use porta_phone_adapter.Portaswitch.Limits.{
  Limits, Cache, cache_max, pop_over, young_limits, store_limits, stored_read, served_or_read,
  field_limits, cached_field_limits,
}

-- The limits as the switch has them.
abbrev pub direct : Result Failure (List CustomField) → Result Failure Limits
direct (ok fields) = ok (field_limits fields)
direct (err f) = err f

-- A request: the clock at the lookup and at the store, and the key.
pub record Request (K : Type 0) : Type 0 where
  pub now : ℕ
  pub later : ℕ
  pub key : K

module _ {K : Type 0} (read : K → Result Failure (List CustomField)) where
  unfoldable pub run_direct : List (Request K) → List (Result Failure Limits)
  run_direct [] = []
  run_direct (q ∷ requests) = direct (read q.key) ∷ run_direct requests

module _ {K : Type 0} ⦃e : Eq K⦄ (ttl : ℕ) (read : K → Result Failure (List CustomField)) where
  -- The answers to requests in a row.
  unfoldable pub run_cached : List (Request K) → Cache K → List (Result Failure Limits)
  run_cached [] cache = []
  run_cached (q ∷ requests) cache =
      let r = cached_field_limits ttl q.now q.later q.key read cache in
      r.0 ∷ run_cached requests (r.1)

  -- Every entry is what the switch has.
  abbrev Faithful : Cache K → Type 0
  Faithful [] = Unit {0}
  Faithful ((k, (stored_at, limits)) ∷ cache) = (direct (read k) ≡ ok limits) × Faithful cache

  erase-Faithful : (k : K) (cache : Cache K) → Faithful cache → Faithful (erase k cache)
  unfolding erase
  erase-Faithful k [] f = tt
  erase-Faithful k ((j, (at, limits)) ∷ cache) (h, f) = elim (Bool-cases (e.beq j k)) [
    | inl same ↦ rw same (erase-Faithful k cache f)
    | inr other ↦ rw other (h, erase-Faithful k cache f)
  ]

  append-Faithful :
      (cache entry : Cache K) → Faithful cache → Faithful entry → Faithful (cache ++ entry)
  append-Faithful [] entry f g = g
  append-Faithful ((j, (at, limits)) ∷ cache) entry (h, f) g = (h, append-Faithful cache entry f g)

  pop_over-Faithful : (max : ℕ) (cache : Cache K) → Faithful cache → Faithful (pop_over max cache)
  pop_over-Faithful max [] f = tt
  pop_over-Faithful max ((j, (at, limits)) ∷ cache) (h, f) =
      elim (Bool-cases (ltb max (suc (length cache)))) [
        | inl over ↦ rw over (pop_over-Faithful max cache f)
        | inr fits ↦ rw fits (h, f)
      ]

  store-Faithful :
      (later : ℕ) (k : K) (limits : Limits) (cache : Cache K)
      → Faithful cache
      → direct (read k) ≡ ok limits
      → Faithful (store_limits ttl later k limits cache)
  unfolding store_limits
  store-Faithful later k limits cache f h = stored ttl
    where
      stored : (n : ℕ) → Faithful (store_limits n later k limits cache)
      stored zero = f
      stored (suc n) = pop_over-Faithful cache_max (erase k cache ++ (k, (later, limits)) ∷ []) (
          append-Faithful (erase k cache) ((k, (later, limits)) ∷ []) (erase-Faithful k cache f)
            (h, tt))

  kept_value :
      (b : Bool) (l limits : Limits) → (if b then some l else none) ≡ some limits → l ≡ limits
  kept_value true l limits h = cc
  kept_value false l limits h = cc

  young-direct :
      (now : ℕ) (k : K) (cache : Cache K) (limits : Limits)
      → Faithful cache
      → young_limits ttl now (lookup k cache) ≡ some limits
      → direct (read k) ≡ ok limits
  unfolding lookup
  young-direct now k [] limits f h = cc
  young-direct now k ((j, (at, l)) ∷ cache) limits (g, f) h = elim (Bool-cases (e.beq j k)) [
    | inl same ↦
        let found = sym (ap (λ b. seen b) same) ∙ h in
        let value = kept_value (ltb 0 ttl && ltb (now - at) ttl) l limits found in
        ap (λ i. direct (read i)) (sym ((e.beq_iff j k).0 same)) ∙ g ∙ ap ok value
    | inr other ↦ young-direct now k cache limits f (sym (ap (λ b. seen b) other) ∙ h)
  ]
    where
      seen : Bool → Option Limits
      seen b = young_limits ttl now (if b then some (at, l) else lookup k cache)

  stored-direct :
      (later : ℕ) (k : K) (cache : Cache K) (r : Result Failure (List CustomField))
      → Faithful cache
      → read k ≡ r
      → let s = stored_read ttl later k r cache in (s.0 ≡ direct r) × Faithful (s.1)
  stored-direct later k cache (err g) f h = (refl, f)
  stored-direct later k cache (ok fields) f h =
      (refl, store-Faithful later k (field_limits fields) cache f (ap direct h))

  served-direct :
      (q : Request K) (cache : Cache K) (served : Option Limits)
      → Faithful cache
      → young_limits ttl q.now (lookup q.key cache) ≡ served
      → let r = served_or_read ttl q.later q.key read cache served in
        (r.0 ≡ direct (read q.key)) × Faithful (r.1)
  served-direct q cache (some limits) f h = (sym (young-direct q.now q.key cache limits f h), f)
  served-direct q cache none f h = stored-direct q.later q.key cache (read q.key) f refl

  run-Faithful :
      (requests : List (Request K)) (cache : Cache K)
      → Faithful cache
      → run_cached requests cache ≡ run_direct read requests
  unfolding run_cached run_direct cached_field_limits
  run-Faithful [] cache f = refl
  run-Faithful (q ∷ requests) cache f =
      let after = (cached_field_limits ttl q.now q.later q.key read cache).1 in
      let (same, kept) =
        served-direct q cache (young_limits ttl q.now (lookup q.key cache)) f refl in
      ap (λ r. r ∷ run_cached requests after) same
      ∙ ap (◌∷◌ (direct (read q.key))) (run-Faithful requests after kept)

-- The cache of the limits cannot be told from reads of the switch, while the switch does not change:
-- whatever the lifetime, the keys asked for and the clock, every request in a row of requests
-- that starts with an empty cache is answered as a read of the switch alone would answer it.
pub cache_is_transparent :
    {K : Type 0} ⦃e : Eq K⦄ (ttl : ℕ) (read : K → Result Failure (List CustomField))
    (requests : List (Request K))
    → run_cached ttl read requests [] ≡ run_direct read requests
cache_is_transparent ttl read requests = run-Faithful ttl read requests [] tt
