-- ===== src/Portaswitch/Limits/Cached.antt =====
-- app/bss/adapters/portaswitch/adapter.py: what the caches of the device limits serve, and how many
-- entries they hold.
use porta_phone_adapter.Base.{
  ℕ, zero, suc, ◌+◌, ◌-◌, ◌≤◌, ◌<◌, ◌≡◌, refl, ap, ◌∙◌, true, false, Option, none, some, List, [],
  ◌∷◌, ◌++◌, arith, ltb, length, Bool-cases, inl, inr,
}
use porta_phone_adapter.Base.Eq.{Eq, beq_refl, option_eq, nat_eq}
use porta_phone_adapter.Base.Dict.{Dict, lookup, erase, lookup-erase_self}
use porta_phone_adapter.Base.Result.{Result, ok, err}
use porta_phone_adapter.Portaswitch.{Failure}
use porta_phone_adapter.Portaswitch.Account.{AccountInfo, CustomField, Api}
use porta_phone_adapter.Portaswitch.Limits.{
  Limits, Cache, Clock, Settings, Adapter, cache_max, pop_over, young_limits, store_limits,
  stored_read, served_or_read, field_limits, cached_field_limits, read_device_limits, limits_owner,
  read_owner_limits,
}

pub length-pop_over {ℓ} : {A : Type ℓ} (max : ℕ) (xs : List A) → length (pop_over max xs) ≤ max
length-pop_over max [] = omega arith
length-pop_over max (x ∷ xs) = ground (arith, length-pop_over max xs)

module _ {K V : Type 0} ⦃e : Eq K⦄ where
  lookup-tail :
      (k j : K) (w : V) (d : Dict K V)
      → lookup k ((j, w) ∷ d) ≡ none
      → (e.beq j k ≡ false) × (lookup k d ≡ none)
  unfolding lookup
  lookup-tail k j w d h = ground arith

  pub lookup-append : (k : K) (d f : Dict K V) → lookup k d ≡ none → lookup k (d ++ f) ≡ lookup k f
  unfolding lookup
  lookup-append k [] f h = refl
  lookup-append k ((j, w) ∷ d) f h =
      let (other, rest) = lookup-tail k j w d h in rw other (lookup-append k d f rest)

  -- The last entry stays.
  pub lookup-pop_over :
      (max : ℕ) (k : K) (v : V) (d : Dict K V)
      → lookup k d ≡ none
      → lookup k (pop_over (suc max) (d ++ (k, v) ∷ [])) ≡ some v
  unfolding lookup
  lookup-pop_over max k v [] h =
      let fits : ltb (suc max) 1 ≡ false = ground arith in rw fits (rw (beq_refl k) refl)
  lookup-pop_over max k v ((j, w) ∷ d) h =
      let (other, rest) = lookup-tail k j w d h in
      elim (Bool-cases (ltb (suc max) (suc (length (d ++ (k, v) ∷ []))))) [
        | inl over ↦ rw over (lookup-pop_over max k v d rest)
        | inr fits ↦
            rw (fits, other) (lookup-append k d ((k, v) ∷ []) rest ∙ (rw (beq_refl k) refl))
      ]

module _ {K : Type 0} ⦃e : Eq K⦄ where
  length-stored :
      (ttl later : ℕ) (k : K) (r : Result Failure (List CustomField)) (cache : Cache K)
      → length cache ≤ cache_max
      → length ((stored_read ttl later k r cache).1) ≤ cache_max
  unfolding store_limits
  length-stored ttl later k (err f) cache h = h
  length-stored zero later k (ok fields) cache h = h
  length-stored (suc ttl) later k (ok fields) cache h =
      length-pop_over cache_max (erase k cache ++ (k, (later, field_limits fields)) ∷ [])

  length-served :
      (ttl later : ℕ) (k : K) (read : K → Result Failure (List CustomField)) (cache : Cache K)
      (served : Option Limits)
      → length cache ≤ cache_max
      → length ((served_or_read ttl later k read cache served).1) ≤ cache_max
  length-served ttl later k read cache (some limits) h = h
  length-served ttl later k read cache none h = length-stored ttl later k (read k) cache h

  length-cached :
      (ttl now later : ℕ) (k : K) (read : K → Result Failure (List CustomField)) (cache : Cache K)
      → length cache ≤ cache_max
      → length ((cached_field_limits ttl now later k read cache).1) ≤ cache_max
  unfolding cached_field_limits
  length-cached ttl now later k read cache h =
      length-served ttl later k read cache (young_limits ttl now (lookup k cache)) h

  served_store :
      (ttl later at : ℕ) (k : K) (cache : Cache K) (limits : Limits)
      → at < later + suc ttl
      → young_limits (suc ttl) at (lookup k (store_limits (suc ttl) later k limits cache))
        ≡ some limits
  unfolding store_limits
  served_store ttl later at k cache limits soon =
      let fresh : ltb (at - later) (suc ttl) ≡ true = ground arith in
      let positive : ltb 0 (suc ttl) ≡ true = ground arith in
      ap (young_limits (suc ttl) at)
        (lookup-pop_over 9999 k (later, limits) (erase k cache) (lookup-erase_self k cache))
      ∙ rw (positive, fresh) refl

  -- With a lifetime that is not zero: where the cache has nothing young for a key and its custom
  -- fields are read well, the limits are those of the fields, and a request less than the lifetime
  -- after the store is given the same limits without a read, whatever the switch would answer; the
  -- cache stays as it is.
  pub limits_served :
      (ttl now later at stored : ℕ) (k : K) (read read' : K → Result Failure (List CustomField))
      (cache : Cache K) (fields : List CustomField)
      → 0 < ttl
      → young_limits ttl now (lookup k cache) ≡ none
      → read k ≡ ok fields
      → at < later + ttl
      → let (limits, cache') = cached_field_limits ttl now later k read cache in
        (limits ≡ ok (field_limits fields))
        × (cached_field_limits ttl at stored k read' cache' ≡ (limits, cache'))
  unfolding cached_field_limits
  limits_served zero now later at stored k read read' cache fields p y r soon = absurd (omega arith)
  limits_served (suc ttl) now later at stored k read read' cache fields p y r soon =
      rw (y, r) (refl, rw (served_store ttl later at k cache (field_limits fields) soon) refl)

module _ (api : Api) where
  owner-bounded :
      (settings : Settings) (clock : Clock) (a : AccountInfo) (owner : Result Failure AccountInfo)
      (s : Adapter api.State)
      → length s.account_limits_cache ≤ cache_max
      → length s.customer_limits_cache ≤ cache_max
      → let s' = (read_owner_limits api settings clock a owner s).1 in
        (length s'.account_limits_cache ≤ cache_max) × (length s'.customer_limits_cache ≤ cache_max)
  owner-bounded settings clock a (err f) s h g = (h, g)
  owner-bounded settings clock a (ok o) s h g = (
    length-cached settings.ttl clock.account_lookup clock.account_store o.i_account
        (api.account_fields s.switch) s.account_limits_cache h,
    length-cached settings.ttl clock.customer_lookup clock.customer_store o.i_customer
        (api.customer_fields s.switch) s.customer_limits_cache g,
  )

  -- If neither cache of the device limits holds more than 10,000 entries, neither does after the
  -- limits of any account are read, whatever the switch answers.
  pub limits_caches_bounded :
      (settings : Settings) (clock : Clock) (a : AccountInfo) (s : Adapter api.State)
      → length s.account_limits_cache ≤ cache_max
      → length s.customer_limits_cache ≤ cache_max
      → let s' = (read_device_limits api settings clock a s).1 in
        (length s'.account_limits_cache ≤ cache_max) × (length s'.customer_limits_cache ≤ cache_max)
  unfolding read_device_limits
  limits_caches_bounded settings clock a s =
      owner-bounded settings clock a (limits_owner api a s.switch) s
