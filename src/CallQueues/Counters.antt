-- ===== src/CallQueues/Counters.antt =====
-- app/bss/adapters/portaswitch/adapter.py: the cache of the live counters of the call queues, by
-- customer. An entry is the time of its store and the counters, none where they are unknown. What
-- `_get_sip_calls_list` gives is an argument: the calls, and whether the subscription is new.
use porta_phone_adapter.Base.{
  ℕ, zero, suc, ◌+◌, ◌-◌, ◌≤◌, ◌<◌, ◌≡◌, refl, ap, ◌∙◌, Bool, true, false, Option, none, some, List,
  [], ◌∷◌, arith, ltb, leb, if◌then◌else◌, length,
}
use porta_phone_adapter.Base.Eq.{Text, nat_eq}
use porta_phone_adapter.Base.Dict.{Dict, lookup, insert, erase, lookup-insert_self}
use porta_phone_adapter.Base.Result.{Result, ok, err, Raised, webtrit, crash}
use porta_phone_adapter.CallQueues.{SipCall, count_callers_waiting}

-- `CALL_QUEUE_COUNTERS_TTL` and `CALL_QUEUE_COUNTERS_CACHE_MAX`
abbrev pub counters_ttl : ℕ
counters_ttl = 5

abbrev pub counters_max : ℕ
counters_max = 512

abbrev pub Counters : Type 0
Counters = Option (Dict Text ℕ)

abbrev pub CounterCache : Type 0
CounterCache = Dict ℕ (ℕ × Counters)

-- `_cached_callers_waiting`; none is the cache miss.
unfoldable pub fresh_counters : ℕ → Option (ℕ × Counters) → Option Counters
fresh_counters now none = none
fresh_counters now (some (stored_at, waiting)) =
    if ltb (now - stored_at) counters_ttl then some waiting else none

unfoldable pub cached_callers_waiting : ℕ → ℕ → CounterCache → Option Counters
cached_callers_waiting now i_customer cache = fresh_counters now (lookup i_customer cache)

-- The first key among those that were stored earliest.
abbrev pub earlier : ℕ → ℕ → Option (ℕ × ℕ) → Option (ℕ × ℕ)
earlier k stored_at none = some (k, stored_at)
earlier k stored_at (some (j, other)) =
    if leb stored_at other then some (k, stored_at) else some (j, other)

unfoldable pub stalest : CounterCache → Option (ℕ × ℕ)
stalest [] = none
stalest ((k, (stored_at, waiting)) ∷ cache) = earlier k stored_at (stalest cache)

abbrev pub drop_key : Option (ℕ × ℕ) → CounterCache → CounterCache
drop_key none cache = cache
drop_key (some (k, stored_at)) cache = erase k cache

-- `for key in stalest[:n]: cache.pop(key, None)`
unfoldable pub drop_stalest : ℕ → CounterCache → CounterCache
drop_stalest zero cache = cache
drop_stalest (suc n) cache = drop_stalest n (drop_key (stalest cache) cache)

-- `_store_callers_waiting`
unfoldable pub store_callers_waiting : ℕ → ℕ → Counters → CounterCache → CounterCache
store_callers_waiting now i_customer waiting cache =
    let stored = insert i_customer (now, waiting) cache in
    drop_stalest (length stored - counters_max) stored

-- `_read_callers_waiting`
unfoldable pub read_callers_waiting : Result Raised (List SipCall × Bool) → Result Raised Counters
read_callers_waiting (err (webtrit status code)) = ok none
read_callers_waiting (err crash) = err crash
read_callers_waiting (ok (calls, true)) = ok none
read_callers_waiting (ok (calls, false)) = ok (some (count_callers_waiting calls))

abbrev pub store_read :
    ℕ → ℕ → Result Raised Counters → CounterCache → Result Raised Counters × CounterCache
store_read now i_customer (err r) cache = (err r, cache)
store_read now i_customer (ok waiting) cache =
    (ok waiting, store_callers_waiting now i_customer waiting cache)

abbrev pub given_or_read :
    ℕ
    → ℕ
    → Option Counters
    → Result Raised (List SipCall × Bool)
    → CounterCache
    → Result Raised Counters × CounterCache
given_or_read now i_customer (some waiting) calls cache = (ok waiting, cache)
given_or_read now i_customer none calls cache =
    store_read now i_customer (read_callers_waiting calls) cache

-- `_fetch_callers_waiting`, with the lock of the customer: `calls` is what the switch answers if it
-- is asked.
unfoldable pub fetch_callers_waiting :
    ℕ
    → ℕ
    → Result Raised (List SipCall × Bool)
    → CounterCache
    → Result Raised Counters × CounterCache
fetch_callers_waiting now i_customer calls cache =
    given_or_read now i_customer (cached_callers_waiting now i_customer cache) calls cache

-- Counters that were read, or found to be unknown, are served again without asking the switch: for a
-- customer with no fresh counters, and a cache with room, what one request reads is what every
-- request less than five seconds later gets, whatever the switch would answer then.
pub counters_served :
    (now later i_customer : ℕ) (calls calls' : Result Raised (List SipCall × Bool))
    (waiting : Counters) (cache : CounterCache)
    → cached_callers_waiting now i_customer cache ≡ none
    → read_callers_waiting calls ≡ ok waiting
    → length (insert i_customer (now, waiting) cache) ≤ counters_max
    → now ≤ later
    → later < now + 5
    → let (first, after) = fetch_callers_waiting now i_customer calls cache in
      (first ≡ ok waiting)
      × (fetch_callers_waiting later i_customer calls' after ≡ (ok waiting, after))
unfolding fetch_callers_waiting store_callers_waiting cached_callers_waiting fresh_counters
    drop_stalest
counters_served now later i_customer calls calls' waiting cache miss reads room order soon =
    let stored = insert i_customer (now, waiting) cache in
    let none_over : length stored - counters_max ≡ 0 = omega arith in
    let young : ltb (later - now) counters_ttl ≡ true = ground arith in
    let first : fetch_callers_waiting now i_customer calls cache ≡ (ok waiting, stored) =
      ap (λ o. given_or_read now i_customer o calls cache) miss
      ∙ ap (λ r. store_read now i_customer r cache) reads
      ∙ ap (λ n. (ok waiting, drop_stalest n stored)) none_over in
    let found : cached_callers_waiting later i_customer stored ≡ some waiting =
      ap (fresh_counters later) (lookup-insert_self i_customer (now, waiting) cache)
      ∙ ap (λ b. if b then some waiting else none) young in
    rw first (refl, ap (λ o. given_or_read later i_customer o calls' stored) found)
