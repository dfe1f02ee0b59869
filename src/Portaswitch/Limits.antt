-- ===== src/Portaswitch/Limits.antt =====
-- app/bss/adapters/portaswitch/adapter.py: the device and session limits of an account, custom
-- fields of the account and of its customer, read at a sign-in and cached. Texts are ASCII. Times
-- are seconds of `time.monotonic`; `now` is its value at the lookup of a cache, `later` at the store.
mod Fields
mod Direct
pub mod Cached
mod Tests
use porta_phone_adapter.Base.{
  ℕ, zero, suc, ◌+◌, ◌-◌, ◌*◌, Bool, true, false, ◌&&◌, ◌||◌, Option, none, some, List, [], ◌∷◌,
  ◌++◌, ltb, leb, ◌==◌, if◌then◌else◌, length, drop,
}
use porta_phone_adapter.Base.Eq.{Eq, Text, codes, text_key, nat_eq, option_eq}
use porta_phone_adapter.Base.Dict.{Dict, lookup, insert, erase}
use porta_phone_adapter.Base.Result.{Result, ok, err}
use porta_phone_adapter.Release.{is_digit}
use porta_phone_adapter.Portaswitch.{Failure}
use porta_phone_adapter.Portaswitch.Account.{AccountInfo, master_of, CustomField, StoredOtp, Api}

-- A white-space character, and `t.strip()`.
abbrev pub is_space : ℕ → Bool
is_space c = (leb 9 c && leb c 13) || (leb 28 c && leb c 32)

abbrev pub lstrip : Text → Text
lstrip [] = []
lstrip (c ∷ t) = let rest = lstrip t in if is_space c then rest else c ∷ t

abbrev pub space_before : ℕ → Text → Text
space_before c [] = if is_space c then [] else c ∷ []
space_before c (d ∷ t) = c ∷ d ∷ t

abbrev pub strip_end : Text → Text
strip_end [] = []
strip_end (c ∷ t) = space_before c (strip_end t)

unfoldable pub strip : Text → Text
strip t = strip_end (lstrip t)

-- The digits of `int(t)`: one underscore may stand between two of them. `seen` tells that a digit
-- came last.
abbrev pub more_digits : Bool → ℕ → Text → Option ℕ
more_digits seen n [] = if seen then some n else none
more_digits seen n (c ∷ t) =
    let rest = more_digits (is_digit c) (if is_digit c then n * 10 + (c - b'0') else n) t in
    if is_digit c || (seen && c == b'_') then rest else none

-- A negative number is none, like what is no number; -0 is zero.
abbrev pub zero_only : Option ℕ → Option ℕ
zero_only (some zero) = some 0
zero_only _ = none

-- `int(t)` of a stripped text, where it is a number from zero on.
unfoldable pub natural : Text → Option ℕ
natural [] = none
natural (c ∷ t) =
    if c == b'-'
    then zero_only (more_digits false 0 t)
    else if c == b'+'
    then more_digits false 0 t
    else more_digits false 0 (c ∷ t)

-- `_custom_field_values`: a field without a name is left out, and the last one of a name counts.
abbrev pub add_value : Text → Option Text → Dict Text (Option Text) → Dict Text (Option Text)
add_value [] value values = values
add_value (c ∷ name) value values = insert (c ∷ name) value values

unfoldable pub collect_values : Dict Text (Option Text) → List CustomField → Dict Text (Option Text)
collect_values values [] = values
collect_values values (f ∷ fields) = collect_values (add_value f.name f.db_value values) fields

unfoldable pub custom_field_values : List CustomField → Dict Text (Option Text)
custom_field_values fields = collect_values [] fields

abbrev pub limit_of : Option (Option Text) → Option ℕ
limit_of none = none
limit_of (some none) = none
limit_of (some (some value)) = natural (strip value)

-- `_parse_device_limit`
unfoldable pub parse_device_limit : Dict Text (Option Text) → Text → Option ℕ
parse_device_limit values name = limit_of (lookup name values)

-- `MAX_DEVICES_CUSTOM_FIELD` and `MAX_DEVICE_SWITCHES_CUSTOM_FIELD`
abbrev pub max_devices_field : Text
max_devices_field = codes "portaphone_max_devices"

abbrev pub max_device_switches_field : Text
max_device_switches_field = codes "portaphone_max_device_switches"

-- (max_devices, max_device_switches)
abbrev pub Limits : Type 0
Limits = Option ℕ × Option ℕ

unfoldable pub field_limits : List CustomField → Limits
field_limits fields =
    let values = custom_field_values fields in
    (
      parse_device_limit values max_devices_field,
      parse_device_limit values max_device_switches_field,
    )

-- `DEVICE_LIMITS_CACHE_MAX`
abbrev pub cache_max : ℕ
cache_max = 10000

-- A cache in the order of the stores: when, and what.
abbrev pub Cache : Type 0 → Type 0
Cache K = Dict K (ℕ × Limits)

-- `while len(cache) > max: cache.pop(next(iter(cache)))`
abbrev pub pop_over {ℓ} : {A : Type ℓ} → ℕ → List A → List A
pop_over max [] = []
pop_over max (x ∷ xs) =
    let rest = pop_over max xs in if ltb max (suc (length xs)) then rest else x ∷ xs

abbrev pub young_limits : ℕ → ℕ → Option (ℕ × Limits) → Option Limits
young_limits ttl now none = none
young_limits ttl now (some (stored_at, limits)) =
    if ltb 0 ttl && ltb (now - stored_at) ttl then some limits else none

module _ {K : Type 0} ⦃e : Eq K⦄ where
  unfoldable pub store_limits : ℕ → ℕ → K → Limits → Cache K → Cache K
  store_limits zero later key limits cache = cache
  store_limits (suc ttl) later key limits cache =
      pop_over cache_max (erase key cache ++ (key, (later, limits)) ∷ [])

  abbrev pub stored_read :
      ℕ → ℕ → K → Result Failure (List CustomField) → Cache K → Result Failure Limits × Cache K
  stored_read ttl later key (err f) cache = (err f, cache)
  stored_read ttl later key (ok fields) cache =
      (ok (field_limits fields), store_limits ttl later key (field_limits fields) cache)

  abbrev pub served_or_read :
      ℕ
      → ℕ
      → K
      → (K → Result Failure (List CustomField))
      → Cache K
      → Option Limits
      → Result Failure Limits × Cache K
  served_or_read ttl later key read cache (some limits) = (ok limits, cache)
  served_or_read ttl later key read cache none = stored_read ttl later key (read key) cache

  -- `_cached_field_limits`
  unfoldable pub cached_field_limits :
      ℕ
      → ℕ
      → ℕ
      → K
      → (K → Result Failure (List CustomField))
      → Cache K
      → Result Failure Limits × Cache K
  cached_field_limits ttl now later key read cache =
      served_or_read ttl later key read cache (young_limits ttl now (lookup key cache))

-- DEFAULT_ACCOUNT_MAX_DEVICES, DEFAULT_ACCOUNT_MAX_DEVICE_SWITCHES, DEVICE_LIMITS_CACHE_TTL
pub record Settings : Type 0 where
  pub max_devices : Option ℕ
  pub max_device_switches : Option ℕ
  pub ttl : ℕ

-- The clock at the lookup and at the store of the two reads, which run together.
pub record Clock : Type 0 where
  pub account_lookup : ℕ
  pub account_store : ℕ
  pub customer_lookup : ℕ
  pub customer_store : ℕ

-- The switch, the caches of the adapter, and the OTPs that are open.
pub record Adapter (S : Type 0) : Type 0 where
  pub switch : S
  pub account_limits_cache : Cache ℕ
  pub customer_limits_cache : Cache (Option ℕ)
  pub env_email_cache : Option (ℕ × Option Text)
  pub otps : Dict Text StoredOtp

-- What is spread into SessionInfo; `customer_id` is the text of the number.
pub record DeviceLimits : Type 0 where
  pub customer_id : Option ℕ
  pub account_max_devices : Option ℕ
  pub customer_max_devices : Option ℕ
  pub account_max_device_switches : Option ℕ
  pub customer_max_device_switches : Option ℕ

-- `limit or None`
abbrev pub or_unlimited : Option ℕ → Option ℕ
or_unlimited (some (suc n)) = some (suc n)
or_unlimited _ = none

abbrev pub or_default : Option ℕ → Option ℕ → Option ℕ
or_default none default = default
or_default (some n) default = some n

abbrev pub limits_or_none : Result Failure Limits → Limits
limits_or_none (ok limits) = limits
limits_or_none (err f) = (none, none)

unfoldable pub device_limits : Settings → Option ℕ → Limits → Limits → DeviceLimits
device_limits settings i_customer account customer = record {
  customer_id = i_customer;
  account_max_devices = or_unlimited (or_default (account.0) settings.max_devices);
  customer_max_devices = or_unlimited (customer.0);
  account_max_device_switches = or_unlimited (or_default (account.1) settings.max_device_switches);
  customer_max_device_switches = or_unlimited (customer.1);
}

abbrev pub found_account : Result Failure (Option AccountInfo) → Result Failure AccountInfo
found_account (ok none) = err Failure.crash
found_account (ok (some a)) = ok a
found_account (err f) = err f

module _ (api : Api) where
  -- The record whose fields count: that of the master, or the account's own.
  unfoldable pub limits_owner : AccountInfo → api.State → Result Failure AccountInfo
  limits_owner a s =
      if master_of a == 0 then ok a else found_account (api.account_by_number s (master_of a))

  abbrev pub read_owner_limits :
      Settings
      → Clock
      → AccountInfo
      → Result Failure AccountInfo
      → Adapter api.State
      → DeviceLimits × Adapter api.State
  read_owner_limits settings clock a (err f) s =
      (device_limits settings a.i_customer (none, none) (none, none), s)
  read_owner_limits settings clock a (ok owner) s =
      let account =
        cached_field_limits settings.ttl clock.account_lookup clock.account_store owner.i_account
          (api.account_fields s.switch) s.account_limits_cache in
      let customer =
        cached_field_limits settings.ttl clock.customer_lookup clock.customer_store owner.i_customer
          (api.customer_fields s.switch) s.customer_limits_cache in
      (
        device_limits settings owner.i_customer (limits_or_none (account.0))
            (limits_or_none (customer.0)),
        record {
          switch = s.switch;
          account_limits_cache = account.1;
          customer_limits_cache = customer.1;
          env_email_cache = s.env_email_cache;
          otps = s.otps;
        },
      )

  -- `_read_device_limits`
  unfoldable pub read_device_limits :
      Settings → Clock → AccountInfo → Adapter api.State → DeviceLimits × Adapter api.State
  read_device_limits settings clock a s =
      read_owner_limits settings clock a (limits_owner a s.switch) s
