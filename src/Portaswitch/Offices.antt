-- ===== src/Portaswitch/Offices.antt =====
-- app/bss/adapters/portaswitch/adapter.py: the offices of a company, and the address of its CRM, a
-- custom field of the customer that is cached. What the switch answers at the time of a request is
-- a parameter, `Customers`; a missing number is zero. Times are seconds of `time.monotonic`: at the
-- look into the cache, at the look at the last failure, and at the store.
mod Crm
mod Tests
use porta_phone_adapter.Base.{
  ℕ, zero, suc, ◌-◌, Bool, true, false, ◌&&◌, Option, none, some, List, [], ◌∷◌, ◌++◌, ltb, ◌==◌,
  if◌then◌else◌, ◌≡◌, refl,
}
use porta_phone_adapter.Base.Eq.{Text, text_key, nat_eq}
use porta_phone_adapter.Base.Dict.{Dict, lookup, erase}
use porta_phone_adapter.Base.Result.{Result, ok, err}
use porta_phone_adapter.Portaswitch.{Failure}
use porta_phone_adapter.Portaswitch.Account.{CustomField}
use porta_phone_adapter.Portaswitch.Limits.{strip, custom_field_values, pop_over}

pub record CustomerInfo : Type 0 where
  pub i_office_type : ℕ
  pub i_main_office : ℕ

-- `get_customer_info`, `get_customer_list` and `get_customer_custom_fields_values`.
pub record Customers : Type 0 where
  pub info : ℕ → Result Failure CustomerInfo
  pub list : ℕ → Result Failure (List ℕ)
  pub fields : ℕ → Result Failure (List CustomField)

-- BRANCH_OFFICE_TYPE, and the type of a main office.
abbrev pub branch_office : ℕ
branch_office = 2

abbrev pub main_office : ℕ
main_office = 3

abbrev pub given : List ℕ → List ℕ
given [] = []
given (zero ∷ ids) = given ids
given (suc i ∷ ids) = suc i ∷ given ids

abbrev pub with_branches : ℕ → Result Failure (List ℕ) → ℕ × List ℕ
with_branches main (err f) = (main, main ∷ [])
with_branches main (ok branches) = (main, main ∷ given branches)

module _ (customers : Customers) where
  -- `_get_all_office_customers_for_main`
  unfoldable pub get_all_office_customers_for_main : ℕ → ℕ × List ℕ
  get_all_office_customers_for_main main = with_branches main (customers.list main)

  abbrev pub by_office : ℕ → Result Failure CustomerInfo → ℕ × List ℕ
  by_office i_customer (err f) = (i_customer, i_customer ∷ [])
  by_office i_customer (ok info) =
      if info.i_office_type == branch_office
      then (if info.i_main_office == 0
          then (i_customer, i_customer ∷ [])
          else get_all_office_customers_for_main info.i_main_office)
      else if info.i_office_type == main_office
      then get_all_office_customers_for_main i_customer
      else (i_customer, i_customer ∷ [])

  -- `_get_office_customer_ids`
  unfoldable pub get_office_customer_ids : ℕ → ℕ × List ℕ
  get_office_customer_ids i_customer = by_office i_customer (customers.info i_customer)

-- CRM_HOST_CACHE_TTL, CRM_HOST_CACHE_MAX and CRM_HOST_RETRY_AFTER
abbrev pub crm_host_ttl : ℕ
crm_host_ttl = 300

abbrev pub crm_host_max : ℕ
crm_host_max = 10000

abbrev pub crm_host_retry_after : ℕ
crm_host_retry_after = 30

abbrev pub or_missing : Text → Option Text
or_missing [] = none
or_missing (c ∷ t) = some (c ∷ t)

abbrev pub host_of : Option (Option Text) → Option Text
host_of none = none
host_of (some none) = none
host_of (some (some value)) = or_missing (strip value)

-- `_crm_host_value`
unfoldable pub crm_host_value : Text → List CustomField → Option Text
crm_host_value field fields = host_of (lookup field (custom_field_values fields))

module _ (customers : Customers) (field : Text) where
  abbrev pub value_in : Result Failure (List CustomField) → Result Failure (Option Text)
  value_in (err f) = err f
  value_in (ok fields) = ok (crm_host_value field fields)

  abbrev pub host_by_office : Result Failure CustomerInfo → Result Failure (Option Text)
  host_by_office (err f) = err f
  host_by_office (ok info) =
      if info.i_office_type == branch_office && ltb 0 info.i_main_office
      then value_in (customers.fields info.i_main_office)
      else ok none

  abbrev pub own_or_main : ℕ → Result Failure (Option Text) → Result Failure (Option Text)
  own_or_main i_customer (err f) = err f
  own_or_main i_customer (ok (some host)) = ok (some host)
  own_or_main i_customer (ok none) = host_by_office (customers.info i_customer)

  -- `_customer_crm_host`
  unfoldable pub customer_crm_host : ℕ → Result Failure (Option Text)
  customer_crm_host i_customer = own_or_main i_customer (value_in (customers.fields i_customer))

-- `_crm_host_cache` and `_crm_host_failed_at`
pub record CrmCache : Type 0 where
  pub hosts : Dict ℕ (ℕ × Option Text)
  pub failed_at : Dict ℕ ℕ

abbrev pub cached_host : Option (ℕ × Option Text) → Option (Option Text)
cached_host none = none
cached_host (some (stored_at, host)) = some host

unfoldable pub store_failed : ℕ → ℕ → CrmCache → CrmCache
store_failed at i_customer s = record {
  hosts = s.hosts;
  failed_at = pop_over crm_host_max (erase i_customer s.failed_at ++ (i_customer, at) ∷ []);
}

unfoldable pub store_host : ℕ → ℕ → Option Text → CrmCache → CrmCache
store_host at i_customer host s = record {
  hosts = pop_over crm_host_max (erase i_customer s.hosts ++ (i_customer, (at, host)) ∷ []);
  failed_at = erase i_customer s.failed_at;
}

abbrev pub host_read :
    ℕ → ℕ → CrmCache → Result Failure (Option Text) → Option (Option Text) × CrmCache
host_read stored i_customer s (ok host) = (some host, store_host stored i_customer host s)
host_read stored i_customer s (err f) =
    (cached_host (lookup i_customer s.hosts), store_failed stored i_customer s)

abbrev pub young_host : ℕ → Option (ℕ × Option Text) → Bool
young_host now none = false
young_host now (some (stored_at, host)) = ltb (now - stored_at) crm_host_ttl

abbrev pub failed_lately : ℕ → Option ℕ → Bool
failed_lately now none = false
failed_lately now (some at) = ltb (now - at) crm_host_retry_after

abbrev pub crm_of :
    ℕ → ℕ → ℕ → (ℕ → Result Failure (Option Text)) → ℕ → CrmCache → Option (Option Text) × CrmCache
crm_of looked checked stored read i_customer s =
    if young_host looked (lookup i_customer s.hosts)
    then (cached_host (lookup i_customer s.hosts), s)
    else if failed_lately checked (lookup i_customer s.failed_at)
    then (cached_host (lookup i_customer s.hosts), s)
    else host_read stored i_customer s (read i_customer)

abbrev pub crm_for :
    ℕ
    → ℕ
    → ℕ
    → (Text → ℕ → Result Failure (Option Text))
    → Text
    → Option ℕ
    → CrmCache
    → Option (Option Text) × CrmCache
crm_for looked checked stored read [] i_customer s = (none, s)
crm_for looked checked stored read (c ∷ field) none s = (none, s)
crm_for looked checked stored read (c ∷ field) (some i_customer) s =
    crm_of looked checked stored (read (c ∷ field)) i_customer s

-- `_read_crm`, with `_customer_crm_host` in its time limit as `read`: none where the adapter cannot
-- tell, else the host, which can be none.
unfoldable pub read_crm :
    ℕ
    → ℕ
    → ℕ
    → (Text → ℕ → Result Failure (Option Text))
    → Text
    → Option ℕ
    → CrmCache
    → Option (Option Text) × CrmCache
read_crm looked checked stored read setting i_customer s =
    crm_for looked checked stored read (strip setting) i_customer s
