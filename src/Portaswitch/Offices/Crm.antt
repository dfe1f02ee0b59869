-- ===== src/Portaswitch/Offices/Crm.antt =====
-- app/bss/adapters/portaswitch/adapter.py: what the cache of the CRM address answers when the switch
-- fails, and that all offices of a company see the same offices.
use porta_phone_adapter.Base.{
  ℕ, ◌+◌, ◌-◌, ◌<◌, ◌≡◌, ◌≢◌, refl, true, false, Option, none, some, List, ◌∷◌, arith, ltb, ◌==◌,
  Bool-cases, inl, inr,
}
use porta_phone_adapter.Base.Eq.{Text, nat_eq, text_key}
use porta_phone_adapter.Base.Dict.{lookup, erase, lookup-erase_self}
use porta_phone_adapter.Base.Result.{Result, ok, err}
use porta_phone_adapter.Portaswitch.{Failure}
use porta_phone_adapter.Portaswitch.Account.{CustomField}
use porta_phone_adapter.Portaswitch.Limits.{strip}
use porta_phone_adapter.Portaswitch.Limits.Cached.{lookup-pop_over}
use porta_phone_adapter.Portaswitch.Offices.{
  CustomerInfo, Customers, branch_office, main_office, get_office_customer_ids, crm_host_value,
  customer_crm_host, CrmCache, cached_host, young_host, failed_lately, store_failed, store_host,
  read_crm,
}

-- Every branch office that names its main office, and the main office itself, has the same
-- offices: those of the main office.
pub offices_shared :
    (customers : Customers) (branch main : ℕ) (info info' : CustomerInfo)
    → customers.info branch ≡ ok info
    → info.i_office_type ≡ branch_office
    → info.i_main_office ≡ main
    → customers.info main ≡ ok info'
    → info'.i_office_type ≡ main_office
    → main ≢ 0
    → get_office_customer_ids customers branch ≡ get_office_customer_ids customers main
unfolding get_office_customer_ids
offices_shared customers branch main info info' b t m i t' n =
    let named : (main == 0) ≡ false = ground arith in rw (b, i, t, m, t', named) refl

-- A company without an address of its own: where its custom fields are read well and name no
-- address, and it is a branch of a main office whose fields are read well, the address is that of
-- the main office.
pub branch_takes_main :
    (customers : Customers) (field : Text) (i_customer : ℕ) (own main : List CustomField)
    (info : CustomerInfo)
    → customers.fields i_customer ≡ ok own
    → crm_host_value field own ≡ none
    → customers.info i_customer ≡ ok info
    → info.i_office_type ≡ branch_office
    → 0 < info.i_main_office
    → customers.fields info.i_main_office ≡ ok main
    → customer_crm_host customers field i_customer ≡ ok (crm_host_value field main)
unfolding customer_crm_host
branch_takes_main customers field i_customer own main info r v i t p r' =
    let named : ltb 0 info.i_main_office ≡ true = ground arith in rw (r, v, i, t, named, r') refl

module _ (read : Text → ℕ → Result Failure (Option Text)) (setting : Text) (c : ℕ)
    (field : Text) where
  -- With a field set: a read of a company's address that fails gives the last answer for the
  -- company, however old, or none where there is no answer; and for the next 30 seconds every
  -- request for the company is given the same without a read, whatever the switch would answer.
  pub failed_read_spaced :
      (looked checked stored looked' checked' stored' : ℕ) (i_customer : ℕ) (s : CrmCache)
      (f : Failure) (read' : Text → ℕ → Result Failure (Option Text))
      → strip setting ≡ c ∷ field
      → young_host looked (lookup i_customer s.hosts) ≡ false
      → failed_lately checked (lookup i_customer s.failed_at) ≡ false
      → read (c ∷ field) i_customer ≡ err f
      → checked' < stored + 30
      → let (crm, s') = read_crm looked checked stored read setting (some i_customer) s in
        (crm ≡ cached_host (lookup i_customer s.hosts))
        × (read_crm looked' checked' stored' read' setting (some i_customer) s' ≡ (crm, s'))
  unfolding read_crm store_failed
  failed_read_spaced looked checked stored looked' checked' stored' i_customer s f read' set old
        past fails soon =
      let kept =
        lookup-pop_over 9999 i_customer stored (erase i_customer s.failed_at)
          (lookup-erase_self i_customer s.failed_at) in
      let lately : ltb (checked' - stored) 30 ≡ true = ground arith in
      rw (set, old, past, fails)
        (
          refl,
          elim (Bool-cases (young_host looked' (lookup i_customer s.hosts))) [
            | inl young ↦ rw young refl
            | inr aged ↦ rw (aged, kept, lately) refl
          ],
        )

  -- With a field set: an address that was read, none included, is given for the next 300 seconds
  -- without another read.
  pub read_host_kept :
      (looked checked stored looked' checked' stored' : ℕ) (i_customer : ℕ) (s : CrmCache)
      (host : Option Text) (read' : Text → ℕ → Result Failure (Option Text))
      → strip setting ≡ c ∷ field
      → young_host looked (lookup i_customer s.hosts) ≡ false
      → failed_lately checked (lookup i_customer s.failed_at) ≡ false
      → read (c ∷ field) i_customer ≡ ok host
      → looked' < stored + 300
      → let (crm, s') = read_crm looked checked stored read setting (some i_customer) s in
        (crm ≡ some host)
        × (read_crm looked' checked' stored' read' setting (some i_customer) s' ≡ (crm, s'))
  unfolding read_crm store_host
  read_host_kept looked checked stored looked' checked' stored' i_customer s host read' set old past
        given soon =
      let kept =
        lookup-pop_over 9999 i_customer (stored, host) (erase i_customer s.hosts)
          (lookup-erase_self i_customer s.hosts) in
      let young : ltb (looked' - stored) 300 ≡ true = ground arith in
      rw (set, old, past, given) (refl, rw (kept, young) refl)
