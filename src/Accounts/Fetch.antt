-- ===== src/Accounts/Fetch.antt =====
-- app/bss/adapters/portaswitch/adapter.py: `_project_account` and `_fetch_accounts_by_customer`. A
-- row of a nested list is the value of the key that is kept, or none where the row lacks it.
use porta_phone_adapter.Base.{
  ℕ, zero, suc, ◌+◌, Bool, true, ◌||◌, Option, none, some, List, [], ◌∷◌, ◌++◌, ltb, leb, ◌==◌,
  if◌then◌else◌, length,
}
use porta_phone_adapter.Base.Eq.{Text, nat_eq}
use porta_phone_adapter.Base.Dict.{Dict, insert}
use porta_phone_adapter.Base.Result.{Result, ok, err, Raised}

-- The fields of `ACCOUNT_CACHE_FIELDS` but for `i_account`, and the others that the billing sends.
pub data Field : Type 0 where
  i_customer id firstname lastname companyname email extension_id : Field
  extension_name sip_status status dual_version_system did_number i_master_account : Field
  billing_model : Field
  other : Text → Field

-- An account record of the billing.
pub record Account : Type 0 where
  pub i_account : ℕ
  pub field : Field → Option Text
  pub alias_list : List (Option Text)
  pub alias_did_number_list : List (Option Text)

abbrev pub kept_rows : List (Option Text) → List (Option Text)
kept_rows [] = []
kept_rows (none ∷ rows) = kept_rows rows
kept_rows (some t ∷ rows) = some t ∷ kept_rows rows

abbrev pub kept_field : (Field → Option Text) → Field → Option Text
kept_field given (other name) = none
kept_field given f = given f

-- `_project_account`
unfoldable pub project_account : Account → Account
project_account a = record {
  i_account = a.i_account;
  field = kept_field (a.field);
  alias_list = kept_rows (a.alias_list);
  alias_did_number_list = kept_rows (a.alias_did_number_list);
}

-- An answer of `get_account_list`; one that is not a dict has no rows and no total.
pub record Page : Type 0 where
  pub account_list : List Account
  pub total : Option ℕ

abbrev pub limit : ℕ
limit = 1000

-- `range(start, stop, limit)`
unfoldable pub offsets : ℕ → ℕ → ℕ → List ℕ
offsets zero start stop = []
offsets (suc n) start stop =
    let rest = offsets n (start + limit) stop in if ltb start stop then start ∷ rest else []

abbrev append_page :
    Result Raised Page → Result Raised (List Account) → Result Raised (List Account)
append_page (err r) rest = err r
append_page (ok p) (err r) = err r
append_page (ok p) (ok rows) = ok (p.account_list ++ rows)

-- The remaining pages, in their order.
unfoldable pub gather : (ℕ → Result Raised Page) → List ℕ → Result Raised (List Account)
gather api [] = ok []
gather api (o ∷ os) = append_page (api o) (gather api os)

unfoldable pub by_i_account : List Account → Dict ℕ Account → Dict ℕ Account
by_i_account [] d = d
by_i_account (a ∷ rows) d = by_i_account rows (insert a.i_account a d)

abbrev pub values : Dict ℕ Account → List Account
values [] = []
values ((k, a) ∷ d) = a ∷ values d

-- The rows of all pages, of which the last with its `i_account` stands for the first.
unfoldable pub assemble : List Account → List Account
assemble rows = values (by_i_account rows [])

unfoldable pub assemble_pages :
    List Account → Result Raised (List Account) → Result Raised (List Account)
assemble_pages first (err r) = err r
assemble_pages first (ok rest) = ok (assemble (first ++ rest))

-- Whether the first page is all: it is not full, or the total is missing, zero or reached.
unfoldable pub is_last : List Account → Option ℕ → Bool
is_last first none = true
is_last first (some total) = ltb (length first) limit || total == 0 || leb total (length first)

abbrev pub stop_of : Option ℕ → ℕ
stop_of none = 0
stop_of (some total) = total

unfoldable pub fetch_rest : (ℕ → Result Raised Page) → Page → Result Raised (List Account)
fetch_rest api first =
    let stop = stop_of (first.total) in
    let rest = gather api (offsets stop limit stop) in
    if is_last (first.account_list) (first.total)
    then ok (first.account_list)
    else assemble_pages (first.account_list) rest

-- `_fetch_accounts_by_customer`, with the call of the switch for an offset as `api`.
unfoldable pub fetch_accounts : (ℕ → Result Raised Page) → Result Raised (List Account)
fetch_accounts api = elim (api 0) [ err r ↦ err r | ok first ↦ fetch_rest api first ]
