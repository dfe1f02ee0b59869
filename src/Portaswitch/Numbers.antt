-- ===== src/Portaswitch/Numbers.antt =====
-- app/bss/adapters/portaswitch/adapter.py: the accounts that the numbers of a phonebook belong to,
-- `_get_number_to_customer_accounts_map_for_numbers`. A set of numbers is a list of them. The pages
-- of the customers, and the account of a number, are parameters.
mod Found
mod Pages
mod Tests
use porta_phone_adapter.Base.{
  ℕ, zero, suc, ◌+◌, Bool, true, false, ◌||◌, Option, none, some, List, [], ◌∷◌, ltb, leb, length,
  if◌then◌else◌,
}
use porta_phone_adapter.Base.Eq.{Text, text_eq, text_key}
use porta_phone_adapter.Base.Dict.{Dict, insert}
use porta_phone_adapter.Base.Result.{Result, ok, err}
use porta_phone_adapter.Portaswitch.{Failure}
use porta_phone_adapter.Portaswitch.Account.{AccountInfo, AccountPage, member}
use porta_phone_adapter.Portaswitch.Email.{reaches}

-- `number_to_accounts` and `remaining_numbers`
abbrev pub Search : Type 0
Search = Dict Text AccountInfo × List Text

abbrev pub without : Text → List Text → List Text
without number [] = []
without number (x ∷ xs) =
    let rest = without number xs in if text_eq x number then rest else x ∷ rest

abbrev pub take_account : AccountInfo → Search → Search
take_account a (accounts, remaining) =
    if member a.id remaining
    then (insert a.id a accounts, without a.id remaining)
    else (accounts, remaining)

unfoldable pub process_page : List AccountInfo → Search → Search
process_page [] progress = progress
process_page (a ∷ page) progress = process_page page (take_account a progress)

abbrev pub no_more : List Text → Bool
no_more [] = true
no_more (x ∷ xs) = false

abbrev pub page_limit : ℕ
page_limit = 1000

module _ (pages : ℕ → Result Failure AccountPage) where
  abbrev pub after_page : (ℕ → Search → Search) → ℕ → ℕ → Option ℕ → Search → Search
  after_page next offset rows total progress =
      if no_more (progress.1) || ltb rows page_limit || reaches total (offset + rows)
      then progress
      else next (offset + page_limit) progress

  abbrev pub with_page : (ℕ → Search → Search) → ℕ → Search → Result Failure AccountPage → Search
  with_page next offset progress (err f) = progress
  with_page next offset progress (ok page) =
      after_page next offset (length page.account_list) page.total
        (process_page page.account_list progress)

  -- The loop over the pages of a customer; ten turns reach the offset of 10,000.
  unfoldable pub search_pages : ℕ → ℕ → Search → Search
  search_pages zero offset progress = progress
  search_pages (suc fuel) offset progress =
      let found = with_page (search_pages fuel) offset progress (pages offset) in
      if no_more (progress.1) then progress else found

-- The customers in turn, CONTACTS_SELECTING_CUSTOMER_IDS.
unfoldable pub search_customers : (ℕ → ℕ → Result Failure AccountPage) → List ℕ → Search → Search
search_customers pages [] progress = progress
search_customers pages (c ∷ customers) progress =
    let found = search_customers pages customers (search_pages (pages c) 10 0 progress) in
    if no_more (progress.1) then progress else found

abbrev pub add_found :
    Text → Result Failure (Option AccountInfo) → Dict Text AccountInfo → Dict Text AccountInfo
add_found number (err f) accounts = accounts
add_found number (ok none) accounts = accounts
add_found number (ok (some a)) accounts = insert number a accounts

-- One request for each number, without that setting.
unfoldable pub search_numbers :
    (Text → Result Failure (Option AccountInfo))
    → List Text
    → Dict Text AccountInfo
    → Dict Text AccountInfo
search_numbers account_of [] accounts = accounts
search_numbers account_of (number ∷ numbers) accounts =
    search_numbers account_of numbers (add_found number (account_of number) accounts)

abbrev pub by_mode :
    (ℕ → ℕ → Result Failure AccountPage)
    → (Text → Result Failure (Option AccountInfo))
    → List ℕ
    → List Text
    → Dict Text AccountInfo
by_mode pages account_of [] numbers = search_numbers account_of numbers []
by_mode pages account_of (c ∷ customers) numbers =
    (search_customers pages (c ∷ customers) ([], numbers)).0

-- `_get_number_to_customer_accounts_map_for_numbers`
unfoldable pub get_number_to_customer_accounts_map_for_numbers :
    (ℕ → ℕ → Result Failure AccountPage)
    → (Text → Result Failure (Option AccountInfo))
    → List ℕ
    → List Text
    → Dict Text AccountInfo
get_number_to_customer_accounts_map_for_numbers pages account_of customers [] = []
get_number_to_customer_accounts_map_for_numbers pages account_of customers (n ∷ numbers) =
    by_mode pages account_of customers (n ∷ numbers)
