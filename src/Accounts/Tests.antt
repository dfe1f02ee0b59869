-- ===== src/Accounts/Tests.antt =====
-- The theorems on the account lists at concrete accounts.
use porta_phone_adapter.Base.{
  ℕ, ◌≡◌, refl, false, Option, none, some, List, [], ◌∷◌, arith, take, drop, map, replicate,
}
use porta_phone_adapter.Base.Eq.{Text, nat_eq}
use porta_phone_adapter.Base.Dict.{lookup, insert}
use porta_phone_adapter.Base.Result.{Result, ok, Raised}
use porta_phone_adapter.Accounts.Fetch.{
  Account, Field, Page, limit, fetch_accounts, fetch_rest, gather, offsets, assemble_pages,
  assemble, by_i_account, is_last, project_account, id, other,
}
use porta_phone_adapter.Accounts.{
  Entry, Cache, serve, total_rows, get_all_accounts, read_end, evict_accounts_over_limit,
}
use porta_phone_adapter.Accounts.Paging.{Distinct, fetch_complete, fetch_accounts-Distinct}
use porta_phone_adapter.Accounts.Eviction.{Settled, eviction_bounds}
use porta_phone_adapter.Accounts.Serving.{read_then_served}

abbrev fields : Field → Option Text
fields id = some (b'7' ∷ [])
fields (other name) = some name
fields _ = none

abbrev account : ℕ → Account
account i = record {
  i_account = i;
  field = fields;
  alias_list = none ∷ [];
  alias_did_number_list = [];
}

abbrev accounts : List Account
accounts = account 1 ∷ account 2 ∷ []

-- The switch that holds these two accounts.
abbrev switch : ℕ → Result Raised Page
switch o = ok (record { account_list = take limit (drop o accounts); total = some 2 })

fetch_complete_example : fetch_accounts switch ≡ ok accounts
fetch_complete_example =
    fetch_complete accounts switch (λ o. refl) (((λ e. ground arith), tt), (tt, tt))

-- A switch whose first page is full and which reports one more row, and then repeats the last.
abbrev full_page : List Account
full_page = replicate 1000 (account 3)

abbrev repeating : ℕ → Result Raised Page
repeating o = ok (record { account_list = full_page; total = some 1001 })

abbrev first : Page
first = record { account_list = full_page; total = some 1001 }

fetch_accounts-Distinct_example : Distinct (account 3 ∷ [])
unfolding fetch_accounts fetch_rest is_last gather offsets assemble_pages assemble by_i_account
    insert
fetch_accounts-Distinct_example =
    fetch_accounts-Distinct repeating first (account 3 ∷ []) refl refl refl

abbrev entry : Entry
entry = record { read_at = 100; accounts = accounts }

abbrev cache : Cache
cache = record {
  accounts_cache = (5, entry) ∷ (6, record entry { read_at = 90 }) ∷ [];
  locks = [];
  refresh_tasks = [];
}

eviction_bounds_example :
    Settled 5
      (total_rows ((evict_accounts_over_limit 5 cache).accounts_cache))
      (evict_accounts_over_limit 5 cache)
unfolding lookup
eviction_bounds_example = eviction_bounds 5 cache (refl, (refl, tt))

read_then_served_example :
    get_all_accounts 60 150 false 5 (read_end 100 5 (ok accounts) cache).1
    ≡ (serve (map project_account accounts), (read_end 100 5 (ok accounts) cache).1)
read_then_served_example = read_then_served 60 100 150 5 accounts cache (omega arith) (omega arith)
