-- ===== src/Portaswitch/Numbers/Tests.antt =====
-- The search of numbers at two customers, the first of which cannot be read.
use porta_phone_adapter.Base.{
  ℕ, refl, Option, none, some, [], ◌∷◌, arith, ◌==◌, if◌then◌else◌, take, drop,
}
use porta_phone_adapter.Base.Eq.{Text, codes, text_eq, text_key}
use porta_phone_adapter.Base.Result.{Result, ok, err}
use porta_phone_adapter.Portaswitch.{Failure, untraced}
use porta_phone_adapter.Portaswitch.Account.{AccountInfo, AccountPage}
use porta_phone_adapter.Portaswitch.Sample.{owner}
use porta_phone_adapter.Portaswitch.Numbers.{get_number_to_customer_accounts_map_for_numbers}
use porta_phone_adapter.Portaswitch.Numbers.Found.{Found}
use porta_phone_adapter.Portaswitch.Numbers.Pages.{asked_number-Found}

abbrev pages : ℕ → ℕ → Result Failure AccountPage
pages customer offset =
    if customer == 5
    then err untraced
    else ok (record { account_list = take 1000 (drop offset (owner ∷ [])); total = some 1 })

abbrev account_of : Text → Result Failure (Option AccountInfo)
account_of number = ok none

asked_number-Found_example : Found (codes "100") (
    get_number_to_customer_accounts_map_for_numbers pages account_of
      (5 ∷ 6 ∷ 7 ∷ [])
      (codes "200" ∷ codes "100" ∷ []))
unfolding text_eq
asked_number-Found_example =
    asked_number-Found pages account_of (5 ∷ []) (7 ∷ []) 6 (owner ∷ [])
      (codes "200" ∷ codes "100" ∷ []) (codes "100") (λ offset. refl) (omega arith) refl refl
