-- ===== src/Portaswitch/Email/Tests.antt =====
-- The theorems on the search by email at the sample switch.
use porta_phone_adapter.Base.{ℕ, ◌≡◌, refl, true, some, [], ◌∷◌, arith}
use porta_phone_adapter.Base.Eq.{Text, codes}
use porta_phone_adapter.Base.Result.{ok, err}
use porta_phone_adapter.Portaswitch.Sample.{api, owner, guest}
use porta_phone_adapter.Portaswitch.Limits.{strip}
use porta_phone_adapter.Portaswitch.Email.{
  ambiguous, find_account_by_email, matches_email, has_email,
}
use porta_phone_adapter.Portaswitch.Email.Match.{carries}
use porta_phone_adapter.Portaswitch.Email.Unique.{shared_address_refused, unique_address_found}

abbrev address : Text
address = codes " bob@X.io"

shared_address_refused_example :
    find_account_by_email (api (owner ∷ guest ∷ [])) address 0 ≡ err ambiguous
unfolding strip matches_email carries has_email
shared_address_refused_example =
    shared_address_refused (api (owner ∷ guest ∷ [])) address 0 (owner ∷ guest ∷ []) 7 9 refl
      (λ offset. refl) (omega arith) (λ q. absurd (omega (arith, q))) refl refl

only_owner : (j : ℕ) → carries (strip address) j (owner ∷ []) ≡ true → j ≡ 7
unfolding strip carries has_email
only_owner j h = ground arith

unique_address_found_example : find_account_by_email (api (owner ∷ [])) address 0 ≡ ok (some owner)
unfolding strip matches_email carries has_email
unique_address_found_example =
    unique_address_found (api (owner ∷ [])) address 0 (owner ∷ []) 7 refl (λ offset. refl)
      (omega arith) refl only_owner
