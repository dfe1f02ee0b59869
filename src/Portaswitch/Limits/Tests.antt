-- ===== src/Portaswitch/Limits/Tests.antt =====
-- The theorems on the device limits at the sample switch.
use porta_phone_adapter.Base.{ℕ, ◌≡◌, List, [], ◌∷◌}
use porta_phone_adapter.Base.Eq.{nat_eq}
use porta_phone_adapter.Base.Result.{Result, ok, err}
use porta_phone_adapter.Portaswitch.{Failure, billing, other_fault}
use porta_phone_adapter.Portaswitch.Account.{CustomField}
use porta_phone_adapter.Portaswitch.Sample.{devices}
use porta_phone_adapter.Portaswitch.Limits.Direct.{
  Request, run_cached, run_direct, cache_is_transparent,
}

-- A read for the key 7, and a switch that fails afterwards.
abbrev reads : ℕ → Result Failure (List CustomField)
reads i = ok (devices ∷ [])

abbrev fails : ℕ → Result Failure (List CustomField)
fails i = err (billing (other_fault "down"))

abbrev requests : List (Request ℕ)
requests =
    record { now = 1; later = 2; key = 7 }
    ∷ record { now = 3; later = 4; key = 8 }
    ∷ record { now = 5; later = 6; key = 7 }
    ∷ []

cache_is_transparent_example : run_cached 60 reads requests [] ≡ run_direct reads requests
cache_is_transparent_example = cache_is_transparent 60 reads requests
