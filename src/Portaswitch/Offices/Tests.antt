-- ===== src/Portaswitch/Offices/Tests.antt =====
-- The theorem on the CRM address at a company whose read fails.

use porta_phone_adapter.Base.{ℕ, ◌≡◌, refl, Option, none, some, [], ◌∷◌, arith}
use porta_phone_adapter.Base.Eq.{Text, codes, nat_eq}
use porta_phone_adapter.Base.Dict.{lookup}
use porta_phone_adapter.Base.Result.{Result, ok, err}
use porta_phone_adapter.Portaswitch.{Failure, untraced}
use porta_phone_adapter.Portaswitch.Limits.{strip}
use porta_phone_adapter.Portaswitch.Offices.{CrmCache, read_crm}
use porta_phone_adapter.Portaswitch.Offices.Crm.{failed_read_spaced}

abbrev old : CrmCache
old = record { hosts = (7, (10, some (codes "crm"))) ∷ []; failed_at = [] }

abbrev fails : Text → ℕ → Result Failure (Option Text)
fails field i_customer = err untraced

abbrev answers : Text → ℕ → Result Failure (Option Text)
answers field i_customer = ok none

failed_read_spaced_example :
    let (crm, s) = read_crm 500 501 502 fails (codes " url") (some 7) old in
    (crm ≡ some (some (codes "crm")))
    × (read_crm 520 521 522 answers (codes " url") (some 7) s ≡ (crm, s))
unfolding strip lookup
failed_read_spaced_example =
    failed_read_spaced fails (codes " url") b'u' (codes "rl") 500 501 502 520 521 522 7 old untraced
      answers refl refl refl refl (omega arith)
