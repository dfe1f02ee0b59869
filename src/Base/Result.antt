-- ===== src/Base/Result.antt =====
-- Python exceptions as values.
use Prim.Native.Nat.{ℕ}
use Prim.Native.String.{String}
use mathlib.Core.Option.{Option}
use mathlib.Core.Path.{◌≡◌}

-- An exception that reaches the caller: `WebTritErrorException` with its HTTP status and its code
-- (`raise_webtrit_error`), or one of Python's own.
pub data Raised : Type 0 where
  webtrit : ℕ → Option String → Raised
  crash : Raised

pub data Result {ℓ κ} (E : Type ℓ) (A : Type κ) : Type (ℓ ⊔ κ) where
  ok : A → Result E A
  err : E → Result E A

pub ok_inj {ℓ κ} : {E : Type ℓ} {A : Type κ} (a b : A) → ◌≡◌ {A = Result E A} (ok a) (ok b) → a ≡ b
ok_inj a b h = cc
