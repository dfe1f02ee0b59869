-- ===== src/RecordingLink/Pack.antt =====
-- Big-endian fields of a fixed width, as `struct` packs them.
use porta_phone_adapter.Base.{
  ℕ, zero, suc, ◌+◌, ◌*◌, ◌/◌, ◌%◌, ◌^◌, ◌<◌, ◌≡◌, refl, sym, ap, ◌∙◌, [], ◌∷◌, ◌++◌, arith, length,
}
use porta_phone_adapter.Codec.{Bytes, AreBytes}
use native.Mathlib.Nat.{pow-succ'}

-- The last `k` bytes of the number, highest first, in front of `acc`.
unfoldable pub be : ℕ → ℕ → Bytes → Bytes
be zero n acc = acc
be (suc k) n acc = be k (n / 256) ((n % 256) ∷ acc)

-- The number that big-endian bytes stand for, after `acc`.
unfoldable pub from_be : ℕ → Bytes → ℕ
from_be acc [] = acc
from_be acc (b ∷ bs) = from_be (acc * 256 + b) bs

pub from_be-be : (k n : ℕ) (acc : Bytes) → n < 256 ^ k → from_be 0 (be k n acc) ≡ from_be n acc
unfolding be from_be
from_be-be zero n acc h = let e : 0 ≡ n = omega arith in ap (λ m. from_be m acc) e
from_be-be (suc k) n acc h =
    from_be-be k (n / 256) ((n % 256) ∷ acc) (omega (arith, pow-succ' 256 k))
    ∙ (let e : n / 256 * 256 + n % 256 ≡ n = omega arith in ap (λ m. from_be m acc) e)

pub length-be : (k n : ℕ) (acc : Bytes) → length (be k n acc) ≡ k + length acc
unfolding be
length-be zero n acc = omega arith
length-be (suc k) n acc = omega (arith, length-be k (n / 256) ((n % 256) ∷ acc))

pub be-AreBytes : (k n : ℕ) (acc : Bytes) → AreBytes acc → AreBytes (be k n acc)
unfolding be
be-AreBytes zero n acc h = h
be-AreBytes (suc k) n acc h = be-AreBytes k (n / 256) ((n % 256) ∷ acc) ((omega arith), h)

pub be_onto : (k n : ℕ) (acc ys : Bytes) → be k n acc ++ ys ≡ be k n [] ++ (acc ++ ys)
unfolding be
be_onto zero n acc ys = refl
be_onto (suc k) n acc ys =
    be_onto k (n / 256) ((n % 256) ∷ acc) ys
    ∙ sym (be_onto k (n / 256) ((n % 256) ∷ []) (acc ++ ys))

pub from_be-be_alone : (k n : ℕ) → n < 256 ^ k → from_be 0 (be k n []) ≡ n
unfolding from_be
from_be-be_alone k n h = from_be-be k n [] h

pub from_be-byte : (b : ℕ) → from_be 0 (b ∷ []) ≡ b
unfolding from_be
from_be-byte b = omega arith
