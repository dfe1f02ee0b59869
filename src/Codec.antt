-- ===== src/Codec.antt =====
-- Python's `base64.urlsafe_b64encode`, `urlsafe_b64decode`, `str.encode` and `bytes.decode`, which
-- the recording ids and links go through: an interface with the documented behaviour that the code
-- relies on (RFC 4648, RFC 3629), and the padding that the code strips and puts back.
pub mod Sample
use porta_phone_adapter.Base.{
  ℕ, ◌+◌, ◌-◌, ◌*◌, ◌/◌, ◌%◌, ◌≤◌, ◌<◌, ◌≡◌, refl, sym, ap, ◌∙◌, Bool, true, false, ◌&&◌, ◌⊎◌,
  Option, none, some, List, [], ◌∷◌, ◌++◌, arith, ltb, leb, ◌==◌, if◌then◌else◌, length, replicate,
  length-append, length-replicate,
}
use porta_phone_adapter.Base.Eq.{Text}

abbrev pub Bytes : Type 0
Bytes = List ℕ

abbrev pub AreBytes : Bytes → Type 0
AreBytes [] = Unit {0}
AreBytes (b ∷ bs) = (b < 256) × AreBytes bs

pub AreBytes-append : (xs ys : Bytes) → AreBytes xs → AreBytes ys → AreBytes (xs ++ ys)
AreBytes-append [] ys h k = k
AreBytes-append (x ∷ xs) ys h k = (h.0, AreBytes-append xs ys h.1 k)

-- The characters that UTF-8 encodes: all code points but the surrogates.
abbrev pub AreChars : Text → Type 0
AreChars [] = Unit {0}
AreChars (c ∷ cs) = ((c < 55296) ⊎ ((57343 < c) × (c < 1114112))) × AreChars cs

-- `s.rstrip(c)` for one character.
abbrev keep_unless : Bool → ℕ → Text → Text
keep_unless true x [] = []
keep_unless true x (y ∷ ys) = x ∷ y ∷ ys
keep_unless false x ys = x ∷ ys

unfoldable pub rstrip : ℕ → Text → Text
rstrip c [] = []
rstrip c (x ∷ xs) = keep_unless (x == c) x (rstrip c xs)

-- The character of a sextet in the url-safe alphabet.
unfoldable pub alphabet : ℕ → ℕ
alphabet n =
    if ltb n 26
    then b'A' + n
    else if ltb n 52
    then b'a' + (n - 26)
    else if ltb n 62
    then b'0' + (n - 52)
    else if n == 62
    then b'-'
    else b'_'

pub record Codec : Type 0 where
  pub b64encode : Bytes → Text
  pub b64decode : Text → Option Bytes
  pub utf8_encode : Text → Bytes
  pub utf8_decode : Bytes → Option Text
  -- Decoding an encoding gives the bytes back.
  pub b64_round : (bs : Bytes) → AreBytes bs → b64decode (b64encode bs) ≡ some bs
  -- An encoding comes in blocks of four characters, of which at most two at the end are padding.
  pub b64_blocks : (bs : Bytes) → length (b64encode bs) % 4 ≡ 0
  pub b64_padding :
      (bs : Bytes)
      → (k : ℕ) × (k ≤ 2) × (b64encode bs ≡ rstrip b'=' (b64encode bs) ++ replicate k b'=')
  -- The first character is that of the first six bits.
  pub b64_first :
      (b : ℕ) (bs : Bytes)
      → b < 256
      → (rest : Text) × (rstrip b'=' (b64encode (b ∷ bs)) ≡ alphabet (b / 4) ∷ rest)
  pub utf8_round : (t : Text) → AreChars t → utf8_decode (utf8_encode t) ≡ some t
  pub utf8_bytes : (t : Text) → AreChars t → AreBytes (utf8_encode t)
  pub utf8_empty : utf8_encode [] ≡ []
  -- An ASCII character is its own byte.
  pub utf8_ascii : (c : ℕ) (t : Text) → c < 128 → utf8_encode (c ∷ t) ≡ c ∷ utf8_encode t

-- `s + "=" * (-len(s) % 4)`
unfoldable pub pad : Text → Text
pad t = t ++ replicate ((4 - length t % 4) % 4) b'='

module _ (c : Codec) where
  open c use {b64encode, b64_blocks, b64_padding}

  -- The stripped padding is put back exactly.
  pub pad-rstrip : (bs : Bytes) → pad (rstrip b'=' (b64encode bs)) ≡ b64encode bs
  unfolding pad
  pad-rstrip bs =
      let (k, le, e) = b64_padding bs in
      let body = rstrip b'=' (b64encode bs) in
      let n : length (b64encode bs) ≡ length body + k =
        ap length e
        ∙ length-append body (replicate k b'=')
        ∙ ap (◌+◌ (length body)) (length-replicate k b'=') in
      let m : (4 - length body % 4) % 4 ≡ k = omega (arith, b64_blocks bs) in
      ap (λ i. body ++ replicate i b'=') m ∙ sym e
