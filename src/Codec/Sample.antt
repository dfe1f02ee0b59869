-- ===== src/Codec/Sample.antt =====
-- A codec for the tests: each byte alone in a block of four characters, and characters past ASCII
-- in three bytes.
use porta_phone_adapter.Base.{
  ℕ, zero, suc, ◌+◌, ◌-◌, ◌*◌, ◌/◌, ◌%◌, ◌<◌, ◌≡◌, refl, sym, ap, ◌∙◌, inl, inr, true, false, some,
  [], ◌∷◌, arith, ltb, ◌==◌, if◌then◌else◌, length, replicate, Bool-cases,
}
use mathlib.Core.List.{append-nil}
use porta_phone_adapter.Base.Eq.{Text}
use porta_phone_adapter.Codec.{Codec, Bytes, AreBytes, AreChars, rstrip, alphabet}
use porta_phone_adapter.RecordingLink.{Hmac}

abbrev encode : Bytes → Text
encode [] = []
encode (b ∷ bs) = alphabet (b / 4) ∷ alphabet (b % 4) ∷ b'A' ∷ b'A' ∷ encode bs

abbrev sextet : ℕ → ℕ
sextet c =
    if c == b'-'
    then 62
    else if c == b'_'
    then 63
    else if ltb c b'A'
    then c - b'0' + 52
    else if ltb c b'a'
    then c - b'A'
    else c - b'a' + 26

abbrev decode : Text → Bytes
decode (w ∷ x ∷ y ∷ z ∷ rest) = (sextet w * 4 + sextet x) ∷ decode rest
decode _ = []

sextet-alphabet : (n : ℕ) → n < 64 → sextet (alphabet n) ≡ n
unfolding alphabet
sextet-alphabet n h = ground arith

pub decode-encode : (bs : Bytes) → AreBytes bs → decode (encode bs) ≡ bs
decode-encode [] h = refl
decode-encode (b ∷ bs) h =
    rw
      (
        sextet-alphabet (b / 4) (omega (arith, h.0)),
        sextet-alphabet (b % 4) (omega arith),
        decode-encode bs (h.1),
      )
      (ap (λ c. c ∷ bs) (omega arith))

pub length-encode : (bs : Bytes) → length (encode bs) % 4 ≡ 0
length-encode [] = refl
length-encode (b ∷ bs) = omega (arith, length-encode bs)

no_padding : (n : ℕ) → (alphabet n == b'=') ≡ false
unfolding alphabet
no_padding n = ground arith

pub rstrip-encode : (bs : Bytes) → rstrip b'=' (encode bs) ≡ encode bs
unfolding rstrip
rstrip-encode [] = refl
rstrip-encode (b ∷ bs) = rw (no_padding (b / 4), no_padding (b % 4), rstrip-encode bs) refl

abbrev to_utf8 : Text → Bytes
to_utf8 [] = []
to_utf8 (c ∷ t) =
    let rest = to_utf8 t in
    if ltb c 128 then c ∷ rest else (128 + c / 65536) ∷ c / 256 % 256 ∷ c % 256 ∷ rest

abbrev of_utf8 : Bytes → Text
of_utf8 [] = []
of_utf8 (b ∷ []) = b ∷ []
of_utf8 (b ∷ x ∷ []) = b ∷ x ∷ []
of_utf8 (b ∷ x ∷ y ∷ bs) =
    let one = of_utf8 (x ∷ y ∷ bs) in
    let three = of_utf8 bs in
    if ltb b 128 then b ∷ one else ((b - 128) * 65536 + x * 256 + y) ∷ three

of_utf8-ascii : (c : ℕ) (bs : Bytes) → ltb c 128 ≡ true → of_utf8 (c ∷ bs) ≡ c ∷ of_utf8 bs
of_utf8-ascii c [] h = refl
of_utf8-ascii c (x ∷ []) h = refl
of_utf8-ascii c (x ∷ y ∷ bs) h = rw h refl

pub of_utf8-to_utf8 : (t : Text) → AreChars t → of_utf8 (to_utf8 t) ≡ t
of_utf8-to_utf8 [] h = refl
of_utf8-to_utf8 (c ∷ t) h = elim (Bool-cases (ltb c 128)) [
  | inl a ↦ rw a (of_utf8-ascii c (to_utf8 t) a ∙ ap (◌∷◌ c) (of_utf8-to_utf8 t (h.1)))
  | inr a ↦
      let big : ltb (128 + c / 65536) 128 ≡ false = ground arith in
      let back : (128 + c / 65536 - 128) * 65536 + c / 256 % 256 * 256 + c % 256 ≡ c =
        omega arith in
      rw (a, big, back) (ap (◌∷◌ c) (of_utf8-to_utf8 t (h.1)))
]

pub to_utf8-bytes : (t : Text) → AreChars t → AreBytes (to_utf8 t)
to_utf8-bytes [] h = tt
to_utf8-bytes (c ∷ t) h = elim (Bool-cases (ltb c 128)) [
  | inl a ↦ rw a ((ground arith), to_utf8-bytes t (h.1))
  | inr a ↦ rw a ((ground arith), ((omega arith), ((omega arith), to_utf8-bytes t (h.1))))
]

pub to_utf8-ascii : (c : ℕ) (t : Text) → c < 128 → to_utf8 (c ∷ t) ≡ c ∷ to_utf8 t
to_utf8-ascii c t h = let a : ltb c 128 ≡ true = ground arith in rw a refl

abbrev pub codec : Codec
codec = record {
  b64encode = encode;
  b64decode = λ t. some (decode t);
  utf8_encode = to_utf8;
  utf8_decode = λ bs. some (of_utf8 bs);
  b64_round = λ bs h. ap some (decode-encode bs h);
  b64_blocks = length-encode;
  b64_padding =
      λ bs. (0, omega arith, sym (append-nil (rstrip b'=' (encode bs)) ∙ rstrip-encode bs));
  b64_first = λ b bs h. (alphabet (b % 4) ∷ b'A' ∷ b'A' ∷ encode bs, rstrip-encode (b ∷ bs));
  utf8_round = λ t h. ap some (of_utf8-to_utf8 t h);
  utf8_bytes = to_utf8-bytes;
  utf8_empty = refl;
  utf8_ascii = to_utf8-ascii;
}

pub zeros-bytes : (n : ℕ) → AreBytes (replicate n 0)
zeros-bytes zero = tt
zeros-bytes (suc n) = (omega arith, zeros-bytes n)

-- A digest that is the length of its message.
abbrev pub hmac : Hmac
hmac = record {
  digest = λ p. length p % 256 ∷ replicate 31 0;
  digest_bytes = λ p. (omega arith, zeros-bytes 31);
  digest_length = λ p. refl;
}
