-- ===== src/RecordingId/Round.antt =====
-- A recording id that is composed parses to its two keys, and what parses has the form of keys.
use porta_phone_adapter.Base.{
  ℕ, ◌/◌, ◌≡◌, refl, ◌≢◌, ◌⊎◌, inl, inr, true, false, Option, none, some, [], ◌∷◌, ◌++◌, arith,
  ◌==◌, if◌then◌else◌, Bool-cases,
}
use porta_phone_adapter.Base.Eq.{Text}
use porta_phone_adapter.Codec.{Codec, Bytes, AreChars, alphabet, rstrip, pad, pad-rstrip}
use porta_phone_adapter.RecordingId.{
  separator, is_digit, all_digits, is_empty, is_number, partition, checked, compose_recording_id,
  parse_text, parse_bytes, parse_recording_id,
}

-- The number stands before the first separator.
partition-digits :
    (i rest : Text)
    → all_digits i ≡ true
    → partition separator (i ++ (separator ∷ rest)) ≡ some (i, rest)
unfolding partition
partition-digits [] rest h = refl
partition-digits (x ∷ xs) rest h =
    let ih = partition-digits xs rest (ground arith) in
    let other : (x == separator) ≡ false = ground arith in rw (other, ih) refl

chars-append : (s t : Text) → all_digits s ≡ true → AreChars t → AreChars (s ++ t)
chars-append [] t h k = k
chars-append (x ∷ xs) t h k = (inl (ground arith), chars-append xs t (ground arith) k)

-- The first six bits of a digit print as M, N or O.
alphabet-digit : (d : ℕ) → is_digit d ≡ true → is_digit (alphabet (d / 4)) ≡ false
unfolding alphabet
alphabet-digit d h = ground arith

module _ (c : Codec) where
  open c use {b64encode, b64decode, utf8_encode, utf8_decode}

  composed_not_number :
      (d : ℕ) (rest : Text)
      → is_digit d ≡ true
      → is_number (rstrip b'=' (b64encode (utf8_encode (d ∷ rest)))) ≡ false
  composed_not_number d rest h =
      let (tail, e) = c.b64_first d (utf8_encode rest) (ground arith) in
      rw (c.utf8_ascii d rest (ground arith), e) (rw (alphabet-digit d h) refl)

  bare :
      (i : Text)
      → is_number i ≡ true
      → parse_recording_id c (compose_recording_id c i []) ≡ some (i, none)
  unfolding parse_recording_id compose_recording_id
  bare i h = rw h refl

  composed_back :
      (d : ℕ) (xs : Text) (x : ℕ) (conf : Text)
      → all_digits (d ∷ xs) ≡ true
      → AreChars (x ∷ conf)
      → parse_recording_id c (compose_recording_id c (d ∷ xs) (x ∷ conf))
        ≡ some (d ∷ xs, some (x ∷ conf))
  unfolding parse_recording_id compose_recording_id parse_bytes parse_text checked
  composed_back d xs x conf h chars =
      let token = (d ∷ xs) ++ (separator ∷ x ∷ conf) in
      let valid : AreChars token =
        chars-append (d ∷ xs) (separator ∷ x ∷ conf) h ((inl (ground arith)), chars) in
      let digits : is_digit d ≡ true = ground arith in
      rw
        (
          composed_not_number d (xs ++ (separator ∷ x ∷ conf)) digits,
          pad-rstrip c (utf8_encode token),
          c.b64_round (utf8_encode token) (c.utf8_bytes token valid),
          parse_bytes,
          c.utf8_round token valid,
          parse_text,
          partition-digits (d ∷ xs) (x ∷ conf) h,
        )
        (ground arith)

  -- A recording id parses to the keys it was composed of: for an `i_xdr` that prints as a number
  -- and a conference id of encodable characters, `parse_recording_id` of what
  -- `compose_recording_id` gives returns that `i_xdr` and the conference id, or no conference id
  -- where it is empty.
  pub compose_parse :
      (i_xdr conf_id : Text)
      → is_number i_xdr ≡ true
      → AreChars conf_id
      → parse_recording_id c (compose_recording_id c i_xdr conf_id)
        ≡ some (i_xdr, (if is_empty conf_id then none else some conf_id))
  compose_parse [] conf_id h chars = cc
  compose_parse (d ∷ xs) [] h chars = bare (d ∷ xs) h
  compose_parse (d ∷ xs) (x ∷ conf) h chars = composed_back d xs x conf h chars

  checked-form :
      (d : Option (Text × Text)) (i : Text) (conf : Option Text)
      → checked d ≡ some (i, conf)
      → (is_number i ≡ true) × (conf ≢ some [])
  unfolding checked
  checked-form none i conf h = cc
  checked-form (some (a, [])) i conf h = ground arith
  checked-form (some (a, x ∷ b)) i conf h = (ground arith, λ e. ground arith)

  text-form :
      (d : Option Text) (i : Text) (conf : Option Text)
      → parse_text c d ≡ some (i, conf)
      → (is_number i ≡ true) × (conf ≢ some [])
  unfolding parse_text
  text-form none i conf h = cc
  text-form (some decoded) i conf h = checked-form (partition separator decoded) i conf h

  bytes-form :
      (d : Option Bytes) (i : Text) (conf : Option Text)
      → parse_bytes c d ≡ some (i, conf)
      → (is_number i ≡ true) × (conf ≢ some [])
  unfolding parse_bytes
  bytes-form none i conf h = cc
  bytes-form (some raw) i conf h = text-form (utf8_decode raw) i conf h

  -- What parses has the form of keys: an id that `parse_recording_id` accepts gives an `i_xdr`
  -- that is a number, and a conference id that is not empty where it gives one, which it
  -- does only for an id that is not itself a number.
  pub parsed_form :
      (t i : Text) (conf : Option Text)
      → parse_recording_id c t ≡ some (i, conf)
      → (is_number i ≡ true) × (conf ≢ some []) × ((conf ≡ none) ⊎ (is_number t ≡ false))
  unfolding parse_recording_id
  parsed_form t i conf h = elim (Bool-cases (is_number t)) [
    | inl a ↦ (ground arith, (λ e. ground arith), ground arith)
    | inr b ↦
        let form = bytes-form (b64decode (pad t)) i conf (ground arith) in (form.0, form.1, inr b)
  ]
