-- ===== src/RecordingLink/Round.antt =====
-- A link that was issued opens, until it expires; and nothing opens but what carries its own MAC.
use porta_phone_adapter.Base.{
  ℕ, zero, suc, ◌-◌, ◌*◌, ◌^◌, ◌≤◌, ◌<◌, ◌≡◌, refl, sym, ap, ◌∙◌, ◌⊎◌, true, false, not, ◌&&◌,
  Option, none, some, [], ◌∷◌, ◌++◌, arith, ltb, ◌==◌, if◌then◌else◌, length, take, drop,
  length-append, length-take, take-append, drop-append, take-append-drop, drop-drop,
}
use porta_phone_adapter.Base.Eq.{Text, text_key, text_eq, text_eq_iff, beq_refl}
use porta_phone_adapter.Base.Result.{ok, err}
use porta_phone_adapter.Codec.{
  Codec, Bytes, AreBytes, AreChars, AreBytes-append, rstrip, pad, pad-rstrip,
}
use porta_phone_adapter.RecordingLink.Pack.{
  length-be, be-AreBytes, be_onto, from_be-be_alone, from_be-byte,
}
use porta_phone_adapter.RecordingLink.{
  RecordingLink, expired, Hmac, second, be, from_be, pack_header, expiry, mac, mac_size, sign,
  sign_packed, sign_expiring, link_of, verify, verify_split, verify_decoded, header_size,
}

take-AreBytes : (n : ℕ) (bs : Bytes) → AreBytes bs → AreBytes (take n bs)
take-AreBytes zero bs h = tt
take-AreBytes (suc n) [] h = tt
take-AreBytes (suc n) (b ∷ bs) h = (h.0, take-AreBytes n bs h.1)

module _ (c : Codec) (h : Hmac) where
  length-mac : (p : Bytes) → length (mac c h p) ≡ 16
  unfolding mac
  length-mac p = omega (arith, length-take 16 (h.digest p), h.digest_length p)

  split_at :
      (n : ℕ) (xs ys : Bytes) → length xs ≡ n → (take n (xs ++ ys) ≡ xs) × (drop n (xs ++ ys) ≡ ys)
  split_at n xs ys e = rw (sym e) (take-append xs ys, drop-append xs ys)

  -- The split of the bytes gives back the payload and the tag.
  cut_back :
      (payload tag : Bytes)
      → length tag ≡ 16
      → let raw = payload ++ tag in
        let cut = length raw - mac_size in (take cut raw ≡ payload) × (drop cut raw ≡ tag)
  cut_back payload tag e =
      let n : length (payload ++ tag) - mac_size ≡ length payload =
        omega (arith, length-append payload tag) in
      rw n (take-append payload tag, drop-append payload tag)

  mac-AreBytes : (p : Bytes) → AreBytes (mac c h p)
  unfolding mac
  mac-AreBytes p = take-AreBytes 16 (h.digest p) (h.digest_bytes p)

  -- The bytes that a link stands for.
  verify_signed :
      (now : ℕ) (payload : Bytes)
      → AreBytes payload
      → verify c h now (rstrip b'=' (c.b64encode (payload ++ mac c h payload)))
        ≡ verify_split c h now payload (mac c h payload)
  unfolding verify verify_decoded
  verify_signed now payload are =
      let (front, back) = cut_back payload (mac c h payload) (length-mac payload) in
      let whole = AreBytes-append payload (mac c h payload) are (mac-AreBytes payload) in
      rw
        (
          pad-rstrip c (payload ++ mac c h payload),
          c.b64_round (payload ++ mac c h payload) whole,
          verify_decoded,
          front,
          back,
        )
        refl

  -- The payload of a link, field by field.
  payload_of : ℕ → ℕ → Text → Bytes
  payload_of e i id = 1 ∷ (be 4 e [] ++ (be 8 i [] ++ c.utf8_encode id))

  payload_flat :
      (e i : ℕ) (id : Text) → (1 ∷ be 4 e (be 8 i [])) ++ c.utf8_encode id ≡ payload_of e i id
  unfolding payload_of
  payload_flat e i id = ap (◌∷◌ 1) (
      be_onto 4 e (be 8 i []) (c.utf8_encode id)
      ∙ ap (◌++◌ (be 4 e [])) (be_onto 8 i [] (c.utf8_encode id)))

  payload-AreBytes : (e i : ℕ) (id : Text) → AreChars id → AreBytes (payload_of e i id)
  unfolding payload_of
  payload-AreBytes e i id chars = (
    omega arith,
    AreBytes-append (be 4 e []) (be 8 i [] ++ c.utf8_encode id) (be-AreBytes 4 e [] tt) (
        AreBytes-append (be 8 i []) (c.utf8_encode id) (be-AreBytes 8 i [] tt)
          (c.utf8_bytes id chars)),
  )

  version_back : (e i : ℕ) (id : Text) → from_be 0 (take 1 (payload_of e i id)) ≡ 1
  unfolding payload_of
  version_back e i id = from_be-byte 1

  -- What is read of the payload of a link.
  read_back :
      (e i : ℕ) (id : Text)
      → AreChars id
      → e < 256 ^ 4
      → i < 256 ^ 8
      → let p = payload_of e i id in
        (from_be 0 (take 4 (drop 1 p)) ≡ e)
        × (from_be 0 (take 8 (drop 5 p)) ≡ i)
        × (c.utf8_decode (drop header_size p) ≡ some id)
        × (13 ≤ length p)
  unfolding payload_of
  read_back e i id chars he hi =
      let u = c.utf8_encode id in
      let first = split_at 4 (be 4 e []) (be 8 i [] ++ u) (length-be 4 e []) in
      let next = split_at 8 (be 8 i []) u (length-be 8 i []) in
      let rest : drop 12 (be 4 e [] ++ (be 8 i [] ++ u)) ≡ u =
        drop-drop 4 8 (be 4 e [] ++ (be 8 i [] ++ u)) ∙ ap (drop 8) (first.1) ∙ next.1 in
      (
        ap (from_be 0) (first.0) ∙ from_be-be_alone 4 e he,
        ap (λ b. from_be 0 (take 8 b)) (first.1)
            ∙ ap (from_be 0) (next.0)
            ∙ from_be-be_alone 8 i hi,
        ap c.utf8_decode rest ∙ c.utf8_round id chars,
        omega (
          arith,
          length-append (be 4 e []) (be 8 i [] ++ u),
          length-append (be 8 i []) u,
          length-be 4 e [],
          length-be 8 i [],
        ),
      )

  -- What `verify` makes of a payload that it finds authentic.
  verify_payload :
      (later e i : ℕ) (id : Text)
      → AreChars id
      → e < 256 ^ 4
      → i < 256 ^ 8
      → verify_split c h later (payload_of e i id) (mac c h (payload_of e i id)) ≡ (
          if not (e == 0) && ltb (e * second) later
          then err expired
          else ok (record { i_xdr = i; call_recording_id = id; expires_at = e }))
  unfolding verify_split link_of
  verify_payload later e i id chars he hi =
      let p = payload_of e i id in
      let (r, s, t, n) = read_back e i id chars he hi in
      let v : from_be 0 (take 1 p) ≡ 1 = version_back e i id in
      let same : text_eq (mac c h p) (mac c h p) ≡ true = beq_refl (mac c h p) in
      let long : ltb (length p) header_size ≡ false = ground arith in
      rw (r, s, t, v, same, long) refl

  -- The link that `sign` gives.
  sign_ok :
      (now e i : ℕ) (id : Text) (ttl : Option ℕ)
      → AreChars id
      → expiry now ttl ≡ ok e
      → e < 256 ^ 4
      → i < 256 ^ 8
      → let p = payload_of e i id in
        sign c h now i id ttl ≡ ok (rstrip b'=' (c.b64encode (p ++ mac c h p)))
  unfolding sign sign_packed sign_expiring pack_header
  sign_ok now e i id ttl chars x he hi =
      let he' : ltb e (256 ^ 4) ≡ true = ground arith in
      let hi' : ltb i (256 ^ 8) ≡ true = ground arith in
      rw (x, sign_expiring, pack_header, he', hi', sign_packed)
        (ap (λ p. ok (rstrip b'=' (c.b64encode (p ++ mac c h p)))) (payload_flat e i id))

  -- A link that `sign` issues verifies until its expiry, to what was signed: for a call id that
  -- fits 64 bits, an expiry that fits 32 bits and a recording id of encodable characters, `sign`
  -- gives a link, and `verify` at any time that the expiry allows gives back the call, the
  -- recording id and the expiry.
  pub issued_link_opens :
      (now later e i : ℕ) (id : Text) (ttl : Option ℕ)
      → AreChars id
      → expiry now ttl ≡ ok e
      → e < 256 ^ 4
      → i < 256 ^ 8
      → (e ≡ 0) ⊎ (later ≤ e * second)
      → (link : Text) × (sign c h now i id ttl ≡ ok link)
        × (verify c h later link
            ≡ ok (record { i_xdr = i; call_recording_id = id; expires_at = e }))
  issued_link_opens now later e i id ttl chars x he hi live =
      let p = payload_of e i id in
      let open_still : (not (e == 0) && ltb (e * second) later) ≡ false = ground arith in
      (
        rstrip b'=' (c.b64encode (p ++ mac c h p)),
        sign_ok now e i id ttl chars x he hi,
        verify_signed later p (payload-AreBytes e i id chars)
            ∙ verify_payload later e i id chars he hi
            ∙ (rw open_still refl),
      )

  -- A link that `sign` issues with an expiry (for a call id that fits 64 bits, an expiry that fits
  -- 32 bits and is not zero, and a recording id of encodable characters) is refused by `verify` as
  -- expired at every time after that expiry.
  pub issued_link_expires :
      (now later e i : ℕ) (id : Text) (ttl : Option ℕ)
      → AreChars id
      → expiry now ttl ≡ ok e
      → e < 256 ^ 4
      → i < 256 ^ 8
      → 0 < e
      → e * second < later
      → (link : Text) × (sign c h now i id ttl ≡ ok link) × (verify c h later link ≡ err expired)
  issued_link_expires now later e i id ttl chars x he hi positive late =
      let p = payload_of e i id in
      let over : (not (e == 0) && ltb (e * second) later) ≡ true = ground arith in
      (
        rstrip b'=' (c.b64encode (p ++ mac c h p)),
        sign_ok now e i id ttl chars x he hi,
        verify_signed later p (payload-AreBytes e i id chars)
            ∙ verify_payload later e i id chars he hi
            ∙ (rw over refl),
      )

  split_checked :
      (now : ℕ) (payload tag : Bytes) (link : RecordingLink)
      → verify_split c h now payload tag ≡ ok link
      → (tag ≡ mac c h payload)
        × (13 ≤ length payload)
        × ((link.expires_at ≡ 0) ⊎ (now ≤ link.expires_at * second))
  unfolding verify_split link_of
  split_checked now payload tag link e =
      let (iff_to, _) = text_eq_iff tag (mac c h payload) in
      (ground (arith, iff_to), ground arith, ground arith)

  decoded_checked :
      (now : ℕ) (d : Option Bytes) (link : RecordingLink)
      → verify_decoded c h now d ≡ ok link
      → (payload : Bytes) × (d ≡ some (payload ++ mac c h payload))
        × (13 ≤ length payload)
        × ((link.expires_at ≡ 0) ⊎ (now ≤ link.expires_at * second))
  unfolding verify_decoded
  decoded_checked now none link e = cc
  decoded_checked now (some raw) link e =
      let cut = length raw - mac_size in
      let (tag, long, live) = split_checked now (take cut raw) (drop cut raw) link e in
      (
        take cut raw,
        ap some (sym (take-append-drop cut raw) ∙ ap (◌++◌ (take cut raw)) tag),
        long,
        live,
      )

  -- Nothing verifies but bytes that carry their own MAC: if `verify` accepts a link id at some
  -- time, the id decodes to a payload of at least the header followed by the MAC of that payload,
  -- and the expiry that is returned is none or not before that time.
  pub accepted_link_is_signed :
      (now : ℕ) (t : Text) (link : RecordingLink)
      → verify c h now t ≡ ok link
      → (payload : Bytes) × (c.b64decode (pad t) ≡ some (payload ++ mac c h payload))
        × (13 ≤ length payload)
        × ((link.expires_at ≡ 0) ⊎ (now ≤ link.expires_at * second))
  unfolding verify
  accepted_link_is_signed now t link e = decoded_checked now (c.b64decode (pad t)) link e
