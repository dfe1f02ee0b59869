-- ===== src/RecordingLink.antt =====
-- app/bss/adapters/portaswitch/recording_link.py: `RecordingLinkSigner`. The codec and the HMAC are
-- parameters; times are microseconds, an expiry is seconds. A `ttl` is None or not negative.
mod Pack
pub mod Round
mod Tests
pub use Pack.{be, from_be}
use porta_phone_adapter.Base.{
  ℕ, zero, suc, ◌+◌, ◌-◌, ◌*◌, ◌/◌, ◌^◌, ◌≤◌, ◌≡◌, Bool, true, false, not, ◌&&◌, ◌||◌, Option, none,
  some, List, [], ◌∷◌, ◌++◌, ltb, leb, ◌==◌, if◌then◌else◌, length, take, drop,
}
use porta_phone_adapter.Base.Eq.{Text, text_eq}
use porta_phone_adapter.Base.Result.{Result, ok, err}
use porta_phone_adapter.Codec.{Codec, Bytes, AreBytes, rstrip, pad}

-- `MAX_TTL`, ten years of seconds.
abbrev pub max_ttl : ℕ
max_ttl = 10 * 365 * 24 * 3600

-- `_MAC_SIZE` and `_HEADER.size`
abbrev pub mac_size : ℕ
mac_size = 16

abbrev pub header_size : ℕ
header_size = 13

-- `RecordingLink`; an empty `call_recording_id` is None.
pub record RecordingLink : Type 0 where
  pub i_xdr : ℕ
  pub call_recording_id : Text
  pub expires_at : ℕ

-- `RecordingLinkInvalid`, `RecordingLinkExpired`, and what Python itself raises: `ValueError` for
-- the ttl, `struct.error` for a field out of range, `UnicodeDecodeError`.
pub data Fault : Type 0 where
  invalid expired bad_ttl crash : Fault

-- HMAC-SHA256 with the key of the signer: the digest has 32 bytes.
pub record Hmac : Type 0 where
  pub digest : Bytes → Bytes
  pub digest_bytes : (p : Bytes) → AreBytes (digest p)
  pub digest_length : (p : Bytes) → length (digest p) ≡ 32

abbrev pub second : ℕ
second = 1000000

-- `_HEADER.pack(_VERSION, expires_at, i_xdr)`
unfoldable pub pack_header : ℕ → ℕ → Result Fault Bytes
pack_header expires_at i_xdr =
    if ltb expires_at (256 ^ 4) && ltb i_xdr (256 ^ 8)
    then ok (1 ∷ be 4 expires_at (be 8 i_xdr []))
    else err crash

-- The expiry that `sign` writes, from the clock and the ttl.
unfoldable pub expiry : ℕ → Option ℕ → Result Fault ℕ
expiry now none = ok 0
expiry now (some zero) = ok 0
expiry now (some (suc n)) = if leb (suc n) max_ttl then ok (now / second + suc n) else err bad_ttl

module _ (c : Codec) (h : Hmac) where
  -- `_mac`
  unfoldable pub mac : Bytes → Bytes
  mac payload = take mac_size (h.digest payload)

  unfoldable pub sign_packed : Text → Result Fault Bytes → Result Fault Text
  sign_packed id (err f) = err f
  sign_packed id (ok header) =
      let payload = header ++ c.utf8_encode id in
      ok (rstrip b'=' (c.b64encode (payload ++ mac payload)))

  unfoldable pub sign_expiring : ℕ → Text → Result Fault ℕ → Result Fault Text
  sign_expiring i_xdr id (err f) = err f
  sign_expiring i_xdr id (ok expires_at) = sign_packed id (pack_header expires_at i_xdr)

  -- `sign`; no `call_recording_id` is the empty text.
  unfoldable pub sign : ℕ → ℕ → Text → Option ℕ → Result Fault Text
  sign now i_xdr id ttl = sign_expiring i_xdr id (expiry now ttl)

  unfoldable pub link_of : ℕ → ℕ → Option Text → Result Fault RecordingLink
  link_of expires_at i_xdr none = err crash
  link_of expires_at i_xdr (some id) =
      ok (record { i_xdr = i_xdr; call_recording_id = id; expires_at = expires_at })

  -- `verify`, from the split bytes on.
  unfoldable pub verify_split : ℕ → Bytes → Bytes → Result Fault RecordingLink
  verify_split now payload tag =
      let version = from_be 0 (take 1 payload) in
      let expires_at = from_be 0 (take 4 (drop 1 payload)) in
      let i_xdr = from_be 0 (take 8 (drop 5 payload)) in
      let link = link_of expires_at i_xdr (c.utf8_decode (drop header_size payload)) in
      if ltb (length payload) header_size || not (text_eq tag (mac payload))
      then err invalid
      else if not (version == 1)
      then err invalid
      else if not (expires_at == 0) && ltb (expires_at * second) now
      then err expired
      else link

  unfoldable pub verify_decoded : ℕ → Option Bytes → Result Fault RecordingLink
  verify_decoded now none = err invalid
  verify_decoded now (some raw) =
      let cut = length raw - mac_size in verify_split now (take cut raw) (drop cut raw)

  -- `verify`
  unfoldable pub verify : ℕ → Text → Result Fault RecordingLink
  verify now link_id = verify_decoded now (c.b64decode (pad link_id))
