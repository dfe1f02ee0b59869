-- ===== src/RecordingLink/Tests.antt =====
-- The theorems on recording links with the sample codec and digest.
use porta_phone_adapter.Base.{
  ◌*◌, ◌≤◌, ◌≡◌, refl, ◌⊎◌, inl, inr, some, [], ◌∷◌, ◌++◌, arith, length,
}
use porta_phone_adapter.Base.Eq.{Text}
use porta_phone_adapter.Base.Result.{ok}
use porta_phone_adapter.Codec.{Bytes, pad}
use porta_phone_adapter.Codec.Sample.{codec, hmac}
use porta_phone_adapter.RecordingLink.{RecordingLink, second, expiry, mac, sign, verify}
use porta_phone_adapter.RecordingLink.Round.{issued_link_opens, accepted_link_is_signed}

abbrev id : Text
id = b'F' ∷ b'1' ∷ []

-- A link for call 42, issued at second 100 for 60 seconds.
abbrev link : RecordingLink
link = record { i_xdr = 42; call_recording_id = id; expires_at = 160 }

issued_link_opens_example :
    (t : Text) × (sign codec hmac 100000000 42 id (some 60) ≡ ok t)
    × (verify codec hmac 160000000 t ≡ ok link)
unfolding expiry
issued_link_opens_example =
    issued_link_opens codec hmac 100000000 160000000 160 42 id (some 60)
      ((inl (omega arith)), ((inl (omega arith)), tt)) refl (omega arith) (omega arith)
      (inr (omega arith))

-- The issued link itself.
issue :
    (t : Text) × (sign codec hmac 100000000 42 id (some 60) ≡ ok t)
    × (verify codec hmac 160000000 t ≡ ok link)
unfolding expiry
issue =
    issued_link_opens codec hmac 100000000 160000000 160 42 id (some 60)
      ((inl (omega arith)), ((inl (omega arith)), tt)) refl (omega arith) (omega arith)
      (inr (omega arith))

accepted_link_is_signed_example :
    (payload : Bytes) × (codec.b64decode (pad (issue.0)) ≡ some (payload ++ mac codec hmac payload))
    × (13 ≤ length payload)
    × ((link.expires_at ≡ 0) ⊎ (160000000 ≤ link.expires_at * second))
accepted_link_is_signed_example =
    accepted_link_is_signed codec hmac 160000000 (issue.0) link (issue.2)
