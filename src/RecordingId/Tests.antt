-- ===== src/RecordingId/Tests.antt =====
-- The theorems on recording ids with the sample codec.
use porta_phone_adapter.Base.{◌≡◌, refl, inl, some, [], ◌∷◌, arith}
use porta_phone_adapter.Base.Eq.{Text}
use porta_phone_adapter.Codec.Sample.{codec}
use porta_phone_adapter.RecordingId.{compose_recording_id, parse_recording_id}
use porta_phone_adapter.RecordingId.Round.{compose_parse}

abbrev i_xdr : Text
i_xdr = b'4' ∷ b'2' ∷ []

abbrev conf_id : Text
conf_id = b'F' ∷ b' ' ∷ b'1' ∷ []

compose_parse_example :
    parse_recording_id codec (compose_recording_id codec i_xdr conf_id) ≡ some (i_xdr, some conf_id)
compose_parse_example =
    compose_parse codec i_xdr conf_id refl
      ((inl (omega arith)), ((inl (omega arith)), ((inl (omega arith)), tt)))
