-- ===== src/RecordingId.antt =====
-- app/bss/adapters/portaswitch/serializer.py: `compose_recording_id` and `parse_recording_id`. A
-- missing or empty `h323_conf_id` is the empty text, and `i_xdr` is given as `str` prints it.
pub mod Round
mod Tests
use porta_phone_adapter.Base.{
  ℕ, ◌≡◌, Bool, true, false, not, ◌&&◌, ◌||◌, Option, none, some, List, [], ◌∷◌, ◌++◌, ltb, leb,
  ◌==◌, if◌then◌else◌,
}
use porta_phone_adapter.Base.Eq.{Text}
use porta_phone_adapter.Codec.{Codec, Bytes, rstrip, pad}

-- `RECORDING_ID_SEPARATOR`
abbrev pub separator : ℕ
separator = b'|'

abbrev pub is_digit : ℕ → Bool
is_digit c = leb b'0' c && leb c b'9'

abbrev pub all_digits : Text → Bool
all_digits [] = true
all_digits (x ∷ xs) = is_digit x && all_digits xs

abbrev pub is_empty : Text → Bool
is_empty [] = true
is_empty (x ∷ xs) = false

-- `s.isascii() and s.isdigit()`
abbrev pub is_number : Text → Bool
is_number t = not (is_empty t) && all_digits t

-- `s.partition(sep)` for one character, none where the separator is missing.
abbrev onto : Bool → ℕ → Text → Option (Text × Text) → Option (Text × Text)
onto true x xs rest = some ([], xs)
onto false x xs none = none
onto false x xs (some (before, after)) = some (x ∷ before, after)

unfoldable pub partition : ℕ → Text → Option (Text × Text)
partition sep [] = none
partition sep (x ∷ xs) = onto (x == sep) x xs (partition sep xs)

-- The checks on the parts; none stands for the `ValueError`.
unfoldable pub checked : Option (Text × Text) → Option (Text × Option Text)
checked none = none
checked (some (i_xdr, conf_id)) =
    if not (is_number i_xdr) || is_empty conf_id then none else some (i_xdr, some conf_id)

module _ (c : Codec) where
  open c use {b64encode, b64decode, utf8_encode, utf8_decode}

  -- `compose_recording_id`
  unfoldable pub compose_recording_id : Text → Text → Text
  compose_recording_id i_xdr [] = i_xdr
  compose_recording_id i_xdr (x ∷ xs) =
      rstrip b'=' (b64encode (utf8_encode (i_xdr ++ (separator ∷ x ∷ xs))))

  unfoldable pub parse_text : Option Text → Option (Text × Option Text)
  parse_text none = none
  parse_text (some decoded) = checked (partition separator decoded)

  unfoldable pub parse_bytes : Option Bytes → Option (Text × Option Text)
  parse_bytes none = none
  parse_bytes (some raw) = parse_text (utf8_decode raw)

  -- `parse_recording_id`
  unfoldable pub parse_recording_id : Text → Option (Text × Option Text)
  parse_recording_id recording_id =
      if is_number recording_id
      then some (recording_id, none)
      else parse_bytes (b64decode (pad recording_id))
