-- ===== src/CallStatus.antt =====
-- app/bss/adapters/portaswitch/serializer.py: the direction, the status and the recording of a call
-- from its xDR. A mask of `bit_flags` is written by division.
pub mod Classes
mod Tests
use porta_phone_adapter.Base.{
  ℕ, zero, suc, ◌*◌, ◌/◌, ◌%◌, ◌≡◌, Bool, true, false, not, ◌&&◌, ◌||◌, List, [], ◌∷◌, ◌==◌,
  if◌then◌else◌,
}

-- `Direction` and `ConnectStatus`
pub data Direction : Type 0 where
  incoming outgoing forwarded unknown : Direction

pub data ConnectStatus : Type 0 where
  accepted declined missed error failed completed_elsewhere : ConnectStatus

abbrev pub is_outgoing : Direction → Bool
is_outgoing outgoing = true
is_outgoing incoming = false
is_outgoing forwarded = false
is_outgoing unknown = false

abbrev pub is_incoming : Direction → Bool
is_incoming incoming = true
is_incoming outgoing = false
is_incoming forwarded = false
is_incoming unknown = false

-- An xDR row; an empty list of `cr_download_ids` is a missing one.
pub record Cdr : Type 0 where
  pub bit_flags : ℕ
  pub disconnect_cause : ℕ
  pub failed_flag : ℕ
  pub cr_download_ids : List ℕ

-- `parse_cdr_direction`; the masked value is `bit_flags & 12`.
unfoldable pub parse_cdr_direction : Cdr → Direction
parse_cdr_direction cdr =
    let masked_value = cdr.bit_flags / 4 % 4 * 4 in
    if masked_value == 4
    then outgoing
    else if masked_value == 8
    then incoming
    else if masked_value == 12
    then forwarded
    else unknown

-- `_xdr_to_call_status`
unfoldable pub xdr_to_call_status : Bool → ℕ → Direction → ConnectStatus
xdr_to_call_status has_failed cause direction =
    if has_failed && is_outgoing direction && cause == 1
    then failed
    else if has_failed && (cause == 16 || cause == 17)
    then declined
    else if has_failed && cause == 21 && is_incoming direction
    then declined
    else if has_failed && (cause == 18 || cause == 19)
    then missed
    else if has_failed && cause == 130
    then completed_elsewhere
    else if not has_failed && cause == 16
    then accepted
    else error

-- `parse_call_status`
unfoldable pub parse_call_status : Cdr → ConnectStatus
parse_call_status cdr =
    xdr_to_call_status (cdr.failed_flag == 1) (cdr.disconnect_cause) (parse_cdr_direction cdr)

abbrev pub any_id : List ℕ → Bool
any_id [] = false
any_id (i ∷ is) = true

-- `_call_recording_exist`; bit 64 of the flags.
unfoldable pub call_recording_exist : Bool → Cdr → Bool
call_recording_exist by_cr_download_ids cdr =
    if by_cr_download_ids then any_id cdr.cr_download_ids else not (cdr.bit_flags / 64 % 2 == 0)
