-- ===== src/CallStatus/Tests.antt =====
-- The theorem on call statuses at a concrete row.
use porta_phone_adapter.Base.{◌/◌, ◌%◌, ◌≡◌, ◌≢◌, ◌↔◌, ◌⊎◌, []}
use porta_phone_adapter.CallStatus.{
  Cdr, parse_call_status, accepted, completed_elsewhere, failed, declined,
}
use porta_phone_adapter.CallStatus.Classes.{status_classes}

-- An incoming call that the callee declined.
abbrev cdr : Cdr
cdr = record { bit_flags = 8; disconnect_cause = 21; failed_flag = 1; cr_download_ids = [] }

status_classes_example :
    ((parse_call_status cdr ≡ accepted) ↔ ((cdr.failed_flag ≢ 1) × (cdr.disconnect_cause ≡ 16)))
    × ((parse_call_status cdr ≡ completed_elsewhere)
        ↔ ((cdr.failed_flag ≡ 1) × (cdr.disconnect_cause ≡ 130)))
    × ((parse_call_status cdr ≡ failed)
        ↔ ((cdr.failed_flag ≡ 1) × (cdr.disconnect_cause ≡ 1) × (cdr.bit_flags / 4 % 4 ≡ 1)))
    × ((parse_call_status cdr ≡ declined) ↔ (
        (cdr.failed_flag ≡ 1)
        × ((cdr.disconnect_cause ≡ 16)
            ⊎ (cdr.disconnect_cause ≡ 17)
            ⊎ ((cdr.disconnect_cause ≡ 21) × (cdr.bit_flags / 4 % 4 ≡ 2)))))
status_classes_example = status_classes cdr
