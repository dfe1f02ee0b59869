-- ===== src/CallStatus/Classes.antt =====
-- Which xDR rows have which status.
use porta_phone_adapter.Base.{◌/◌, ◌%◌, ◌≡◌, ◌≢◌, ◌↔◌, ◌⊎◌, arith}
use porta_phone_adapter.CallStatus.{
  accepted, declined, failed, completed_elsewhere, Cdr, parse_cdr_direction, xdr_to_call_status,
  parse_call_status,
}

-- The statuses by what the billing reports: a call is accepted exactly if it has not failed and
-- its cause is 16; completed elsewhere exactly if it has failed with cause 130; failed exactly if
-- it has failed with cause 1 and is outgoing; and declined exactly if it has failed with cause 16
-- or 17, or with cause 21 and is incoming.
pub status_classes :
    (cdr : Cdr)
    → ((parse_call_status cdr ≡ accepted) ↔ ((cdr.failed_flag ≢ 1) × (cdr.disconnect_cause ≡ 16)))
      × ((parse_call_status cdr ≡ completed_elsewhere)
          ↔ ((cdr.failed_flag ≡ 1) × (cdr.disconnect_cause ≡ 130)))
      × ((parse_call_status cdr ≡ failed)
          ↔ ((cdr.failed_flag ≡ 1) × (cdr.disconnect_cause ≡ 1) × (cdr.bit_flags / 4 % 4 ≡ 1)))
      × ((parse_call_status cdr ≡ declined) ↔ (
          (cdr.failed_flag ≡ 1)
          × ((cdr.disconnect_cause ≡ 16)
              ⊎ (cdr.disconnect_cause ≡ 17)
              ⊎ ((cdr.disconnect_cause ≡ 21) × (cdr.bit_flags / 4 % 4 ≡ 2)))))
unfolding parse_call_status parse_cdr_direction xdr_to_call_status
status_classes cdr = (ground arith, ground arith, ground arith, ground arith)
