-- ===== src/Portaswitch/Calls/Listed.antt =====
-- app/bss/adapters/portaswitch/adapter.py: what a listed call says of its recording, and a history
-- that is cleared.
use porta_phone_adapter.Base.{
  ◌≤◌, ◌≡◌, refl, sym, ap, ◌∙◌, Bool, true, Option, none, some, [], le→leb, if◌then◌else◌,
  Bool-cases, inl, inr,
}
use porta_phone_adapter.Base.Eq.{Text}
use porta_phone_adapter.Base.Result.{ok}
use porta_phone_adapter.CallHistory.{Datetime, call_history_range}
use porta_phone_adapter.CallStatus.{call_recording_exist}
use porta_phone_adapter.Codec.{Codec, AreChars}
use porta_phone_adapter.RecordingId.{compose_recording_id, parse_recording_id, is_number}
use porta_phone_adapter.RecordingId.Round.{compose_parse}
use porta_phone_adapter.Release.{VersionCache}
use porta_phone_adapter.Portaswitch.Recordings.{
  Media, caught, recording_fault, read_recording, retrieve_call_recording,
}
use porta_phone_adapter.Portaswitch.Calls.{
  XdrRow, Page, Now, XdrList, get_cdr_info, is_given, retrieve_calls,
}

-- A listed call with a recording id is one that the switch has recorded, and the id opens it: for a
-- row whose `i_xdr` prints as a number and whose conference id has encodable characters, a request
-- for the recording of that id, with any token, asks the switch for the `i_xdr` of this row and
-- no other.
pub listed_recording_opens :
    (c : Codec) (media : Media) (token : Text) (by_cr_download_ids : Bool) (row : XdrRow)
    (id : Text)
    → is_number row.i_xdr ≡ true
    → AreChars row.conf_id
    → (get_cdr_info c by_cr_download_ids row).recording_id ≡ some id
    → (call_recording_exist by_cr_download_ids row.cdr ≡ true)
      × (retrieve_call_recording c media token id
          ≡ caught recording_fault (media.recording token row.i_xdr))
unfolding get_cdr_info retrieve_call_recording
listed_recording_opens c media token by row id n chars h =
    elim (Bool-cases (call_recording_exist by row.cdr)) [
      | inl recorded ↦
          let named : some (compose_recording_id c row.i_xdr row.conf_id) ≡ some id =
            sym (
              ap (λ b. if b then some (compose_recording_id c row.i_xdr row.conf_id) else none)
                recorded)
            ∙ h in
          let same : compose_recording_id c row.i_xdr row.conf_id ≡ id = cc in
          (
            recorded,
            ap (λ t. read_recording c media token (parse_recording_id c t)) (sym same)
                ∙ ap (read_recording c media token) (compose_parse c row.i_xdr row.conf_id n chars),
          )
      | inr other ↦
          let lost : ◌≡◌ {A = Option Text} none (some id) =
            sym (
              ap (λ b. if b then some (compose_recording_id c row.i_xdr row.conf_id) else none)
                other)
            ∙ h in
          cc
    ]

-- Where the history was cleared up to the end of the range that is asked for, the answer is empty:
-- no request goes to the switch, and its release is not read.
pub cleared_range_empty :
    (c : Codec) (xdrs : XdrList) (now : Now) (request : Page) (floor : Datetime)
    (cache : VersionCache)
    → request.time_floor ≡ some floor
    → (call_history_range now.utc now.window_hours request.time_from request.time_to
        request.time_floor).1
      ≤ (call_history_range now.utc now.window_hours request.time_from request.time_to
          request.time_floor).0
    → retrieve_calls c xdrs now request cache ≡ (ok ([], 0), cache)
unfolding retrieve_calls
cleared_range_empty c xdrs now request floor cache given past =
    let set : is_given request.time_floor ≡ true = ap is_given given in
    let empty = le→leb _ _ past in rw (set, empty) refl
