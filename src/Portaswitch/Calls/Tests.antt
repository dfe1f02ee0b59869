-- ===== src/Portaswitch/Calls/Tests.antt =====
-- The theorem on listed recordings at one recorded call.
use porta_phone_adapter.Base.{◌≡◌, refl, inl, true, none, some, [], ◌∷◌, arith}
use porta_phone_adapter.Base.Eq.{Text, codes}
use porta_phone_adapter.Base.Result.{ok, err}
use porta_phone_adapter.CallStatus.{call_recording_exist}
use porta_phone_adapter.Codec.Sample.{codec}
use porta_phone_adapter.RecordingId.{compose_recording_id}
use porta_phone_adapter.Portaswitch.{untraced}
use porta_phone_adapter.Portaswitch.Recordings.{
  Media, caught, recording_fault, retrieve_call_recording,
}
use porta_phone_adapter.Portaswitch.Calls.{XdrRow, get_cdr_info}
use porta_phone_adapter.Portaswitch.Calls.Listed.{listed_recording_opens}

abbrev row : XdrRow
row = record {
  cdr = record { bit_flags = 72; disconnect_cause = 16; failed_flag = 0; cr_download_ids = 3 ∷ [] };
  call_id = none;
  caller = codes "100";
  callee = codes "200";
  connect_time = 10;
  disconnect_time = 20;
  disconnect_reason = [];
  charged_quantity = 10;
  i_xdr = codes "42";
  conf_id = codes "F1";
}

abbrev media : Media
media = record {
  Answer = Text;
  recording = λ token i_xdr. ok i_xdr;
  transcription = λ token key format check_only. err untraced;
  linked_recording = λ i_xdr. ok none;
  linked_transcription = λ key format check_only. err untraced;
}

abbrev id : Text
id = compose_recording_id codec (codes "42") (codes "F1")

listed : (get_cdr_info codec true row).recording_id ≡ some id
unfolding get_cdr_info call_recording_exist
listed = refl

listed_recording_opens_example :
    (call_recording_exist true row.cdr ≡ true)
    × (retrieve_call_recording codec media (codes "t") id
        ≡ caught recording_fault (ok (codes "42")))
listed_recording_opens_example =
    listed_recording_opens codec media (codes "t") true row id refl
      ((inl (omega arith)), ((inl (omega arith)), tt)) listed
