-- ===== src/Portaswitch/Recordings/Tests.antt =====
-- The theorems on the public links with the sample codec and digest.
use porta_phone_adapter.Base.{
  ℕ, ◌≡◌, refl, inl, inr, true, Option, none, some, arith, ◌==◌, if◌then◌else◌,
}
use porta_phone_adapter.Base.Eq.{Text, codes, text_eq}
use porta_phone_adapter.Base.Result.{ok, err}
use porta_phone_adapter.Codec.Sample.{codec, hmac}
use porta_phone_adapter.RecordingId.{parse_recording_id, compose_recording_id}
use porta_phone_adapter.RecordingId.Round.{compose_parse}
use porta_phone_adapter.RecordingLink.{expiry}
use porta_phone_adapter.Portaswitch.{billing, transcription_not_found, forbidden_account_access}
use porta_phone_adapter.Portaswitch.Recordings.{
  Media, issue_recording_link, retrieve_linked_call_recording, own_call_recording_id,
}
use porta_phone_adapter.Portaswitch.Recordings.Links.{
  SignedFor, link_needs_own_call, issued_link_serves,
}

-- One call, 42, of the user; its transcript is not ready. In the admin realm the recording is there.
abbrev media : Media
media = record {
  Answer = ℕ;
  recording = λ token i_xdr.
      if text_eq i_xdr (codes "42") then ok 1 else err (billing forbidden_account_access);
  transcription = λ token key format check_only. err (billing transcription_not_found);
  linked_recording = λ i_xdr. ok (if i_xdr == 42 then some 5 else none);
  linked_transcription = λ key format check_only. err (billing transcription_not_found);
}

abbrev id : Text
id = compose_recording_id codec (codes "42") (codes "F1")

parsed : parse_recording_id codec id ≡ some (codes "42", some (codes "F1"))
parsed =
    compose_parse codec (codes "42") (codes "F1") refl
      ((inl (omega arith)), ((inl (omega arith)), tt))

issued_link_serves_example :
    (link_id : Text) × (issue_recording_link codec
        (some hmac)
        media
        true
        100000000
        (codes "t")
        id
        (some 60)
      ≡ ok (link_id, true))
    × (retrieve_linked_call_recording codec (some hmac) media 160000000 link_id ≡ ok 5)
unfolding expiry text_eq own_call_recording_id
issued_link_serves_example =
    issued_link_serves codec media (codes "t") id hmac true 100000000 160000000 160 (some 60)
      (codes "42") (some (codes "F1")) (some (codes "F1")) 1 media 5 parsed refl refl
      ((inl (omega arith)), ((inl (omega arith)), tt)) refl (omega arith) (omega arith)
      (inr (omega arith)) refl

issued :
    (link_id : Text) × (issue_recording_link codec
        (some hmac)
        media
        true
        100000000
        (codes "t")
        id
        (some 60)
      ≡ ok (link_id, true))
    × (retrieve_linked_call_recording codec (some hmac) media 160000000 link_id ≡ ok 5)
unfolding expiry text_eq own_call_recording_id
issued =
    issued_link_serves codec media (codes "t") id hmac true 100000000 160000000 160 (some 60)
      (codes "42") (some (codes "F1")) (some (codes "F1")) 1 media 5 parsed refl refl
      ((inl (omega arith)), ((inl (omega arith)), tt)) refl (omega arith) (omega arith)
      (inr (omega arith)) refl

link_needs_own_call_example :
    (i_xdr : Text) × (key : Option Text) × (parse_recording_id codec id ≡ some (i_xdr, key))
    × ((answer : ℕ) × (media.recording (codes "t") i_xdr ≡ ok answer))
    × SignedFor codec media (codes "t") hmac 100000000 (some 60) i_xdr key (issued.0) true
link_needs_own_call_example =
    link_needs_own_call codec media (codes "t") id hmac true 100000000 (some 60) (issued.0) true
      (issued.1)
