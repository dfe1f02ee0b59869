-- ===== src/Portaswitch/Recordings.antt =====
-- app/bss/adapters/portaswitch/adapter.py: the recording of a call and its transcription, read by
-- the user's own session or by a public link. What the switch answers at the time of a request is a
-- parameter, `Media`; an answer that is streamed counts as read when the switch gives it.
mod Links
mod Tests
use porta_phone_adapter.Base.{
  ℕ, ◌+◌, ◌-◌, ◌*◌, Bool, true, false, Option, none, some, List, [], ◌∷◌,
}
use porta_phone_adapter.Base.Eq.{Text}
use porta_phone_adapter.Base.Result.{Result, ok, err}
use porta_phone_adapter.Codec.{Codec}
use porta_phone_adapter.RecordingId.{parse_recording_id}
use porta_phone_adapter.RecordingLink.{
  RecordingLink, Hmac, sign, verify, Fault as LinkFault, invalid, expired, bad_ttl,
  crash as link_crash,
}
use porta_phone_adapter.Portaswitch.{
  Fault, Failure, adapter, billing, untraced, handled, token_rejected, xdr_not_found,
  invalid_call_recording_id, transcription_not_found, forbidden_account_access,
}

-- `get_call_recording` and `get_call_transcription` in the account realm with an access token, and
-- in the admin realm.
pub record Media : Type 1 where
  pub Answer : Type 0
  pub recording : Text → Text → Result Failure Answer
  -- The token, the key, the format and whether only the existence is asked.
  pub transcription : Text → Text → Option Text → Bool → Result Failure Answer
  -- None where the answer is no stream.
  pub linked_recording : ℕ → Result Failure (Option Answer)
  pub linked_transcription : Text → Option Text → Bool → Result Failure Answer

abbrev pub invalid_recording_id : Failure
invalid_recording_id = adapter 422 (some "validation_error")

abbrev pub access_token_expired : Failure
access_token_expired = adapter 401 (some "access_token_expired")

abbrev pub not_found_recording : Failure
not_found_recording = adapter 404 none

abbrev pub forbidden_recording : Failure
forbidden_recording = adapter 403 (some "forbidden_account_access")

abbrev pub links_not_configured : Failure
links_not_configured = adapter 501 (some "recording_links_not_configured")

abbrev pub link_not_found : Failure
link_not_found = adapter 404 (some "recording_link_not_found")

abbrev pub link_expired : Failure
link_expired = adapter 410 (some "recording_link_expired")

abbrev pub linked_transcription_not_found : Failure
linked_transcription_not_found = adapter 404 (some "transcription_not_found")

-- What each handler makes of a fault code.
abbrev pub recording_fault : Fault → Option Failure
recording_fault token_rejected = some access_token_expired
recording_fault xdr_not_found = some not_found_recording
recording_fault invalid_call_recording_id = some not_found_recording
recording_fault forbidden_account_access = some forbidden_recording
recording_fault _ = none

abbrev pub transcription_fault : Fault → Option Failure
transcription_fault token_rejected = some access_token_expired
transcription_fault xdr_not_found = some not_found_recording
transcription_fault invalid_call_recording_id = some not_found_recording
transcription_fault transcription_not_found = some not_found_recording
transcription_fault forbidden_account_access = some forbidden_recording
transcription_fault _ = none

abbrev pub linked_recording_fault : Fault → Option Failure
linked_recording_fault xdr_not_found = some link_not_found
linked_recording_fault invalid_call_recording_id = some link_not_found
linked_recording_fault _ = none

abbrev pub linked_transcription_fault : Fault → Option Failure
linked_transcription_fault xdr_not_found = some link_not_found
linked_transcription_fault invalid_call_recording_id = some linked_transcription_not_found
linked_transcription_fault transcription_not_found = some linked_transcription_not_found
linked_transcription_fault _ = none

abbrev pub caught : {A : Type 0} → (Fault → Option Failure) → Result Failure A → Result Failure A
caught by (ok a) = ok a
caught by (err f) = err (handled by f)

abbrev pub and_then : {A B : Type 0} → Result Failure A → (A → Result Failure B) → Result Failure B
and_then (ok a) f = f a
and_then (err e) f = err e

-- `int(i_xdr)` of the digits that `parse_recording_id` gives.
abbrev pub to_number : ℕ → Text → ℕ
to_number n [] = n
to_number n (c ∷ t) = to_number (n * 10 + (c - b'0')) t

module _ (c : Codec) (media : Media) (token : Text) where
  abbrev pub read_recording : Option (Text × Option Text) → Result Failure media.Answer
  read_recording none = err invalid_recording_id
  read_recording (some (i_xdr, key)) = caught recording_fault (media.recording token i_xdr)

  -- `retrieve_call_recording`
  unfoldable pub retrieve_call_recording : Text → Result Failure media.Answer
  retrieve_call_recording recording_id = read_recording (parse_recording_id c recording_id)

  abbrev pub read_transcription :
      Option Text → Bool → Option (Text × Option Text) → Result Failure media.Answer
  read_transcription format check_only none = err invalid_recording_id
  read_transcription format check_only (some (i_xdr, none)) = err not_found_recording
  read_transcription format check_only (some (i_xdr, some key)) =
      caught transcription_fault (media.transcription token key format check_only)

  -- `retrieve_call_transcription`
  unfoldable pub retrieve_call_transcription :
      Text → Option Text → Bool → Result Failure media.Answer
  retrieve_call_transcription recording_id format check_only =
      read_transcription format check_only (parse_recording_id c recording_id)

-- What the handler of `_own_call_recording_id` makes of an error.
abbrev pub own_fault : Text → Fault → Result Failure (Option Text)
own_fault key token_rejected = err access_token_expired
own_fault key forbidden_account_access = err forbidden_recording
own_fault key transcription_not_found = ok (some key)
own_fault key xdr_not_found = ok none
own_fault key invalid_call_recording_id = ok none
own_fault key code = err (billing code)

abbrev pub own_failure : Text → Failure → Result Failure (Option Text)
own_failure key (billing code) = own_fault key code
own_failure key (adapter status code) = err (adapter status code)
own_failure key untraced = err untraced
own_failure key Failure.crash = err Failure.crash

abbrev pub own_answer : {A : Type 0} → Text → Result Failure A → Result Failure (Option Text)
own_answer key (ok answer) = ok (some key)
own_answer key (err f) = own_failure key f

-- `_own_call_recording_id`
unfoldable pub own_call_recording_id : (media : Media) → Text → Text → Result Failure (Option Text)
own_call_recording_id media token key = own_answer key (media.transcription token key none true)

abbrev pub key_or_empty : Option Text → Text
key_or_empty none = []
key_or_empty (some key) = key

abbrev pub has_key : Option Text → Bool
has_key none = false
has_key (some key) = true

abbrev pub signed : Result LinkFault Text → Option Text → Result Failure (Text × Bool)
signed (ok link_id) key = ok (link_id, has_key key)
signed (err f) key = err Failure.crash

-- The key that goes into a link, asked for where there is one and transcriptions are a capability.
abbrev pub linked_key : Media → Bool → Text → Option Text → Result Failure (Option Text)
linked_key media capable token none = ok none
linked_key media false token (some key) = ok none
linked_key media true token (some key) = own_call_recording_id media token key

module _ (c : Codec) (h : Hmac) where
  abbrev pub sign_own :
      (media : Media)
      → Bool
      → ℕ
      → Text
      → Option ℕ
      → Text
      → Option Text
      → Result Failure (Text × Bool)
  sign_own media capable now token ttl i_xdr key =
      and_then (linked_key media capable token key)
        (λ own. signed (sign c h now (to_number 0 i_xdr) (key_or_empty own) ttl) own)

  abbrev pub issue_parsed :
      (media : Media)
      → Bool
      → ℕ
      → Text
      → Text
      → Option ℕ
      → Option (Text × Option Text)
      → Result Failure (Text × Bool)
  issue_parsed media capable now token recording_id ttl none = err invalid_recording_id
  issue_parsed media capable now token recording_id ttl (some (i_xdr, key)) =
      and_then (retrieve_call_recording c media token recording_id)
        (λ answer. sign_own media capable now token ttl i_xdr key)

-- `issue_recording_link`; no signer without SECRET_KEY_BASE.
unfoldable pub issue_recording_link :
    Codec → Option Hmac → Media → Bool → ℕ → Text → Text → Option ℕ → Result Failure (Text × Bool)
issue_recording_link c none media capable now token recording_id ttl = err links_not_configured
issue_recording_link c (some h) media capable now token recording_id ttl =
    issue_parsed c h media capable now token recording_id ttl (parse_recording_id c recording_id)

abbrev pub link_verdict : Result LinkFault RecordingLink → Result Failure RecordingLink
link_verdict (ok link) = ok link
link_verdict (err invalid) = err link_not_found
link_verdict (err expired) = err link_expired
link_verdict (err bad_ttl) = err Failure.crash
link_verdict (err link_crash) = err Failure.crash

-- `_verify_recording_link`
unfoldable pub verify_recording_link : Codec → Option Hmac → ℕ → Text → Result Failure RecordingLink
verify_recording_link c none now link_id = err links_not_configured
verify_recording_link c (some h) now link_id = link_verdict (verify c h now link_id)

abbrev pub streamed : {A : Type 0} → Option A → Result Failure A
streamed none = err link_not_found
streamed (some answer) = ok answer

module _ (c : Codec) (signer : Option Hmac) (media : Media) (now : ℕ) where
  -- `retrieve_linked_call_recording`
  unfoldable pub retrieve_linked_call_recording : Text → Result Failure media.Answer
  retrieve_linked_call_recording link_id =
      and_then (verify_recording_link c signer now link_id) (λ link.
        and_then (caught linked_recording_fault (media.linked_recording link.i_xdr)) streamed)

  abbrev pub read_linked : Option Text → Bool → Text → Result Failure media.Answer
  read_linked format check_only [] = err linked_transcription_not_found
  read_linked format check_only (k ∷ key) =
      caught linked_transcription_fault (media.linked_transcription (k ∷ key) format check_only)

  -- `retrieve_linked_call_transcription`
  unfoldable pub retrieve_linked_call_transcription :
      Text → Option Text → Bool → Result Failure media.Answer
  retrieve_linked_call_transcription link_id format check_only =
      and_then (verify_recording_link c signer now link_id)
        (λ link. read_linked format check_only link.call_recording_id)
