-- ===== src/Portaswitch/Recordings/Links.antt =====
-- app/bss/adapters/portaswitch/adapter.py: for whom a public link is issued, and what it opens.
use porta_phone_adapter.Base.{
  ℕ, ◌*◌, ◌^◌, ◌≤◌, ◌<◌, ◌≡◌, refl, sym, ap, subst, ◌∙◌, ◌⊎◌, inl, inr, Bool, true, false, Option,
  none, some, [], arith,
}
use porta_phone_adapter.Base.Eq.{Text}
use porta_phone_adapter.Base.Result.{Result, ok, err}
use porta_phone_adapter.Codec.{Codec, AreChars}
use porta_phone_adapter.RecordingId.{parse_recording_id}
use porta_phone_adapter.RecordingLink.{Hmac, sign, second, expiry, Fault as LinkFault}
use porta_phone_adapter.RecordingLink.Round.{issued_link_opens}
use porta_phone_adapter.Portaswitch.{
  Fault, Failure, billing, handled, transcription_not_found, forbidden_account_access,
}
use porta_phone_adapter.Portaswitch.Recordings.{
  Media, caught, and_then, to_number, retrieve_call_recording, read_recording, own_answer,
  own_failure, own_call_recording_id, key_or_empty, has_key, signed, linked_key, sign_own,
  issue_parsed, issue_recording_link, verify_recording_link, retrieve_linked_call_recording,
  recording_fault, forbidden_recording,
}

and_then-ok :
    {A B : Type 0} (r : Result Failure A) (f : A → Result Failure B) (b : B)
    → and_then r f ≡ ok b
    → (a : A) × (r ≡ ok a) × (f a ≡ ok b)
and_then-ok (ok a) f b h = (a, refl, h)
and_then-ok (err e) f b h = cc

caught-ok :
    {A : Type 0} (by : Fault → Option Failure) (r : Result Failure A) (a : A)
    → caught by r ≡ ok a
    → r ≡ ok a
caught-ok by (ok b) a h = h
caught-ok by (err f) a h = cc

-- A key that goes into a link: the switch has answered the session of the user about this very
-- transcript, that there is one, or that there is none yet.
abbrev pub Answered : (media : Media) → Text → Text → Type 0
Answered media token key =
    ((answer : media.Answer) × (media.transcription token key none true ≡ ok answer))
    ⊎ (media.transcription token key none true ≡ err (billing transcription_not_found))

own_failure-key :
    (key own : Text) (f : Failure)
    → own_failure key f ≡ ok (some own)
    → (own ≡ key) × (f ≡ billing transcription_not_found)
own_failure-key key own f h = ground arith

own-Answered :
    (media : Media) (token key own : Text)
    → own_call_recording_id media token key ≡ ok (some own)
    → (own ≡ key) × Answered media token key
unfolding own_call_recording_id
own-Answered media token key own h = answered (media.transcription token key none true) refl h
  where
    answered :
        (r : Result Failure media.Answer)
        → media.transcription token key none true ≡ r
        → own_answer key r ≡ ok (some own)
        → (own ≡ key) × Answered media token key
    answered (ok answer) e h = (cc, inl (answer, e))
    answered (err f) e h =
        let (same, fault) = own_failure-key key own f h in (same, inr (e ∙ ap err fault))

module _ (c : Codec) (media : Media) (token : Text) where
  -- What a link without and with a transcript is signed for: the call, and no transcript or the
  -- one that the switch has answered for.
  abbrev pub SignedFor : Hmac → ℕ → Option ℕ → Text → Option Text → Text → Bool → Type 0
  SignedFor h now ttl i_xdr key link_id with_transcript =
      ((with_transcript ≡ false) × (sign c h now (to_number 0 i_xdr) [] ttl ≡ ok link_id))
      ⊎ ((with_transcript ≡ true)
          × ((own : Text) × (key ≡ some own)
              × Answered media token own
              × (sign c h now (to_number 0 i_xdr) own ttl ≡ ok link_id)))

module _ (c : Codec) (media : Media) (token recording_id : Text) where
  own_key :
      (capable : Bool) (key : Option Text) (own : Text)
      → linked_key media capable token key ≡ ok (some own)
      → (key ≡ some own) × Answered media token own
  own_key capable none own e = cc
  own_key false (some k) own e = cc
  own_key true (some k) own e =
      let (same, answered) = own-Answered media token k own e in
      (ap some (sym same), subst (Answered media token) (sym same) answered)

  signed-ok :
      (r : Result LinkFault Text) (own : Option Text) (link_id : Text) (with_transcript : Bool)
      → signed r own ≡ ok (link_id, with_transcript)
      → (r ≡ ok link_id) × (with_transcript ≡ has_key own)
  signed-ok (ok l) own link_id with_transcript e = ((cc), (cc))
  signed-ok (err f) own link_id with_transcript e = cc

  signed_for :
      (h : Hmac) (capable : Bool) (now : ℕ) (ttl : Option ℕ) (i_xdr : Text) (key own : Option Text)
      (link_id : Text) (with_transcript : Bool)
      → linked_key media capable token key ≡ ok own
      → signed (sign c h now (to_number 0 i_xdr) (key_or_empty own) ttl) own
        ≡ ok (link_id, with_transcript)
      → SignedFor c media token h now ttl i_xdr key link_id with_transcript
  signed_for h capable now ttl i_xdr key none link_id with_transcript e q =
      let (r, flag) = signed-ok _ none link_id with_transcript q in inl (flag, r)
  signed_for h capable now ttl i_xdr key (some own) link_id with_transcript e q =
      let (r, flag) = signed-ok _ (some own) link_id with_transcript q in
      let (same, answered) = own_key capable key own e in inr (flag, (own, same, answered, r))

  -- Where a link is issued: the recording id names a call whose recording the switch has given to
  -- the session of the user, and the link is what `sign` makes for that very call: either without a
  -- transcript, or with the key of the id, about which the switch has answered that session that
  -- there is a transcript, or none yet.
  pub link_needs_own_call :
      (h : Hmac) (capable : Bool) (now : ℕ) (ttl : Option ℕ) (link_id : Text)
      (with_transcript : Bool)
      → issue_recording_link c (some h) media capable now token recording_id ttl
        ≡ ok (link_id, with_transcript)
      → (i_xdr : Text) × (key : Option Text) × (parse_recording_id c recording_id
          ≡ some (i_xdr, key))
        × ((answer : media.Answer) × (media.recording token i_xdr ≡ ok answer))
        × SignedFor c media token h now ttl i_xdr key link_id with_transcript
  unfolding issue_recording_link retrieve_call_recording
  link_needs_own_call h capable now ttl link_id with_transcript issued =
      parsed (parse_recording_id c recording_id) refl issued
    where
      parsed :
          (p : Option (Text × Option Text))
          → parse_recording_id c recording_id ≡ p
          → issue_parsed c h media capable now token recording_id ttl p
            ≡ ok (link_id, with_transcript)
          → (i_xdr : Text) × (key : Option Text) × (parse_recording_id c recording_id
              ≡ some (i_xdr, key))
            × ((answer : media.Answer) × (media.recording token i_xdr ≡ ok answer))
            × SignedFor c media token h now ttl i_xdr key link_id with_transcript
      parsed none e q = cc
      parsed (some (i_xdr, key)) e q =
          let (answer, e1, q1) =
            and_then-ok (retrieve_call_recording c media token recording_id)
              (λ answer. sign_own c h media capable now token ttl i_xdr key)
              (link_id, with_transcript) q in
          let given =
            caught-ok recording_fault (media.recording token i_xdr) answer
              (sym (ap (read_recording c media token) e) ∙ e1) in
          let (own, e2, q2) =
            and_then-ok (linked_key media capable token key)
              (λ own. signed (sign c h now (to_number 0 i_xdr) (key_or_empty own) ttl) own)
              (link_id, with_transcript) q1 in
          (
            i_xdr,
            key,
            e,
            (answer, given),
            signed_for h capable now ttl i_xdr key own link_id with_transcript e2 q2,
          )

  -- A link that was issued opens the recording for everybody until it expires: with a time to live
  -- that gives an expiry of 32 bits, a call number of 64 and a key of encodable characters,
  -- `retrieve_linked_call_recording` asks the switch, with the admin token, for exactly the call
  -- that the recording id names, and gives what it answers.
  pub issued_link_serves :
      (h : Hmac) (capable : Bool) (now later e : ℕ) (ttl : Option ℕ) (i_xdr : Text)
      (key own : Option Text) (answer : media.Answer) (media' : Media) (served : media'.Answer)
      → parse_recording_id c recording_id ≡ some (i_xdr, key)
      → media.recording token i_xdr ≡ ok answer
      → linked_key media capable token key ≡ ok own
      → AreChars (key_or_empty own)
      → expiry now ttl ≡ ok e
      → e < 256 ^ 4
      → to_number 0 i_xdr < 256 ^ 8
      → (e ≡ 0) ⊎ (later ≤ e * second)
      → media'.linked_recording (to_number 0 i_xdr) ≡ ok (some served)
      → (link_id : Text) × (issue_recording_link c (some h) media capable now token recording_id ttl
          ≡ ok (link_id, has_key own))
        × (retrieve_linked_call_recording c (some h) media' later link_id ≡ ok served)
  unfolding issue_recording_link retrieve_call_recording retrieve_linked_call_recording
      verify_recording_link
  issued_link_serves h capable now later e ttl i_xdr key own answer media' served p r l chars x he
        hi valid given =
      let (link_id, signed_ok, opened) =
        issued_link_opens c h now later e (to_number 0 i_xdr) (key_or_empty own) ttl chars x he hi
          valid in
      (link_id, rw (p, p, r, l, signed_ok) refl, rw (opened, given) refl)

  -- A recording of another account: whatever else the id carries, no link to it is issued, and the
  -- answer is 403 forbidden_account_access.
  pub foreign_call_refused :
      (h : Hmac) (capable : Bool) (now : ℕ) (ttl : Option ℕ) (i_xdr : Text) (key : Option Text)
      → parse_recording_id c recording_id ≡ some (i_xdr, key)
      → media.recording token i_xdr ≡ err (billing forbidden_account_access)
      → issue_recording_link c (some h) media capable now token recording_id ttl
        ≡ err forbidden_recording
  unfolding issue_recording_link retrieve_call_recording handled
  foreign_call_refused h capable now ttl i_xdr key p r = rw (p, p, r) refl
