-- ===== src/Portaswitch/Voicemail/Patch.antt =====
-- app/bss/adapters/portaswitch/adapter.py: a patch of a voicemail message changes what it names, and
-- the details of one message are never given for another.
use porta_phone_adapter.Base.{
  ℕ, ◌≡◌, refl, sym, ap, ◌∙◌, Bool, true, false, ◌&&◌, Option, none, some, arith,
}
use porta_phone_adapter.Base.Eq.{Text}
use porta_phone_adapter.Base.Result.{Result, ok, ok_inj}
use porta_phone_adapter.Portaswitch.{
  Failure, after, ◌>>◌, ret, require, after-ok, rescue-ok, require-ok, handled, rescue,
}
use porta_phone_adapter.Portaswitch.Limits.{strip}
use porta_phone_adapter.Portaswitch.Voicemail.{
  Flag, seen_flag, flagged, number_uid, Details, Mailbox, MessagePatch, voicemail_fault, integer,
  is_voicemail_message_details_for, details_for, same_message, same_number, present,
  required_details, message_not_found, retrieve_voicemail_message_details, patch_flag,
  patch_voicemail_message,
}

-- What the mailbox has for a flag of a message, and that a call that succeeds sets this one.
pub record Flags (box : Mailbox) (token message_id : Text) : Type 0 where
  pub has : box.State → Flag → Bool
  pub set_lem :
      (s t : box.State) (flag : Flag) (on : Bool) (u : Unit {0})
      → box.set_flag s token message_id flag on ≡ (ok u, t)
      → has t flag ≡ on
  pub set_other :
      (s t : box.State) (on : Bool) (u : Unit {0})
      → box.set_flag s token message_id flagged on ≡ (ok u, t)
      → has t seen_flag ≡ has s seen_flag
  pub set_saved :
      (s t : box.State) (on : Bool) (u : Unit {0})
      → box.set_flag s token message_id seen_flag on ≡ (ok u, t)
      → has t flagged ≡ has s flagged

abbrev pub or_old : Option Bool → Bool → Bool
or_old none old = old
or_old (some new) old = new

module _ (box : Mailbox) (token message_id : Text) (f : Flags box token message_id) where
  patched_seen :
      (o : Option Bool) (s t : box.State) (u : Unit {0})
      → patch_flag box token message_id seen_flag o s ≡ (ok u, t)
      → (f.has t seen_flag ≡ or_old o (f.has s seen_flag)) × (f.has t flagged ≡ f.has s flagged)
  patched_seen none s t u h =
      (ap (λ p. f.has (p.1) seen_flag) (sym h), ap (λ p. f.has (p.1) flagged) (sym h))
  patched_seen (some on) s t u h = (f.set_lem s t seen_flag on u h, f.set_saved s t on u h)

  patched_saved :
      (o : Option Bool) (s t : box.State) (u : Unit {0})
      → patch_flag box token message_id flagged o s ≡ (ok u, t)
      → (f.has t flagged ≡ or_old o (f.has s flagged)) × (f.has t seen_flag ≡ f.has s seen_flag)
  patched_saved none s t u h =
      (ap (λ p. f.has (p.1) flagged) (sym h), ap (λ p. f.has (p.1) seen_flag) (sym h))
  patched_saved (some on) s t u h = (f.set_lem s t flagged on u h, f.set_other s t on u h)

  -- Where the mailbox sets the flag that a call names and leaves the other: after a patch that
  -- succeeded, the message is seen, or saved, if the patch says so, and as before if the patch does
  -- not mention it; and the answer is the attributes that were requested.
  pub patch_changes_requested :
      (requested answer : MessagePatch) (s t : box.State)
      → patch_voicemail_message box token message_id requested s ≡ (ok answer, t)
      → (answer ≡ requested)
        × (f.has t seen_flag ≡ or_old requested.seen (f.has s seen_flag))
        × (f.has t flagged ≡ or_old requested.saved (f.has s flagged))
  unfolding patch_voicemail_message
  patch_changes_requested requested answer s t h =
      let rest : Unit {0} → box.State → Result Failure MessagePatch × box.State =
        λ _. patch_flag box token message_id flagged requested.saved >> ret requested in
      let r =
        rescue-ok (handled voicemail_fault)
          (after rest (patch_flag box token message_id seen_flag requested.seen s)) answer t h in
      let (u, s1, e1, h1) =
        after-ok rest (patch_flag box token message_id seen_flag requested.seen s) answer t r in
      let (v, s2, e2, h2) =
        after-ok (λ _. ret requested) (patch_flag box token message_id flagged requested.saved s1)
          answer t h1 in
      let (seen_new, saved_same) = patched_seen requested.seen s s1 u e1 in
      let (saved_new, seen_same) = patched_saved requested.saved s1 s2 v e2 in
      let end : s2 ≡ t = ap (λ p. p.1) h2 in
      (
        sym (ok_inj requested answer (ap (λ p. p.0) h2)),
        ap (λ x. f.has x seen_flag) (sym end) ∙ seen_same ∙ seen_new,
        ap (λ x. f.has x flagged) (sym end) ∙ saved_new ∙ ap (or_old requested.saved) saved_same,
      )

there : (o : Option Text) → present o ≡ true → (t : Text) × (o ≡ some t)
there none h = cc
there (some t) h = (t, refl)

same_number_lem : (n : ℕ) (o : Option (Bool × ℕ)) → same_number n o ≡ true → o ≡ some (false, n)
same_number_lem n none h = cc
same_number_lem n (some (true, m)) h = cc
same_number_lem n (some (false, m)) h = ground arith

accepted_fields :
    (n : ℕ) (asked : Text) (sender receiver : Option Text)
    → (same_number n (integer (strip asked)) && present sender && present receiver) ≡ true
    → (integer (strip asked) ≡ some (false, n))
      × ((from : Text) × (sender ≡ some from))
      × ((to : Text) × (receiver ≡ some to))
accepted_fields n asked sender receiver h =
    let (front, last) = and_both _ (present receiver) h in
    let (number, first) = and_both (same_number n (integer (strip asked))) (present sender) front in
    (same_number_lem n (integer (strip asked)) number, there sender first, there receiver last)
  where
    and_both : (a b : Bool) → (a && b) ≡ true → (a ≡ true) × (b ≡ true)
    and_both true b h = (refl, h)
    and_both false b h = cc

module _ (box : Mailbox) (token : Text) where
  -- Where the details of a message are given, and the switch has numbered the message that they
  -- describe, the id that was asked for is that number, and both the sender and the receiver are
  -- there.
  pub details_of_asked :
      (asked : Text) (d : Details) (n : ℕ) (s t : box.State)
      → retrieve_voicemail_message_details box token asked s ≡ (ok d, t)
      → d.message_uid ≡ number_uid n
      → (integer (strip asked) ≡ some (false, n))
        × ((from : Text) × (d.sender ≡ some from))
        × ((to : Text) × (d.receiver ≡ some to))
  unfolding retrieve_voicemail_message_details is_voicemail_message_details_for
  details_of_asked asked d n s t h e =
      let (o, s1, e1, h1) =
        after-ok (required_details box token asked)
          (rescue (handled voicemail_fault) (box.details s token asked, s)) d t h in
      required o s1 h1
    where
      required :
          (o : Option Details) (s1 : box.State)
          → required_details box token asked o s1 ≡ (ok d, t)
          → (integer (strip asked) ≡ some (false, n))
            × ((from : Text) × (d.sender ≡ some from))
            × ((to : Text) × (d.receiver ≡ some to))
      required none s1 g = cc
      required (some d') s1 g =
          let (u, s2, e2, g2) =
            after-ok (λ _. ret d')
              (require (is_voicemail_message_details_for (some d') asked) message_not_found s1) d t
              g in
          let accepted =
            require-ok (is_voicemail_message_details_for (some d') asked) message_not_found s1 s2 u
              e2 in
          let same : d' ≡ d = ok_inj d' d (ap (λ p. p.0) g2) in
          let for_asked : details_for (some d) asked ≡ true =
            ap (λ x. details_for (some x) asked) (sym same) ∙ accepted.0 in
          let named =
            sym (ap (λ m. same_message m asked && present d.sender && present d.receiver) e)
            ∙ for_asked in
          accepted_fields n asked d.sender d.receiver named
