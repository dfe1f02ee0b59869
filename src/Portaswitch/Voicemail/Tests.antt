-- ===== src/Portaswitch/Voicemail/Tests.antt =====
-- The theorems on voicemail at a mailbox of one message.
use porta_phone_adapter.Base.{ℕ, ◌≡◌, refl, sym, ap, ◌∙◌, Bool, true, false, none, some, []}
use porta_phone_adapter.Base.Eq.{Text, codes}
use porta_phone_adapter.Base.Result.{ok}
use porta_phone_adapter.Portaswitch.Limits.{strip}
use porta_phone_adapter.Portaswitch.Voicemail.{
  Flag, seen_flag, flagged, number_uid, Details, Mailbox, MessagePatch, integer,
  is_voicemail_message_details_for, patch_voicemail_message, retrieve_voicemail_message_details,
}
use porta_phone_adapter.Portaswitch.Voicemail.Patch.{
  Flags, or_old, patch_changes_requested, details_of_asked,
}

abbrev set : Bool × Bool → Flag → Bool → Bool × Bool
set (seen, saved) seen_flag on = (on, saved)
set (seen, saved) flagged on = (seen, on)

abbrev has : Bool × Bool → Flag → Bool
has (seen, saved) seen_flag = seen
has (seen, saved) flagged = saved

abbrev details : Details
details = record {
  message_uid = number_uid 1654;
  sender = some (codes "A");
  receiver = some (codes "B");
}

abbrev box : Mailbox
box = record {
  State = Bool × Bool;
  Media = ℕ;
  messages = λ s token. ok [];
  details = λ s token id. ok (some details);
  attachment = λ s token id format. ok (some 1);
  set_flag = λ s token id flag on. (ok tt, set s flag on);
  delete = λ s token id. (ok tt, s);
}

has_set : (s : Bool × Bool) (flag : Flag) (on : Bool) → has (set s flag on) flag ≡ on
has_set (seen, saved) seen_flag on = refl
has_set (seen, saved) flagged on = refl

seen_same : (s : Bool × Bool) (on : Bool) → has (set s flagged on) seen_flag ≡ has s seen_flag
seen_same (seen, saved) on = refl

saved_same : (s : Bool × Bool) (on : Bool) → has (set s seen_flag on) flagged ≡ has s flagged
saved_same (seen, saved) on = refl

abbrev flags : Flags box (codes "t") (codes "1654")
flags = record {
  has = has;
  set_lem = λ s t flag on u h. ap (λ p. has (p.1) flag) (sym h) ∙ has_set s flag on;
  set_other = λ s t on u h. ap (λ p. has (p.1) seen_flag) (sym h) ∙ seen_same s on;
  set_saved = λ s t on u h. ap (λ p. has (p.1) flagged) (sym h) ∙ saved_same s on;
}

-- A patch that saves the message only.
abbrev patch : MessagePatch
patch = record { seen = none; saved = some true }

patched :
    patch_voicemail_message box (codes "t") (codes "1654") patch (true, false)
    ≡ (ok patch, (true, true))
unfolding patch_voicemail_message
patched = refl

patch_changes_requested_example :
    (patch ≡ patch)
    × (has (true, true) seen_flag ≡ or_old patch.seen (has (true, false) seen_flag))
    × (has (true, true) flagged ≡ or_old patch.saved (has (true, false) flagged))
patch_changes_requested_example =
    patch_changes_requested box (codes "t") (codes "1654") flags patch patch (true, false)
      (true, true) patched

retrieved :
    retrieve_voicemail_message_details box (codes "t") (codes " 1654") (true, false)
    ≡ (ok details, (true, false))
unfolding retrieve_voicemail_message_details is_voicemail_message_details_for integer strip
retrieved = refl

details_of_asked_example :
    (integer (strip (codes " 1654")) ≡ some (false, 1654))
    × ((from : Text) × (some (codes "A") ≡ some from))
    × ((to : Text) × (some (codes "B") ≡ some to))
details_of_asked_example =
    details_of_asked box (codes "t") (codes " 1654") details 1654 (true, false) (true, false)
      retrieved refl
