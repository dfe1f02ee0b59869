-- ===== src/Portaswitch/Voicemail.antt =====
-- app/bss/adapters/portaswitch/adapter.py and serializer.py: the voicemail messages of a user. The
-- mailbox is a parameter, `Mailbox`. Texts are ASCII. What the serializer makes of the details of a
-- message, once they are accepted, is not modelled.
mod Patch
mod Tests
use Prim.Native.String.{String}
use porta_phone_adapter.Base.{
  ℕ, zero, suc, ◌+◌, Bool, true, false, not, ◌&&◌, ◌||◌, Option, none, some, List, [], ◌∷◌, leb,
  ◌==◌, if◌then◌else◌,
}
use porta_phone_adapter.Base.Eq.{Text, codes, text_eq}
use porta_phone_adapter.Base.Result.{Result, ok, err}
use porta_phone_adapter.Portaswitch.{
  Fault, Failure, adapter, M, ◌>>=◌, ◌>>◌, ret, fail, on_fault, require, token_rejected,
  unified_messaging_disabled,
}
use porta_phone_adapter.Portaswitch.Recordings.{access_token_expired}
use porta_phone_adapter.Portaswitch.Limits.{strip, more_digits}

-- PortaSwitchMailboxMessageFlag, as far as it is used.
pub data Flag : Type 0 where
  seen_flag flagged : Flag

-- `message_uid` of the details: missing, a number or a text.
pub data Uid : Type 0 where
  no_uid : Uid
  number_uid : ℕ → Uid
  text_uid : Text → Uid

-- The details of a message; none for a header that is missing.
pub record Details : Type 0 where
  pub message_uid : Uid
  pub sender : Option Text
  pub receiver : Option Text

-- A row of the message list, as far as the answer to the list reads it.
pub record Message : Type 0 where
  pub message_uid : Text
  pub flags : List Text

-- The calls of the account realm; each has the access token and, but for the list, the message id.
pub record Mailbox : Type 1 where
  pub State : Type 0
  pub Media : Type 0
  pub messages : State → Text → Result Failure (List Message)
  -- None where the answer is no dict, or no media stream.
  pub details : State → Text → Text → Result Failure (Option Details)
  pub attachment : State → Text → Text → Text → Result Failure (Option Media)
  pub set_flag : State → Text → Text → Flag → Bool → Result Failure (Unit {0}) × State
  pub delete : State → Text → Text → Result Failure (Unit {0}) × State

abbrev pub voicemail_not_configured : Failure
voicemail_not_configured = adapter 422 (some "voicemail_not_configured")

abbrev pub message_not_found : Failure
message_not_found = adapter 404 (some "message_not_found")

abbrev pub unsupported_file_format : Failure
unsupported_file_format = adapter 422 (some "unsupported_file_format")

abbrev pub voicemail_fault : Fault → Option Failure
voicemail_fault token_rejected = some access_token_expired
voicemail_fault unified_messaging_disabled = some voicemail_not_configured
voicemail_fault _ = none

-- `int(t)` of a stripped text: whether it is negative, and its magnitude.
abbrev pub minus : Option ℕ → Option (Bool × ℕ)
minus none = none
minus (some zero) = some (false, 0)
minus (some (suc n)) = some (true, suc n)

abbrev pub plus : Option ℕ → Option (Bool × ℕ)
plus none = none
plus (some n) = some (false, n)

unfoldable pub integer : Text → Option (Bool × ℕ)
integer [] = none
integer (c ∷ t) =
    if c == b'-'
    then minus (more_digits false 0 t)
    else if c == b'+'
    then plus (more_digits false 0 t)
    else plus (more_digits false 0 (c ∷ t))

abbrev pub same_sign : Bool → Bool → Bool
same_sign true b = b
same_sign false b = not b

-- Equal as numbers where both are, else as the texts.
abbrev pub same_id : Option (Bool × ℕ) → Option (Bool × ℕ) → Text → Text → Bool
same_id (some (a, m)) (some (b, n)) returned asked = same_sign a b && m == n
same_id _ _ returned asked = text_eq returned asked

-- A number is never the same as an id that is none: the text of a number parses.
abbrev pub same_number : ℕ → Option (Bool × ℕ) → Bool
same_number n (some (b, m)) = not b && n == m
same_number n none = false

abbrev pub same_message : Uid → Text → Bool
same_message no_uid asked = false
same_message (number_uid n) asked = same_number n (integer (strip asked))
same_message (text_uid t) asked =
    same_id (integer (strip t)) (integer (strip asked)) (strip t) (strip asked)

abbrev pub present : Option Text → Bool
present none = false
present (some t) = true

-- `is_voicemail_message_details_for`
abbrev pub details_for : Option Details → Text → Bool
details_for none asked = false
details_for (some d) asked =
    same_message d.message_uid asked && present d.sender && present d.receiver

unfoldable pub is_voicemail_message_details_for : Option Details → Text → Bool
is_voicemail_message_details_for d asked = details_for d asked

-- A requested patch: none for an attribute that is absent or null.
pub record MessagePatch : Type 0 where
  pub seen : Option Bool
  pub saved : Option Bool

pub record Voicemails : Type 0 where
  pub messages : List Message
  pub has_new_messages : Bool

abbrev pub has_flag : List Text → Text → Bool
has_flag [] flag = false
has_flag (f ∷ flags) flag = text_eq f flag || has_flag flags flag

-- `\Seen` in the flags of a row.
abbrev pub is_seen : Message → Bool
is_seen m = has_flag m.flags (92 ∷ codes "Seen")

abbrev pub any_new : List Message → Bool
any_new [] = false
any_new (m ∷ messages) = not (is_seen m) || any_new messages

abbrev pub lower : ℕ → ℕ
lower c = if leb b'A' c && leb c b'Z' then c + 32 else c

abbrev pub lowered : Text → Text
lowered [] = []
lowered (c ∷ t) = lower c ∷ lowered t

-- PortaSwitchMailboxMessageAttachmentFormat.has_value
abbrev pub is_format : Text → Bool
is_format t = text_eq t (codes "wav") || text_eq t (codes "mp3") || text_eq t (codes "au")

abbrev pub or_wav : Text → Text
or_wav [] = codes "wav"
or_wav (c ∷ t) = c ∷ t

abbrev pub format_allowed : Text → Bool
format_allowed [] = true
format_allowed (c ∷ t) = is_format (c ∷ t)

module _ (box : Mailbox) (token : Text) where
  abbrev pub listed : List Message → M box.State Voicemails
  listed messages = ret (record { messages = messages; has_new_messages = any_new messages })

  -- `retrieve_voicemails`
  unfoldable pub retrieve_voicemails : M box.State Voicemails
  retrieve_voicemails = on_fault voicemail_fault ((λ s. (box.messages s token, s)) >>= listed)

  -- The message that is logged reads the answer as a dict, which fails where it is none.
  abbrev pub required_details : Text → Option Details → M box.State Details
  required_details asked none = fail Failure.crash
  required_details asked (some d) =
      require (is_voicemail_message_details_for (some d) asked) message_not_found >> ret d

  -- `retrieve_voicemail_message_details`
  unfoldable pub retrieve_voicemail_message_details : Text → M box.State Details
  retrieve_voicemail_message_details asked =
      on_fault voicemail_fault (λ s. (box.details s token asked, s)) >>= required_details asked

  abbrev pub required_media : Option box.Media → M box.State box.Media
  required_media none = fail message_not_found
  required_media (some media) = ret media

  -- `retrieve_voicemail_message_attachment`; no format is the empty text.
  unfoldable pub retrieve_voicemail_message_attachment : Text → Text → M box.State box.Media
  retrieve_voicemail_message_attachment message_id file_format =
      require (format_allowed (lowered file_format)) unsupported_file_format
      >> (on_fault voicemail_fault
            (λ s. (box.attachment s token message_id (or_wav (lowered file_format)), s))
          >>= required_media)

  abbrev pub patch_flag : Text → Flag → Option Bool → M box.State (Unit {0})
  patch_flag message_id flag none = ret tt
  patch_flag message_id flag (some on) = λ s. box.set_flag s token message_id flag on

  -- `patch_voicemail_message`: VOICEMAIL_PATCH_FLAGS has `seen` first.
  unfoldable pub patch_voicemail_message : Text → MessagePatch → M box.State MessagePatch
  patch_voicemail_message message_id requested = on_fault voicemail_fault (
      patch_flag message_id seen_flag requested.seen
      >> (patch_flag message_id flagged requested.saved >> ret requested))

  -- `delete_voicemail_message`
  unfoldable pub delete_voicemail_message : Text → M box.State (Unit {0})
  delete_voicemail_message message_id =
      on_fault voicemail_fault (λ s. box.delete s token message_id)
