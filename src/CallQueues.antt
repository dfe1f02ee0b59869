-- ===== src/CallQueues.antt =====
-- app/bss/adapters/portaswitch/serializer.py and adapter.py: the hunt groups of a customer and the
-- call queues that an agent sees. A missing text is the empty one, a missing number is zero.
pub mod Counters
pub mod Counts
mod Login
pub mod Membership
mod Tests
use porta_phone_adapter.Base.{
  ℕ, zero, suc, ◌+◌, ◌≡◌, Bool, true, false, not, ◌&&◌, ◌||◌, Option, none, some, List, [], ◌∷◌,
  ◌++◌, ltb, leb, ◌==◌, if◌then◌else◌, length,
}
use porta_phone_adapter.Base.Eq.{Text, text_eq, text_key}
use porta_phone_adapter.Base.Dict.{Dict, lookup, insert}

-- `PortaSwitchExtensionType`
pub data ExtensionType : Type 0 where
  account group unassigned : ExtensionType

pub record Extension : Type 0 where
  pub account_id : Text
  pub kind : Option ExtensionType
  pub hunt_active : Bool

pub record Huntgroup : Type 0 where
  pub id : Text
  pub name : Text
  pub i_c_queue : ℕ
  pub assigned_extensions : List Extension

pub record CallQueue : Type 0 where
  pub id : Text
  pub name : Text
  pub logged_in : Bool
  pub agents_total : ℕ
  pub agents_logged_in : ℕ
  pub callers_waiting : Option ℕ

-- A call of `get_sip_calls_list`: its state is "queued", it has queue_info, the hunt group of its
-- callee.
pub record SipCall : Type 0 where
  pub queued : Bool
  pub has_queue_info : Bool
  pub huntgroup_id : Text

abbrev pub is_missing : Text → Bool
is_missing [] = true
is_missing (c ∷ t) = false

-- `is_call_queue`
unfoldable pub is_call_queue : Huntgroup → Bool
is_call_queue g = not (g.i_c_queue == 0)

abbrev pub is_account : Option ExtensionType → Bool
is_account none = true
is_account (some account) = true
is_account (some group) = false
is_account (some unassigned) = false

-- `_huntgroup_account_members`
unfoldable pub account_members : List Extension → List Extension
account_members [] = []
account_members (x ∷ xs) =
    let rest = account_members xs in
    if not (is_missing x.account_id) && is_account x.kind then x ∷ rest else rest

abbrev pub has_account : Text → List Extension → Bool
has_account agent [] = false
has_account agent (x ∷ xs) = text_eq x.account_id agent || has_account agent xs

-- `is_huntgroup_member`
unfoldable pub is_huntgroup_member : Huntgroup → Text → Bool
is_huntgroup_member g agent = has_account agent (account_members (g.assigned_extensions))

abbrev pub or_zero : Option ℕ → ℕ
or_zero none = 0
or_zero (some n) = n

-- One turn of the loop of `count_callers_waiting`.
unfoldable pub count_call : SipCall → Dict Text ℕ → Dict Text ℕ
count_call call waiting =
    if not call.queued || not call.has_queue_info || is_missing call.huntgroup_id
    then waiting
    else insert call.huntgroup_id (or_zero (lookup call.huntgroup_id waiting) + 1) waiting

unfoldable pub count_calls : List SipCall → Dict Text ℕ → Dict Text ℕ
count_calls [] waiting = waiting
count_calls (call ∷ calls) waiting = count_calls calls (count_call call waiting)

-- `count_callers_waiting`
unfoldable pub count_callers_waiting : List SipCall → Dict Text ℕ
count_callers_waiting calls = count_calls calls []

-- The `hunt_active` of the agent's own row, the first with its account.
abbrev pub own_active : Text → List Extension → Bool
own_active agent [] = false
own_active agent (x ∷ xs) =
    if text_eq x.account_id agent then x.hunt_active else own_active agent xs

abbrev pub count_active : List Extension → ℕ
count_active [] = 0
count_active (x ∷ xs) = (if x.hunt_active then 1 else 0) + count_active xs

-- `get_call_queue`
unfoldable pub get_call_queue : Huntgroup → Text → Option ℕ → CallQueue
get_call_queue g agent waiting =
    let members = account_members (g.assigned_extensions) in
    record {
      id = g.id;
      name = (if is_missing g.name then g.id else g.name);
      logged_in = own_active agent members;
      agents_total = length members;
      agents_logged_in = count_active members;
      callers_waiting = waiting;
    }

-- `_build_queues`, which logs besides.
abbrev pub waiting_for : Option (Dict Text ℕ) → Text → Option ℕ
waiting_for none id = none
waiting_for (some waiting) id = some (or_zero (lookup id waiting))

unfoldable pub build_queues : List Huntgroup → Text → Option (Dict Text ℕ) → List CallQueue
build_queues [] agent waiting = []
build_queues (g ∷ gs) agent waiting =
    get_call_queue g agent (waiting_for waiting (g.id)) ∷ build_queues gs agent waiting

-- The choice of `_load_agent_queues` among the hunt groups that were read.
unfoldable pub agent_queues : Text → List Huntgroup → List Huntgroup
agent_queues agent [] = []
agent_queues agent (g ∷ gs) =
    let rest = agent_queues agent gs in
    if is_call_queue g && is_huntgroup_member g agent then g ∷ rest else rest
