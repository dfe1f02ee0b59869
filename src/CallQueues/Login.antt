-- ===== src/CallQueues/Login.antt =====
-- app/bss/adapters/portaswitch/adapter.py: `_read_huntgroups` and `set_call_queue_login`. The switch
-- is a parameter: its state, what it answers for an offset, and what an update of the subscription
-- of the agent does. The mapping of the errors that the methods let through is left out.
use porta_phone_adapter.Base.{
  ℕ, zero, suc, ◌+◌, Bool, true, false, ◌||◌, Option, none, some, List, [], ◌∷◌, ◌++◌, ltb, leb,
  if◌then◌else◌, length,
}
use porta_phone_adapter.Base.Eq.{Text, text_eq}
use porta_phone_adapter.Base.Dict.{Dict}
use porta_phone_adapter.Base.Result.{Result, ok, err, Raised, webtrit}
use porta_phone_adapter.CallQueues.{Huntgroup, CallQueue, agent_queues, build_queues}

-- `HUNTGROUP_PAGE_LIMIT` and `HUNTGROUP_MAX_PAGES`
abbrev pub page_limit : ℕ
page_limit = 500

abbrev pub max_pages : ℕ
max_pages = 20

pub record Page : Type 0 where
  pub huntgroup_list : List Huntgroup
  pub total : Option ℕ

abbrev pub reached : Option ℕ → ℕ → Bool
reached none n = false
reached (some total) n = leb total n

unfoldable pub read_pages :
    ℕ → (ℕ → Result Raised Page) → ℕ → List Huntgroup → Result Raised (List Huntgroup)
read_pages zero api offset groups = ok groups
read_pages (suc n) api offset groups = elim (api offset) [
  | err r ↦ err r
  | ok p ↦
      let all = groups ++ p.huntgroup_list in
      let rest = read_pages n api (offset + page_limit) all in
      if ltb (length p.huntgroup_list) page_limit || reached p.total (length all)
      then ok all
      else rest
]

-- `_read_huntgroups`
unfoldable pub read_huntgroups : (ℕ → Result Raised Page) → Result Raised (List Huntgroup)
read_huntgroups api = read_pages max_pages api 0 []

-- `any(huntgroup["id"] == queue_id ...)`
abbrev pub has_id : Text → List Huntgroup → Bool
has_id queue_id [] = false
has_id queue_id (g ∷ gs) = text_eq g.id queue_id || has_id queue_id gs

-- `not_found_call_queue_error`
abbrev pub not_found : Raised
not_found = webtrit 404 (some "call_queue_not_found")

-- `next((item for item in queues if item.id == queue_id), None)`
unfoldable pub find_queue : Text → List CallQueue → Result Raised CallQueue
find_queue queue_id [] = err not_found
find_queue queue_id (q ∷ qs) =
    let rest = find_queue queue_id qs in if text_eq q.id queue_id then ok q else rest

-- The interface of the switch.
pub record Switch : Type 1 where
  pub State : Type 0
  pub pages : State → ℕ → Result Raised Page
  pub update : State → Text → Bool → Result Raised (Unit {0}) × State

module _ (switch : Switch) (agent : Text) (waiting : Option (Dict Text ℕ)) where
  -- What is returned after the update.
  unfoldable pub reread : Text → Result Raised (List Huntgroup) → Result Raised CallQueue
  reread queue_id (err r) = err r
  reread queue_id (ok groups) =
      find_queue queue_id (build_queues (agent_queues agent groups) agent waiting)

  unfoldable pub updated :
      Text → Result Raised (Unit {0}) × switch.State → Result Raised CallQueue × switch.State
  updated queue_id (err r, sw) = (err r, sw)
  updated queue_id (ok u, sw) = (reread queue_id (read_huntgroups (switch.pages sw)), sw)

  -- `set_call_queue_login`
  unfoldable pub set_checked :
      Text
      → Bool
      → switch.State
      → Result Raised (List Huntgroup)
      → Result Raised CallQueue × switch.State
  set_checked queue_id logged_in sw (err r) = (err r, sw)
  set_checked queue_id logged_in sw (ok groups) =
      let done = updated queue_id (switch.update sw queue_id logged_in) in
      if has_id queue_id (agent_queues agent groups) then done else (err not_found, sw)

  unfoldable pub set_call_queue_login :
      Text → Bool → switch.State → Result Raised CallQueue × switch.State
  set_call_queue_login queue_id logged_in sw =
      set_checked queue_id logged_in sw (read_huntgroups (switch.pages sw))

-- The ids of `[huntgroup["id"] for huntgroup in huntgroups]`.
abbrev pub ids_of : List Huntgroup → List Text
ids_of [] = []
ids_of (g ∷ gs) = g.id ∷ ids_of gs

abbrev pub no_ids : List Text → Bool
no_ids [] = true
no_ids (id ∷ ids) = false

-- `set_all_call_queues_login`: `update_all` is the one request with every id.
module _ (switch : Switch) (agent : Text) (waiting : Option (Dict Text ℕ))
    (update_all : switch.State → List Text → Bool → Result Raised (Unit {0}) × switch.State) where
  unfoldable pub all_reread : Result Raised (List Huntgroup) → Result Raised (List CallQueue)
  all_reread (err r) = err r
  all_reread (ok groups) = ok (build_queues (agent_queues agent groups) agent waiting)

  unfoldable pub all_updated :
      Result Raised (Unit {0}) × switch.State → Result Raised (List CallQueue) × switch.State
  all_updated (err r, sw) = (err r, sw)
  all_updated (ok u, sw) = (all_reread (read_huntgroups (switch.pages sw)), sw)

  unfoldable pub set_all_checked :
      Bool
      → switch.State
      → Result Raised (List Huntgroup)
      → Result Raised (List CallQueue) × switch.State
  set_all_checked logged_in sw (err r) = (err r, sw)
  set_all_checked logged_in sw (ok groups) =
      let ids = ids_of (agent_queues agent groups) in
      let done = all_updated (update_all sw ids logged_in) in
      if no_ids ids then (all_reread (ok groups), sw) else done

  unfoldable pub set_all_call_queues_login :
      Bool → switch.State → Result Raised (List CallQueue) × switch.State
  set_all_call_queues_login logged_in sw =
      set_all_checked logged_in sw (read_huntgroups (switch.pages sw))

-- `retrieve_call_queues`
unfoldable pub retrieve_call_queues :
    (switch : Switch) → Text → Option (Dict Text ℕ) → switch.State → Result Raised (List CallQueue)
retrieve_call_queues switch agent waiting sw = elim (read_huntgroups (switch.pages sw)) [
  | err r ↦ err r
  | ok groups ↦ ok (build_queues (agent_queues agent groups) agent waiting)
]
