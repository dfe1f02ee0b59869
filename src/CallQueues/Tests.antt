-- ===== src/CallQueues/Tests.antt =====
-- The theorems on call queues at a concrete hunt group.
use porta_phone_adapter.Base.{
  ℕ, ◌+◌, ◌≡◌, refl, inl, inr, true, none, some, [], ◌∷◌, arith, take, drop,
}
use porta_phone_adapter.Base.Eq.{Text, text_eq, text_key}
use porta_phone_adapter.Base.Result.{Result, ok, err, Raised}
use porta_phone_adapter.CallQueues.{
  Extension, Huntgroup, SipCall, account, is_huntgroup_member, account_members,
}
use porta_phone_adapter.CallQueues.Login.{
  page_limit, Page, read_huntgroups, not_found, Switch, set_call_queue_login,
}
use porta_phone_adapter.CallQueues.Membership.{huntgroups_read, stranger_changes_nothing}

abbrev agent : Text
agent = b'a' ∷ []

abbrev stranger : Text
stranger = b'x' ∷ []

abbrev queue_id : Text
queue_id = b'9' ∷ []

abbrev member : Extension
member = record { account_id = agent; kind = some account; hunt_active = true }

abbrev huntgroup : Huntgroup
huntgroup = record { id = queue_id; name = []; i_c_queue = 3; assigned_extensions = member ∷ [] }

abbrev call : SipCall
call = record { queued = true; has_queue_info = true; huntgroup_id = queue_id }

-- A switch with this hunt group that counts the updates.
abbrev pages : ℕ → Result Raised Page
pages o = ok (record { huntgroup_list = take page_limit (drop o (huntgroup ∷ [])); total = none })

abbrev switch : Switch
switch = record { State = ℕ; pages = λ n. pages; update = λ n id logged_in. (ok tt, n + 1) }

huntgroups_read_example : read_huntgroups pages ≡ ok (huntgroup ∷ [])
huntgroups_read_example =
    huntgroups_read (huntgroup ∷ []) none pages ((inl refl), (λ o. refl)) (omega arith)

stranger_changes_nothing_example :
    set_call_queue_login switch stranger none queue_id true 0 ≡ (err not_found, 0)
unfolding is_huntgroup_member account_members text_eq
stranger_changes_nothing_example =
    stranger_changes_nothing switch stranger none queue_id true 0 (huntgroup ∷ [])
      (huntgroups_read (huntgroup ∷ []) none pages ((inl refl), (λ o. refl)) (omega arith))
      ((inr (inr refl)), tt)
