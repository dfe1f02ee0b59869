-- ===== src/CallQueues/Membership.antt =====
-- Only an agent of a queue changes its subscription to it, and the paging that this rests on.
use porta_phone_adapter.Base.{
  ℕ, zero, suc, ◌+◌, ◌-◌, ◌*◌, ◌≤◌, ◌≡◌, ◌≢◌, refl, sym, ap, ◌∙◌, ◌⊎◌, inl, inr, Bool, true, false,
  ◌&&◌, ◌||◌, Option, none, some, List, [], ◌∷◌, ◌++◌, arith, ltb, length, take, drop, min,
  Bool-cases, take-add, take-short, length-take, length-drop,
}
use porta_phone_adapter.Base.Eq.{Text, text_eq, text_eq_iff}
use porta_phone_adapter.Base.Dict.{Dict}
use porta_phone_adapter.Base.Result.{Result, ok, err, Raised}
use porta_phone_adapter.CallQueues.{
  Huntgroup, CallQueue, is_call_queue, is_huntgroup_member, agent_queues, build_queues,
}
use porta_phone_adapter.CallQueues.Login.{
  page_limit, max_pages, Page, reached, read_pages, read_huntgroups, has_id, not_found, find_queue,
  Switch, reread, updated, set_checked, set_call_queue_login,
}

-- A switch whose hunt groups do not change between the pages, with or without a total.
abbrev pub Steady : List Huntgroup → Option ℕ → (ℕ → Result Raised Page) → Type 0
Steady xs total api =
    ((total ≡ none) ⊎ (total ≡ some (length xs)))
    × ((o : ℕ)
        → api o ≡ ok (record { huntgroup_list = take page_limit (drop o xs); total = total }))

ends_le :
    (page rest all got offset : ℕ) (total : Option ℕ)
    → page ≡ min page_limit rest
    → rest ≡ all - offset
    → got ≡ min (offset + page_limit) all
    → (total ≡ none) ⊎ (total ≡ some all)
    → (ltb page page_limit || reached total got) ≡ true
    → all ≤ offset + page_limit
ends_le page rest all got offset none p r g t h = ground arith
ends_le page rest all got offset (some n) p r g t h = ground arith

page_ends :
    (xs : List Huntgroup) (total : Option ℕ) (offset : ℕ)
    → (total ≡ none) ⊎ (total ≡ some (length xs))
    → (ltb (length (take page_limit (drop offset xs))) page_limit
        || reached total (length (take (offset + page_limit) xs)))
      ≡ true
    → take (offset + page_limit) xs ≡ xs
page_ends xs total offset t h = take-short (offset + page_limit) xs (
    ends_le (length (take page_limit (drop offset xs))) (length (drop offset xs)) (length xs)
      (length (take (offset + page_limit) xs)) offset total
      (length-take page_limit (drop offset xs)) (length-drop offset xs)
      (length-take (offset + page_limit) xs) t h)

read_pages-whole :
    (xs : List Huntgroup) (total : Option ℕ) (api : ℕ → Result Raised Page) (n offset : ℕ)
    → Steady xs total api
    → length xs ≤ offset + n * page_limit
    → read_pages n api offset (take offset xs) ≡ ok xs
unfolding read_pages
read_pages-whole xs total api zero offset steady h = ap ok (take-short offset xs (omega arith))
read_pages-whole xs total api (suc n) offset steady h =
    let next : take offset xs ++ take page_limit (drop offset xs) ≡ take (offset + page_limit) xs =
      sym (take-add offset page_limit xs) in
    let ih = read_pages-whole xs total api n (offset + page_limit) steady (omega arith) in
    elim (Bool-cases (
      ltb (length (take page_limit (drop offset xs))) page_limit
      || reached total (length (take (offset + page_limit) xs)))) [
        | inl a ↦
            rw (read_pages, steady.1 offset, next, a)
              (ap ok (page_ends xs total offset (steady.0) a))
        | inr b ↦ rw (read_pages, steady.1 offset, next, b) ih
      ]

-- Every hunt group is read: if the switch answers each page from one list of at most 10,000 hunt
-- groups, with its length as total or without a total, the hunt groups that are read are that
-- list, in its order.
pub huntgroups_read :
    (xs : List Huntgroup) (total : Option ℕ) (api : ℕ → Result Raised Page)
    → Steady xs total api
    → length xs ≤ 10000
    → read_huntgroups api ≡ ok xs
unfolding read_huntgroups
huntgroups_read xs total api steady h =
    read_pages-whole xs total api max_pages 0 steady (omega arith)

-- No call queue of that id has the agent as a member.
abbrev pub Outsider : Text → Text → List Huntgroup → Type 0
Outsider agent queue_id [] = Unit {0}
Outsider agent queue_id (g ∷ gs) =
    ((g.id ≢ queue_id) ⊎ (is_call_queue g ≡ false) ⊎ (is_huntgroup_member g agent ≡ false))
    × Outsider agent queue_id gs

agent_queues-no_id :
    (agent queue_id : Text) (gs : List Huntgroup)
    → Outsider agent queue_id gs
    → has_id queue_id (agent_queues agent gs) ≡ false
unfolding agent_queues
agent_queues-no_id agent queue_id [] h = refl
agent_queues-no_id agent queue_id (g ∷ gs) (out, rest) =
    let ih = agent_queues-no_id agent queue_id gs rest in
    elim (Bool-cases (is_call_queue g && is_huntgroup_member g agent)) [
      | inl a ↦
          let other : g.id ≢ queue_id = ground arith in
          let differs : text_eq (g.id) queue_id ≡ false =
            elim (Bool-cases (text_eq (g.id) queue_id)) [
              | inl c ↦ absurd (other ((text_eq_iff (g.id) queue_id).0 c))
              | inr c ↦ c
            ] in
          rw (a, differs) ih
      | inr a ↦ rw a ih
    ]

module _ (switch : Switch) (agent : Text) (waiting : Option (Dict Text ℕ)) where
  -- Somebody who is not an agent of the queue changes nothing: if the hunt groups that the switch
  -- gives have no call queue of that id with the account as a member, the request ends in the
  -- not-found error and leaves the switch as it was.
  pub stranger_changes_nothing :
      (queue_id : Text) (logged_in : Bool) (sw : switch.State) (gs : List Huntgroup)
      → read_huntgroups (switch.pages sw) ≡ ok gs
      → Outsider agent queue_id gs
      → set_call_queue_login switch agent waiting queue_id logged_in sw ≡ (err not_found, sw)
  unfolding set_call_queue_login set_checked
  stranger_changes_nothing queue_id logged_in sw gs reads out =
      rw (set_call_queue_login, reads, set_checked, agent_queues-no_id agent queue_id gs out) refl

  find_queue-id :
      (queue_id : Text) (qs : List CallQueue) (q : CallQueue)
      → find_queue queue_id qs ≡ ok q
      → q.id ≡ queue_id
  unfolding find_queue
  find_queue-id queue_id [] q h = cc
  find_queue-id queue_id (p ∷ qs) q h = elim (Bool-cases (text_eq (p.id) queue_id)) [
    | inl a ↦
        let same : p ≡ q = ground arith in
        ap (λ x. x.id) (sym same) ∙ (text_eq_iff (p.id) queue_id).0 a
    | inr a ↦ find_queue-id queue_id qs q (ground arith)
  ]

  reread-id :
      (queue_id : Text) (groups : Result Raised (List Huntgroup)) (q : CallQueue)
      → reread switch agent waiting queue_id groups ≡ ok q
      → q.id ≡ queue_id
  unfolding reread
  reread-id queue_id (err r) q h = cc
  reread-id queue_id (ok groups) q h =
      find_queue-id queue_id (build_queues (agent_queues agent groups) agent waiting) q h

  updated-id :
      (queue_id : Text) (u : Result Raised (Unit {0}) × switch.State) (q : CallQueue)
      → (updated switch agent waiting queue_id u).0 ≡ ok q
      → (q.id ≡ queue_id) × (u.0 ≡ ok tt) × ((updated switch agent waiting queue_id u).1 ≡ u.1)
  unfolding updated
  updated-id queue_id (err r, sw) q h = cc
  updated-id queue_id (ok u, sw) q h =
      (reread-id queue_id (read_huntgroups (switch.pages sw)) q h, refl, refl)

  checked-id :
      (queue_id : Text) (logged_in : Bool) (sw : switch.State) (q : CallQueue)
      (groups : Result Raised (List Huntgroup))
      → (set_checked switch agent waiting queue_id logged_in sw groups).0 ≡ ok q
      → (q.id ≡ queue_id)
        × ((switch.update sw queue_id logged_in).0 ≡ ok tt)
        × ((set_checked switch agent waiting queue_id logged_in sw groups).1
            ≡ (switch.update sw queue_id logged_in).1)
  unfolding set_checked
  checked-id queue_id logged_in sw q (err r) h = cc
  checked-id queue_id logged_in sw q (ok groups) h =
      elim (Bool-cases (has_id queue_id (agent_queues agent groups))) [
        | inl a ↦
            let opened : set_checked switch agent waiting queue_id logged_in sw (ok groups)
                ≡ updated switch agent waiting queue_id (switch.update sw queue_id logged_in) =
              rw (set_checked, a) refl in
            let found =
              updated-id queue_id (switch.update sw queue_id logged_in) q
                (ap (λ x. x.0) (sym opened) ∙ h) in
            (found.0, found.1, ap (λ x. x.1) opened ∙ found.2)
        | inr a ↦
            let opened : set_checked switch agent waiting queue_id logged_in sw (ok groups)
                ≡ (err not_found, sw) =
              rw (set_checked, a) refl in
            let none_found : err not_found ≡ ok q = ap (λ x. x.0) (sym opened) ∙ h in cc
      ]

  -- What is returned is the queue that was asked for, after its update: where the request
  -- succeeds, the switch has accepted the update of this queue, its state is the one that the
  -- update has left, and the queue of the answer has the id of the request.
  pub login_answers_queue :
      (queue_id : Text) (logged_in : Bool) (sw : switch.State) (q : CallQueue)
      → (set_call_queue_login switch agent waiting queue_id logged_in sw).0 ≡ ok q
      → (q.id ≡ queue_id)
        × ((switch.update sw queue_id logged_in).0 ≡ ok tt)
        × ((set_call_queue_login switch agent waiting queue_id logged_in sw).1
            ≡ (switch.update sw queue_id logged_in).1)
  unfolding set_call_queue_login
  login_answers_queue queue_id logged_in sw q h =
      checked-id queue_id logged_in sw q (read_huntgroups (switch.pages sw)) h
