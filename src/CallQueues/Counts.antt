-- ===== src/CallQueues/Counts.antt =====
-- The numbers that a call queue shows.
use porta_phone_adapter.Base.{
  ℕ, ◌+◌, ◌≤◌, ◌<◌, ◌≡◌, ◌≢◌, refl, ◌⊎◌, inl, inr, Bool, true, false, ◌&&◌, Option, List, [], ◌∷◌,
  arith, if◌then◌else◌, length, Bool-cases,
}
use porta_phone_adapter.Base.Eq.{Text, text_eq, text_key, text_eq_iff}
use porta_phone_adapter.Base.Dict.{Dict, lookup, insert, lookup-insert_self, lookup-insert_ne}
use porta_phone_adapter.CallQueues.{
  Extension, Huntgroup, SipCall, is_missing, account_members, has_account, is_huntgroup_member,
  or_zero, count_call, count_calls, count_callers_waiting, own_active, count_active, get_call_queue,
}

-- The queued calls of a hunt group, counted one by one.
abbrev pub is_waiting : Text → SipCall → Bool
is_waiting id call = call.queued && call.has_queue_info && text_eq call.huntgroup_id id

abbrev pub waiting_calls : Text → List SipCall → ℕ
waiting_calls id [] = 0
waiting_calls id (call ∷ calls) = (if is_waiting id call then 1 else 0) + waiting_calls id calls

bump-adds :
    (k id : Text) (d : Dict Text ℕ)
    → or_zero (lookup id (insert k (or_zero (lookup k d) + 1) d))
      ≡ (if text_eq k id then 1 else 0) + or_zero (lookup id d)
bump-adds k id d = elim (Bool-cases (text_eq k id)) [
  | inl a ↦
      let same : k ≡ id = (text_eq_iff k id).0 a in
      let found = lookup-insert_self id (or_zero (lookup id d) + 1) d in
      rw (a, same, found) (omega arith)
  | inr a ↦
      let other : k ≢ id = λ q. ground (arith, (text_eq_iff k id).1) in
      rw (a, lookup-insert_ne id k (or_zero (lookup k d) + 1) d other) (omega arith)
]

missing-other : (k id : Text) → is_missing id ≡ false → is_missing k ≡ true → text_eq k id ≡ false
unfolding text_eq
missing-other [] [] h g = cc
missing-other [] (c ∷ id) h g = refl
missing-other (d ∷ k) id h g = cc

count_call-adds :
    (id : Text) (call : SipCall) (waiting : Dict Text ℕ)
    → is_missing id ≡ false
    → or_zero (lookup id (count_call call waiting))
      ≡ (if is_waiting id call then 1 else 0) + or_zero (lookup id waiting)
unfolding count_call
count_call-adds id call waiting present = elim (Bool-cases (is_missing call.huntgroup_id)) [
  | inl a ↦ let other = missing-other (call.huntgroup_id) id present a in ground arith
  | inr a ↦ let bump = bump-adds (call.huntgroup_id) id waiting in ground arith
]

count_calls-adds :
    (id : Text) (calls : List SipCall) (waiting : Dict Text ℕ)
    → is_missing id ≡ false
    → or_zero (lookup id (count_calls calls waiting))
      ≡ waiting_calls id calls + or_zero (lookup id waiting)
unfolding count_calls
count_calls-adds id [] waiting present = omega arith
count_calls-adds id (call ∷ calls) waiting present = omega (
  arith,
  count_calls-adds id calls (count_call call waiting) present,
  count_call-adds id call waiting present,
)

-- The number of callers of a queue is the number of the calls in progress that are queued, carry
-- queue information and were placed into this hunt group, for every hunt group with an id.
pub callers_counted :
    (id : Text) (calls : List SipCall)
    → is_missing id ≡ false
    → or_zero (lookup id (count_callers_waiting calls)) ≡ waiting_calls id calls
unfolding count_callers_waiting lookup
callers_counted id calls present = omega (arith, count_calls-adds id calls [] present)

active-bounds :
    (agent : Text) (xs : List Extension)
    → (count_active xs ≤ length xs)
      × ((own_active agent xs ≡ false) ⊎ (0 < count_active xs))
      × ((own_active agent xs ≡ false) ⊎ (has_account agent xs ≡ true))
active-bounds agent [] = (omega arith, inl refl, inl refl)
active-bounds agent (x ∷ xs) =
    let (a, b, c) = active-bounds agent xs in (ground arith, ground arith, ground arith)

-- The numbers of a queue agree: no more agents are logged in than there are, and where the queue
-- shows the agent as logged in, the agent is a member and one of those counted.
pub queue_consistent :
    (g : Huntgroup) (agent : Text) (waiting : Option ℕ)
    → let q = get_call_queue g agent waiting in
      (q.agents_logged_in ≤ q.agents_total)
      × ((q.logged_in ≡ false) ⊎ (0 < q.agents_logged_in))
      × ((q.logged_in ≡ false) ⊎ (is_huntgroup_member g agent ≡ true))
unfolding get_call_queue is_huntgroup_member
queue_consistent g agent waiting = active-bounds agent (account_members (g.assigned_extensions))
