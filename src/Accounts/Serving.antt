-- ===== src/Accounts/Serving.antt =====
-- When a contacts request is answered from the cache, and what a read leaves in it.
use porta_phone_adapter.Base.{
  ℕ, zero, suc, ◌+◌, ◌-◌, ◌*◌, ◌≤◌, ◌<◌, ◌≡◌, ◌≢◌, refl, ap, ◌∙◌, inl, inr, true, false, Option,
  none, some, List, [], ◌∷◌, map, arith, ltb, ◌==◌, length, Bool-cases, Option-cases,
}
use porta_phone_adapter.Base.Eq.{nat_eq}
use porta_phone_adapter.Base.Dict.{Dict, lookup, insert, lookup-insert_self, lookup-erase_ne}
use porta_phone_adapter.Base.Result.{ok}
use porta_phone_adapter.Accounts.Fetch.{Account, project_account}
use porta_phone_adapter.Accounts.{
  Entry, Cache, serve, total_rows, older, oldest, drop_entry, evict_entry, evict_one, evict_loop,
  evict_accounts_over_limit, store_accounts, schedule_refresh, get_all_accounts, read_end,
  stale_factor,
}

older-other :
    (just k : ℕ) (e : Entry) (rest : Option (ℕ × Entry)) (j : ℕ) (f : Entry)
    → ((i : ℕ) → (g : Entry) → rest ≡ some (i, g) → i ≢ just)
    → older just k e rest ≡ some (j, f)
    → j ≢ just
older-other just k e none j f other h = λ q. ground arith
older-other just k e (some (i, g)) j f other h = λ q. let o = other i g refl in ground arith

-- The entry that is dropped is never the one just stored.
oldest-other :
    (just : ℕ) (d : Dict ℕ Entry) (j : ℕ) (f : Entry) → oldest just d ≡ some (j, f) → j ≢ just
unfolding oldest
oldest-other just [] j f h = λ q. cc
oldest-other just ((k, e) ∷ d) j f h =
    older-other just k e (oldest just d) j f (λ i g. oldest-other just d i g) h

evict_entry-keeps :
    (just total : ℕ) (s : Cache) (o : Option (ℕ × Entry)) (next : ℕ × Cache)
    → ((i : ℕ) → (g : Entry) → o ≡ some (i, g) → i ≢ just)
    → evict_entry total s o ≡ some next
    → lookup just ((next.1).accounts_cache) ≡ lookup just (s.accounts_cache)
unfolding evict_entry drop_entry
evict_entry-keeps just total s none next other h = cc
evict_entry-keeps just total s (some (k, e)) next other h =
    elim (Bool-cases (length e.accounts == 0)) [
      | inl a ↦ ground arith
      | inr b ↦
          let step : next ≡ (total - length e.accounts, drop_entry k s) = ground arith in
          rw step (lookup-erase_ne just k (s.accounts_cache) (other k e refl))
    ]

evict_one-keeps :
    (just : ℕ) (st next : ℕ × Cache)
    → evict_one just st ≡ some next
    → lookup just ((next.1).accounts_cache) ≡ lookup just ((st.1).accounts_cache)
unfolding evict_one
evict_one-keeps just (total, s) next h =
    evict_entry-keeps just total s (oldest just (s.accounts_cache)) next
      (oldest-other just (s.accounts_cache)) (ground arith)

evict_loop-keeps :
    (n just : ℕ) (st : ℕ × Cache)
    → lookup just ((evict_loop n just st).1.accounts_cache) ≡ lookup just ((st.1).accounts_cache)
unfolding evict_loop
evict_loop-keeps zero just st = refl
evict_loop-keeps (suc n) just st = elim (Option-cases (evict_one just st)) [
  | inl a ↦ rw (evict_loop, a) refl
  | inr (next, b) ↦
      rw (evict_loop, b) (evict_loop-keeps n just next ∙ evict_one-keeps just st next b)
]

-- A list that is stored is there afterwards: eviction keeps it, whatever its size and whatever
-- else is cached, with the time of the store.
pub stored_kept :
    (now i_customer : ℕ) (accounts : List Account) (s : Cache)
    → lookup i_customer ((store_accounts now i_customer accounts s).accounts_cache)
      ≡ some (record { read_at = now; accounts = accounts })
unfolding store_accounts evict_accounts_over_limit
stored_kept now i_customer accounts s =
    let entry : Entry = record { read_at = now; accounts = accounts } in
    let cache = insert i_customer entry (s.accounts_cache) in
    let st : Cache = record {
      accounts_cache = cache;
      locks = s.locks;
      refresh_tasks = s.refresh_tasks;
    } in
    evict_loop-keeps (length cache) i_customer (total_rows cache, st)
    ∙ lookup-insert_self i_customer entry (s.accounts_cache)

-- A read serves the requests after it: when a read of a customer ends with the rows of the
-- switch, a request for that customer less than `ttl` later is answered with the projections of
-- these rows, without another read and without changing the tables.
pub read_then_served :
    (ttl now later i_customer : ℕ) (rows : List Account) (s : Cache)
    → now ≤ later
    → later < now + ttl
    → let after = (read_end now i_customer (ok rows) s).1 in
      get_all_accounts ttl later false i_customer after ≡ (serve (map project_account rows), after)
unfolding get_all_accounts read_end
read_then_served ttl now later i_customer rows s h k =
    let on : (ttl == 0) ≡ false = ground arith in
    let young : ltb (later - now) ttl ≡ true = ground arith in
    rw (on, stored_kept now i_customer (map project_account rows) s, young) refl

abbrev scheduled : ℕ → Cache → Cache
scheduled i_customer s = record {
  accounts_cache = s.accounts_cache;
  locks = s.locks;
  refresh_tasks = insert i_customer false (s.refresh_tasks);
}

schedule_idle :
    (i_customer : ℕ) (s : Cache)
    → lookup i_customer (s.refresh_tasks) ≡ none
    → schedule_refresh i_customer s ≡ (true, scheduled i_customer s)
unfolding schedule_refresh
schedule_idle i_customer s idle = rw (schedule_refresh, idle) refl

schedule_busy :
    (i_customer : ℕ) (s : Cache)
    → lookup i_customer (s.refresh_tasks) ≡ some false
    → schedule_refresh i_customer s ≡ (false, s)
unfolding schedule_refresh
schedule_busy i_customer s busy = rw (schedule_refresh, busy) refl

serves_stale :
    (ttl now i_customer : ℕ) (e : Entry) (s : Cache)
    → lookup i_customer (s.accounts_cache) ≡ some e
    → ttl ≤ now - e.read_at
    → now - e.read_at < ttl * 10
    → get_all_accounts ttl now false i_customer s
      ≡ (serve (e.accounts), (schedule_refresh i_customer s).1)
unfolding get_all_accounts
serves_stale ttl now i_customer e s found old limit =
    let on : (ttl == 0) ≡ false = ground arith in
    let aged : ltb (now - e.read_at) ttl ≡ false = ground arith in
    let usable : ltb (now - e.read_at) (ttl * stale_factor) ≡ true = ground arith in
    rw (on, found, aged, usable) refl

-- An aged list is served while one task refreshes it: for an entry older than `ttl` and younger
-- than ten times it, with no refresh running, a request gets the cached accounts at once and
-- starts a task, and every further request of that age gets them too and starts no other.
pub stale_refreshed_once :
    (ttl now later i_customer : ℕ) (e : Entry) (s : Cache)
    → lookup i_customer (s.accounts_cache) ≡ some e
    → lookup i_customer (s.refresh_tasks) ≡ none
    → ttl ≤ now - e.read_at
    → now ≤ later
    → later - e.read_at < ttl * 10
    → let (first, after) = get_all_accounts ttl now false i_customer s in
      (first ≡ serve (e.accounts))
      × (lookup i_customer (after.refresh_tasks) ≡ some false)
      × (get_all_accounts ttl later false i_customer after ≡ (serve (e.accounts), after))
stale_refreshed_once ttl now later i_customer e s found idle old order limit =
    let next = scheduled i_customer s in
    let running : lookup i_customer (next.refresh_tasks) ≡ some false =
      lookup-insert_self i_customer false (s.refresh_tasks) in
    let first : get_all_accounts ttl now false i_customer s ≡ (serve (e.accounts), next) =
      serves_stale ttl now i_customer e s found old (omega arith)
      ∙ ap (λ x. (serve (e.accounts), x.1)) (schedule_idle i_customer s idle) in
    rw first (
      refl,
      running,
      serves_stale ttl later i_customer e next found (omega arith) limit
          ∙ ap (λ x. (serve (e.accounts), x.1)) (schedule_busy i_customer next running),
    )
