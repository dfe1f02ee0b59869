-- ===== src/Accounts.antt =====
-- app/bss/adapters/portaswitch/adapter.py: the account list of a customer, read from the switch
-- page by page (`Accounts.Fetch`) and cached for the contacts requests. Times are those of
-- `time.monotonic`; a lock and a refresh task of the tables are a Boolean, held and finished.
mod Fetch
pub mod Paging
pub mod Eviction
pub mod Serving
mod Tests
pub use Fetch.{Account, Field, project_account}
use porta_phone_adapter.Base.{
  ℕ, zero, suc, ◌+◌, ◌-◌, ◌*◌, ◌≡◌, Bool, true, false, not, ◌&&◌, ◌||◌, Option, none, some, List,
  [], ◌∷◌, map, ltb, leb, ◌==◌, if◌then◌else◌, length,
}
use porta_phone_adapter.Base.Eq.{nat_eq}
use porta_phone_adapter.Base.Dict.{Dict, lookup, insert, erase}
use porta_phone_adapter.Base.Result.{Result, ok, err, Raised}

-- `ACCOUNTS_CACHE_STALE_FACTOR` and `ACCOUNTS_CACHE_MAX_ROWS`
abbrev pub stale_factor : ℕ
stale_factor = 10

abbrev pub max_rows : ℕ
max_rows = 100000

-- A cached list and the time when it was read.
pub record Entry : Type 0 where
  pub read_at : ℕ
  pub accounts : List Account

-- The tables of the adapter object: `_accounts_cache`, `_accounts_cache_locks` and
-- `_accounts_refresh_tasks`.
pub record Cache : Type 0 where
  pub accounts_cache : Dict ℕ Entry
  pub locks : Dict ℕ Bool
  pub refresh_tasks : Dict ℕ Bool

-- What `_get_all_accounts_by_customer` does with a request.
pub data Decision : Type 0 where
  fetch read : Decision
  serve : List Account → Decision

-- `sum(len(cached) for ...)`
abbrev pub total_rows : Dict ℕ Entry → ℕ
total_rows [] = 0
total_rows ((k, e) ∷ d) = length e.accounts + total_rows d

-- `min(..., key=...)`: the first of the entries that were read earliest, but for the one just
-- stored.
abbrev pub older : ℕ → ℕ → Entry → Option (ℕ × Entry) → Option (ℕ × Entry)
older just k e none = if k == just then none else some (k, e)
older just k e (some (j, f)) =
    if k == just then some (j, f) else if leb e.read_at f.read_at then some (k, e) else some (j, f)

unfoldable pub oldest : ℕ → Dict ℕ Entry → Option (ℕ × Entry)
oldest just [] = none
oldest just ((k, e) ∷ d) = older just k e (oldest just d)

-- The lock goes with the entry, unless it is held.
unfoldable pub free_lock : ℕ → Option Bool → Dict ℕ Bool → Dict ℕ Bool
free_lock k none locks = locks
free_lock k (some held) locks = if held then locks else erase k locks

unfoldable pub drop_entry : ℕ → Cache → Cache
drop_entry k s = record {
  accounts_cache = erase k (s.accounts_cache);
  locks = free_lock k (lookup k (s.locks)) (s.locks);
  refresh_tasks = s.refresh_tasks;
}

unfoldable pub evict_entry : ℕ → Cache → Option (ℕ × Entry) → Option (ℕ × Cache)
evict_entry total s none = none
evict_entry total s (some (k, e)) =
    if length e.accounts == 0 then none else some (total - length e.accounts, drop_entry k s)

-- One turn of the loop of `_evict_accounts_over_limit`, none where the loop ends.
unfoldable pub evict_one : ℕ → ℕ × Cache → Option (ℕ × Cache)
evict_one just (total, s) =
    if ltb max_rows total && ltb 1 (length s.accounts_cache)
    then evict_entry total s (oldest just (s.accounts_cache))
    else none

unfoldable pub evict_loop : ℕ → ℕ → ℕ × Cache → ℕ × Cache
evict_loop zero just st = st
evict_loop (suc n) just st = elim (evict_one just st) [
  | none ↦ st
  | some next ↦ evict_loop n just next
]

-- `_evict_accounts_over_limit`; the loop drops an entry in each turn.
unfoldable pub evict_accounts_over_limit : ℕ → Cache → Cache
evict_accounts_over_limit just s =
    (evict_loop (length s.accounts_cache) just (total_rows (s.accounts_cache), s)).1

-- `_store_accounts`
unfoldable pub store_accounts : ℕ → ℕ → List Account → Cache → Cache
store_accounts now i_customer accounts s = evict_accounts_over_limit i_customer (record {
  accounts_cache =
      insert i_customer (record { read_at = now; accounts = accounts }) (s.accounts_cache);
  locks = s.locks;
  refresh_tasks = s.refresh_tasks;
})

-- `_schedule_accounts_refresh`, and whether it starts a task.
unfoldable pub schedule_refresh : ℕ → Cache → Bool × Cache
schedule_refresh i_customer s = elim (lookup i_customer (s.refresh_tasks)) [
  | some false ↦ (false, s)
  | some true ↦ (
    true,
    record {
      accounts_cache = s.accounts_cache;
      locks = s.locks;
      refresh_tasks = insert i_customer false (s.refresh_tasks);
    },
  )
  | none ↦ (
    true,
    record {
      accounts_cache = s.accounts_cache;
      locks = s.locks;
      refresh_tasks = insert i_customer false (s.refresh_tasks);
    },
  )
]

-- `_get_all_accounts_by_customer`: what is done with a request, and the tables after it.
unfoldable pub get_all_accounts : ℕ → ℕ → Bool → ℕ → Cache → Decision × Cache
get_all_accounts ttl now search i_customer s =
    if ttl == 0 || search then (fetch, s) else elim (lookup i_customer (s.accounts_cache)) [
      | none ↦ (read, s)
      | some e ↦
          if ltb (now - e.read_at) ttl
          then (serve e.accounts, s)
          else if ltb (now - e.read_at) (ttl * stale_factor)
          then (serve e.accounts, (schedule_refresh i_customer s).1)
          else (read, s)
    ]

abbrev pub set_lock : ℕ → Bool → Cache → Cache
set_lock i_customer held s = record {
  accounts_cache = s.accounts_cache;
  locks = insert i_customer held (s.locks);
  refresh_tasks = s.refresh_tasks;
}

-- `_read_accounts_into_cache` once it has the lock: the list that another reader has left, or none,
-- and then the switch is asked with the lock held.
unfoldable pub read_begin : ℕ → ℕ → ℕ → Cache → Option (List Account) × Cache
read_begin ttl now i_customer s =
    let held = set_lock i_customer true s in
    let released = set_lock i_customer false s in
    elim (lookup i_customer (s.accounts_cache)) [
      | none ↦ (none, held)
      | some e ↦ if ltb (now - e.read_at) ttl then (some (e.accounts), released) else (none, held)
    ]

-- Its end, with the answer of the switch: the lock is released after the list is stored.
unfoldable pub read_end :
    ℕ → ℕ → Result Raised (List Account) → Cache → Result Raised (List Account) × Cache
read_end now i_customer (err r) s = (err r, set_lock i_customer false s)
read_end now i_customer (ok rows) s =
    let accounts = map project_account rows in
    (ok accounts, set_lock i_customer false (store_accounts now i_customer accounts s))

-- The end of `_refresh_accounts`, from the answer of the switch on (before it the task goes through
-- `read_begin`), and then `_forget_refresh_task` for the finished task while it is the current one.
unfoldable pub refresh_accounts : ℕ → ℕ → Result Raised (List Account) → Cache → Cache
refresh_accounts now i_customer reply s =
    let after = (read_end now i_customer reply s).1 in
    record {
      accounts_cache = after.accounts_cache;
      locks = after.locks;
      refresh_tasks = erase i_customer (after.refresh_tasks);
    }
