-- ===== src/Workers.antt =====
-- The pool of worker processes of one API instance
-- (backend/app/services/worker_pool_manager.py). A process is a handle that has exited or not;
-- starting and killing one are the operating system's. What goes to Redis besides the registry,
-- the credentials and the STOP jobs, is a list of messages.
pub mod Capacity
pub mod Running
mod Tests
use aegis_platform_server_te.Prelude.{
  ℕ, suc, ◌≤◌, ◌≡◌, Bool, true, false, not, Option, none, some, List, [], ◌∷◌, String, leb, str_eq,
  length, if◌then◌else◌, find, add_row, delete_where, update, count_where, has_key,
}

-- The handle of a process; `exited` is `poll() is not None`.
pub record Process : Type 0 where
  pub account_id : String
  pub pid : ℕ
  pub exited : Bool

pub data Message : Type 0 where
  worker_credentials : String → String → Message
  stop_job : String → Message

pub record Pool : Type 0 where
  -- `self._workers`
  pub workers : List Process
  -- the accounts of the hash `worker_registry`
  pub registry : List String
  pub sent : List Message

abbrev pub of_account : String → Process → Bool
of_account = has_key (λ w. w.account_id)

abbrev pub is_entry : String → String → Bool
is_entry account_id entry = str_eq entry account_id

-- `hset` and `hdel` on the registry.
abbrev pub registry_set : String → List String → List String
registry_set account_id registry = add_row account_id (delete_where (is_entry account_id) registry)

abbrev pub registry_remove : String → List String → List String
registry_remove account_id registry = delete_where (is_entry account_id) registry

abbrev pub is_full : ℕ → List Process → Bool
is_full max_workers workers = leb max_workers (length workers)

abbrev pub spawned : String → String → ℕ → Pool → Pool
spawned account_id credentials pid pool = record {
  workers = add_row (record { account_id = account_id; pid = pid; exited = false }) pool.workers;
  registry = registry_set account_id pool.registry;
  sent = worker_credentials account_id credentials ∷ pool.sent;
}

abbrev pub spawn_if_room : ℕ → String → String → ℕ → Pool → Bool × Pool
spawn_if_room max_workers account_id credentials pid pool =
    if is_full max_workers pool.workers
    then (false, pool)
    else (true, spawned account_id credentials pid pool)

-- `self._workers.pop(account_id, None)`
abbrev pub popped : String → Pool → Pool
popped account_id pool = record pool { workers = delete_where (of_account account_id) pool.workers }

-- The pid is the one that the operating system gives if a process is started.
unfoldable pub ensure_worker : ℕ → String → String → ℕ → Pool → Bool × Pool
ensure_worker max_workers account_id credentials pid pool =
    elim (find (of_account account_id) pool.workers) [
      | none ↦ spawn_if_room max_workers account_id credentials pid pool
      | some existing ↦
          if not existing.exited
          then (true, pool)
          else spawn_if_room max_workers account_id credentials pid (popped account_id pool)
    ]

-- Both ways through the code, with a handle and without, push the STOP job and answer `True`.
unfoldable pub stop_worker : String → Pool → Bool × Pool
stop_worker account_id pool = (
  true,
  record {
    workers = delete_where (of_account account_id) pool.workers;
    registry = registry_remove account_id pool.registry;
    sent = stop_job account_id ∷ pool.sent;
  },
)

abbrev pub stop_each : List Process → Pool → Pool
unfolding stop_worker
stop_each [] pool = pool
stop_each (w ∷ ws) pool = stop_each ws ((stop_worker w.account_id pool).1)

unfoldable pub stop_all : Pool → Pool
stop_all pool = stop_each pool.workers pool

abbrev pub is_found : {A : Type 0} → Option A → Bool
is_found none = false
is_found (some _) = true

unfoldable pub is_running : String → Pool → Bool
is_running account_id pool = is_found (find (is_entry account_id) pool.registry)

abbrev pub is_alive : Process → Bool
is_alive w = not w.exited

unfoldable pub active_worker_count : Pool → ℕ
active_worker_count pool = count_where is_alive pool.workers

-- The process of an account ends by itself, after `WORKER_IDLE_TIMEOUT_SECONDS` without a job or on
-- a failure to connect. Nobody tells the pool.
abbrev pub ended : Process → Process
ended w = record w { exited = true }

unfoldable pub exits : String → Pool → Pool
exits account_id pool = record pool { workers = update (of_account account_id) ended pool.workers }

-- What happens to a pool, one thing at a time, as its lock orders them.
pub data Step (max_workers : ℕ) : Pool → Pool → Type 0 where
  ensures :
      (account_id credentials : String) (pid : ℕ) {pool : Pool}
      → Step max_workers pool ((ensure_worker max_workers account_id credentials pid pool).1)
  stops :
      (account_id : String) {pool : Pool} → Step max_workers pool ((stop_worker account_id pool).1)
  dies : (account_id : String) {pool : Pool} → Step max_workers pool (exits account_id pool)

abbrev pub empty_pool : Pool
empty_pool = record { workers = []; registry = []; sent = [] }

-- The pools that an instance can come to.
pub data Reachable (max_workers : ℕ) : Pool → Type 0 where
  start : Reachable max_workers empty_pool
  next :
      {pool after : Pool}
      → Reachable max_workers pool
      → Step max_workers pool after
      → Reachable max_workers after
