-- ===== src/Jobs.antt =====
-- The job queue between the API and the workers, and the loop of a worker
-- (backend/app/services/job_queue_service.py and backend/app/worker/mt5_worker.py). Redis is the
-- interface `RedisLists`: its keys hold lists, new values go to the left end, a key may have a time to
-- live, and time passes by `elapse`. A pop that waits gives nothing when the list stays empty until
-- its timeout, which then has passed. Times are whole seconds. A job is passed as its JSON. What the
-- MT5 client does for a job, and how long it takes, are parameters.
-- The loop is taken by itself: nothing is submitted and no result is collected while it runs.
pub mod Fifo
pub mod Answers
pub mod Collected
mod Tests
use aegis_platform_server_te.Prelude.{
  ℕ, zero, suc, ◌-◌, ◌<◌, ltb, ◌≡◌, ◌≢◌, Bool, true, false, Option, none, some, List, [], ◌∷◌, ◌++◌,
  String, concat, str_eq, if◌then◌else◌,
}

-- What is left of a value, and of its time to live, after some seconds.
abbrev pub outlive : {A : Type 0} → ℕ → Option ℕ → List A → List A
outlive n none vs = vs
outlive n (some t) vs = if ltb n t then vs else []

abbrev pub left : ℕ → Option ℕ → Option ℕ
left n none = none
left n (some t) = if ltb n t then some (t - n) else none

-- What the queue uses of Redis, and its documented behaviour.
pub record RedisLists (Value : Type 0) (Redis : Type 0) : Type 0 where
  pub items : String → Redis → List Value
  pub lpush : String → Value → Redis → Redis
  pub rpop : String → Redis → Option Value × Redis
  pub lpop : String → Redis → Option Value × Redis
  pub ttl : String → Redis → Option ℕ
  pub expire : String → ℕ → Redis → Redis
  pub elapse : ℕ → Redis → Redis
  pub items-lpush : (k : String) (v : Value) (r : Redis) → items k (lpush k v r) ≡ v ∷ items k r
  pub items-lpush_other :
      (k j : String) (v : Value) (r : Redis) → k ≢ j → items j (lpush k v r) ≡ items j r
  pub rpop_empty : (k : String) (r : Redis) → items k r ≡ [] → rpop k r ≡ (none, r)
  pub rpop_last :
      (k : String) (vs : List Value) (v : Value) (r : Redis)
      → items k r ≡ vs ++ v ∷ []
      → ((rpop k r).0 ≡ some v) × (items k ((rpop k r).1) ≡ vs)
  pub items-rpop_other : (k j : String) (r : Redis) → k ≢ j → items j ((rpop k r).1) ≡ items j r
  pub lpop_first :
      (k : String) (v : Value) (vs : List Value) (r : Redis)
      → items k r ≡ v ∷ vs
      → ((lpop k r).0 ≡ some v) × (items k ((lpop k r).1) ≡ vs)
  pub lpop_empty : (k : String) (r : Redis) → items k r ≡ [] → lpop k r ≡ (none, r)
  pub ttl-lpush : (k j : String) (v : Value) (r : Redis) → ttl j (lpush k v r) ≡ ttl j r
  pub ttl-rpop_other : (k j : String) (r : Redis) → k ≢ j → ttl j ((rpop k r).1) ≡ ttl j r
  pub ttl-rpop_none : (k : String) (r : Redis) → ttl k r ≡ none → ttl k ((rpop k r).1) ≡ none
  pub items-expire :
      (k j : String) (seconds : ℕ) (r : Redis)
      → 0 < seconds
      → items j (expire k seconds r) ≡ items j r
  pub ttl-expire :
      (k : String) (seconds : ℕ) (v : Value) (vs : List Value) (r : Redis)
      → 0 < seconds
      → items k r ≡ v ∷ vs
      → ttl k (expire k seconds r) ≡ some seconds
  pub ttl-expire_other :
      (k j : String) (seconds : ℕ) (r : Redis) → k ≢ j → ttl j (expire k seconds r) ≡ ttl j r
  pub items-elapse :
      (k : String) (n : ℕ) (r : Redis) → items k (elapse n r) ≡ outlive n (ttl k r) (items k r)
  pub ttl-elapse : (k : String) (n : ℕ) (r : Redis) → ttl k (elapse n r) ≡ left n (ttl k r)

pub record Job (Payload : Type 0) : Type 0 where
  pub job_id : String
  pub job_type : String
  pub payload : Payload

-- `{"success": True, "result": …}` or `{"success": False, "message": …}`.
pub data JobResult (V : Type 0) : Type 0 where
  success : V → JobResult V
  failure : String → JobResult V

-- Jobs and results have keys of their own; both are values of one Redis.
pub data Value (Payload V : Type 0) : Type 0 where
  job_value : Job Payload → Value Payload V
  result_value : JobResult V → Value Payload V

-- What a call of the execution service does: it returns, or raises with a message.
pub data Outcome (V : Type 0) : Type 0 where
  returned : V → Outcome V
  raised : String → Outcome V

abbrev pub job_types : List String
job_types =
    "market_order" ∷ "pending_order" ∷ "modify_position" ∷ "close_position" ∷ "cancel_order"
    ∷ "get_positions" ∷ "get_orders" ∷ "get_account" ∷ "get_symbol" ∷ "health" ∷ []

-- `JOB_DISPATCH.get(job_type)` finds an entry.
unfoldable pub is_known : String → List String → Bool
is_known job_type [] = false
is_known job_type (t ∷ ts) = if str_eq t job_type then true else is_known job_type ts

abbrev pub queue_key : String → String
queue_key account_id = concat "queue:account:" account_id

abbrev pub result_key : String → String
result_key job_id = concat "result:" job_id

abbrev pub result_key_ttl_seconds : ℕ
result_key_ttl_seconds = 60

module _ {Payload V Redis : Type 0} (redis : RedisLists (Value Payload V) Redis) where
  -- The `uuid4` is an argument.
  unfoldable pub submit_job : String → Job Payload → Redis → Redis
  submit_job account_id job r = redis.lpush (queue_key account_id) (job_value job) r

  abbrev pub as_job : Option (Value Payload V) → Option (Job Payload)
  as_job (some (job_value job)) = some job
  as_job _ = none

  abbrev pub as_result : Option (Value Payload V) → Option (JobResult V)
  as_result (some (result_value result)) = some result
  as_result _ = none

  -- A pop that gave nothing has waited until its timeout.
  abbrev pub waited : Option (Value Payload V) → ℕ → Redis → Redis
  waited none timeout r = redis.elapse timeout r
  waited (some v) timeout r = r

  unfoldable pub pop_job : String → ℕ → Redis → Option (Job Payload) × Redis
  pop_job account_id timeout_seconds r =
      let popped = redis.rpop (queue_key account_id) r in
      (as_job popped.0, waited popped.0 timeout_seconds popped.1)

  unfoldable pub push_result : String → JobResult V → Redis → Redis
  push_result job_id result r =
      redis.expire (result_key job_id) result_key_ttl_seconds
        (redis.lpush (result_key job_id) (result_value result) r)

  unfoldable pub await_result : String → ℕ → Redis → Option (JobResult V) × Redis
  await_result job_id timeout_seconds r =
      let popped = redis.lpop (result_key job_id) r in
      (as_result popped.0, waited popped.0 timeout_seconds popped.1)

  module _ (perform : Job Payload → Outcome V) (took : Job Payload → ℕ) where
    abbrev pub result_of : Outcome V → JobResult V
    result_of (returned v) = success v
    result_of (raised message) = failure message

    abbrev pub job_result : Job Payload → JobResult V
    job_result job =
        if is_known job.job_type job_types
        then result_of (perform job)
        else failure (concat "Unknown job_type: " job.job_type)

    unfoldable pub handle_job : Job Payload → Redis → Redis
    unfolding push_result
    handle_job job r = push_result job.job_id (job_result job) (redis.elapse (took job) r)

    abbrev pub is_stop : Job Payload → Bool
    is_stop job = str_eq job.job_type "STOP"

    -- The loop of `run_worker`: until a timeout without a job, or a STOP. The fuel bounds the number
    -- of turns; `none` is a loop that was not over by then. `idle` is `WORKER_IDLE_TIMEOUT_SECONDS`.
    unfoldable pub run_worker : ℕ → ℕ → String → Redis → Option Redis
    run_worker zero idle account_id r = none
    run_worker (suc n) idle account_id r =
        let popped = pop_job account_id idle r in
        elim popped.0 [
          | none ↦ some popped.1
          | some job ↦
              let rest = run_worker n idle account_id (handle_job job popped.1) in
              if is_stop job then some popped.1 else rest
        ]
