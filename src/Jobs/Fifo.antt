-- ===== src/Jobs/Fifo.antt =====
-- The job queue of backend/app/services/job_queue_service.py against a list of jobs, oldest first.
use aegis_platform_server_te.Prelude.{
  ℕ, zero, suc, ◌≡◌, refl, Option, none, some, List, [], ◌∷◌, ◌++◌, String, length,
}
use aegis_platform_server_te.Jobs.{
  RedisLists, Job, Value, job_value, queue_key, submit_job, pop_job,
}

module _ {Payload V Redis : Type 0} (redis : RedisLists (Value Payload V) Redis) where
  -- The list of a queue, whose right end is the oldest job.
  abbrev pub newest_first : List (Job Payload) → List (Value Payload V)
  newest_first [] = []
  newest_first (job ∷ jobs) = newest_first jobs ++ job_value job ∷ []

  abbrev pub IsQueue : String → List (Job Payload) → Redis → Type 0
  IsQueue account_id jobs r = redis.items (queue_key account_id) r ≡ newest_first jobs

  newest_first-append :
      (jobs : List (Job Payload)) (job : Job Payload)
      → newest_first (jobs ++ job ∷ []) ≡ job_value job ∷ newest_first jobs
  newest_first-append [] job = refl
  newest_first-append (j ∷ js) job = rw (newest_first-append js job) refl

  pub submit-IsQueue :
      (account_id : String) (job : Job Payload) (jobs : List (Job Payload)) (r : Redis)
      → IsQueue account_id jobs r
      → IsQueue account_id (jobs ++ job ∷ []) (submit_job redis account_id job r)
  unfolding submit_job
  submit-IsQueue account_id job jobs r q =
      rw
        (
          redis.items-lpush (queue_key account_id) (job_value job) r,
          q,
          newest_first-append jobs job,
        )
        refl

  -- The oldest job is taken from the queue, at once, and the rest stays.
  pub pop-oldest :
      (account_id : String) (timeout : ℕ) (job : Job Payload) (jobs : List (Job Payload))
      (r : Redis)
      → IsQueue account_id (job ∷ jobs) r
      → (pop_job redis account_id timeout r ≡ (some job, (redis.rpop (queue_key account_id) r).1))
        × IsQueue account_id jobs ((redis.rpop (queue_key account_id) r).1)
  unfolding pop_job
  pop-oldest account_id timeout job jobs r q =
      let (first, rest) =
        redis.rpop_last (queue_key account_id) (newest_first jobs) (job_value job) r q in
      (rw (first, pop_job) refl, rest)

  pub pop-empty :
      (account_id : String) (timeout : ℕ) (r : Redis)
      → IsQueue account_id [] r
      → pop_job redis account_id timeout r ≡ (none, redis.elapse timeout r)
  unfolding pop_job
  pop-empty account_id timeout r q = rw (redis.rpop_empty (queue_key account_id) r q, pop_job) refl

  abbrev pub submit_all : String → List (Job Payload) → Redis → Redis
  submit_all account_id [] r = r
  submit_all account_id (job ∷ jobs) r =
      submit_all account_id jobs (submit_job redis account_id job r)

  -- The jobs that so many pops give.
  abbrev pub pop_many : ℕ → String → ℕ → Redis → List (Option (Job Payload))
  pop_many zero account_id timeout r = []
  pop_many (suc n) account_id timeout r =
      let popped = pop_job redis account_id timeout r in
      popped.0 ∷ pop_many n account_id timeout popped.1

  abbrev pub given : List (Job Payload) → List (Option (Job Payload))
  given [] = []
  given (job ∷ jobs) = some job ∷ given jobs

  append_nil : (xs : List (Job Payload)) → xs ++ [] ≡ xs
  append_nil [] = refl
  append_nil (x ∷ xs) = rw (append_nil xs) refl

  append_one :
      (xs : List (Job Payload)) (y : Job Payload) (ys : List (Job Payload))
      → xs ++ y ∷ ys ≡ (xs ++ y ∷ []) ++ ys
  append_one [] y ys = refl
  append_one (x ∷ xs) y ys = rw (append_one xs y ys) refl

  submit_all-IsQueue :
      (account_id : String) (old jobs : List (Job Payload)) (r : Redis)
      → IsQueue account_id old r
      → IsQueue account_id (old ++ jobs) (submit_all account_id jobs r)
  submit_all-IsQueue account_id old [] r q = rw (append_nil old) q
  submit_all-IsQueue account_id old (job ∷ jobs) r q = rw (append_one old job jobs) (
      submit_all-IsQueue account_id (old ++ job ∷ []) jobs (submit_job redis account_id job r)
        (submit-IsQueue account_id job old r q))

  pop_many-IsQueue :
      (account_id : String) (timeout : ℕ) (jobs : List (Job Payload)) (r : Redis)
      → IsQueue account_id jobs r
      → pop_many (length jobs) account_id timeout r ≡ given jobs
  pop_many-IsQueue account_id timeout [] r q = refl
  pop_many-IsQueue account_id timeout (job ∷ jobs) r q =
      let (first, rest) = pop-oldest account_id timeout job jobs r q in
      rw
        (
          first,
          pop_many-IsQueue account_id timeout jobs ((redis.rpop (queue_key account_id) r).1) rest,
        )
        refl

  -- Jobs submitted to an account's empty queue are taken by its worker in the order in which they
  -- were submitted, and none is lost or doubled.
  pub submit_all-pop_many :
      (account_id : String) (timeout : ℕ) (jobs : List (Job Payload)) (r : Redis)
      → redis.items (queue_key account_id) r ≡ []
      → pop_many (length jobs) account_id timeout (submit_all account_id jobs r) ≡ given jobs
  submit_all-pop_many account_id timeout jobs r empty =
      pop_many-IsQueue account_id timeout jobs (submit_all account_id jobs r)
        (submit_all-IsQueue account_id [] jobs r empty)
