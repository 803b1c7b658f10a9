-- ===== src/Jobs/Answers.antt =====
-- The loop of a worker (`run_worker` and `handle_job` of backend/app/worker/mt5_worker.py) on the jobs
-- of a queue.
use Prim.Native.Char.{code}
use aegis_platform_server_te.Prelude.{
  ℕ, ◌≡◌, ◌≢◌, ap, Option, none, some, List, [], ◌∷◌, String, str_eq, arith, if◌then◌else◌,
}
use aegis_platform_server_te.Jobs.{
  RedisLists, Job, JobResult, Value, result_value, Outcome, outlive, left, queue_key, result_key,
  job_result, is_stop,
}
use aegis_platform_server_te.Jobs.Fifo.{IsQueue}

first_code : String → ℕ
first_code (String.◌∷◌ c s) = code c
first_code String.[] = 0

-- No job's result has the key of a queue.
pub keys_apart : (job_id account_id : String) → result_key job_id ≢ queue_key account_id
unfolding first_code
keys_apart job_id account_id e = absurd (different (ap first_code e))
  where
    different : Path ℕ (first_code (result_key job_id)) (first_code (queue_key account_id)) → ⊥
    different e = ground arith

-- What is at a key: its list, and its time to live.
abbrev pub Held : Type 0 → Type 0
Held Item = List Item × Option ℕ

abbrev pub aged : {Item : Type 0} → ℕ → Held Item → Held Item
aged n (vs, life) = (outlive n life vs, left n life)

module _ {Payload V Redis : Type 0} (redis : RedisLists (Value Payload V) Redis) where
  abbrev pub held : String → Redis → Held (Value Payload V)
  held k r = (redis.items k r, redis.ttl k r)

  -- A new result before what is at its own key, which then lives for a minute more.
  abbrev pub with_answer :
      String → String → JobResult V → Held (Value Payload V) → Held (Value Payload V)
  with_answer k job_id result h =
      if str_eq (result_key job_id) k then (result_value result ∷ h.0, some 60) else h

  -- The queue holds these jobs, and its key has no time to live, since no operation gives it one.
  abbrev pub IsLasting : String → List (Job Payload) → Redis → Type 0
  IsLasting account_id jobs r =
      IsQueue redis account_id jobs r × (redis.ttl (queue_key account_id) r ≡ none)

module _ {Payload V Redis : Type 0} (redis : RedisLists (Value Payload V) Redis)
    (perform : Job Payload → Outcome V) (took : Job Payload → ℕ) where
  -- What is at a key when a job is answered: the job's time has passed, and its result is there if
  -- the key is that of the job's id.
  abbrev pub answered : String → Job Payload → Held (Value Payload V) → Held (Value Payload V)
  answered k job h =
      with_answer redis k job.job_id (job_result redis perform took job) (aged (took job) h)

  -- The same for all jobs before the first STOP. Without a STOP the idle time passes at the end.
  abbrev pub answers :
      String → ℕ → List (Job Payload) → Held (Value Payload V) → Held (Value Payload V)
  answers k idle [] h = aged idle h
  answers k idle (job ∷ jobs) h =
      if is_stop redis perform took job then h else answers k idle jobs (answered k job h)
