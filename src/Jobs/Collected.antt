-- ===== src/Jobs/Collected.antt =====
-- A result on its way from the worker to the handler that waits for it (`push_result` and
-- `await_result` of backend/app/services/job_queue_service.py).
use aegis_platform_server_te.Prelude.{
  ℕ, ◌≡◌, refl, ◌∙◌, inl, inr, none, some, [], ◌∷◌, String, ltb, arith, if◌then◌else◌, Bool-cases,
}
use aegis_platform_server_te.Jobs.{
  RedisLists, JobResult, Value, result_value, result_key, push_result, await_result,
}

module _ {Payload V Redis : Type 0} (redis : RedisLists (Value Payload V) Redis) where
  -- A result that a worker has pushed at the key of a job without results waits there for less than
  -- a minute: a handler that looks for it within that time gets it, and a later one gets nothing.
  pub push-await :
      (job_id : String) (result : JobResult V) (n timeout : ℕ) (r : Redis)
      → redis.items (result_key job_id) r ≡ []
      → (await_result redis job_id timeout (redis.elapse n (push_result redis job_id result r))).0
        ≡ (if ltb n 60 then some result else none)
  unfolding push_result await_result
  push-await job_id result n timeout r empty =
      let key = result_key job_id in
      let v : Value Payload V = result_value result in
      let pushed = redis.lpush key v r in
      let put = redis.items-lpush key v r in
      let stored = redis.expire key 60 pushed in
      let waits : redis.items key (redis.elapse n stored) ≡ (if ltb n 60 then v ∷ [] else []) =
        rw
          (
            redis.items-elapse key n stored,
            redis.ttl-expire key 60 v (redis.items key r) pushed (omega arith) put,
            redis.items-expire key key 60 pushed (omega arith),
            put,
            empty,
          )
          refl in
      elim (Bool-cases (ltb n 60)) [
        | inl soon ↦
            rw ((redis.lpop_first key v [] (redis.elapse n stored) (waits ∙ rw soon refl)).0, soon)
              refl
        | inr late ↦
            rw (redis.lpop_empty key (redis.elapse n stored) (waits ∙ rw late refl), late) refl
      ]
