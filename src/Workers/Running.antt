-- ===== src/Workers/Running.antt =====
-- `is_running` of backend/app/services/worker_pool_manager.py against the processes.
use aegis_platform_server_te.Prelude.{
  ℕ, ◌≡◌, refl, sym, ◌∙◌, inl, inr, true, false, ◌&&◌, Option, none, some, List, String, str_eq,
  str_eq_refl, str_eq_eq, str_eq_comm, arith, if◌then◌else◌, find, delete_where, Bool-cases,
  Option-cases, find-update, find-update-none, find-add_row, find-add_row_miss, find-delete_self,
  find-delete_other,
}
use aegis_platform_server_te.Workers.{
  Process, Pool, of_account, is_entry, registry_set, is_full, spawned, spawn_if_room, popped,
  ensure_worker, stop_worker, is_found, is_running, is_alive, ended, exits, Step, ensures, stops,
  dies, Reachable, start, next,
}

-- Every account with a handle is in the registry.
abbrev pub IsRegistered : Pool → Type 0
IsRegistered pool =
    (account_id : String) (w : Process)
    → find (of_account account_id) pool.workers ≡ some w
    → is_running account_id pool ≡ true

entry_after_set :
    (account_id a : String) (registry : List String)
    → is_found (find (is_entry a) registry) ≡ true
    → is_found (find (is_entry a) (registry_set account_id registry)) ≡ true
entry_after_set account_id a registry h = elim (Bool-cases (str_eq account_id a)) [
  | inl same ↦
      let e = str_eq_eq account_id a same in
      rw
        (
          ← e,
          find-add_row (is_entry account_id) account_id
              (delete_where (is_entry account_id) registry)
              (find-delete_self (is_entry account_id) registry),
          str_eq_refl,
        )
        refl
  | inr other ↦
      rw
        (
          find-add_row_miss (is_entry a) account_id (delete_where (is_entry account_id) registry)
              other,
          find-delete_other (is_entry a) (is_entry account_id) (λ x k. apart account_id a x other k)
              registry,
        )
        h
]
  where
    apart :
        (account_id a x : String)
        → str_eq account_id a ≡ false
        → str_eq x a ≡ true
        → str_eq x account_id ≡ false
    apart account_id a x other k = rw (str_eq_eq x a k, str_eq_comm a account_id) other

own_entry_after_set :
    (account_id : String) (registry : List String)
    → is_found (find (is_entry account_id) (registry_set account_id registry)) ≡ true
own_entry_after_set account_id registry =
    rw
      (
        find-add_row (is_entry account_id) account_id (delete_where (is_entry account_id) registry)
            (find-delete_self (is_entry account_id) registry),
        str_eq_refl,
      )
      refl

spawned-IsRegistered :
    (account_id credentials : String) (pid : ℕ) (pool : Pool)
    → find (of_account account_id) pool.workers ≡ none
    → IsRegistered pool
    → IsRegistered (spawned account_id credentials pid pool)
unfolding is_running
spawned-IsRegistered account_id credentials pid pool fresh reg a w e =
    elim (Bool-cases (str_eq account_id a)) [
      | inl same ↦ rw (← str_eq_eq account_id a same) (own_entry_after_set account_id pool.registry)
      | inr other ↦ entry_after_set account_id a pool.registry (
          reg a w (
            rw
              (find-add_row_miss (of_account a)
                (record { account_id = account_id; pid = pid; exited = false }) pool.workers other)
              at e))
    ]

-- Without the handle of an account, the handles found are those of the others.
found_after_pop :
    (account_id a : String) (w : Process) (workers : List Process)
    → find (of_account a) (delete_where (of_account account_id) workers) ≡ some w
    → (str_eq a account_id ≡ false) × (find (of_account a) workers ≡ some w)
found_after_pop account_id a w workers e = elim (Bool-cases (str_eq a account_id)) [
  | inl same ↦ absurd (
      nothing
        (rw (str_eq_eq a account_id same, find-delete_self (of_account account_id) workers) at e))
  | inr other ↦ (
    other,
    sym (
          find-delete_other (of_account a) (of_account account_id)
            (λ x k. rw (str_eq_eq x.account_id a k) other) workers)
        ∙ e,
  )
]
  where
    nothing : Path (Option Process) none (some w) → ⊥
    nothing e = ground arith

popped-IsRegistered :
    (account_id : String) (pool : Pool) → IsRegistered pool → IsRegistered (popped account_id pool)
unfolding is_running
popped-IsRegistered account_id pool reg a w e =
    reg a w ((found_after_pop account_id a w pool.workers e).1)

module _ (max_workers : ℕ) where
  spawn-IsRegistered :
      (account_id credentials : String) (pid : ℕ) (pool : Pool)
      → find (of_account account_id) pool.workers ≡ none
      → IsRegistered pool
      → IsRegistered ((spawn_if_room max_workers account_id credentials pid pool).1)
  spawn-IsRegistered account_id credentials pid pool fresh reg =
      elim (Bool-cases (is_full max_workers pool.workers)) [
        | inl full ↦ rw full reg
        | inr room ↦ rw room (spawned-IsRegistered account_id credentials pid pool fresh reg)
      ]

  ensure-IsRegistered :
      (account_id credentials : String) (pid : ℕ) (pool : Pool)
      → IsRegistered pool
      → IsRegistered ((ensure_worker max_workers account_id credentials pid pool).1)
  unfolding ensure_worker
  ensure-IsRegistered account_id credentials pid pool reg =
      elim (Option-cases (find (of_account account_id) pool.workers)) [
        | inl n ↦ rw (n, ensure_worker) (spawn-IsRegistered account_id credentials pid pool n reg)
        | inr (w, p) ↦ elim (Bool-cases w.exited) [
          | inr alive ↦ rw (p, ensure_worker, alive) reg
          | inl dead ↦
              rw (p, ensure_worker, dead)
                (spawn-IsRegistered account_id credentials pid (popped account_id pool)
                  (find-delete_self (of_account account_id) pool.workers)
                  (popped-IsRegistered account_id pool reg))
        ]
      ]

  Step-IsRegistered :
      (pool after : Pool) → Step max_workers pool after → IsRegistered pool → IsRegistered after
  unfolding stop_worker exits is_running
  Step-IsRegistered pool _ (ensures account_id credentials pid) reg =
      ensure-IsRegistered account_id credentials pid pool reg
  Step-IsRegistered pool _ (stops account_id) reg = λ a w e.
      let (other, there) = found_after_pop account_id a w pool.workers e in
      rw
        (find-delete_other (is_entry a) (is_entry account_id) (λ x k. rw (str_eq_eq x a k) other)
          pool.registry)
        (reg a w there)
  Step-IsRegistered pool _ (dies account_id) reg = λ a w e.
      elim (Option-cases (find (of_account a) pool.workers)) [
        | inr (v, p) ↦ reg a v p
        | inl n ↦ cc (
            rw
              (find-update (of_account a) (of_account account_id) ended (λ x. refl) pool.workers, n)
              at e)
      ]

  Reachable-IsRegistered : (pool : Pool) → Reachable max_workers pool → IsRegistered pool
  unfolding find
  Reachable-IsRegistered _ start = λ a w e. ground arith
  Reachable-IsRegistered pool (next {pool = before} r s) =
      Step-IsRegistered before pool s (Reachable-IsRegistered before r)

  spawn-is_running :
      (account_id credentials : String) (pid : ℕ) (pool : Pool)
      → (spawn_if_room max_workers account_id credentials pid pool).0 ≡ true
      → is_running account_id ((spawn_if_room max_workers account_id credentials pid pool).1) ≡ true
  unfolding is_running
  spawn-is_running account_id credentials pid pool e =
      elim (Bool-cases (is_full max_workers pool.workers)) [
        | inl full ↦ cc (rw full at e)
        | inr room ↦ rw room (own_entry_after_set account_id pool.registry)
      ]

  -- In every pool that an instance can come to: when a worker is available after `ensure_worker`,
  -- `is_running` says so.
  pub ensure-is_running :
      (account_id credentials : String) (pid : ℕ) (pool : Pool)
      → Reachable max_workers pool
      → (ensure_worker max_workers account_id credentials pid pool).0 ≡ true
      → is_running account_id ((ensure_worker max_workers account_id credentials pid pool).1) ≡ true
  unfolding ensure_worker
  ensure-is_running account_id credentials pid pool r e =
      elim (Option-cases (find (of_account account_id) pool.workers)) [
        | inl n ↦
            rw (n, ensure_worker)
              (spawn-is_running account_id credentials pid pool (rw (n, ensure_worker) at e))
        | inr (w, p) ↦ elim (Bool-cases w.exited) [
          | inr alive ↦ rw (p, ensure_worker, alive) (Reachable-IsRegistered pool r account_id w p)
          | inl dead ↦
              rw (p, ensure_worker, dead)
                (spawn-is_running account_id credentials pid (popped account_id pool)
                  (rw (p, ensure_worker, dead) at e))
        ]
      ]

-- After `stop_worker` an account is not running, and for every other account `is_running` is what
-- it was.
pub stop-is_running :
    (account_id a : String) (pool : Pool)
    → is_running a ((stop_worker account_id pool).1)
      ≡ (if str_eq a account_id then false else is_running a pool)
unfolding stop_worker is_running
stop-is_running account_id a pool = elim (Bool-cases (str_eq a account_id)) [
  | inl same ↦
      rw (same, str_eq_eq a account_id same, find-delete_self (is_entry account_id) pool.registry)
        refl
  | inr other ↦
      rw
        (
          other,
          find-delete_other (is_entry a) (is_entry account_id) (λ x k. rw (str_eq_eq x a k) other)
              pool.registry,
        )
        refl
]

-- When the process of an account ends by itself, `is_running` goes on answering yes, though the
-- account has no live process.
pub exits-is_running :
    (max_workers : ℕ) (account_id : String) (pool : Pool) (w : Process)
    → Reachable max_workers pool
    → find (of_account account_id) pool.workers ≡ some w
    → (is_running account_id (exits account_id pool) ≡ true)
      × (find (λ v. of_account account_id v && is_alive v) ((exits account_id pool).workers) ≡ none)
unfolding exits is_running
exits-is_running max_workers account_id pool w r e = (
  Reachable-IsRegistered max_workers pool r account_id w e,
  find-update-none (λ v. of_account account_id v && is_alive v) (of_account account_id) ended
      (λ x k. ground arith) (λ x k. ground arith) pool.workers,
)
