-- ===== src/Workers/Capacity.antt =====
-- The limit on the worker processes of an instance
-- (backend/app/services/worker_pool_manager.py).
use aegis_platform_server_te.Prelude.{
  ℕ, ◌≤◌, ◌<◌, ◌≡◌, ◌↔◌, ◌⊎◌, refl, inl, inr, true, false, Option, none, some, String, str_eq,
  str_eq_eq, arith, length, find, delete_where, count_where, Bool-cases, Option-cases, count-update,
  count-add_row, count-delete_le, length-update, length-add_row, delete_none, length-delete_le,
  count-length_le, find-delete_self, find-count_none,
}
use aegis_platform_server_te.Workers.{
  Process, Pool, of_account, is_full, spawned, spawn_if_room, popped, ensure_worker, stop_worker,
  is_alive, active_worker_count, ended, exits, Step, ensures, stops, dies, Reachable, start, next,
}

-- No more handles than the limit, and one for an account.
pub record IsBounded (max_workers : ℕ) (pool : Pool) : Type 0 where
  pub within : length pool.workers ≤ max_workers
  pub one_each : (account_id : String) → count_where (of_account account_id) pool.workers ≤ 1

module _ (max_workers : ℕ) where
  popped-IsBounded :
      (account_id : String) (pool : Pool)
      → IsBounded max_workers pool
      → IsBounded max_workers (popped account_id pool)
  popped-IsBounded account_id pool b = record {
    within = omega (arith, length-delete_le (of_account account_id) pool.workers, b.within);
    one_each = λ a.
        omega (
          arith,
          count-delete_le (of_account a) (of_account account_id) pool.workers,
          b.one_each a,
        );
  }

  spawn-IsBounded :
      (account_id credentials : String) (pid : ℕ) (pool : Pool)
      → find (of_account account_id) pool.workers ≡ none
      → IsBounded max_workers pool
      → IsBounded max_workers ((spawn_if_room max_workers account_id credentials pid pool).1)
  spawn-IsBounded account_id credentials pid pool fresh b =
      elim (Bool-cases (is_full max_workers pool.workers)) [
        | inl full ↦ rw full b
        | inr room ↦ rw room (added room)
      ]
    where
      added :
          is_full max_workers pool.workers ≡ false
          → IsBounded max_workers (spawned account_id credentials pid pool)
      added room = record {
        within =
            rw
              (length-add_row (record { account_id = account_id; pid = pid; exited = false })
                pool.workers)
              (ground arith);
        one_each = λ a. elim (Bool-cases (str_eq account_id a)) [
          | inl same ↦
              rw
                (
                  count-add_row (of_account a)
                      (record { account_id = account_id; pid = pid; exited = false }) pool.workers,
                  same,
                  ← str_eq_eq account_id a same,
                  find-count_none (of_account account_id) pool.workers fresh,
                )
                (omega arith)
          | inr other ↦
              rw
                (
                  count-add_row (of_account a)
                      (record { account_id = account_id; pid = pid; exited = false }) pool.workers,
                  other,
                )
                (omega (arith, b.one_each a))
        ];
      }

  ensure-IsBounded :
      (account_id credentials : String) (pid : ℕ) (pool : Pool)
      → IsBounded max_workers pool
      → IsBounded max_workers ((ensure_worker max_workers account_id credentials pid pool).1)
  unfolding ensure_worker
  ensure-IsBounded account_id credentials pid pool b =
      elim (Option-cases (find (of_account account_id) pool.workers)) [
        | inl n ↦ rw (n, ensure_worker) (spawn-IsBounded account_id credentials pid pool n b)
        | inr (w, p) ↦ elim (Bool-cases w.exited) [
          | inr alive ↦ rw (p, ensure_worker, alive) b
          | inl dead ↦
              rw (p, ensure_worker, dead)
                (spawn-IsBounded account_id credentials pid (popped account_id pool)
                  (find-delete_self (of_account account_id) pool.workers)
                  (popped-IsBounded account_id pool b))
        ]
      ]

  Step-IsBounded :
      (pool after : Pool)
      → Step max_workers pool after
      → IsBounded max_workers pool
      → IsBounded max_workers after
  unfolding stop_worker exits
  Step-IsBounded pool _ (ensures account_id credentials pid) b =
      ensure-IsBounded account_id credentials pid pool b
  Step-IsBounded pool _ (stops account_id) b =
      let less = popped-IsBounded account_id pool b in
      record { within = less.within; one_each = less.one_each }
  Step-IsBounded pool _ (dies account_id) b = record {
    within = rw (length-update (of_account account_id) ended pool.workers) b.within;
    one_each = λ a.
        rw (count-update (of_account a) (of_account account_id) ended (λ x. refl) pool.workers)
          (b.one_each a);
  }

  Reachable-IsBounded : (pool : Pool) → Reachable max_workers pool → IsBounded max_workers pool
  unfolding count_where
  Reachable-IsBounded _ start = record { within = omega arith; one_each = λ a. omega arith }
  Reachable-IsBounded pool (next {pool = before} r s) =
      Step-IsBounded before pool s (Reachable-IsBounded before r)

  -- However starts, stops and exits of worker processes follow one another, the instance keeps at
  -- most one handle for an account, and neither its handles nor its live processes are more than
  -- the limit.
  pub Reachable-active_le :
      (pool : Pool)
      → Reachable max_workers pool
      → (active_worker_count pool ≤ max_workers)
        × (length pool.workers ≤ max_workers)
        × ((account_id : String) → count_where (of_account account_id) pool.workers ≤ 1)
  unfolding active_worker_count
  Reachable-active_le pool r =
      let b = Reachable-IsBounded pool r in
      (omega (arith, count-length_le is_alive pool.workers, b.within), b.within, b.one_each)

  spawn-true_iff :
      (account_id credentials : String) (pid : ℕ) (pool : Pool)
      → ((spawn_if_room max_workers account_id credentials pid pool).0 ≡ true)
        ↔ (length pool.workers < max_workers)
  spawn-true_iff account_id credentials pid pool = (λ h. ground arith, λ h. ground arith)

  both :
      (w v : Process)
      → Path (Option Process) (some (record w { exited = true })) (some v)
      → v.exited ≡ false
      → ⊥
  both w v e lives = ground arith

  -- A worker is available exactly when the account's own process lives, or when the handles of the
  -- other accounts are fewer than the limit: processes that have exited count like live ones.
  pub ensure-true_iff :
      (account_id credentials : String) (pid : ℕ) (pool : Pool)
      → ((ensure_worker max_workers account_id credentials pid pool).0 ≡ true) ↔ (
          ((w : Process) × (find (of_account account_id) pool.workers ≡ some w)
            × (w.exited ≡ false))
          ⊎ (length (delete_where (of_account account_id) pool.workers) < max_workers))
  unfolding ensure_worker
  ensure-true_iff account_id credentials pid pool =
      elim (Option-cases (find (of_account account_id) pool.workers)) [
        | inl n ↦
            rw (n, ensure_worker, delete_none (of_account account_id) pool.workers n)
              (
                λ h. inr ((spawn-true_iff account_id credentials pid pool).0 h),
                λ h. elim h [
                  | inl (w, e, _) ↦ cc
                  | inr room ↦ (spawn-true_iff account_id credentials pid pool).1 room
                ],
              )
        | inr (w, p) ↦ elim (Bool-cases w.exited) [
          | inr alive ↦
              rw (p, ensure_worker, alive)
                (λ h. inl (record w { exited = false }, refl, refl), λ h. refl)
          | inl dead ↦
              rw (p, ensure_worker, dead)
                (
                  λ h.
                      inr
                        ((spawn-true_iff account_id credentials pid (popped account_id pool)).0 h),
                  λ h. elim h [
                    | inl (v, e, lives) ↦ absurd (both w v e lives)
                    | inr room ↦
                        (spawn-true_iff account_id credentials pid (popped account_id pool)).1 room
                  ],
                )
        ]
      ]
