-- ===== src/Workers/Tests.antt =====
-- The theorems on the worker pool, on a pool with one worker.
use aegis_platform_server_te.Prelude.{
  ◌≤◌, ◌<◌, ◌≡◌, refl, inr, true, false, ◌&&◌, none, some, String, length, find, count_where,
  delete_where, add_row, arith, str_eq,
}
use aegis_platform_server_te.Workers.{
  Process, Pool, of_account, ensure_worker, is_running, is_alive, active_worker_count, exits,
  empty_pool, Reachable, start, next, ensures,
}
use aegis_platform_server_te.Workers.Capacity.{Reachable-active_le, ensure-true_iff}
use aegis_platform_server_te.Workers.Running.{exits-is_running}

abbrev one_pool : Pool
one_pool = (ensure_worker 2 "A1" "pw" 7 empty_pool).1

abbrev first_process : Process
first_process = record { account_id = "A1"; pid = 7; exited = false }

one_reached : Reachable 2 one_pool
one_reached = next start (ensures "A1" "pw" 7)

one_found : find (of_account "A1") one_pool.workers ≡ some first_process
unfolding ensure_worker find delete_where add_row str_eq
one_found = refl

one_left : length (delete_where (of_account "A2") one_pool.workers) < 2
unfolding ensure_worker find delete_where add_row str_eq
one_left = omega arith

Reachable-active_le_example :
    (active_worker_count one_pool ≤ 2)
    × (length one_pool.workers ≤ 2)
    × ((account_id : String) → count_where (of_account account_id) one_pool.workers ≤ 1)
Reachable-active_le_example = Reachable-active_le 2 one_pool one_reached

ensure-true_iff_test : (ensure_worker 2 "A2" "pw" 8 one_pool).0 ≡ true
ensure-true_iff_test = (ensure-true_iff 2 "A2" "pw" 8 one_pool).1 (inr one_left)

exits-is_running_test :
    (is_running "A1" (exits "A1" one_pool) ≡ true)
    × (find (λ v. of_account "A1" v && is_alive v) ((exits "A1" one_pool).workers) ≡ none)
exits-is_running_test = exits-is_running 2 "A1" one_pool first_process one_reached one_found
