-- ===== src/Startup.antt =====
-- The background sweep and the first admin key of backend/app/core/startup.py. SHA-256 is a
-- parameter; a drawn key, the ids that the database assigns and the time are arguments. Any
-- uncaught error of the bootstrap stops the start of the application.
pub mod Sweep
pub mod AdminKey
mod Tests
use aegis_platform_server_te.Prelude.{
  ℕ, Bool, true, false, ◌||◌, Option, none, some, List, [], ◌∷◌, String, str_eq, if◌then◌else◌,
  find, update, add_row, strip, is_empty,
}
use aegis_platform_server_te.Models.{Subscription, ApiKey, Settings}
use aegis_platform_server_te.Subscriptions.{get_lapsed_accounts, mark_suspended}
use aegis_platform_server_te.Workers.{Pool, is_running, stop_worker, stop_all}
use aegis_platform_server_te.Security.{KeyRequest, has_hash, issue_api_key}

-- What the sweep reads and writes.
pub record State : Type 0 where
  pub subscriptions : List Subscription
  pub pool : Pool

abbrev pub stop_if_running : String → Pool → Pool
stop_if_running account_id pool =
    if is_running account_id pool then (stop_worker account_id pool).1 else pool

unfoldable pub sweep_account : ℕ → String → State → State
sweep_account now account_id st = record {
  subscriptions = mark_suspended account_id now st.subscriptions;
  pool = stop_if_running account_id st.pool;
}

unfoldable pub sweep_accounts : ℕ → List Subscription → State → State
sweep_accounts now [] st = st
sweep_accounts now (row ∷ rows) st = sweep_accounts now rows (sweep_account now row.account_id st)

-- One round of `_subscription_sweep_loop`.
unfoldable pub subscription_sweep : ℕ → State → State
subscription_sweep now st = sweep_accounts now (get_lapsed_accounts now st.subscriptions) st

-- The pool is what `on_shutdown` leaves to the operating system.
unfoldable pub on_shutdown : State → State
on_shutdown st = record st { pool = stop_all st.pool }

-- How the bootstrap ends: with the table of keys and a key that it shows once, or with the
-- database's refusal of a second row with the same hash.
pub data Boot : Type 0 where
  started : List ApiKey → Option String → Boot
  integrity_error : Boot

abbrev pub revoke_admin : ApiKey → ApiKey
revoke_admin row = record row { revoked = true }

abbrev pub reactivated : ApiKey → ApiKey
reactivated row = record row { revoked = false; is_admin = true }

abbrev pub is_admin_key : ApiKey → Bool
is_admin_key row = row.is_admin

-- `ApiKey(key_hash=…, is_admin=True, …)`; the columns that are not given are empty.
abbrev pub admin_row : String → String → ℕ → ℕ → ApiKey
admin_row key_hash label key_id now = record {
  id = key_id;
  key_hash = key_hash;
  account_id = none;
  is_admin = true;
  label = some label;
  revoked = false;
  created_at = now;
  last_used_at = none;
  expires_at = none;
  rotation_due_at = none;
  force_rotate = false;
  issued_by = none;
  revoked_by = none;
  revoked_at = none;
  replaces_key_id = none;
}

-- The commit of a new row; `key_hash` is unique.
unfoldable pub insert_key : ApiKey → List ApiKey → Boot
insert_key row keys = elim (find (has_hash row.key_hash) keys) [
  | none ↦ started (add_row row keys) none
  | some _ ↦ integrity_error
]

abbrev pub auto_request : KeyRequest
auto_request = record {
  account_id = none;
  is_admin = true;
  label = some "auto-generated bootstrap admin key";
  issued_by = none;
  expires_in_days = none;
  rotation_days = none;
  replaces_key_id = none;
}

-- An admin key exists and the bootstrap key is set: its row is added or brought back to life.
abbrev pub synced : Option ApiKey → String → ℕ → ℕ → List ApiKey → Boot
synced none h key_id now keys =
    insert_key (admin_row h "bootstrap admin key (synced from ADMIN_BOOTSTRAP_KEY)" key_id now) keys
synced (some row) h key_id now keys =
    if row.revoked then started (update (has_hash h) reactivated keys) none else started keys none

abbrev pub reset_label : String
reset_label = "admin key reset from ADMIN_BOOTSTRAP_KEY"

abbrev pub reset : String → ℕ → ℕ → List ApiKey → Boot
reset h key_id now keys =
    insert_key (admin_row h reset_label key_id now) (update is_admin_key revoke_admin keys)

module _ (hash_key : String → String) (settings : Settings) where
  -- No admin key exists.
  abbrev pub first_key : String → String → ℕ → ℕ → List ApiKey → Boot
  first_key bootstrap drawn key_id now keys =
      if is_empty bootstrap
      then started (issue_api_key hash_key settings auto_request drawn key_id now keys) (some drawn)
      else insert_key
          (admin_row (hash_key bootstrap) "bootstrap admin key (from ADMIN_BOOTSTRAP_KEY env)"
            key_id now)
          keys

  abbrev pub keep_admins : String → ℕ → ℕ → List ApiKey → Boot
  keep_admins bootstrap key_id now keys =
      if is_empty bootstrap
      then started keys none
      else synced (find (has_hash (hash_key bootstrap)) keys) (hash_key bootstrap) key_id now keys

  -- `ADMIN_BOOTSTRAP_KEY` with its spaces stripped, and `FORCE_ADMIN_KEY_RESET`.
  unfoldable pub bootstrap_admin_key : Bool → String → String → ℕ → ℕ → List ApiKey → Boot
  bootstrap_admin_key force setting drawn key_id now keys =
      let bootstrap = strip setting in
      if force
      then if is_empty bootstrap
        then started keys none
        else reset (hash_key bootstrap) key_id now keys
      else elim (find is_admin_key keys) [
        | some _ ↦ keep_admins bootstrap key_id now keys
        | none ↦ first_key bootstrap drawn key_id now keys
      ]
