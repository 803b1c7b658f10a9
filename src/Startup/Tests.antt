-- ===== src/Startup/Tests.antt =====
-- The theorems on the sweep and the bootstrap key, on two accounts and two keys.
use aegis_platform_server_te.Prelude.{
  ◌≤◌, ◌≡◌, refl, true, false, none, some, List, [], ◌∷◌, String, arith, find, update, count_where,
  add_row, is_empty, strip, str_eq, concat, not, ◌&&◌,
}
use aegis_platform_server_te.Models.{
  Subscription, ApiKey, Status, suspended, past_due, active, default_settings,
}
use aegis_platform_server_te.Security.{has_hash}
use aegis_platform_server_te.Subscriptions.{has_account, get_row, with_status, is_active}
use aegis_platform_server_te.Workers.{is_running}
use aegis_platform_server_te.Startup.{
  State, subscription_sweep, started, integrity_error, is_admin_key, admin_row, revoke_admin,
  insert_key, bootstrap_admin_key,
}
use aegis_platform_server_te.Startup.Sweep.{sweep_settles}
use aegis_platform_server_te.Startup.AdminKey.{
  GrantsAdmin, bootstrap_grants, forced_twice_fails, restarts, bootstrap_locked_out,
}

abbrev row_of : String → Status → Subscription
row_of account_id status = record {
  account_id = account_id;
  provider = some "paystack";
  provider_customer_id = none;
  provider_subscription_id = none;
  status = status;
  current_period_end = none;
  grace_period_ends_at = some 500;
  portal_token = some "t";
  plan = "starter";
  max_devices = 1;
  max_trades_per_day = 10;
  updated_at = 0;
}

abbrev late_row : Subscription
late_row = row_of "A" past_due

abbrev state : State
state = record {
  subscriptions = row_of "B" active ∷ late_row ∷ [];
  pool = record {
    workers = record { account_id = "A"; pid = 3; exited = false } ∷ [];
    registry = "A" ∷ [];
    sent = [];
  };
}

one_row : count_where (has_account "A") state.subscriptions ≤ 1
unfolding count_where str_eq
one_row = omega arith

late_found : get_row "A" state.subscriptions ≡ some late_row
unfolding find str_eq
late_found = refl

sweep_settles_example :
    (get_row "A" ((subscription_sweep 900 state).subscriptions)
      ≡ some (with_status suspended 900 late_row))
    × (is_running "A" ((subscription_sweep 900 state).pool) ≡ false)
    × (is_active "A" 901 ((subscription_sweep 900 state).subscriptions) ≡ false)
sweep_settles_example = sweep_settles 900 901 "A" state late_row one_row late_found

abbrev hashed : String → String
hashed raw = concat "#" raw

abbrev old_admin : ApiKey
old_admin = admin_row "#old" "first" 1 10

given : is_empty (strip " boot ") ≡ false
unfolding strip
given = refl

fresh : find (has_hash (hashed (strip " boot "))) (old_admin ∷ []) ≡ none
unfolding find strip str_eq
fresh = refl

bootstrap_grants_example :
    GrantsAdmin hashed
      (strip " boot ")
      9000
      (bootstrap_admin_key hashed default_settings false " boot " "d" 2 100 (old_admin ∷ []))
bootstrap_grants_example =
    bootstrap_grants hashed default_settings false " boot " "d" 2 100 9000 (old_admin ∷ []) given
      fresh

abbrev table : List ApiKey
table =
    revoke_admin old_admin ∷ admin_row "#boot" "admin key reset from ADMIN_BOOTSTRAP_KEY" 2 100 ∷ []

first_boot :
    bootstrap_admin_key hashed default_settings true " boot " "d" 2 100 (old_admin ∷ [])
    ≡ started table none
unfolding bootstrap_admin_key find strip str_eq update add_row insert_key
first_boot = refl

forced_twice_fails_example :
    bootstrap_admin_key hashed default_settings true " boot " "e" 3 200 table ≡ integrity_error
forced_twice_fails_example =
    forced_twice_fails hashed default_settings " boot " "d" "e" 2 3 100 200 (old_admin ∷ []) table
      none given first_boot

abbrev dead_admin : ApiKey
dead_admin = revoke_admin old_admin

abbrev client : ApiKey
client = record (admin_row "#ann" "mobile" 2 10) { account_id = some "A"; is_admin = false }

dead_found : find is_admin_key (dead_admin ∷ client ∷ []) ≡ some dead_admin
unfolding find
dead_found = refl

all_dead : find (λ row. is_admin_key row && not row.revoked) (dead_admin ∷ client ∷ []) ≡ none
unfolding find
all_dead = refl

blank : is_empty (strip "  ") ≡ true
unfolding strip
blank = refl

bootstrap_locked_out_example : ¬ GrantsAdmin hashed "ann" 900 (
    restarts hashed default_settings "  "
      ((false, "d", 3, 800) ∷ (true, "e", 4, 850) ∷ [])
      (dead_admin ∷ client ∷ []))
bootstrap_locked_out_example =
    bootstrap_locked_out hashed default_settings "ann" "  " 900
      ((false, "d", 3, 800) ∷ (true, "e", 4, 850) ∷ []) (dead_admin ∷ client ∷ []) dead_admin blank
      dead_found all_dead
