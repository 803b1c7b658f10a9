-- ===== src/Trading/Tests.antt =====
-- The theorems on the trading endpoints, on a platform with one account.
use aegis_platform_server_te.Prelude.{
  ℕ, ◌≡◌, ◌≢◌, ◌⊎◌, refl, true, false, Option, none, some, List, ℕ, [], ◌∷◌, String, ok, http_error,
  find, str_eq, add_row, delete_where,
}
use aegis_platform_server_te.Models.{Subscription, active, default_settings}
use aegis_platform_server_te.Security.{AuthContext, require_account_match}
use aegis_platform_server_te.Subscriptions.{
  get_plan, get_row, PaymentEvent, PaymentEventType, payment_failed, payment_succeeded, Draws,
  Billing, already_processed, apply_event,
}
use aegis_platform_server_te.Subscriptions.Keeps.{apply_events}
use aegis_platform_server_te.Trading.Paid.{paid_never_connects}
use aegis_platform_server_te.Vault.{Stored, get_credentials_by_account, save_credentials}
use aegis_platform_server_te.Workers.{Pool, empty_pool, start, ensure_worker, is_running}
use aegis_platform_server_te.Trading.{
  Platform, Answer, ConnectRequest, Drawn, connect, connect_allowed, submit_order,
  place_market_order,
}
use aegis_platform_server_te.Trading.Endpoints.{
  connect-ok, submit_order-ok_iff, market_order-never_ok,
}

abbrev plain : String → String → String
plain nonce s = s

abbrev hashed : String → String
hashed raw = raw

abbrev own_key : AuthContext
own_key = record {
  account_id = some "A1";
  is_admin = false;
  label = none;
  key_id = some 1;
  force_rotate = false;
  expires_at = none;
  rotation_due_at = none;
}

abbrev row : String → Subscription
row plan = record {
  account_id = "A1";
  provider = none;
  provider_customer_id = none;
  provider_subscription_id = none;
  status = active;
  current_period_end = none;
  grace_period_ends_at = none;
  portal_token = none;
  plan = plan;
  max_devices = 1;
  max_trades_per_day = 2;
  updated_at = 0;
}

abbrev on_plan : String → Platform
on_plan plan = record { subscriptions = row plan ∷ []; credentials = []; pool = empty_pool }

abbrev request : ConnectRequest
request = record {
  account_id = "A1";
  broker_name = "B";
  server = "S";
  trading_password = "pw";
  investor_password = none;
  execution_enabled = true;
}

abbrev drawn : Drawn
drawn = record { nonce = "n1"; investor_nonce = "n2"; pid = 7; now = 5 }

abbrev connected : Platform
connected = (connect plain plain 2 own_key request drawn (on_plan "demo")).1

demo_connects : connect plain plain 2 own_key request drawn (on_plan "demo") ≡ (ok tt, connected)
unfolding connect connect_allowed require_account_match get_plan find str_eq save_credentials
    get_credentials_by_account ensure_worker add_row
demo_connects = refl

connect-ok_example :
    (require_account_match own_key "A1" ≡ ok tt)
    × ((str_eq (get_plan "A1" ((on_plan "demo").subscriptions)) "live" ≡ true)
        ⊎ (str_eq (get_plan "A1" ((on_plan "demo").subscriptions)) "demo" ≡ true))
    × ((stored : Stored) × (get_credentials_by_account plain plain "A1" connected.credentials
          ≡ some stored)
        × (stored.execution_enabled ≡ true))
    × (is_running "A1" connected.pool ≡ true)
connect-ok_example =
    connect-ok plain plain 2 own_key request drawn (on_plan "demo") connected start demo_connects

may_act : require_account_match own_key "A1" ≡ ok tt
unfolding require_account_match str_eq
may_act = refl

abbrev payment : String → PaymentEventType → PaymentEvent
payment event_id type = record {
  provider = "paystack";
  provider_event_id = event_id;
  event_type = type;
  account_id = "A1";
  provider_customer_id = none;
  provider_subscription_id = none;
  current_period_end = none;
}

abbrev draws : Draws
draws = record { portal_token = "p1"; raw_key = "k1"; key_id = 1 }

abbrev no_billing : Billing
no_billing = record { subscriptions = []; processed = []; api_keys = [] }

abbrev renewals : List (PaymentEvent × Draws × ℕ)
renewals =
    (payment "e2" payment_failed, draws, 20) ∷ (payment "e3" payment_succeeded, draws, 30) ∷ []

nothing_processed : already_processed "paystack" "e1" [] ≡ false
unfolding already_processed find
nothing_processed = refl

no_row : get_row "A1" [] ≡ none
unfolding find
no_row = refl

abbrev paying : Platform
paying = record (on_plan "pro") {
  subscriptions =
      (apply_events hashed default_settings renewals
        (apply_event hashed default_settings (payment "e1" payment_succeeded) draws 10
          no_billing).1).subscriptions;
}

paid_never_connects_example :
    connect plain plain 2 own_key request drawn paying ≡ (http_error 402, paying)
paid_never_connects_example =
    paid_never_connects hashed default_settings plain plain 2 (payment "e1" payment_succeeded) draws
      10 no_billing renewals own_key request drawn (on_plan "pro") refl refl nothing_processed
      no_row refl may_act

abbrev one_pool : Pool
one_pool = (ensure_worker 2 "A1" "pw" 7 empty_pool).1

abbrev always : String → String → Option (Answer ℕ)
always account_id job_type = some (record { success = true; result = 42 })

one_runs : is_running "A1" one_pool ≡ true
unfolding is_running ensure_worker find str_eq add_row delete_where
one_runs = refl

submit_order-ok_iff_test : submit_order always "close_position" own_key "A1" one_pool ≡ ok 42
submit_order-ok_iff_test =
    (submit_order-ok_iff always "close_position" own_key "A1" one_pool 42).1
      (may_act, one_runs, refl)

market_order-never_ok_test : place_market_order always own_key "A1" 5 (row "pro" ∷ []) ≢ ok 42
market_order-never_ok_test = market_order-never_ok always own_key "A1" 5 (row "pro" ∷ []) 42
