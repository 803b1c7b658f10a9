-- ===== src/Subscriptions/Tests.antt =====
-- The theorems on subscriptions, on an account that pays, one that signs up and one that fails to
-- pay.
use aegis_platform_server_te.Prelude.{
  ℕ, ◌≡◌, refl, true, false, none, some, List, [], ◌∷◌, String, ok, find, str_eq, add_row,
}
use aegis_platform_server_te.Models.{Subscription, active, default_settings}
use aegis_platform_server_te.Plans.{resolve_plan}
use aegis_platform_server_te.Security.{
  verify_api_key, auth_context, new_key, issue_api_key, has_hash,
}
use aegis_platform_server_te.Subscriptions.{
  PaymentEvent, payment_failed, payment_succeeded, Billing, Draws, NewlyIssued, get_row, is_active,
  apply_event, already_processed, allows_live_trading, row_is_active, activate_demo,
  verify_portal_token, mobile_key_request, demo_key_request, apply_typed, succeed, finish,
}
use aegis_platform_server_te.Subscriptions.Access.{allows_live_trading_iff, MayTrade}
use aegis_platform_server_te.Subscriptions.Lifecycle.{
  newly_issued_credentials, payment_failed_grace,
}
use aegis_platform_server_te.Subscriptions.Keeps.{apply_events, apply_events-Keeps, Keeps}
use aegis_platform_server_te.Subscriptions.Demo.{
  activate_demo-discloses, activate_demo-never_expires, demo_payments_blocked,
}

abbrev plain : String → String
plain s = s

abbrev row : Subscription
row = record {
  account_id = "A1";
  provider = none;
  provider_customer_id = none;
  provider_subscription_id = none;
  status = active;
  current_period_end = none;
  grace_period_ends_at = none;
  portal_token = some "p0";
  plan = "pro";
  max_devices = 1;
  max_trades_per_day = 2;
  updated_at = 0;
}

abbrev one_row : Billing
one_row = record { subscriptions = row ∷ []; processed = []; api_keys = [] }

abbrev nothing : Billing
nothing = record { subscriptions = []; processed = []; api_keys = [] }

abbrev draws : Draws
draws = record { portal_token = "p1"; raw_key = "k1"; key_id = 1 }

abbrev paid : PaymentEvent
paid = record {
  provider = "stripe";
  provider_event_id = "e1";
  event_type = payment_succeeded;
  account_id = "A1";
  provider_customer_id = none;
  provider_subscription_id = none;
  current_period_end = none;
}

abbrev unpaid : PaymentEvent
unpaid = record {
  provider = "stripe";
  provider_event_id = "e2";
  event_type = payment_failed;
  account_id = "A1";
  provider_customer_id = none;
  provider_subscription_id = none;
  current_period_end = none;
}

row_found : get_row "A1" (one_row.subscriptions) ≡ some row
unfolding find str_eq
row_found = refl

unpaid_new : already_processed "stripe" "e2" (one_row.processed) ≡ false
unfolding already_processed find
unpaid_new = refl

no_keys : find (has_hash "k1") [] ≡ none
unfolding find
no_keys = refl

row_trades : MayTrade row 5
unfolding row_is_active str_eq resolve_plan
row_trades = record { active_now = refl; named = refl; trades = refl }

allows_live_trading_iff_example : allows_live_trading "A1" 5 (one_row.subscriptions) ≡ true
allows_live_trading_iff_example =
    (allows_live_trading_iff "A1" 5 (one_row.subscriptions)).1 (row, row_found, row_trades)

payment_failed_grace_test :
    is_active "A1" 100
      ((apply_event plain default_settings unpaid draws 10 one_row).1).subscriptions
    ≡ true
payment_failed_grace_test =
    payment_failed_grace plain default_settings unpaid draws 10 100 one_row row refl refl unpaid_new
      row_found

abbrev issued : NewlyIssued
issued = record { account_id = "A1"; portal_token = "p1"; mobile_api_key = "k1" }

first_payment : (apply_event plain default_settings paid draws 10 nothing).0 ≡ ok (some issued)
unfolding apply_event apply_typed succeed finish already_processed find add_row issue_api_key
first_payment = refl

newly_issued_credentials_example :
    (get_row "A1" [] ≡ none)
    × (issued.account_id ≡ "A1")
    × (is_active "A1" 60
          ((apply_event plain default_settings paid draws 10 nothing).1).subscriptions
        ≡ true)
    × (verify_portal_token "A1" "p1"
          ((apply_event plain default_settings paid draws 10 nothing).1).subscriptions
        ≡ true)
    × ((verify_api_key plain
          (some "k1")
          60
          ((apply_event plain default_settings paid draws 10 nothing).1).api_keys).0
        ≡ ok (auth_context (new_key plain default_settings (mobile_key_request "A1") "k1" 1 10)))
newly_issued_credentials_example =
    newly_issued_credentials plain default_settings paid draws 10 60 nothing issued first_payment
      no_keys

abbrev history : List (PaymentEvent × Draws × ℕ)
history = (unpaid, draws, 10) ∷ (paid, draws, 20) ∷ []

apply_events-Keeps_test :
    (row' : Subscription) × (get_row "A1"
        ((apply_events plain default_settings history one_row).subscriptions)
      ≡ some row')
    × Keeps row row'
apply_events-Keeps_test =
    apply_events-Keeps plain default_settings history one_row "A1" row row_found

activate_demo-discloses_example :
    (verify_portal_token "A1"
        ((activate_demo plain default_settings "A1" draws 10 one_row).0).portal_token
        (one_row.subscriptions)
      ≡ true)
    × ((verify_api_key plain
          (some ((activate_demo plain default_settings "A1" draws 10 one_row).0).mobile_api_key)
          60
          ((activate_demo plain default_settings "A1" draws 10 one_row).1).api_keys).0
        ≡ ok (auth_context (new_key plain default_settings (demo_key_request "A1") "k1" 1 10)))
activate_demo-discloses_example =
    activate_demo-discloses plain default_settings "A1" "p0" draws 10 60 one_row row row_found refl
      refl no_keys

activate_demo-never_expires_test :
    is_active "A1" 100000000
      ((activate_demo plain default_settings "A1" draws 10 nothing).1).subscriptions
    ≡ true
activate_demo-never_expires_test =
    activate_demo-never_expires plain default_settings "A1" draws 10 100000000 nothing

demo_payments_blocked_example :
    allows_live_trading "A1" 60
      (apply_events plain default_settings history
        ((activate_demo plain default_settings "A1" draws 0 nothing).1)).subscriptions
    ≡ false
demo_payments_blocked_example =
    demo_payments_blocked plain default_settings "A1" draws 0 60 nothing history
