-- ===== src/Webhooks/Tests.antt =====
-- A first payment that is delivered twice.
use aegis_platform_server_te.Prelude.{
  ◌≡◌, ◌≢◌, refl, inl, inr, false, Option, none, some, [], String, str_eq, str_eq_refl, str_eq_eq,
  if◌then◌else◌, Bool-cases, ltb, ok, find, add_row,
}
use aegis_platform_server_te.Models.{default_settings}
use aegis_platform_server_te.Security.{issue_api_key}
use aegis_platform_server_te.Subscriptions.{
  PaymentEvent, payment_succeeded, Draws, already_processed, apply_event, apply_typed, succeed,
  finish,
}
use aegis_platform_server_te.Reveal.{RedisKeys, Value, stash_credentials}
use aegis_platform_server_te.Workers.{empty_pool}
use aegis_platform_server_te.Webhooks.{
  Adapter, State, duplicate, processed, receive_event, receive_webhook,
}
use aegis_platform_server_te.Webhooks.Redelivery.{receive-receive}

abbrev Store : Type 0
Store = String → Option Value

differs : (k j : String) → k ≢ j → str_eq k j ≡ false
differs k j other = elim (Bool-cases (str_eq k j)) [
  | inl same ↦ absurd (other (str_eq_eq k j same))
  | inr apart ↦ apart
]

abbrev stores : RedisKeys Store
stores = record {
  get = λ k r. r k;
  set = λ k v r j. if str_eq k j then some v else r j;
  delete = λ k r j. if str_eq k j then none else r j;
  get-set = λ k v r. rw (str_eq_refl k) refl;
  get-set_other = λ k j v r other. rw (differs k j other) refl;
  get-delete = λ k r. rw (str_eq_refl k) refl;
  get-delete_other = λ k j r other. rw (differs k j other) refl;
}

abbrev plain : String → String
plain s = s

abbrev paid : PaymentEvent
paid = record {
  provider = "stripe";
  provider_event_id = "e1";
  event_type = payment_succeeded;
  account_id = "A1";
  provider_customer_id = none;
  provider_subscription_id = none;
  current_period_end = none;
}

abbrev adapter : Adapter String
adapter = record {
  verify_webhook_signature = λ now body. ltb now 300;
  parse_webhook_event = λ drawn body. paid;
}

abbrev draws : Draws
draws = record { portal_token = "p1"; raw_key = "k1"; key_id = 1 }

abbrev before : State Store
before = record {
  billing = record { subscriptions = []; processed = []; api_keys = [] };
  redis = λ key. none;
  pool = empty_pool;
}

abbrev after : State Store
after =
    (receive_webhook stores plain default_settings (some adapter) "body" "u1" draws 10 11 before).1

first_delivery :
    receive_webhook stores plain default_settings (some adapter) "body" "u1" draws 10 11 before
    ≡ (ok processed, after)
unfolding receive_webhook receive_event already_processed apply_event apply_typed succeed finish
    find add_row issue_api_key stash_credentials
first_delivery = refl

receive-receive_example :
    receive_webhook stores plain default_settings (some adapter) "body" "u2" draws 20 21 after
    ≡ (ok duplicate, after)
receive-receive_example =
    receive-receive plain default_settings stores adapter "body" "u1" "u2" draws draws 10 11 20 21
      before after refl refl refl first_delivery
