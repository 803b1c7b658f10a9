-- ===== src/PaymentProviders/Tests.antt =====
-- The theorems on the Flutterwave webhook, on one forged request.
use aegis_platform_server_te.Prelude.{
  ◌≡◌, ◌≢◌, refl, true, false, Option, none, some, [], String, str_eq, str_eq_refl, str_eq_eq,
  lower, text_or_empty, if◌then◌else◌, Response, ok, http_error, find, update, add_row, inl, inr,
  Bool-cases,
}
use aegis_platform_server_te.Models.{default_settings}
use aegis_platform_server_te.Subscriptions.{
  Draws, already_processed, is_active, apply_event, apply_typed, succeed, finish,
}
use aegis_platform_server_te.Reveal.{RedisKeys, Value, stash_credentials}
use aegis_platform_server_te.Workers.{empty_pool}
use aegis_platform_server_te.Webhooks.{State, Reply, processed, receive_event, receive_webhook}
use aegis_platform_server_te.Security.{issue_api_key}
use aegis_platform_server_te.PaymentProviders.{
  FlutterwaveRequest, flutterwave_adapter, flutterwave_verify, flutterwave_type, flutterwave_parse,
  paystack_cancel,
}
use aegis_platform_server_te.PaymentProviders.Forged.{unsigned_activates, wrong_hash_refused}

abbrev Store : Type 0
Store = String → Option Value

differs : (k j : String) → k ≢ j → str_eq k j ≡ false
differs k j other = elim (Bool-cases (str_eq k j)) [
  | inl same ↦ absurd (other (str_eq_eq k j same))
  | inr apart ↦ apart
]

abbrev stores : RedisKeys Store
stores = record {
  get = λ k r. r k;
  set = λ k v r j. if str_eq k j then some v else r j;
  delete = λ k r j. if str_eq k j then none else r j;
  get-set = λ k v r. rw (str_eq_refl k) refl;
  get-set_other = λ k j v r other. rw (differs k j other) refl;
  get-delete = λ k r. rw (str_eq_refl k) refl;
  get-delete_other = λ k j r other. rw (differs k j other) refl;
}

abbrev plain : String → String
plain s = s

abbrev forged : FlutterwaveRequest
forged = record {
  verif_hash = none;
  event = "charge.completed";
  status = some "Successful";
  id = some "77";
  tx_ref = none;
  account_id = some "VICTIM";
  customer_id = none;
  plan = none;
}

abbrev draws : Draws
draws = record { portal_token = "p"; raw_key = "k"; key_id = 1 }

abbrev before : State Store
before = record {
  billing = record { subscriptions = []; processed = []; api_keys = [] };
  redis = λ key. none;
  pool = empty_pool;
}

is_paid : lower "Successful" ≡ "successful"
unfolding lower
is_paid = refl

new_event :
    already_processed "flutterwave" (flutterwave_parse "u" forged).provider_event_id [] ≡ false
unfolding already_processed find
new_event = refl

unsigned_activates_example :
    is_active "VICTIM" 30 (
      (receive_webhook stores plain default_settings
        (some (flutterwave_adapter ""))
        forged
        "u"
        draws
        10
        11
        before).1.billing.subscriptions)
    ≡ true
unsigned_activates_example =
    unsigned_activates stores plain default_settings forged "u" "VICTIM" draws 10 11 30 before refl
      refl is_paid refl refl new_event

no_hash : text_or_empty forged.verif_hash ≢ "s3cret"
no_hash e = cc

wrong_hash_refused_test :
    receive_webhook stores plain default_settings
      (some (flutterwave_adapter "s3cret"))
      forged
      "u"
      draws
      10
      11
      before
    ≡ (http_error 401, before)
wrong_hash_refused_test =
    wrong_hash_refused stores plain default_settings "s3cret" "u" forged draws 10 11 before no_hash

cancels :
    paystack_cancel
      (λ s. record { status_code = 200; email_token = some "e" })
      (λ s t. 200)
      (some "S")
    ≡ true
unfolding paystack_cancel
cancels = refl

-- A charge without an id, under the configured hash.
abbrev idless : FlutterwaveRequest
idless = record forged { verif_hash = some "s3cret"; id = none }

abbrev delivered : String → State Store → Response Reply × State Store
delivered drawn s =
    receive_webhook stores plain default_settings (some (flutterwave_adapter "s3cret")) idless drawn
      draws 10 11 s

-- Each delivery draws an id, so the second one is processed again.
processed_again : (delivered "u2" ((delivered "u1" before).1)).0 ≡ ok processed
unfolding receive_webhook receive_event already_processed apply_event apply_typed succeed finish
    find update add_row issue_api_key stash_credentials flutterwave_verify flutterwave_type lower
    str_eq
processed_again = refl
