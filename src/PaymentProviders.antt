-- ===== src/PaymentProviders.antt =====
-- The adapters of Paystack, Flutterwave and Stripe
-- (backend/app/services/payment_providers/*_adapter.py). A body is the record of the fields that the
-- code reads of the JSON; HMAC-SHA512, the check of the Stripe package and what the providers answer
-- to a request are parameters. The `uuid4` that is drawn when a body is read and a date that is parsed
-- already are arguments; only Stripe's check looks at the time.
pub mod Forged
mod Tests
use aegis_platform_server_te.Prelude.{
  ℕ, Bool, true, false, not, ◌&&◌, ◌||◌, Option, none, some, List, [], ◌∷◌, String, ◌==◌, str_eq,
  if◌then◌else◌, find, is_empty, or_text, text_or_empty, lower, starts_with, contains, concat,
}
use aegis_platform_server_te.Subscriptions.{
  PaymentEvent, PaymentEventType, payment_succeeded, payment_failed, subscription_canceled, unknown,
}
use aegis_platform_server_te.Webhooks.{Adapter}

-- `EVENT_MAP.get(event, PaymentEventType.UNKNOWN)`.
unfoldable pub map_get : String → List (String × PaymentEventType) → PaymentEventType
map_get event [] = unknown
map_get event ((k, type) ∷ rest) = if str_eq k event then type else map_get event rest

abbrev pub paystack_map : List (String × PaymentEventType)
paystack_map =
    ("charge.success", payment_succeeded)
    ∷ ("subscription.create", payment_succeeded)
    ∷ ("invoice.payment_failed", payment_failed)
    ∷ ("subscription.disable", subscription_canceled)
    ∷ []

abbrev pub stripe_map : List (String × PaymentEventType)
stripe_map =
    ("checkout.session.completed", payment_succeeded)
    ∷ ("invoice.paid", payment_succeeded)
    ∷ ("invoice.payment_failed", payment_failed)
    ∷ ("customer.subscription.deleted", subscription_canceled)
    ∷ []

-- `str(first or second or uuid.uuid4())`.
abbrev pub event_id : Option String → Option String → String → String
event_id first second drawn = or_text (text_or_empty first) (or_text (text_or_empty second) drawn)

pub record FlutterwaveRequest : Type 0 where
  pub verif_hash : Option String
  pub event : String
  pub status : Option String
  pub id : Option String
  pub tx_ref : Option String
  pub account_id : Option String
  pub customer_id : Option String
  pub plan : Option String

-- `hmac.compare_digest(headers.get("verif-hash", ""), self.webhook_hash)`.
unfoldable pub flutterwave_verify : String → FlutterwaveRequest → Bool
flutterwave_verify webhook_hash req = str_eq (text_or_empty req.verif_hash) webhook_hash

unfoldable pub flutterwave_type : String → String → PaymentEventType
flutterwave_type event status =
    if starts_with event "charge." && str_eq status "successful"
    then payment_succeeded
    else if starts_with event "charge." && (str_eq status "failed" || str_eq status "cancelled")
    then payment_failed
    else if contains event "subscription" && contains event "cancel"
    then subscription_canceled
    else unknown

abbrev pub flutterwave_parse : String → FlutterwaveRequest → PaymentEvent
flutterwave_parse drawn req = record {
  provider = "flutterwave";
  provider_event_id = event_id req.id req.tx_ref drawn;
  event_type = flutterwave_type req.event (lower (text_or_empty req.status));
  account_id = text_or_empty req.account_id;
  provider_customer_id = req.customer_id;
  provider_subscription_id = req.plan;
  current_period_end = none;
}

abbrev pub flutterwave_adapter : String → Adapter FlutterwaveRequest
flutterwave_adapter webhook_hash = record {
  verify_webhook_signature = λ now req. flutterwave_verify webhook_hash req;
  parse_webhook_event = flutterwave_parse;
}

-- The answer to the listing of a customer's subscriptions: the id and the plan of each.
pub record Listed : Type 0 where
  pub status_code : ℕ
  pub subscriptions : List (String × Option String)

abbrev pub same_plan : Option String → Option String → Bool
same_plan none none = true
same_plan (some a) (some b) = str_eq a b
same_plan _ _ = false

abbrev pub cancel_matched : Option (String × Option String) → (String → ℕ) → Bool
cancel_matched none put = false
cancel_matched (some (id, plan)) put = put id == 200

-- `list` is the answer to the `get` and `put` gives the status of a cancellation.
unfoldable pub flutterwave_cancel :
    (String → Listed) → (String → ℕ) → Option String → Option String → Bool
flutterwave_cancel list put plan none = false
flutterwave_cancel list put plan (some customer) =
    let listed = list customer in
    listed.status_code == 200
    && cancel_matched (find (λ s. same_plan s.1 plan) listed.subscriptions) put

pub record PaystackRequest : Type 0 where
  pub signature : Option String
  pub raw_body : String
  pub event : String
  pub id : Option String
  pub reference : Option String
  pub account_id : Option String
  pub customer_code : Option String
  pub subscription_code : Option String
  pub next_payment_date : Option ℕ

abbrev pub paystack_parse : String → PaystackRequest → PaymentEvent
unfolding map_get
paystack_parse drawn req = record {
  provider = "paystack";
  provider_event_id = event_id req.id req.reference drawn;
  event_type = map_get req.event paystack_map;
  account_id = text_or_empty req.account_id;
  provider_customer_id = req.customer_code;
  provider_subscription_id = req.subscription_code;
  current_period_end = req.next_payment_date;
}

module _ (hmac : String → String → String) where
  -- The digest of the raw body under the secret key.
  unfoldable pub paystack_verify : String → PaystackRequest → Bool
  paystack_verify secret_key req =
      str_eq (text_or_empty req.signature) (hmac secret_key req.raw_body)

  abbrev pub paystack_adapter : String → Adapter PaystackRequest
  paystack_adapter secret_key = record {
    verify_webhook_signature = λ now req. paystack_verify secret_key req;
    parse_webhook_event = paystack_parse;
  }

-- The answer to the read of a subscription.
pub record Fetched : Type 0 where
  pub status_code : ℕ
  pub email_token : Option String

unfoldable pub paystack_cancel : (String → Fetched) → (String → String → ℕ) → Option String → Bool
paystack_cancel fetch disable subscription =
    let code = text_or_empty subscription in
    let fetched = fetch code in
    let token = text_or_empty fetched.email_token in
    fetched.status_code == 200 && (not (is_empty token) && disable code token == 200)

pub record StripeRequest : Type 0 where
  pub signature : Option String
  pub raw_body : String
  pub type : String
  pub id : Option String
  pub object_id : Option String
  pub account_id : Option String
  pub client_reference_id : Option String
  pub customer : Option String
  pub subscription : Option String
  pub current_period_end : Option ℕ

-- `a or b` for optional texts.
abbrev pub first_of : Option String → Option String → Option String
first_of a b = if is_empty (text_or_empty a) then b else a

-- `event.get("id", str(uuid.uuid4()))`: an empty id is kept.
abbrev pub id_or : Option String → String → String
id_or none drawn = drawn
id_or (some id) drawn = id

abbrev pub stripe_parse : String → StripeRequest → PaymentEvent
unfolding map_get
stripe_parse drawn req = record {
  provider = "stripe";
  provider_event_id = id_or req.id drawn;
  event_type = map_get req.type stripe_map;
  account_id = text_or_empty (first_of req.account_id req.client_reference_id);
  provider_customer_id = req.customer;
  provider_subscription_id = first_of req.subscription req.object_id;
  current_period_end = req.current_period_end;
}

-- Whether `stripe.Webhook.construct_event` passes at a time, which it compares with that of the
-- signature, is the first argument.
abbrev pub stripe_adapter : (ℕ → String → String → String → Bool) → String → Adapter StripeRequest
stripe_adapter construct_event webhook_secret = record {
  verify_webhook_signature =
      λ now req. construct_event now req.raw_body (text_or_empty req.signature) webhook_secret;
  parse_webhook_event = stripe_parse;
}
