-- ===== src/Subscriptions.antt =====
-- The subscriptions of the accounts (backend/app/services/subscription_service.py) with the events
-- of backend/app/services/payment_providers/base.py. The state is the three tables that the service
-- writes. Random tokens, row ids and the time are arguments; SHA-256 is a parameter.
pub mod Access
pub mod Events
pub mod Lifecycle
pub mod Keeps
pub mod Demo
mod Tests
use aegis_platform_server_te.Prelude.{
  ℕ, ◌+◌, Bool, true, false, not, ◌&&◌, ◌||◌, Option, none, some, List, [], ◌∷◌, String, ltb,
  str_eq, is_empty, or_text, concat, if◌then◌else◌, Response, ok, http_error, find, select, update,
  add_row,
}
use aegis_platform_server_te.Models.{
  Subscription, ProcessedPaymentEvent, ApiKey, Settings, Status, active, past_due, suspended,
  canceled, demo, other, days,
}
use aegis_platform_server_te.Plans.{resolve_plan}
use aegis_platform_server_te.Security.{KeyRequest, issue_api_key}

-- `PaymentEventType`.
pub data PaymentEventType : Type 0 where
  payment_succeeded payment_failed subscription_canceled unknown : PaymentEventType

-- `PaymentEvent`, without the raw payload.
pub record PaymentEvent : Type 0 where
  pub provider : String
  pub provider_event_id : String
  pub event_type : PaymentEventType
  pub account_id : String
  pub provider_customer_id : Option String
  pub provider_subscription_id : Option String
  pub current_period_end : Option ℕ

pub record Billing : Type 0 where
  pub subscriptions : List Subscription
  pub processed : List ProcessedPaymentEvent
  pub api_keys : List ApiKey

-- What `secrets` and the database's sequence hand out during one call.
pub record Draws : Type 0 where
  pub portal_token : String
  pub raw_key : String
  pub key_id : ℕ

pub record NewlyIssued : Type 0 where
  pub account_id : String
  pub portal_token : String
  pub mobile_api_key : String

abbrev pub has_account : String → Subscription → Bool
has_account account_id row = str_eq row.account_id account_id

-- `session.get(Subscription, account_id)`.
abbrev pub get_row : String → List Subscription → Option Subscription
get_row account_id rows = find (has_account account_id) rows

abbrev pub is_event : String → String → ProcessedPaymentEvent → Bool
is_event provider event_id row =
    str_eq row.provider provider && str_eq row.provider_event_id event_id

abbrev pub is_some {ℓ} : {A : Type ℓ} → Option A → Bool
is_some none = false
is_some (some _) = true

unfoldable pub already_processed : String → String → List ProcessedPaymentEvent → Bool
already_processed provider event_id rows = is_some (find (is_event provider event_id) rows)

-- The columns that the upsert of a successful payment sets.
abbrev pub renewed : PaymentEvent → String → ℕ → Subscription → Subscription
renewed event token now row = record row {
  provider = some event.provider;
  provider_customer_id = event.provider_customer_id;
  provider_subscription_id = event.provider_subscription_id;
  status = active;
  current_period_end = event.current_period_end;
  grace_period_ends_at = none;
  portal_token = some token;
  updated_at = now;
}

-- A row that is inserted takes the model's defaults for the plan and its limits.
abbrev pub first_row : PaymentEvent → String → ℕ → Subscription
first_row event token now = record {
  account_id = event.account_id;
  provider = some event.provider;
  provider_customer_id = event.provider_customer_id;
  provider_subscription_id = event.provider_subscription_id;
  status = active;
  current_period_end = event.current_period_end;
  grace_period_ends_at = none;
  portal_token = some token;
  plan = "starter";
  max_devices = 1;
  max_trades_per_day = 10;
  updated_at = now;
}

-- The token of a row that has one that is not empty, else the new one.
abbrev pub kept_token : Option String → String → String
kept_token none fresh = fresh
kept_token (some t) fresh = or_text t fresh

abbrev pub mobile_key_request : String → KeyRequest
mobile_key_request account_id = record {
  account_id = some account_id;
  is_admin = false;
  label = some (concat "mobile app - " account_id);
  issued_by = none;
  expires_in_days = none;
  rotation_days = none;
  replaces_key_id = none;
}

abbrev pub failed : ℕ → ℕ → Subscription → Subscription
failed grace_end now row = record row {
  status = past_due;
  grace_period_ends_at = some grace_end;
  updated_at = now;
}

abbrev pub with_status : Status → ℕ → Subscription → Subscription
with_status status now row = record row { status = status; updated_at = now }

abbrev pub processed_row : PaymentEvent → ℕ → ProcessedPaymentEvent
processed_row event now = record {
  provider = event.provider;
  provider_event_id = event.provider_event_id;
  processed_at = now;
}

abbrev pub Applied : Type 0
Applied = Response (Option NewlyIssued) × Billing

-- The last insert and commit. A second row for one event breaks `uq_provider_event`: the commit
-- raises, and what was not committed before, `b` against `committed`, is rolled back.
unfoldable pub finish : PaymentEvent → ℕ → Option NewlyIssued → (committed b : Billing) → Applied
unfolding already_processed
finish event now issued committed b =
    if already_processed event.provider event.provider_event_id b.processed
    then (http_error 500, committed)
    else (ok issued, record b { processed = add_row (processed_row event now) b.processed })

module _ (hash_key : String → String) (settings : Settings) where
  -- The branch of a successful payment, by the row that the account has.
  unfoldable pub succeed : Option Subscription → PaymentEvent → Draws → ℕ → Billing → Applied
  unfolding finish
  succeed (some row) event draws now b = finish event now none b (record b {
    subscriptions =
        update (has_account event.account_id)
          (renewed event (kept_token row.portal_token draws.portal_token) now) b.subscriptions;
  })
  succeed none event draws now b =
      let b' = record b {
        subscriptions = add_row (first_row event draws.portal_token now) b.subscriptions;
        api_keys =
            issue_api_key hash_key settings (mobile_key_request event.account_id) draws.raw_key
              draws.key_id now b.api_keys;
      } in
      finish event now
        (some (record {
          account_id = event.account_id;
          portal_token = draws.portal_token;
          mobile_api_key = draws.raw_key;
        }))
        b' b'

  -- A write to the account's row, if it has one.
  abbrev pub write_row : String → (Subscription → Subscription) → Billing → Billing
  write_row account_id f b = record b {
    subscriptions = update (has_account account_id) f b.subscriptions;
  }

  unfoldable pub apply_typed : PaymentEventType → PaymentEvent → Draws → ℕ → Billing → Applied
  unfolding succeed finish
  apply_typed payment_succeeded event draws now b =
      succeed (get_row event.account_id b.subscriptions) event draws now b
  apply_typed payment_failed event draws now b = finish event now none b (
      write_row event.account_id (failed (now + days settings.subscription_grace_period_days) now)
        b)
  apply_typed subscription_canceled event draws now b =
      finish event now none b (write_row event.account_id (with_status canceled now) b)
  apply_typed unknown event draws now b = finish event now none b b

  unfoldable pub apply_event : PaymentEvent → Draws → ℕ → Billing → Applied
  unfolding apply_typed
  apply_event event draws now b =
      if is_empty event.account_id
      then (ok none, b)
      else apply_typed event.event_type event draws now b

-- Python compares the stored token with the one given by `secrets.compare_digest`.
unfoldable pub verify_portal_token : String → String → List Subscription → Bool
verify_portal_token account_id token rows = elim (get_row account_id rows) [
  | none ↦ false
  | some row ↦ elim row.portal_token [ none ↦ false | some t ↦ str_eq t token ]
]

abbrev before : ℕ → Option ℕ → Bool
before now none = false
before now (some t) = ltb now t

-- `is_active` on a row.
unfoldable pub row_is_active : Status → Option ℕ → ℕ → Bool
row_is_active active grace now = true
row_is_active past_due grace now = before now grace
row_is_active _ grace now = false

unfoldable pub is_active : String → ℕ → List Subscription → Bool
unfolding row_is_active
is_active account_id now rows = elim (get_row account_id rows) [
  | none ↦ false
  | some row ↦ row_is_active row.status row.grace_period_ends_at now
]

abbrev pub after_grace : ℕ → Option ℕ → Bool
after_grace now none = false
after_grace now (some t) = ltb t now

abbrev pub is_past_due : Status → Bool
is_past_due past_due = true
is_past_due _ = false

-- The `where` of `get_lapsed_accounts`.
abbrev pub is_lapsed : ℕ → Subscription → Bool
is_lapsed now row = is_past_due row.status && after_grace now row.grace_period_ends_at

unfoldable pub get_lapsed_accounts : ℕ → List Subscription → List Subscription
get_lapsed_accounts now rows = select (is_lapsed now) rows

unfoldable pub mark_suspended : String → ℕ → List Subscription → List Subscription
mark_suspended account_id now rows =
    update (has_account account_id) (with_status suspended now) rows

unfoldable pub mark_canceled : String → ℕ → List Subscription → List Subscription
mark_canceled account_id now rows = update (has_account account_id) (with_status canceled now) rows

unfoldable pub row_plan : Status → String → String
row_plan active plan = or_text plan "live"
row_plan past_due plan = or_text plan "live"
row_plan demo plan = "demo"
row_plan _ plan = "none"

unfoldable pub get_plan : String → List Subscription → String
unfolding row_plan
get_plan account_id rows = elim (get_row account_id rows) [
  | none ↦ "none"
  | some row ↦ row_plan row.status row.plan
]

unfoldable pub allows_brain : String → List Subscription → Bool
unfolding get_plan
allows_brain account_id rows =
    str_eq (get_plan account_id rows) "live" || str_eq (get_plan account_id rows) "demo"

unfoldable pub allows_live_trading : String → ℕ → List Subscription → Bool
allows_live_trading account_id now rows =
    let plan_code = get_plan account_id rows in
    if str_eq plan_code "none"
    then false
    else if not (is_active account_id now rows) && not (str_eq plan_code "demo")
    then false
    else (resolve_plan plan_code).meta.live_trading

abbrev pub demo_row : String → String → ℕ → Subscription
demo_row account_id token now = record {
  account_id = account_id;
  provider = some "demo";
  provider_customer_id = none;
  provider_subscription_id = none;
  status = active;
  current_period_end = some (now + days 14);
  grace_period_ends_at = none;
  portal_token = some token;
  plan = "demo";
  max_devices = 1;
  max_trades_per_day = 5;
  updated_at = now;
}

abbrev pub to_demo : String → ℕ → Subscription → Subscription
to_demo token now row = record row {
  status = active;
  plan = "demo";
  max_devices = 1;
  max_trades_per_day = 5;
  updated_at = now;
  current_period_end = some (now + days 14);
  portal_token = some token;
}

-- The token that `activate_demo` returns, by the row that the account has.
abbrev pub demo_token : Option Subscription → String → String
demo_token none fresh = fresh
demo_token (some row) fresh = kept_token row.portal_token fresh

abbrev pub demo_key_request : String → KeyRequest
demo_key_request account_id = record (mobile_key_request account_id) {
  label = some (concat "demo mobile key for " account_id);
  issued_by = some "demo_signup";
}

abbrev pub demo_rows :
    Option Subscription → String → String → ℕ → List Subscription → List Subscription
demo_rows none account_id token now rows = add_row (demo_row account_id token now) rows
demo_rows (some row) account_id token now rows =
    update (has_account account_id) (to_demo token now) rows

module _ (hash_key : String → String) (settings : Settings) where
  unfoldable pub activate_demo : String → Draws → ℕ → Billing → NewlyIssued × Billing
  activate_demo account_id draws now b =
      let existing = get_row account_id b.subscriptions in
      let token = demo_token existing draws.portal_token in
      (
        record { account_id = account_id; portal_token = token; mobile_api_key = draws.raw_key },
        record b {
          subscriptions = demo_rows existing account_id token now b.subscriptions;
          api_keys =
              issue_api_key hash_key settings (demo_key_request account_id) draws.raw_key
                draws.key_id now b.api_keys;
        },
      )
