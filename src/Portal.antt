-- ===== src/Portal.antt =====
-- The subscriber's endpoints (backend/app/api/portal_router.py) and the status that they show
-- (`get_status` of backend/app/services/subscription_service.py).
pub mod Access
mod Tests
use aegis_platform_server_te.Prelude.{
  ℕ, Bool, true, false, not, Option, none, some, List, String, str_eq, if◌then◌else◌, Response, ok,
  http_error, or_text, text_or_empty,
}
use aegis_platform_server_te.Models.{Subscription, Status, DownloadToken, TradeDailyCounter, ApiKey}
use aegis_platform_server_te.Subscriptions.{get_row, verify_portal_token, is_active}
use aegis_platform_server_te.Devices.{issue_download_token}
use aegis_platform_server_te.TradeLimits.{Quota}
use aegis_platform_server_te.TradeLimits
use aegis_platform_server_te.Records.{SignalHistory, get_history}
use aegis_platform_server_te.Heartbeats.{Beat, ExpiringKeys, get_health}

-- The keys of `get_status`.
pub record StatusRecord : Type 0 where
  pub account_id : String
  pub provider : Option String
  pub provider_customer_id : Option String
  pub provider_subscription_id : Option String
  pub status : Status
  pub current_period_end : Option ℕ
  pub grace_period_ends_at : Option ℕ
  pub updated_at : ℕ

abbrev pub status_of : Subscription → StatusRecord
status_of row = record {
  account_id = row.account_id;
  provider = row.provider;
  provider_customer_id = row.provider_customer_id;
  provider_subscription_id = row.provider_subscription_id;
  status = row.status;
  current_period_end = row.current_period_end;
  grace_period_ends_at = row.grace_period_ends_at;
  updated_at = row.updated_at;
}

unfoldable pub get_status : String → List Subscription → Option StatusRecord
get_status account_id rows = elim (get_row account_id rows) [
  | none ↦ none
  | some row ↦ some (status_of row)
]

-- The status with `is_active`.
pub record Member : Type 0 where
  pub status : StatusRecord
  pub is_active : Bool

abbrev pub member : Option StatusRecord → Bool → Response Member
member none active = http_error 404
member (some status) active = ok (record { status = status; is_active = active })

-- `_authenticate`.
unfoldable pub authenticate : String → String → ℕ → List Subscription → Response Member
authenticate account_id token now rows =
    if verify_portal_token account_id token rows
    then member (get_status account_id rows) (is_active account_id now rows)
    else http_error 401

-- `record.get("plan")`: the status has no such key.
abbrev pub plan_key : StatusRecord → Option String
plan_key status = none

abbrev pub shown_plan : StatusRecord → String
shown_plan status =
    let plan = or_text (text_or_empty (plan_key status)) "starter" in
    if str_eq plan "live" then "starter" else plan

pub record Download : Type 0 where
  pub token : String
  pub plan : String
  pub expires_hours : ℕ

abbrev pub download_answer :
    Response Member
    → String
    → String
    → ℕ
    → List DownloadToken
    → Response Download × List DownloadToken
download_answer (http_error e) account_id drawn now tokens = (http_error e, tokens)
download_answer (ok m) account_id drawn now tokens =
    if not m.is_active then (http_error 402, tokens) else (
      ok (record { token = drawn; plan = shown_plan m.status; expires_hours = 24 }),
      issue_download_token drawn account_id (shown_plan m.status) 1 24 now tokens,
    )

unfoldable pub portal_download_url :
    String
    → String
    → String
    → ℕ
    → List Subscription
    → List DownloadToken
    → Response Download × List DownloadToken
portal_download_url account_id token drawn now rows tokens =
    download_answer (authenticate account_id token now rows) account_id drawn now tokens

unfoldable pub portal_status : String → String → ℕ → List Subscription → Response Member
portal_status account_id token now rows = authenticate account_id token now rows

-- The body of an endpoint that only reads, after `_authenticate`.
abbrev pub authenticated {ℓ} : {A : Type ℓ} → Response Member → A → Response A
authenticated (http_error e) answer = http_error e
authenticated (ok m) answer = ok answer

-- `none` is the answer that the device is offline.
unfoldable pub portal_device_health :
    {Data Redis : Type 0}
    → ExpiringKeys Data Redis
    → String
    → String
    → ℕ
    → List Subscription
    → Redis
    → Response (Option (Beat Data))
portal_device_health redis account_id token now rows r =
    authenticated (authenticate account_id token now rows) (get_health redis account_id now r)

unfoldable pub portal_signal_history :
    String → String → ℕ → ℕ → List Subscription → List SignalHistory → Response (List SignalHistory)
portal_signal_history account_id token limit now rows signals =
    authenticated (authenticate account_id token now rows) (get_history account_id limit signals)

unfoldable pub portal_trade_quota :
    String → String → String → ℕ → List Subscription → List TradeDailyCounter → Response Quota
portal_trade_quota account_id token day now rows counters =
    authenticated (authenticate account_id token now rows)
      (TradeLimits.status rows account_id day counters)

-- The handler imports `revoke_account_keys`, which backend/app/security.py does not have, before it
-- does anything else for a member whose subscription is active: the `ImportError` is answered with 500.
abbrev pub mobile_key_answer : Response Member → Response (Unit {0})
mobile_key_answer (http_error e) = http_error e
mobile_key_answer (ok m) = if not m.is_active then http_error 402 else http_error 500

unfoldable pub portal_issue_mobile_key :
    String → String → ℕ → List Subscription → List ApiKey → Response (Unit {0}) × List ApiKey
portal_issue_mobile_key account_id token now rows keys =
    (mobile_key_answer (authenticate account_id token now rows), keys)
