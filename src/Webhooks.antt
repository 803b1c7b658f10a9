-- ===== src/Webhooks.antt =====
-- The webhook of the payment providers (`receive_webhook` of
-- backend/app/api/subscription_router.py), over the subscriptions, the claim of credentials and the
-- worker pool. An adapter checks a signature at a time, and reads a body with a `uuid4` that is drawn for
-- the call.
pub mod Redelivery
mod Tests
use aegis_platform_server_te.Prelude.{
  ℕ, Bool, true, false, not, ◌&&◌, Option, none, some, String, is_empty, if◌then◌else◌, Response,
  ok, http_error,
}
use aegis_platform_server_te.Models.{Settings}
use aegis_platform_server_te.Subscriptions.{
  PaymentEvent, PaymentEventType, payment_failed, subscription_canceled, Billing, Draws,
  NewlyIssued, Applied, already_processed, apply_event, is_active,
}
use aegis_platform_server_te.Reveal.{RedisKeys, stash_credentials}
use aegis_platform_server_te.Workers.{Pool, is_running, stop_worker}

pub record Adapter (Body : Type 0) : Type 0 where
  pub verify_webhook_signature : ℕ → Body → Bool
  pub parse_webhook_event : String → Body → PaymentEvent

pub record State (Redis : Type 0) : Type 0 where
  pub billing : Billing
  pub redis : Redis
  pub pool : Pool

-- The `status` of the answer.
pub data Reply : Type 0 where
  duplicate processed : Reply

abbrev pub ends_access : PaymentEventType → Bool
ends_access payment_failed = true
ends_access subscription_canceled = true
ends_access _ = false

module _ {Redis : Type 0} (redis : RedisKeys Redis) (hash_key : String → String)
    (settings : Settings) where
  abbrev pub stashed : Option NewlyIssued → State Redis → State Redis
  stashed none s = s
  stashed (some issued) s = record s {
    redis =
        stash_credentials redis issued.account_id issued.portal_token issued.mobile_api_key s.redis;
  }

  -- A worker is stopped at once when the event ended its account's access; `later` is the time of the
  -- second look at the subscription.
  abbrev pub cut_off : PaymentEvent → ℕ → State Redis → State Redis
  cut_off event later s =
      if (not (is_empty event.account_id) && ends_access event.event_type)
        && (is_running event.account_id s.pool
            && not (is_active event.account_id later s.billing.subscriptions))
      then record s { pool = (stop_worker event.account_id s.pool).1 }
      else s

  abbrev pub after_apply : Applied → PaymentEvent → ℕ → State Redis → Response Reply × State Redis
  after_apply (http_error e, b) event later s = (http_error e, record s { billing = b })
  after_apply (ok issued, b) event later s =
      (ok processed, cut_off event later (stashed issued (record s { billing = b })))

  unfoldable pub receive_event :
      PaymentEvent → Draws → ℕ → ℕ → State Redis → Response Reply × State Redis
  receive_event event draws now later s =
      if already_processed event.provider event.provider_event_id s.billing.processed
      then (ok duplicate, s)
      else after_apply (apply_event hash_key settings event draws now s.billing) event later s

  -- `ADAPTERS.get(provider)` is the first argument, and `drawn` the `uuid4` of the adapter.
  unfoldable pub receive_webhook :
      {Body : Type 0}
      → Option (Adapter Body)
      → Body
      → String
      → Draws
      → ℕ
      → ℕ
      → State Redis
      → Response Reply × State Redis
  receive_webhook none body drawn draws now later s = (http_error 404, s)
  receive_webhook (some adapter) body drawn draws now later s =
      if not (adapter.verify_webhook_signature now body)
      then (http_error 401, s)
      else receive_event (adapter.parse_webhook_event drawn body) draws now later s
