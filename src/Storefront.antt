-- ===== src/Storefront.antt =====
-- The endpoints of backend/app/api/subscription_router.py besides the webhook: checkout, the claim of
-- credentials, the status, the cancellation and the sign-up for a trial. What a provider answers is a
-- parameter.
pub mod Cancel
pub mod Signup
mod Tests
use aegis_platform_server_te.Prelude.{
  ℕ, ◌≡◌, Bool, true, false, not, ◌||◌, Option, none, some, List, String, if◌then◌else◌, Response,
  ok, http_error, or_text, text_or_empty, strip, is_empty, str_eq, ◌>>=◌, ◌>>◌,
}
use aegis_platform_server_te.Models.{Subscription, Settings, DownloadToken}
use aegis_platform_server_te.Security.{AuthContext, require_account_match, require_admin}
use aegis_platform_server_te.Subscriptions.{
  Billing, Draws, NewlyIssued, get_row, is_active, mark_canceled, activate_demo,
}
use aegis_platform_server_te.Portal.{StatusRecord, Member, member, get_status}
use aegis_platform_server_te.Devices.{issue_download_token}
use aegis_platform_server_te.Records.{AuditEvent, record_event}
use aegis_platform_server_te.Reveal.{RedisKeys, Credentials, create_reveal_token, reveal}
use aegis_platform_server_te.Workers.{Pool, is_running, stop_worker}

-- `ADAPTERS.get(provider)` finds one.
abbrev pub is_provider : String → Bool
is_provider provider =
    str_eq provider "paystack" || (str_eq provider "flutterwave" || str_eq provider "stripe")

abbrev pub session_answer {ℓ} : {A : Type ℓ} → Option A → Response A
session_answer none = http_error 500
session_answer (some session) = ok session

abbrev pub found_or_404 {ℓ} : {A : Type ℓ} → Option A → Response A
found_or_404 none = http_error 404
found_or_404 (some a) = ok a

module _ {Redis : Type 0} (redis : RedisKeys Redis) where
  -- The checkout session of the adapter, which is none when the provider's call raises, given the
  -- drawn reveal token.
  unfoldable pub create_checkout :
      {Session : Type 0}
      → (String → Option Session)
      → String
      → String
      → String
      → Redis
      → Response Session × Redis
  create_checkout create_session provider account_id drawn r =
      if not (is_provider provider)
      then (http_error 404, r)
      else (session_answer (create_session drawn), create_reveal_token redis account_id drawn r)

  unfoldable pub reveal_credentials : String → String → Redis → Response Credentials × Redis
  reveal_credentials account_id token r =
      let (result, after) = reveal redis account_id token r in (found_or_404 result, after)

  -- `claim` reads `activation_ref` first and `reveal_token` for want of it; `reveal` by POST reads
  -- them the other way round.
  unfoldable pub claim_activation :
      Option String → Option String → Option String → Redis → Response Credentials × Redis
  claim_activation account_id first second r =
      let account = strip (text_or_empty account_id) in
      let ref = strip (or_text (text_or_empty first) (text_or_empty second)) in
      if is_empty account || is_empty ref
      then (http_error 400, r)
      else reveal_credentials account ref r

unfoldable pub get_subscription_status :
    AuthContext → String → ℕ → List Subscription → Response Member
get_subscription_status auth account_id now rows =
    require_account_match auth account_id
    >> member (get_status account_id rows) (is_active account_id now rows)

pub record State : Type 0 where
  pub subscriptions : List Subscription
  pub pool : Pool

abbrev pub stopped_if_running : String → Pool → Pool
stopped_if_running account_id pool =
    if is_running account_id pool then (stop_worker account_id pool).1 else pool

-- After the guard: the row's provider, and the answer of its `cancel_subscription` on the two ids.
abbrev pub cancel_checked :
    Option StatusRecord
    → (String → Option String → Option String → Bool)
    → String
    → ℕ
    → State
    → Response (Unit {0}) × State
cancel_checked none cancels account_id now st = (http_error 404, st)
cancel_checked (some status) cancels account_id now st =
    if not (is_provider (text_or_empty status.provider))
    then (http_error 400, st)
    else if not (
        cancels (text_or_empty status.provider) status.provider_subscription_id
          status.provider_customer_id)
    then (http_error 502, st)
    else (
      ok tt,
      record {
        subscriptions = mark_canceled account_id now st.subscriptions;
        pool = stopped_if_running account_id st.pool;
      },
    )

unfoldable pub cancel_subscription :
    AuthContext
    → (String → Option String → Option String → Bool)
    → String
    → ℕ
    → State
    → Response (Unit {0}) × State
cancel_subscription auth cancels account_id now st = elim (require_admin auth) [
  | http_error e ↦ (http_error e, st)
  | ok u ↦ cancel_checked (get_status account_id st.subscriptions) cancels account_id now st
]

pub record Shop : Type 0 where
  pub billing : Billing
  pub tokens : List DownloadToken
  pub audit : List AuditEvent

abbrev pub signup_event : String → ℕ → AuditEvent
signup_event account_id now = record {
  created_at = now;
  actor_type = "system";
  actor_id = none;
  actor_label = none;
  action = "subscription.demo_signup";
  target_type = none;
  target_id = none;
  account_id = some account_id;
  success = true;
}

-- The account is the one given or a drawn one; the last text is the drawn download token.
unfoldable pub demo_signup :
    (String → String)
    → Settings
    → Option String
    → String
    → Draws
    → String
    → ℕ
    → Shop
    → NewlyIssued × Shop
demo_signup hash_key settings given drawn draws download now shop =
    let account_id = or_text (strip (text_or_empty given)) drawn in
    let (issued, billing) = activate_demo hash_key settings account_id draws now shop.billing in
    (
      issued,
      record {
        billing = billing;
        tokens = issue_download_token download account_id "demo" 1 72 now shop.tokens;
        audit = record_event (signup_event account_id now) shop.audit;
      },
    )
