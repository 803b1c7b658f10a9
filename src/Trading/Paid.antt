-- ===== src/Trading/Paid.antt =====
-- The first payment of an account (`apply_event` of backend/app/services/subscription_service.py)
-- and its broker connection (`connect` of backend/app/api/trading_router.py).
use aegis_platform_server_te.Prelude.{
  ℕ, ◌≡◌, refl, false, none, List, String, str_eq, str_eq_refl, is_empty, ok, http_error,
}
use aegis_platform_server_te.Models.{
  Settings, Status, active, past_due, canceled, suspended, demo, other,
}
use aegis_platform_server_te.Security.{AuthContext, require_account_match}
use aegis_platform_server_te.Subscriptions.{
  PaymentEvent, payment_succeeded, Billing, Draws, get_row, row_plan, already_processed,
  apply_event, first_row,
}
use aegis_platform_server_te.Subscriptions.Access.{get_plan_of_row}
use aegis_platform_server_te.Subscriptions.Lifecycle.{apply_event-rows}
use aegis_platform_server_te.Subscriptions.Keeps.{is_demo, apply_events, apply_events-Keeps}
use aegis_platform_server_te.Trading.{Platform, ConnectRequest, Drawn, connect}
use aegis_platform_server_te.Trading.Endpoints.{connect_refused}

starter_plan :
    (status : Status) (plan : String)
    → is_demo status ≡ false
    → plan ≡ "starter"
    → (str_eq (row_plan status plan) "live" ≡ false)
      × (str_eq (row_plan status plan) "demo" ≡ false)
unfolding row_plan str_eq
starter_plan active plan d e = rw e (refl, refl)
starter_plan past_due plan d e = rw e (refl, refl)
starter_plan canceled plan d e = (refl, refl)
starter_plan suspended plan d e = (refl, refl)
starter_plan (other s) plan d e = (refl, refl)
starter_plan demo plan d e = cc

module _ (hash_key : String → String) (settings : Settings)
    (encrypt decrypt : String → String → String) (max_workers : ℕ) where
  -- An account that comes to the platform by paying, with no row before, cannot connect a broker:
  -- after its first payment, and whatever payment events of whatever accounts follow it, a request
  -- with a key that may act for it is answered with 402, and nothing is stored or started. The event
  -- of the first payment must be new, and name the account.
  pub paid_never_connects :
      (event : PaymentEvent) (draws : Draws) (now : ℕ) (b : Billing)
      (history : List (PaymentEvent × Draws × ℕ)) (auth : AuthContext) (req : ConnectRequest)
      (drawn : Drawn) (before : Platform)
      → event.event_type ≡ payment_succeeded
      → is_empty event.account_id ≡ false
      → already_processed event.provider event.provider_event_id b.processed ≡ false
      → get_row event.account_id b.subscriptions ≡ none
      → req.account_id ≡ event.account_id
      → require_account_match auth req.account_id ≡ ok tt
      → let paid = (apply_event hash_key settings event draws now b).1 in
        let platform = record before {
          subscriptions = (apply_events hash_key settings history paid).subscriptions;
        } in
        connect encrypt decrypt max_workers auth req drawn platform ≡ (http_error 402, platform)
  paid_never_connects event draws now b history auth req drawn before is_paid named new first own
        may_act =
      let paid = (apply_event hash_key settings event draws now b).1 in
      let rows = (apply_events hash_key settings history paid).subscriptions in
      let stored =
        apply_event-rows hash_key settings event draws now b event.account_id named new in
      let (row, e, kept) =
        apply_events-Keeps hash_key settings history paid event.account_id
          (first_row event draws.portal_token now)
          (rw (stored, str_eq_refl event.account_id, is_paid, first)) in
      let plan = get_plan_of_row event.account_id rows row e in
      let (not_live, not_demo) = starter_plan row.status row.plan (kept.not_demo refl) kept.plan in
      connect_refused encrypt decrypt max_workers auth req drawn
        (record before { subscriptions = rows }) may_act (rw (own, plan) not_live)
        (rw (own, plan) not_demo)
