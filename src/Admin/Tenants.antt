-- ===== src/Admin/Tenants.antt =====
-- `set_tenant_plan` of backend/app/api/admin_router.py, against the services that read the plan.
use aegis_platform_server_te.Prelude.{
  ℕ, ◌≤◌, ◌≡◌, refl, ◌∙◌, inl, inr, true, false, Option, none, some, List, String, arith, str_eq,
  str_eq_refl, str_eq_comm, str_eq_eq, if◌then◌else◌, Response, ok, update, add_row, Bool-cases,
  Option-cases, find-update_key, find-add_key,
}
use aegis_platform_server_te.Models.{Subscription, Status, active}
use aegis_platform_server_te.Plans.{Plan, resolve_plan, resolve_plan_devices_pos}
use aegis_platform_server_te.Security.{AuthContext}
use aegis_platform_server_te.Subscriptions.{has_account, get_row}
use aegis_platform_server_te.Devices.{max_devices}
use aegis_platform_server_te.TradeLimits.{limit_for}
use aegis_platform_server_te.Admin.{State, event_of, audited, guarded, guarded_passed}

-- `SetPlanRequest`; an empty status is `none`.
pub record SetPlanRequest : Type 0 where
  pub account_id : String
  pub plan : String
  pub status : Option Status

abbrev pub status_or : Option Status → Status → Status
status_or none old = old
status_or (some s) old = s

abbrev pub manual_row : SetPlanRequest → Plan → ℕ → Subscription
manual_row body plan now = record {
  account_id = body.account_id;
  provider = some "manual";
  provider_customer_id = none;
  provider_subscription_id = none;
  status = status_or body.status active;
  current_period_end = none;
  grace_period_ends_at = none;
  portal_token = none;
  plan = plan.code;
  max_devices = plan.meta.max_devices;
  max_trades_per_day = plan.meta.max_trades_per_day;
  updated_at = now;
}

abbrev pub with_plan : SetPlanRequest → Plan → ℕ → Subscription → Subscription
with_plan body plan now row = record row {
  plan = plan.code;
  max_devices = plan.meta.max_devices;
  max_trades_per_day = plan.meta.max_trades_per_day;
  status = status_or body.status row.status;
  updated_at = now;
}

abbrev pub planned_rows :
    Option Subscription → SetPlanRequest → Plan → ℕ → List Subscription → List Subscription
planned_rows none body plan now rows = add_row (manual_row body plan now) rows
planned_rows (some _) body plan now rows =
    update (has_account body.account_id) (with_plan body plan now) rows

unfoldable pub set_tenant_plan : AuthContext → SetPlanRequest → ℕ → State → Response Plan × State
set_tenant_plan auth body now st =
    let plan = resolve_plan body.plan in
    guarded auth
      (
        ok plan,
        audited
            (event_of auth auth.label "subscription.set_plan" none none (some body.account_id) now)
            (record st {
              subscriptions =
                  planned_rows (get_row body.account_id st.subscriptions) body plan now
                    st.subscriptions;
            }),
      )
      st

-- The account's row after its plan is set.
abbrev pub planned_row : Option Subscription → SetPlanRequest → Plan → ℕ → Subscription
planned_row none body plan now = manual_row body plan now
planned_row (some row) body plan now = with_plan body plan now row

planned_get :
    (body : SetPlanRequest) (plan : Plan) (now : ℕ) (a : String) (rows : List Subscription)
    → let old = get_row body.account_id rows in
      get_row a (planned_rows old body plan now rows)
      ≡ (if str_eq a body.account_id then some (planned_row old body plan now) else get_row a rows)
planned_get body plan now a rows = elim (Option-cases (get_row body.account_id rows)) [
  | inl n ↦ rw (n) (
      find-add_key (λ row. row.account_id) a (manual_row body plan now) rows n
      ∙ rw (str_eq_comm a body.account_id) refl)
  | inr (row, e) ↦ rw (e) (
      find-update_key (λ row. row.account_id) body.account_id a (with_plan body plan now)
        (λ x. refl) rows
      ∙ elim (Bool-cases (str_eq a body.account_id)) [
        | inl same ↦ rw (same, str_eq_eq a body.account_id same, e) refl
        | inr other ↦ rw other refl
      ])
]

max_devices_of_row :
    (a : String) (rows : List Subscription) (row : Subscription)
    → get_row a rows ≡ some row
    → 1 ≤ row.max_devices
    → max_devices a rows ≡ row.max_devices
unfolding max_devices
max_devices_of_row a rows row e h = rw (e, max_devices) (ground arith)

limit_for_row :
    (a : String) (rows : List Subscription) (row : Subscription)
    → get_row a rows ≡ some row
    → limit_for a rows ≡ row.max_trades_per_day
unfolding limit_for
limit_for_row a rows row e = rw (e, limit_for) refl

planned_meta :
    (o : Option Subscription) (body : SetPlanRequest) (plan : Plan) (now : ℕ)
    → ((planned_row o body plan now).max_devices ≡ plan.meta.max_devices)
      × ((planned_row o body plan now).max_trades_per_day ≡ plan.meta.max_trades_per_day)
planned_meta none body plan now = (refl, refl)
planned_meta (some row) body plan now = (refl, refl)

-- When an administrator sets the plan of an account, the limits on its devices and on its daily
-- trades are from then on those of the catalogue's plan, whether or not the account had a row, and
-- the row of every other account stays.
pub set_plan_takes_effect :
    (auth : AuthContext) (body : SetPlanRequest) (now : ℕ) (other : String) (st : State)
    → auth.is_admin ≡ true
    → str_eq other body.account_id ≡ false
    → let (reply, after) = set_tenant_plan auth body now st in
      let plan = resolve_plan body.plan in
      (reply ≡ ok plan)
      × (max_devices body.account_id after.subscriptions ≡ plan.meta.max_devices)
      × (limit_for body.account_id after.subscriptions ≡ plan.meta.max_trades_per_day)
      × (get_row other after.subscriptions ≡ get_row other st.subscriptions)
unfolding set_tenant_plan
set_plan_takes_effect auth body now other st admin apart =
    let plan = resolve_plan body.plan in
    let old = get_row body.account_id st.subscriptions in
    let rows = planned_rows old body plan now st.subscriptions in
    let row = planned_row old body plan now in
    let stored : get_row body.account_id rows ≡ some row =
      planned_get body plan now body.account_id st.subscriptions
      ∙ rw (str_eq_refl body.account_id) refl in
    let (devices, trades) = planned_meta old body plan now in
    rw
      (guarded_passed auth
        (
          ok plan,
          audited
              (event_of auth auth.label "subscription.set_plan" none none (some body.account_id)
                now)
              (record st { subscriptions = rows }),
        )
        st admin)
      (
        refl,
        max_devices_of_row body.account_id rows row stored
              (rw devices (resolve_plan_devices_pos body.plan))
            ∙ devices,
        limit_for_row body.account_id rows row stored ∙ trades,
        planned_get body plan now other st.subscriptions ∙ rw apart refl,
      )
