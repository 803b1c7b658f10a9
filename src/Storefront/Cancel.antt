-- ===== src/Storefront/Cancel.antt =====
-- `cancel_subscription` of backend/app/api/subscription_router.py.
use aegis_platform_server_te.Prelude.{
  ℕ, ◌≡◌, refl, ◌∙◌, inl, inr, Bool, false, Option, none, some, List, String, arith, str_eq,
  str_eq_refl, str_eq_eq, if◌then◌else◌, ok, http_error, Bool-cases, Option-cases, Response-cases,
  find-update_key,
}
use mathlib.Core.Option
use aegis_platform_server_te.Models.{Subscription, canceled}
use aegis_platform_server_te.Security.{AuthContext, require_admin}
use aegis_platform_server_te.Subscriptions.{
  get_row, with_status, mark_canceled, is_active, row_is_active,
}
use aegis_platform_server_te.Subscriptions.Access.{is_active_of_row, is_active_of_none}
use aegis_platform_server_te.Workers.{Pool, is_running}
use aegis_platform_server_te.Workers.Running.{stop-is_running}
use aegis_platform_server_te.Portal.{StatusRecord, get_status}
use aegis_platform_server_te.Storefront.{
  State, stopped_if_running, cancel_checked, cancel_subscription,
}

canceled_row :
    (now : ℕ) (account_id a : String) (rows : List Subscription)
    → get_row a (mark_canceled account_id now rows) ≡ (
        if str_eq a account_id
        then Option.map (with_status canceled now) (get_row a rows)
        else get_row a rows)
unfolding mark_canceled
canceled_row now account_id a rows =
    find-update_key (λ row. row.account_id) account_id a (with_status canceled now) (λ x. refl) rows

canceled_is_inactive :
    (now later : ℕ) (account_id : String) (rows : List Subscription)
    → is_active account_id later (mark_canceled account_id now rows) ≡ false
unfolding row_is_active
canceled_is_inactive now later account_id rows =
    let stored = canceled_row now account_id account_id rows in
    elim (Option-cases (get_row account_id rows)) [
      | inl n ↦
          is_active_of_none account_id later (mark_canceled account_id now rows)
            (stored ∙ rw (str_eq_refl account_id, n) refl)
      | inr (row, e) ↦
          is_active_of_row account_id later (mark_canceled account_id now rows)
            (with_status canceled now row) (stored ∙ rw (str_eq_refl account_id, e) refl)
    ]

stopped-is_running :
    (account_id a : String) (pool : Pool)
    → is_running a (stopped_if_running account_id pool)
      ≡ (if str_eq a account_id then false else is_running a pool)
stopped-is_running account_id a pool = elim (Bool-cases (is_running account_id pool)) [
  | inl e ↦ rw (e, stop-is_running account_id a pool) refl
  | inr e ↦ elim (Bool-cases (str_eq a account_id)) [
    | inl same ↦ rw (e, same, str_eq_eq a account_id same) e
    | inr apart ↦ rw (e, apart) refl
  ]
]

-- The state that a cancellation leaves when it is confirmed.
abbrev pub ended : String → ℕ → State → State
ended account_id now st = record {
  subscriptions = mark_canceled account_id now st.subscriptions;
  pool = stopped_if_running account_id st.pool;
}

checked_leaves :
    (o : Option StatusRecord) (cancels : String → Option String → Option String → Bool)
    (account_id : String) (now : ℕ) (st after : State)
    → cancel_checked o cancels account_id now st ≡ (ok tt, after)
    → after ≡ ended account_id now st
checked_leaves none cancels account_id now st after e = cc
checked_leaves (some status) cancels account_id now st after e = ground arith

checked_error :
    (o : Option StatusRecord) (cancels : String → Option String → Option String → Bool)
    (account_id : String) (now c : ℕ) (st after : State)
    → cancel_checked o cancels account_id now st ≡ (http_error c, after)
    → after ≡ st
checked_error none cancels account_id now c st after e = cc
checked_error (some status) cancels account_id now c st after e = ground arith

-- A cancellation that is confirmed ends the access of its account, for whatever time it is asked,
-- and takes its worker out of the registry; the row and the worker of every other account stay.
pub cancel_ends_access :
    (auth : AuthContext) (cancels : String → Option String → Option String → Bool)
    (account_id other : String) (now later : ℕ) (st after : State)
    → cancel_subscription auth cancels account_id now st ≡ (ok tt, after)
    → str_eq other account_id ≡ false
    → (is_active account_id later after.subscriptions ≡ false)
      × (is_running account_id after.pool ≡ false)
      × (get_row other after.subscriptions ≡ get_row other st.subscriptions)
      × (is_running other after.pool ≡ is_running other st.pool)
unfolding cancel_subscription
cancel_ends_access auth cancels account_id other now later st after e apart =
    elim (Response-cases (require_admin auth)) [
      | inr (c, r) ↦ cc (rw (r, cancel_subscription) at e)
      | inl (u, r) ↦
          let left =
            checked_leaves (get_status account_id st.subscriptions) cancels account_id now st after
              (rw (r, cancel_subscription) at e) in
          rw left (
            canceled_is_inactive now later account_id st.subscriptions,
            stopped-is_running account_id account_id st.pool ∙ rw (str_eq_refl account_id) refl,
            canceled_row now account_id other st.subscriptions ∙ rw apart refl,
            stopped-is_running account_id other st.pool ∙ rw apart refl,
          )
    ]

-- A cancellation that is answered with an error, whichever, changes nothing.
pub cancel_error_keeps :
    (auth : AuthContext) (cancels : String → Option String → Option String → Bool)
    (account_id : String) (now c : ℕ) (st after : State)
    → cancel_subscription auth cancels account_id now st ≡ (http_error c, after)
    → after ≡ st
unfolding cancel_subscription
cancel_error_keeps auth cancels account_id now c st after e =
    elim (Response-cases (require_admin auth)) [
      | inr (d, r) ↦ cc (rw (r, cancel_subscription) at e)
      | inl (u, r) ↦
          checked_error (get_status account_id st.subscriptions) cancels account_id now c st after
            (rw (r, cancel_subscription) at e)
    ]
