-- ===== src/Startup/Sweep.antt =====
-- `_subscription_sweep_loop` of backend/app/core/startup.py, over the subscriptions and the pool.
use aegis_platform_server_te.Prelude.{
  ℕ, ◌≡◌, refl, ◌∙◌, inl, inr, Bool, true, false, Option, none, some, List, [], ◌∷◌, String, arith,
  str_eq, str_eq_eq, str_eq_comm, if◌then◌else◌, find, select, count_where, ◌≤◌, Bool-cases,
  find-update_key,
}
use mathlib.Core.Option
use aegis_platform_server_te.Models.{Subscription, suspended}
use aegis_platform_server_te.Subscriptions.{
  has_account, get_row, is_some, is_lapsed, with_status, get_lapsed_accounts, mark_suspended,
  is_active, row_is_active,
}
use aegis_platform_server_te.Subscriptions.Access.{is_active_of_row}
use aegis_platform_server_te.Workers.{Pool, is_running}
use aegis_platform_server_te.Workers.Running.{stop-is_running}
use aegis_platform_server_te.Startup.{
  State, stop_if_running, sweep_account, sweep_accounts, subscription_sweep,
}

-- An account is among those of some rows.
abbrev pub is_named : String → List Subscription → Bool
is_named a rows = is_some (find (has_account a) rows)

stop_if_running-is_running :
    (b a : String) (pool : Pool)
    → is_running a (stop_if_running b pool) ≡ (if str_eq a b then false else is_running a pool)
stop_if_running-is_running b a pool = elim (Bool-cases (is_running b pool)) [
  | inl e ↦ rw (e, stop-is_running b a pool) refl
  | inr e ↦ elim (Bool-cases (str_eq a b)) [
    | inl same ↦ rw (e, same, str_eq_eq a b same) e
    | inr apart ↦ rw (e, apart) refl
  ]
]

-- The workers after a sweep of some accounts.
sweep-is_running :
    (now : ℕ) (a : String) (rows : List Subscription) (st : State)
    → is_running a ((sweep_accounts now rows st).pool)
      ≡ (if is_named a rows then false else is_running a st.pool)
unfolding sweep_accounts sweep_account find
sweep-is_running now a [] st = refl
sweep-is_running now a (r ∷ rows) st =
    rw
      (
        sweep-is_running now a rows (sweep_account now r.account_id st),
        stop_if_running-is_running r.account_id a st.pool,
        str_eq_comm a r.account_id,
      )
      (ground arith)

mark-get_row :
    (now : ℕ) (b a : String) (rows : List Subscription)
    → get_row a (mark_suspended b now rows) ≡ (
        if str_eq a b
        then Option.map (with_status suspended now) (get_row a rows)
        else get_row a rows)
unfolding mark_suspended
mark-get_row now b a rows =
    find-update_key (λ row. row.account_id) b a (with_status suspended now) (λ x. refl) rows

is_named_cons :
    (a : String) (r : Subscription) (rows : List Subscription)
    → is_named a (r ∷ rows) ≡ (if str_eq a r.account_id then true else is_named a rows)
unfolding find
is_named_cons a r rows = rw (str_eq_comm a r.account_id) (ground arith)

is_named_nil : (a : String) → is_named a [] ≡ false
unfolding find
is_named_nil a = refl

-- To suspend a row twice is to suspend it once.
suspended_twice :
    (now : ℕ) (o : Option Subscription)
    → Option.map (with_status suspended now) (Option.map (with_status suspended now) o)
      ≡ Option.map (with_status suspended now) o
suspended_twice now none = refl
suspended_twice now (some row) = refl

-- The rows after a sweep of some accounts.
sweep-get_row :
    (now : ℕ) (a : String) (rows : List Subscription) (st : State)
    → get_row a ((sweep_accounts now rows st).subscriptions) ≡ (
        if is_named a rows
        then Option.map (with_status suspended now) (get_row a st.subscriptions)
        else get_row a st.subscriptions)
unfolding sweep_accounts sweep_account
sweep-get_row now a [] st = rw (is_named_nil a) refl
sweep-get_row now a (r ∷ rows) st =
    rw
      (
        sweep-get_row now a rows (sweep_account now r.account_id st),
        mark-get_row now r.account_id a st.subscriptions,
        is_named_cons a r rows,
      )
      (elim (Bool-cases (str_eq a r.account_id)) [
        | inl e ↦ elim (Bool-cases (is_named a rows)) [
          | inl n ↦ rw (e, n, suspended_twice now (get_row a st.subscriptions)) refl
          | inr n ↦ rw (e, n) refl
        ]
        | inr e ↦ rw (e) refl
      ])

none_named :
    (now : ℕ) (a : String) (rows : List Subscription)
    → count_where (has_account a) rows ≡ 0
    → is_named a (select (is_lapsed now) rows) ≡ false
unfolding find select count_where
none_named now a [] c = refl
none_named now a (r ∷ rows) c = ground (arith, none_named now a rows)

-- An account is swept exactly when its row is lapsed.
named_iff_lapsed :
    (now : ℕ) (a : String) (rows : List Subscription) (row : Subscription)
    → count_where (has_account a) rows ≤ 1
    → get_row a rows ≡ some row
    → is_named a (select (is_lapsed now) rows) ≡ is_lapsed now row
unfolding find select count_where
named_iff_lapsed now a [] row c e = cc
named_iff_lapsed now a (r ∷ rows) row c e =
    ground (arith, named_iff_lapsed now a rows row, none_named now a rows)

suspended_is_inactive : (grace : Option ℕ) (now : ℕ) → row_is_active suspended grace now ≡ false
unfolding row_is_active
suspended_is_inactive grace now = refl

-- A round of the sweep suspends an account, takes its worker out of the registry and ends its
-- access, for whatever time it is asked for, exactly when its subscription has lapsed; every other
-- account keeps its row, its worker and its access. An account has one row at most.
pub sweep_settles :
    (now later : ℕ) (a : String) (st : State) (row : Subscription)
    → count_where (has_account a) st.subscriptions ≤ 1
    → get_row a st.subscriptions ≡ some row
    → let after = subscription_sweep now st in
      let lapsed = is_lapsed now row in
      (get_row a after.subscriptions ≡ some (if lapsed then with_status suspended now row else row))
      × (is_running a after.pool ≡ (if lapsed then false else is_running a st.pool))
      × (is_active a later after.subscriptions
          ≡ (if lapsed then false else is_active a later st.subscriptions))
unfolding subscription_sweep get_lapsed_accounts
sweep_settles now later a st row c e =
    let rows = select (is_lapsed now) st.subscriptions in
    let named = named_iff_lapsed now a st.subscriptions row c e in
    let stored = sweep-get_row now a rows st in
    let runs = sweep-is_running now a rows st in
    elim (Bool-cases (is_lapsed now row)) [
      | inl l ↦
          let swept = stored ∙ rw (named, l, e) refl in
          (
            rw (l) swept,
            runs ∙ rw (named, l) refl,
            is_active_of_row a later _ (with_status suspended now row) swept
                ∙ rw (l) (suspended_is_inactive row.grace_period_ends_at later),
          )
      | inr l ↦
          let kept = stored ∙ rw (named, l, e) refl in
          (
            rw (l) kept,
            runs ∙ rw (named, l) refl,
            is_active_of_row a later _ row kept
                ∙ rw (l, is_active_of_row a later st.subscriptions row e) refl,
          )
    ]
