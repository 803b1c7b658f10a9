-- ===== src/Subscriptions/Access.antt =====
-- Who may trade live, by the account's row.
use aegis_platform_server_te.Prelude.{
  ℕ, ◌≡◌, ◌↔◌, refl, sym, ◌∙◌, not, ◌&&◌, inl, inr, Bool, true, false, Option, none, some, List,
  String, arith, str_eq, str_eq_eq, str_eq_refl, or_text, Bool-cases, Option-cases, if◌then◌else◌,
}
use aegis_platform_server_te.Models.{Subscription, Status}
use aegis_platform_server_te.Plans.{resolve_plan}
use aegis_platform_server_te.Subscriptions.{
  get_row, row_is_active, is_active, row_plan, get_plan, allows_live_trading, verify_portal_token,
}

-- The account is active now, and its plan is one that trades.
pub record MayTrade (row : Subscription) (now : ℕ) : Type 0 where
  pub active_now : row_is_active row.status row.grace_period_ends_at now ≡ true
  pub named : str_eq (or_text row.plan "live") "none" ≡ false
  pub trades : (resolve_plan (or_text row.plan "live")).meta.live_trading ≡ true

demo_plan_blocked : (resolve_plan "demo").meta.live_trading ≡ false
unfolding resolve_plan
demo_plan_blocked = refl

-- The tests of `allows_live_trading` on the plan's code and the activity.
abbrev decide : String → Bool → Bool
decide plan_code active_now =
    if str_eq plan_code "none"
    then false
    else if not active_now && not (str_eq plan_code "demo")
    then false
    else (resolve_plan plan_code).meta.live_trading

decide-true :
    (plan_code : String) (active_now : Bool)
    → decide plan_code active_now ≡ true
    → (active_now ≡ true)
      × (str_eq plan_code "none" ≡ false)
      × ((resolve_plan plan_code).meta.live_trading ≡ true)
decide-true plan_code active_now h = elim (Bool-cases (str_eq plan_code "demo")) [
  | inl e ↦ ground (arith, str_eq_eq plan_code "demo" e, demo_plan_blocked)
  | inr e ↦ ground arith
]

decide-of :
    (plan_code : String)
    → str_eq plan_code "none" ≡ false
    → (resolve_plan plan_code).meta.live_trading ≡ true
    → decide plan_code true ≡ true
decide-of plan_code named trades = ground arith

pub get_plan_of_row :
    (account_id : String) (rows : List Subscription) (row : Subscription)
    → get_row account_id rows ≡ some row
    → get_plan account_id rows ≡ row_plan row.status row.plan
unfolding get_plan
get_plan_of_row account_id rows row e = rw (e, get_plan)

pub is_active_of_row :
    (account_id : String) (now : ℕ) (rows : List Subscription) (row : Subscription)
    → get_row account_id rows ≡ some row
    → is_active account_id now rows ≡ row_is_active row.status row.grace_period_ends_at now
unfolding is_active
is_active_of_row account_id now rows row e = rw (e, is_active)

pub is_active_of_none :
    (account_id : String) (now : ℕ) (rows : List Subscription)
    → get_row account_id rows ≡ none
    → is_active account_id now rows ≡ false
unfolding is_active
is_active_of_none account_id now rows e = rw (e, is_active)

pub verify_portal_token_of_row :
    (account_id token t : String) (rows : List Subscription) (row : Subscription)
    → get_row account_id rows ≡ some row
    → row.portal_token ≡ some t
    → verify_portal_token account_id token rows ≡ str_eq t token
unfolding verify_portal_token
verify_portal_token_of_row account_id token t rows row e p = rw (e, p, verify_portal_token)

get_plan_of_none :
    (account_id : String) (rows : List Subscription)
    → get_row account_id rows ≡ none
    → get_plan account_id rows ≡ "none"
unfolding get_plan
get_plan_of_none account_id rows e = rw (e, get_plan)

allows_decides :
    (account_id : String) (now : ℕ) (rows : List Subscription)
    → allows_live_trading account_id now rows
      ≡ decide (get_plan account_id rows) (is_active account_id now rows)
unfolding allows_live_trading
allows_decides account_id now rows = refl

allows_of_row :
    (account_id : String) (now : ℕ) (rows : List Subscription) (row : Subscription)
    → get_row account_id rows ≡ some row
    → allows_live_trading account_id now rows
      ≡ decide
          (row_plan row.status row.plan)
          (row_is_active row.status row.grace_period_ends_at now)
allows_of_row account_id now rows row e = rw (
  allows_decides account_id now rows,
  get_plan_of_row account_id rows row e,
  is_active_of_row account_id now rows row e,
)

decide_none : (b : Bool) → decide "none" b ≡ false
decide_none b = rw (str_eq_refl "none")

allows_of_none :
    (account_id : String) (now : ℕ) (rows : List Subscription)
    → get_row account_id rows ≡ none
    → allows_live_trading account_id now rows ≡ false
allows_of_none account_id now rows e =
    rw (allows_decides account_id now rows, get_plan_of_none account_id rows e)
      (decide_none (is_active account_id now rows))

-- The plan's code of an active row is its plan, `live` if that is empty.
plan_of_active :
    (status : Status) (plan : String) (grace : Option ℕ) (now : ℕ)
    → row_is_active status grace now ≡ true
    → row_plan status plan ≡ or_text plan "live"
unfolding row_is_active row_plan
plan_of_active status plan grace now h = ground arith

-- Live trading is allowed exactly when the account has a row that is active now, or past due within
-- its grace period, whose plan is one that trades live.
pub allows_live_trading_iff :
    (account_id : String) (now : ℕ) (rows : List Subscription)
    → (allows_live_trading account_id now rows ≡ true)
      ↔ ((row : Subscription) × (get_row account_id rows ≡ some row) × MayTrade row now)
allows_live_trading_iff account_id now rows = (there, back)
  where
    there :
        allows_live_trading account_id now rows ≡ true
        → (row : Subscription) × (get_row account_id rows ≡ some row) × MayTrade row now
    there h = elim (Option-cases (get_row account_id rows)) [
      | inl e ↦ cc (allows_of_none account_id now rows e)
      | inr (row, e) ↦
          let p =
            decide-true (row_plan row.status row.plan)
              (row_is_active row.status row.grace_period_ends_at now)
              (sym (allows_of_row account_id now rows row e) ∙ h) in
          let same = plan_of_active row.status row.plan row.grace_period_ends_at now p.0 in
          (row, e, record { active_now = p.0; named = rw same at (p.1); trades = rw same at (p.2) })
    ]

    back :
        (row : Subscription) × (get_row account_id rows ≡ some row) × MayTrade row now
        → allows_live_trading account_id now rows ≡ true
    back (row, e, m) =
        rw
          (
            allows_of_row account_id now rows row e,
            plan_of_active row.status row.plan row.grace_period_ends_at now m.active_now,
            m.active_now,
          )
          (decide-of (or_text row.plan "live") m.named m.trades)

same_plan : (r row : Subscription) → some r ≡ some row → row.plan ≡ "demo" → r.plan ≡ "demo"
same_plan r row e on_demo = ground arith

-- A row on the plan `demo` never trades live.
pub demo_row_blocked :
    (account_id : String) (now : ℕ) (rows : List Subscription) (row : Subscription)
    → get_row account_id rows ≡ some row
    → row.plan ≡ "demo"
    → allows_live_trading account_id now rows ≡ false
demo_row_blocked account_id now rows row e on_demo =
    elim (Bool-cases (allows_live_trading account_id now rows)) [
      | inl allowed ↦
          let (r, f, m) = (allows_live_trading_iff account_id now rows).0 allowed in
          let plan : r.plan ≡ "demo" = same_plan r row (sym f ∙ e) on_demo in
          cc (demo_plan_blocked, rw plan at (m.trades))
      | inr blocked ↦ blocked
    ]
