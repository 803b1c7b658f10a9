-- ===== src/Subscriptions/Events.antt =====
-- What a payment event does to the rows.
use mathlib.Core.Option
use aegis_platform_server_te.Prelude.{
  ℕ, ◌+◌, ◌≡◌, refl, inl, inr, false, Option, none, some, List, String, str_eq, str_eq_eq,
  str_eq_comm, Bool-cases, Option-cases, if◌then◌else◌, update, add_row, find-update_key,
  find-add_key,
}
use aegis_platform_server_te.Models.{Subscription, canceled, Settings, days}
use aegis_platform_server_te.Subscriptions.{
  PaymentEvent, PaymentEventType, payment_succeeded, payment_failed, subscription_canceled, unknown,
  Billing, Draws, get_row, already_processed, apply_typed, renewed, first_row, kept_token, failed,
  with_status,
}

-- A write to one account's row leaves every other account's row as it was.
pub get_row-update :
    (a j : String) (f : Subscription → Subscription)
    → ((x : Subscription) → (f x).account_id ≡ x.account_id)
    → (rows : List Subscription)
    → get_row j (update (λ x. str_eq x.account_id a) f rows)
      ≡ (if str_eq j a then Option.map f (get_row j rows) else get_row j rows)
get_row-update a j f same rows = find-update_key (λ x. x.account_id) a j f same rows

pub get_row-add :
    (j : String) (row : Subscription) (rows : List Subscription)
    → get_row row.account_id rows ≡ none
    → get_row j (add_row row rows) ≡ (if str_eq row.account_id j then some row else get_row j rows)
get_row-add j row rows fresh = find-add_key (λ x. x.account_id) j row rows fresh

-- The row that an event of a type leaves for its account, from the row before.
abbrev pub next_row :
    Settings
    → PaymentEventType
    → PaymentEvent
    → Draws
    → ℕ
    → Option Subscription
    → Option Subscription
next_row settings payment_succeeded event draws now none =
    some (first_row event draws.portal_token now)
next_row settings payment_succeeded event draws now (some row) =
    some (renewed event (kept_token row.portal_token draws.portal_token) now row)
next_row settings payment_failed event draws now row =
    Option.map (failed (now + days settings.subscription_grace_period_days) now) row
next_row settings subscription_canceled event draws now row =
    Option.map (with_status canceled now) row
next_row settings unknown event draws now row = row

module _ (hash_key : String → String) (settings : Settings) where
  pub apply_typed-rows :
      (t : PaymentEventType) (event : PaymentEvent) (draws : Draws) (now : ℕ) (b : Billing)
      (j : String)
      → already_processed event.provider event.provider_event_id b.processed ≡ false
      → get_row j (apply_typed hash_key settings t event draws now b).1.subscriptions ≡ (
          if str_eq j event.account_id
          then next_row settings t event draws now (get_row j b.subscriptions)
          else get_row j b.subscriptions)
  unfolding apply_typed
  apply_typed-rows payment_succeeded event draws now b j new =
      elim (Option-cases (get_row event.account_id b.subscriptions)) [
        | inl e ↦
            rw
              (
                e,
                new,
                get_row-add j (first_row event draws.portal_token now) b.subscriptions e,
                str_eq_comm event.account_id j,
              )
              (elim (Bool-cases (str_eq j event.account_id)) [
                | inl same ↦ rw (same, str_eq_eq j event.account_id same, e)
                | inr apart ↦ rw apart
              ])
        | inr (row, e) ↦
            rw
              (
                e,
                new,
                get_row-update event.account_id j
                    (renewed event (kept_token row.portal_token draws.portal_token) now) (λ x. refl)
                    b.subscriptions,
              )
              (elim (Bool-cases (str_eq j event.account_id)) [
                | inl same ↦ rw (same, str_eq_eq j event.account_id same, e)
                | inr apart ↦ rw apart
              ])
      ]
  apply_typed-rows payment_failed event draws now b j new =
      rw new (get_row-update event.account_id j _ (λ x. refl) b.subscriptions)
  apply_typed-rows subscription_canceled event draws now b j new =
      rw new (get_row-update event.account_id j _ (λ x. refl) b.subscriptions)
  apply_typed-rows unknown event draws now b j new = elim (Bool-cases (str_eq j event.account_id)) [
    | inl e ↦ rw (new, e)
    | inr e ↦ rw (new, e)
  ]
