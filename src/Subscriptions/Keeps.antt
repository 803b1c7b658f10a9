-- ===== src/Subscriptions/Keeps.antt =====
-- What no payment event takes from an account that has a row: the plan, its limits and the token; and
-- none gives it the status of a trial.
use aegis_platform_server_te.Prelude.{
  ℕ, ◌+◌, ◌≡◌, refl, ◌∙◌, inl, inr, Bool, true, false, Option, none, some, List, [], ◌∷◌, String,
  arith, str_eq, str_eq_eq, is_empty, Bool-cases, Option-cases,
}
use aegis_platform_server_te.Models.{Subscription, Settings, Status, days, canceled, demo}
use aegis_platform_server_te.Subscriptions.{
  PaymentEvent, PaymentEventType, payment_succeeded, payment_failed, subscription_canceled, unknown,
  Billing, Draws, get_row, already_processed, apply_typed, apply_event, renewed, first_row,
  kept_token, failed, with_status,
}
use aegis_platform_server_te.Subscriptions.Events.{get_row-add, apply_typed-rows, next_row}

-- A status under which the plan reads `demo` whatever the row's is.
abbrev pub is_demo : Status → Bool
is_demo demo = true
is_demo _ = false

pub record Keeps (row row' : Subscription) : Type 0 where
  pub plan : row'.plan ≡ row.plan
  pub max_devices : row'.max_devices ≡ row.max_devices
  pub max_trades_per_day : row'.max_trades_per_day ≡ row.max_trades_per_day
  pub not_demo : is_demo row.status ≡ false → is_demo row'.status ≡ false
  pub portal_token :
      (t : String) → row.portal_token ≡ some t → is_empty t ≡ false → row'.portal_token ≡ some t

Keeps-refl : (row : Subscription) → Keeps row row
Keeps-refl row = record {
  plan = refl;
  max_devices = refl;
  max_trades_per_day = refl;
  not_demo = λ h. h;
  portal_token = λ t e n. e;
}

Keeps-trans : {r s t : Subscription} → Keeps r s → Keeps s t → Keeps r t
Keeps-trans h k = record {
  plan = k.plan ∙ h.plan;
  max_devices = k.max_devices ∙ h.max_devices;
  max_trades_per_day = k.max_trades_per_day ∙ h.max_trades_per_day;
  not_demo = λ d. k.not_demo (h.not_demo d);
  portal_token = λ t e n. k.portal_token t (h.portal_token t e n) n;
}

kept_token_lem :
    (o : Option String) (t fresh : String)
    → o ≡ some t
    → is_empty t ≡ false
    → kept_token o fresh ≡ t
kept_token_lem none t fresh e n = cc
kept_token_lem (some u) t fresh e n = ground arith

Keeps-renewed :
    (event : PaymentEvent) (fresh : String) (now : ℕ) (row : Subscription)
    → Keeps row (renewed event (kept_token row.portal_token fresh) now row)
Keeps-renewed event fresh now row = record {
  plan = refl;
  max_devices = refl;
  max_trades_per_day = refl;
  not_demo = λ h. refl;
  portal_token = λ t e n. rw (kept_token_lem row.portal_token t fresh e n);
}

Keeps-failed : (grace_end now : ℕ) (row : Subscription) → Keeps row (failed grace_end now row)
Keeps-failed grace_end now row = record {
  plan = refl;
  max_devices = refl;
  max_trades_per_day = refl;
  not_demo = λ h. refl;
  portal_token = λ t e n. e;
}

Keeps-canceled : (now : ℕ) (row : Subscription) → Keeps row (with_status canceled now row)
Keeps-canceled now row = record {
  plan = refl;
  max_devices = refl;
  max_trades_per_day = refl;
  not_demo = λ h. refl;
  portal_token = λ t e n. e;
}

-- A row of the account among these that keeps what `row` had.
abbrev StillKept : String → Subscription → List Subscription → Type 0
StillKept j row rows = (row' : Subscription) × (get_row j rows ≡ some row') × Keeps row row'

next_row-Keeps :
    (settings : Settings) (t : PaymentEventType) (event : PaymentEvent) (draws : Draws) (now : ℕ)
    (row : Subscription)
    → (row' : Subscription) × (next_row settings t event draws now (some row) ≡ some row')
      × Keeps row row'
next_row-Keeps settings payment_succeeded event draws now row = (
  renewed event (kept_token row.portal_token draws.portal_token) now row,
  refl,
  Keeps-renewed event draws.portal_token now row,
)
next_row-Keeps settings payment_failed event draws now row = (
  failed (now + days settings.subscription_grace_period_days) now row,
  refl,
  Keeps-failed _ now row,
)
next_row-Keeps settings subscription_canceled event draws now row =
    (with_status canceled now row, refl, Keeps-canceled now row)
next_row-Keeps settings unknown event draws now row = (row, refl, Keeps-refl row)

module _ (hash_key : String → String) (settings : Settings) where
  fresh_event-Keeps :
      (t : PaymentEventType) (event : PaymentEvent) (draws : Draws) (now : ℕ) (b : Billing)
      (j : String) (row : Subscription)
      → get_row j b.subscriptions ≡ some row
      → already_processed event.provider event.provider_event_id b.processed ≡ false
      → StillKept j row (apply_typed hash_key settings t event draws now b).1.subscriptions
  fresh_event-Keeps t event draws now b j row h new =
      let (row', e, k) = next_row-Keeps settings t event draws now row in
      let rows = apply_typed-rows hash_key settings t event draws now b j new in
      elim (Bool-cases (str_eq j event.account_id)) [
        | inl same ↦ (row', rw (rows, same, h) e, k)
        | inr apart ↦ (row, rw (rows, apart) h, Keeps-refl row)
      ]

  -- An event that was there before is rolled back, but for a first activation of another account.
  old_event-Keeps :
      (t : PaymentEventType) (event : PaymentEvent) (draws : Draws) (now : ℕ) (b : Billing)
      (j : String) (row : Subscription)
      → get_row j b.subscriptions ≡ some row
      → already_processed event.provider event.provider_event_id b.processed ≡ true
      → StillKept j row (apply_typed hash_key settings t event draws now b).1.subscriptions
  unfolding apply_typed
  old_event-Keeps payment_succeeded event draws now b j row h old =
      elim (Option-cases (get_row event.account_id b.subscriptions)) [
        | inl e ↦ (
          row,
          rw (e, old, get_row-add j (first_row event draws.portal_token now) b.subscriptions e)
              (elim (Bool-cases (str_eq event.account_id j)) [
                | inl same ↦ cc (str_eq_eq event.account_id j same)
                | inr apart ↦ rw apart h
              ]),
          Keeps-refl row,
        )
        | inr (r, e) ↦ (row, rw (e, old) h, Keeps-refl row)
      ]
  old_event-Keeps payment_failed event draws now b j row h old = (row, rw old h, Keeps-refl row)
  old_event-Keeps subscription_canceled event draws now b j row h old =
      (row, rw old h, Keeps-refl row)
  old_event-Keeps unknown event draws now b j row h old = (row, rw old h, Keeps-refl row)

  pub apply_event-Keeps :
      (event : PaymentEvent) (draws : Draws) (now : ℕ) (b : Billing) (j : String)
      (row : Subscription)
      → get_row j b.subscriptions ≡ some row
      → StillKept j row (apply_event hash_key settings event draws now b).1.subscriptions
  unfolding apply_event
  apply_event-Keeps event draws now b j row h = elim (Bool-cases (is_empty event.account_id)) [
    | inl empty ↦ (row, rw empty h, Keeps-refl row)
    | inr named ↦
        rw named
          (elim (Bool-cases
            (already_processed event.provider event.provider_event_id b.processed)) [
              | inl old ↦ old_event-Keeps event.event_type event draws now b j row h old
              | inr new ↦ fresh_event-Keeps event.event_type event draws now b j row h new
            ])
  ]

  -- A history of payment events, each with its draws and its time.
  unfoldable pub apply_events : List (PaymentEvent × Draws × ℕ) → Billing → Billing
  apply_events [] b = b
  apply_events ((event, draws, now) ∷ rest) b =
      apply_events rest (apply_event hash_key settings event draws now b).1

  -- Whatever payment events arrive for whatever accounts, an account that has a row keeps its plan,
  -- its limits, and its portal token if that is not empty. The plan stays also when a payment
  -- succeeds, where docs/DOWNLOAD_AND_DEMO.md has it move to `live`.
  pub apply_events-Keeps :
      (history : List (PaymentEvent × Draws × ℕ)) (b : Billing) (j : String) (row : Subscription)
      → get_row j b.subscriptions ≡ some row
      → (row' : Subscription) × (get_row j (apply_events history b).subscriptions ≡ some row')
        × Keeps row row'
  unfolding apply_events
  apply_events-Keeps [] b j row h = (row, h, Keeps-refl row)
  apply_events-Keeps ((event, draws, now) ∷ rest) b j row h =
      let (row', h', k) = apply_event-Keeps event draws now b j row h in
      let (row'', h'', k') =
        apply_events-Keeps rest (apply_event hash_key settings event draws now b).1 j row' h' in
      (row'', h'', Keeps-trans k k')
