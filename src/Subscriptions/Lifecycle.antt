-- ===== src/Subscriptions/Lifecycle.antt =====
-- The lifecycle of a subscription: the grace period, activation, and the accounts not concerned.

use aegis_platform_server_te.Prelude.{
  ℕ, ◌+◌, ◌≡◌, refl, ◌∙◌, inl, inr, true, false, none, some, String, arith, str_eq, str_eq_refl,
  str_eq_comm, is_empty, Bool-cases, Option-cases, if◌then◌else◌, ok, http_error, find, ltb, ap,
}
use aegis_platform_server_te.Models.{Subscription, Settings, days, canceled}
use aegis_platform_server_te.Security.{
  has_hash, verify_api_key, issue_api_key, is_expired, deadline, auth_context, new_key,
}
use aegis_platform_server_te.Security.Lifecycle.{issue-verify}
use aegis_platform_server_te.Subscriptions.{
  PaymentEvent, PaymentEventType, payment_succeeded, payment_failed, subscription_canceled, unknown,
  Billing, Draws, NewlyIssued, get_row, already_processed, apply_typed, apply_event, first_row,
  renewed, kept_token, failed, with_status, is_active, row_is_active, mobile_key_request,
  verify_portal_token,
}
use aegis_platform_server_te.Subscriptions.Events.{apply_typed-rows, next_row, get_row-add}
use aegis_platform_server_te.Subscriptions.Access.{
  is_active_of_row, is_active_of_none, verify_portal_token_of_row,
}

module _ (hash_key : String → String) (settings : Settings) where
  -- An event for an account that is named and was not processed before moves that account's row by
  -- `next_row`, and leaves the rows of all other accounts as they were.
  pub apply_event-rows :
      (event : PaymentEvent) (draws : Draws) (now : ℕ) (b : Billing) (j : String)
      → is_empty event.account_id ≡ false
      → already_processed event.provider event.provider_event_id b.processed ≡ false
      → get_row j (apply_event hash_key settings event draws now b).1.subscriptions ≡ (
          if str_eq j event.account_id
          then next_row settings event.event_type event draws now (get_row j b.subscriptions)
          else get_row j b.subscriptions)
  unfolding apply_event
  apply_event-rows event draws now b j named new =
      rw named (apply_typed-rows hash_key settings event.event_type event draws now b j new)

  -- A payment that fails at `now` leaves a subscriber active until the grace period has passed, and
  -- no longer.
  pub payment_failed_grace :
      (event : PaymentEvent) (draws : Draws) (now later : ℕ) (b : Billing) (row : Subscription)
      → event.event_type ≡ payment_failed
      → is_empty event.account_id ≡ false
      → already_processed event.provider event.provider_event_id b.processed ≡ false
      → get_row event.account_id b.subscriptions ≡ some row
      → is_active event.account_id later
          (apply_event hash_key settings event draws now b).1.subscriptions
        ≡ ltb later (now + days settings.subscription_grace_period_days)
  unfolding row_is_active
  payment_failed_grace event draws now later b row is_failed named new h =
      is_active_of_row event.account_id later _
        (failed (now + days settings.subscription_grace_period_days) now row)
        (rw (
          apply_event-rows event draws now b event.account_id named new,
          str_eq_refl event.account_id,
          is_failed,
          h,
        ))

  -- A payment that succeeds makes its account active at every later time, whatever its row was, and
  -- also when it had none.
  pub payment_succeeded_activates :
      (event : PaymentEvent) (draws : Draws) (now later : ℕ) (b : Billing)
      → event.event_type ≡ payment_succeeded
      → is_empty event.account_id ≡ false
      → already_processed event.provider event.provider_event_id b.processed ≡ false
      → is_active event.account_id later
          (apply_event hash_key settings event draws now b).1.subscriptions
        ≡ true
  unfolding row_is_active
  payment_succeeded_activates event draws now later b is_paid named new =
      let rows = apply_event-rows event draws now b event.account_id named new in
      elim (Option-cases (get_row event.account_id b.subscriptions)) [
        | inl e ↦
            is_active_of_row event.account_id later _ (first_row event draws.portal_token now)
              (rw (rows, str_eq_refl event.account_id, is_paid, e))
        | inr (r, e) ↦
            is_active_of_row event.account_id later _
              (renewed event (kept_token r.portal_token draws.portal_token) now r)
              (rw (rows, str_eq_refl event.account_id, is_paid, e))
      ]

  -- A cancellation ends the access of the account at once.
  pub canceled_ends :
      (event : PaymentEvent) (draws : Draws) (now later : ℕ) (b : Billing)
      → event.event_type ≡ subscription_canceled
      → is_empty event.account_id ≡ false
      → already_processed event.provider event.provider_event_id b.processed ≡ false
      → is_active event.account_id later
          (apply_event hash_key settings event draws now b).1.subscriptions
        ≡ false
  unfolding row_is_active
  canceled_ends event draws now later b is_canceled named new =
      let rows = apply_event-rows event draws now b event.account_id named new in
      elim (Option-cases (get_row event.account_id b.subscriptions)) [
        | inl e ↦
            is_active_of_none event.account_id later _
              (rw (rows, str_eq_refl event.account_id, is_canceled, e))
        | inr (r, e) ↦
            is_active_of_row event.account_id later _ (with_status canceled now r)
              (rw (rows, str_eq_refl event.account_id, is_canceled, e))
      ]

  -- An event that was there before is rolled back, but for a first activation, which was committed.
  old_event-other :
      (t : PaymentEventType) (event : PaymentEvent) (draws : Draws) (now : ℕ) (b : Billing)
      (j : String)
      → str_eq j event.account_id ≡ false
      → already_processed event.provider event.provider_event_id b.processed ≡ true
      → get_row j (apply_typed hash_key settings t event draws now b).1.subscriptions
        ≡ get_row j b.subscriptions
  unfolding apply_typed
  old_event-other payment_succeeded event draws now b j other old =
      elim (Option-cases (get_row event.account_id b.subscriptions)) [
        | inl e ↦ rw (
          e,
          old,
          get_row-add j (first_row event draws.portal_token now) b.subscriptions e,
          str_eq_comm event.account_id j,
          other,
        )
        | inr (r, e) ↦ rw (e, old)
      ]
  old_event-other payment_failed event draws now b j other old = rw old
  old_event-other subscription_canceled event draws now b j other old = rw old
  old_event-other unknown event draws now b j other old = rw old

  -- An event touches the row of no other account.
  pub apply_event-other :
      (event : PaymentEvent) (draws : Draws) (now : ℕ) (b : Billing) (j : String)
      → str_eq j event.account_id ≡ false
      → get_row j (apply_event hash_key settings event draws now b).1.subscriptions
        ≡ get_row j b.subscriptions
  unfolding apply_event
  apply_event-other event draws now b j other = elim (Bool-cases (is_empty event.account_id)) [
    | inl empty ↦ rw empty
    | inr named ↦
        rw named
          (elim (Bool-cases
            (already_processed event.provider event.provider_event_id b.processed)) [
              | inl old ↦ old_event-other event.event_type event draws now b j other old
              | inr new ↦ rw (
                apply_typed-rows hash_key settings event.event_type event draws now b j new,
                other,
              )
            ])
  ]

  abbrev issued_by_first : PaymentEvent → Draws → NewlyIssued
  issued_by_first event draws = record {
    account_id = event.account_id;
    portal_token = draws.portal_token;
    mobile_api_key = draws.raw_key;
  }

  -- When credentials come back, the event was a payment, for an account with no row, that had not
  -- been processed.
  apply_typed-issued :
      (t : PaymentEventType) (event : PaymentEvent) (draws : Draws) (now : ℕ) (b : Billing)
      (issued : NewlyIssued)
      → (apply_typed hash_key settings t event draws now b).0 ≡ ok (some issued)
      → (t ≡ payment_succeeded)
        × (get_row event.account_id b.subscriptions ≡ none)
        × (already_processed event.provider event.provider_event_id b.processed ≡ false)
        × (issued ≡ issued_by_first event draws)
  unfolding apply_typed
  apply_typed-issued payment_succeeded event draws now b issued h = ground arith
  apply_typed-issued payment_failed event draws now b issued h = ground arith
  apply_typed-issued subscription_canceled event draws now b issued h = ground arith
  apply_typed-issued unknown event draws now b issued h = ground arith

  apply_event-issued :
      (event : PaymentEvent) (draws : Draws) (now : ℕ) (b : Billing) (issued : NewlyIssued)
      → (apply_event hash_key settings event draws now b).0 ≡ ok (some issued)
      → (is_empty event.account_id ≡ false)
        × (event.event_type ≡ payment_succeeded)
        × (get_row event.account_id b.subscriptions ≡ none)
        × (already_processed event.provider event.provider_event_id b.processed ≡ false)
        × (issued ≡ issued_by_first event draws)
  unfolding apply_event
  apply_event-issued event draws now b issued h = elim (Bool-cases (is_empty event.account_id)) [
    | inl empty ↦ ground arith
    | inr named ↦
        let p = apply_typed-issued event.event_type event draws now b issued (rw named at h) in
        (named, p.0, p.1, p.2, p.3)
  ]

  first_activation-keys :
      (event : PaymentEvent) (draws : Draws) (now : ℕ) (b : Billing)
      → is_empty event.account_id ≡ false
      → event.event_type ≡ payment_succeeded
      → get_row event.account_id b.subscriptions ≡ none
      → already_processed event.provider event.provider_event_id b.processed ≡ false
      → (apply_event hash_key settings event draws now b).1.api_keys
        ≡ issue_api_key hash_key settings
            (mobile_key_request event.account_id)
            draws.raw_key
            draws.key_id
            now
            b.api_keys
  unfolding apply_event
  first_activation-keys event draws now b named paid none_yet new = rw (named, paid, none_yet, new)

  -- Credentials are handed back by a first activation only. It leaves an account that is active at
  -- whatever time, with the token handed back, and a key that opens that account until the key's
  -- lifetime has passed. The key's hash must be new in the table.
  pub newly_issued_credentials :
      (event : PaymentEvent) (draws : Draws) (now later : ℕ) (b : Billing) (issued : NewlyIssued)
      → (apply_event hash_key settings event draws now b).0 ≡ ok (some issued)
      → find (has_hash (hash_key draws.raw_key)) b.api_keys ≡ none
      → let after = (apply_event hash_key settings event draws now b).1 in
        (get_row event.account_id b.subscriptions ≡ none)
        × (issued.account_id ≡ event.account_id)
        × (is_active event.account_id later after.subscriptions ≡ true)
        × (verify_portal_token event.account_id issued.portal_token after.subscriptions ≡ true)
        × ((verify_api_key hash_key (some issued.mobile_api_key) later after.api_keys).0 ≡ (
            if is_expired (deadline now settings.api_key_default_ttl_days) later
            then http_error 401
            else ok (
                auth_context (
                  new_key hash_key settings
                    (mobile_key_request event.account_id)
                    draws.raw_key
                    draws.key_id
                    now))))
  newly_issued_credentials event draws now later b issued h fresh =
      let (named, paid, none_yet, new, same) = apply_event-issued event draws now b issued h in
      let rows = apply_event-rows event draws now b event.account_id named new in
      (
        none_yet,
        ap (λ (i : NewlyIssued). i.account_id) same,
        payment_succeeded_activates event draws now later b paid named new,
        verify_portal_token_of_row event.account_id issued.portal_token draws.portal_token _
              (first_row event draws.portal_token now)
              (rw (rows, str_eq_refl event.account_id, paid, none_yet)) refl
            ∙ rw same (str_eq_refl draws.portal_token),
        rw (first_activation-keys event draws now b named paid none_yet new, same)
            (issue-verify hash_key settings (mobile_key_request event.account_id) draws.raw_key
              draws.key_id now later b.api_keys fresh),
      )
