-- ===== src/Webhooks/Redelivery.antt =====
-- A payment event that `receive_webhook` of backend/app/api/subscription_router.py gets more than
-- once.
use aegis_platform_server_te.Prelude.{
  ℕ, ◌≡◌, ◌∙◌, ap, sym, refl, inl, inr, true, false, Option, none, some, String, is_empty,
  if◌then◌else◌, ok, http_error, Bool-cases, Option-cases, arith, str_eq_refl, find, find-add_row,
}
use aegis_platform_server_te.Models.{Settings}
use aegis_platform_server_te.Subscriptions.{
  PaymentEvent, PaymentEventType, payment_succeeded, payment_failed, subscription_canceled, unknown,
  Billing, Draws, NewlyIssued, Applied, already_processed, apply_event, apply_typed, succeed,
  finish, is_event, processed_row, get_row,
}
use aegis_platform_server_te.Reveal.{RedisKeys}
use aegis_platform_server_te.Webhooks.{
  Adapter, State, duplicate, processed, stashed, cut_off, after_apply, receive_event,
  receive_webhook,
}

abbrev Recorded : PaymentEvent → Billing → Type 0
Recorded event b = already_processed event.provider event.provider_event_id b.processed ≡ true

finish-Recorded :
    (event : PaymentEvent) (now : ℕ) (issued answer : Option NewlyIssued)
    (committed b after : Billing)
    → finish event now issued committed b ≡ (ok answer, after)
    → Recorded event after
unfolding finish already_processed
finish-Recorded event now issued answer committed b after e =
    elim (Option-cases (find (is_event event.provider event.provider_event_id) b.processed)) [
      | inr (row, p) ↦ cc (rw (finish, p) at e)
      | inl n ↦
          let added =
            find-add_row (is_event event.provider event.provider_event_id) (processed_row event now)
              b.processed n in
          let shape = rw (finish, n) at e in
          rw (← ap (λ x. x.1.processed) shape, added, str_eq_refl, str_eq_refl) refl
    ]

module _ (hash_key : String → String) (settings : Settings) where
  typed-Recorded :
      (t : PaymentEventType) (event : PaymentEvent) (draws : Draws) (now : ℕ)
      (answer : Option NewlyIssued) (b after : Billing)
      → apply_typed hash_key settings t event draws now b ≡ (ok answer, after)
      → Recorded event after
  unfolding apply_typed succeed
  typed-Recorded payment_succeeded event draws now answer b after e =
      elim (Option-cases (get_row event.account_id b.subscriptions)) [
        | inl n ↦ finish-Recorded event now _ answer _ _ after (rw (n, succeed) at e)
        | inr (row, p) ↦ finish-Recorded event now _ answer _ _ after (rw (p, succeed) at e)
      ]
  typed-Recorded payment_failed event draws now answer b after e =
      finish-Recorded event now _ answer _ _ after e
  typed-Recorded subscription_canceled event draws now answer b after e =
      finish-Recorded event now _ answer _ _ after e
  typed-Recorded unknown event draws now answer b after e =
      finish-Recorded event now _ answer _ _ after e

  apply-Recorded :
      (event : PaymentEvent) (draws : Draws) (now : ℕ) (answer : Option NewlyIssued)
      (b after : Billing)
      → is_empty event.account_id ≡ false
      → apply_event hash_key settings event draws now b ≡ (ok answer, after)
      → Recorded event after
  unfolding apply_event
  apply-Recorded event draws now answer b after full e =
      typed-Recorded event.event_type event draws now answer b after (rw (full, apply_event) at e)

  module _ {Redis : Type 0} (redis : RedisKeys Redis) where
    cut_off-billing :
        (event : PaymentEvent) (later : ℕ) (s : State Redis)
        → (cut_off redis hash_key settings event later s).billing ≡ s.billing
    cut_off-billing event later s = ground arith

    after-billing :
        (applied : Applied) (event : PaymentEvent) (later : ℕ) (s after : State Redis)
        → after_apply redis hash_key settings applied event later s ≡ (ok processed, after)
        → (answer : Option NewlyIssued) × (applied ≡ (ok answer, after.billing))
    after-billing (http_error e, b) event later s after h = ground arith
    after-billing (ok none, b) event later s after h = (
      none,
      ap (λ x. (ok none, x))
          (sym (cut_off-billing event later (record s { billing = b })) ∙ ap (λ x. x.1.billing) h),
    )
    after-billing (ok (some issued), b) event later s after h = (
      some issued,
      ap (λ x. (ok (some issued), x))
          (sym (
              cut_off-billing event later
                (stashed redis hash_key settings (some issued) (record s { billing = b })))
            ∙ ap (λ x. x.1.billing) h),
    )

    -- An event that was recorded is answered as a duplicate, and changes nothing, if its signature
    -- still passes.
    Recorded-receive :
        {Body : Type 0} (adapter : Adapter Body) (body : Body) (drawn : String) (draws : Draws)
        (now later : ℕ) (s : State Redis)
        → Recorded (adapter.parse_webhook_event drawn body) s.billing
        → receive_webhook redis hash_key settings (some adapter) body drawn draws now later s ≡ (
            if adapter.verify_webhook_signature now body
            then (ok duplicate, s)
            else (http_error 401, s))
    unfolding receive_webhook receive_event
    Recorded-receive adapter body drawn draws now later s known =
        elim (Bool-cases (adapter.verify_webhook_signature now body)) [
          | inr forged ↦ rw (receive_webhook, forged) refl
          | inl signed ↦ rw (receive_webhook, signed, receive_event, known) refl
        ]

    processed-Recorded :
        {Body : Type 0} (adapter : Adapter Body) (body : Body) (drawn : String) (draws : Draws)
        (now later : ℕ) (s after : State Redis)
        → is_empty (adapter.parse_webhook_event drawn body).account_id ≡ false
        → receive_webhook redis hash_key settings (some adapter) body drawn draws now later s
          ≡ (ok processed, after)
        → Recorded (adapter.parse_webhook_event drawn body) after.billing
    unfolding receive_webhook receive_event
    processed-Recorded adapter body drawn draws now later s after full e =
        let event = adapter.parse_webhook_event drawn body in
        elim (Bool-cases (adapter.verify_webhook_signature now body)) [
          | inr forged ↦ cc (rw (receive_webhook, forged) at e)
          | inl signed ↦
              elim (Bool-cases
                (already_processed event.provider event.provider_event_id s.billing.processed)) [
                  | inl old ↦ cc (rw (receive_webhook, signed, receive_event, old) at e)
                  | inr new ↦
                      let (answer, applied) =
                        after-billing (apply_event hash_key settings event draws now s.billing)
                          event later s after
                          (rw (receive_webhook, signed, receive_event, new) at e) in
                      apply-Recorded event draws now answer s.billing after.billing full applied
                ]
        ]

    -- A payment event about an account that was processed is processed once. When the same body
    -- comes again, at any time, and is read as the same event of the same provider, nothing changes:
    -- it is answered as a duplicate if its signature still passes, and refused if not. A body without
    -- an id of its own is read with a drawn one, and is the same event only if the draws agree.
    pub receive-receive :
        {Body : Type 0} (adapter : Adapter Body) (body : Body) (drawn drawn' : String)
        (draws again : Draws) (now later now' later' : ℕ) (s after : State Redis)
        → let event = adapter.parse_webhook_event drawn body in
          let event' = adapter.parse_webhook_event drawn' body in
          is_empty event.account_id ≡ false
          → event'.provider ≡ event.provider
          → event'.provider_event_id ≡ event.provider_event_id
          → receive_webhook redis hash_key settings (some adapter) body drawn draws now later s
            ≡ (ok processed, after)
          → receive_webhook redis hash_key settings
              (some adapter)
              body
              drawn'
              again
              now'
              later'
              after
            ≡ (if adapter.verify_webhook_signature now' body
                then (ok duplicate, after)
                else (http_error 401, after))
    receive-receive adapter body drawn drawn' draws again now later now' later' s after full same
          same_id e =
        Recorded-receive adapter body drawn' again now' later' after (
          rw (same, same_id) (processed-Recorded adapter body drawn draws now later s after full e))
