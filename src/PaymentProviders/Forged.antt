-- ===== src/PaymentProviders/Forged.antt =====
-- The webhook of backend/app/api/subscription_router.py with the Flutterwave adapter.
use aegis_platform_server_te.Prelude.{
  ◌≡◌, ◌≢◌, refl, ◌∙◌, ℕ, inl, inr, true, false, Option, none, some, String, is_empty, str_eq,
  str_eq_eq, str_eq_refl, text_or_empty, lower, starts_with, ok, http_error, Bool-cases, arith,
}
use aegis_platform_server_te.Models.{Settings}
use aegis_platform_server_te.Subscriptions.{
  PaymentEvent, payment_succeeded, Draws, Applied, NewlyIssued, already_processed, apply_event,
  is_active,
}
use aegis_platform_server_te.Subscriptions.Lifecycle.{payment_succeeded_activates}
use aegis_platform_server_te.Reveal.{RedisKeys}
use aegis_platform_server_te.Webhooks.{
  State, stashed, cut_off, after_apply, receive_event, receive_webhook,
}
use aegis_platform_server_te.PaymentProviders.{
  FlutterwaveRequest, flutterwave_verify, flutterwave_type, flutterwave_parse, flutterwave_adapter,
}

module _ {Redis : Type 0} (redis : RedisKeys Redis) (hash_key : String → String)
    (settings : Settings) where
  stashed_billing :
      (o : Option NewlyIssued) (s : State Redis)
      → (stashed redis hash_key settings o s).billing ≡ s.billing
  stashed_billing none s = refl
  stashed_billing (some issued) s = refl

  cut_off_billing :
      (event : PaymentEvent) (later : ℕ) (s : State Redis)
      → (cut_off redis hash_key settings event later s).billing ≡ s.billing
  cut_off_billing event later s = ground arith

  after_apply_billing :
      (applied : Applied) (event : PaymentEvent) (later : ℕ) (s : State Redis)
      → (after_apply redis hash_key settings applied event later s).1.billing ≡ applied.1
  after_apply_billing (http_error e, b) event later s = refl
  after_apply_billing (ok issued, b) event later s =
      let t = record s { billing = b } in
      cut_off_billing event later (stashed redis hash_key settings issued t)
      ∙ stashed_billing issued t

  -- What an event that is not known yet leaves of the billing tables is what `apply_event` does.
  new_event_billing :
      (event : PaymentEvent) (draws : Draws) (now later : ℕ) (s : State Redis)
      → already_processed event.provider event.provider_event_id s.billing.processed ≡ false
      → (receive_event redis hash_key settings event draws now later s).1.billing
        ≡ (apply_event hash_key settings event draws now s.billing).1
  unfolding receive_event
  new_event_billing event draws now later s new =
      rw new (
        after_apply_billing (apply_event hash_key settings event draws now s.billing) event later s)

  -- As long as no Flutterwave hash is configured, which is the default, a request without any
  -- signature that claims a successful charge makes whatever account it names active, at every
  -- later time. The event's id must not be known.
  pub unsigned_activates :
      (req : FlutterwaveRequest) (drawn account_id : String) (draws : Draws) (now later last : ℕ)
      (s : State Redis)
      → req.verif_hash ≡ none
      → starts_with req.event "charge." ≡ true
      → lower (text_or_empty req.status) ≡ "successful"
      → req.account_id ≡ some account_id
      → is_empty account_id ≡ false
      → already_processed "flutterwave"
          (flutterwave_parse drawn req).provider_event_id
          s.billing.processed
        ≡ false
      → let after =
          (receive_webhook redis hash_key settings
            (some (flutterwave_adapter ""))
            req
            drawn
            draws
            now
            later
            s).1 in
        is_active account_id last after.billing.subscriptions ≡ true
  unfolding receive_webhook flutterwave_verify flutterwave_type
  unsigned_activates req drawn account_id draws now later last s unsigned charge paid named given
        new =
      let event = flutterwave_parse drawn req in
      let is_paid : event.event_type ≡ payment_succeeded =
        rw (paid, charge, str_eq_refl "successful") refl in
      let text : text_or_empty req.account_id ≡ account_id = rw named refl in
      let activated =
        payment_succeeded_activates hash_key settings event draws now last s.billing is_paid
          (rw text given) new in
      rw (unsigned, str_eq_refl "", new_event_billing event draws now later s new, ← text) activated

-- A request whose `verif-hash` is not the configured one is refused, and changes nothing.
pub wrong_hash_refused :
    {Redis : Type 0} (redis : RedisKeys Redis) (hash_key : String → String) (settings : Settings)
    (webhook_hash drawn : String) (req : FlutterwaveRequest) (draws : Draws) (now later : ℕ)
    (s : State Redis)
    → text_or_empty req.verif_hash ≢ webhook_hash
    → receive_webhook redis hash_key settings
        (some (flutterwave_adapter webhook_hash))
        req
        drawn
        draws
        now
        later
        s
      ≡ (http_error 401, s)
unfolding receive_webhook flutterwave_verify
wrong_hash_refused redis hash_key settings webhook_hash drawn req draws now later s other =
    elim (Bool-cases (str_eq (text_or_empty req.verif_hash) webhook_hash)) [
      | inl same ↦ absurd (other (str_eq_eq (text_or_empty req.verif_hash) webhook_hash same))
      | inr apart ↦ rw apart refl
    ]
