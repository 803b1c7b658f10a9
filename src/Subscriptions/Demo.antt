-- ===== src/Subscriptions/Demo.antt =====
-- What a demo sign-up does to an account, and what payments do afterwards.

use aegis_platform_server_te.Prelude.{
  ℕ, ◌≡◌, refl, ◌∙◌, inl, inr, true, false, Option, none, some, List, String, str_eq, str_eq_eq,
  str_eq_refl, str_eq_comm, is_empty, Bool-cases, Option-cases, if◌then◌else◌, ok, http_error, find,
}
use aegis_platform_server_te.Models.{Subscription, Settings}
use aegis_platform_server_te.Subscriptions.{
  PaymentEvent, Billing, Draws, get_row, demo_row, to_demo, demo_token, activate_demo, kept_token,
  is_active, row_is_active, allows_live_trading, verify_portal_token,
}
use aegis_platform_server_te.Subscriptions.Events.{get_row-update, get_row-add}
use aegis_platform_server_te.Subscriptions.{demo_key_request}
use aegis_platform_server_te.Security.{
  has_hash, verify_api_key, is_expired, deadline, auth_context, new_key,
}
use aegis_platform_server_te.Security.Lifecycle.{issue-verify}
use aegis_platform_server_te.Subscriptions.Keeps.{apply_events, apply_events-Keeps}
use aegis_platform_server_te.Subscriptions.Access.{
  is_active_of_row, verify_portal_token_of_row, demo_row_blocked,
}

abbrev demo_image : String → String → ℕ → Option Subscription → Subscription
demo_image account_id token now none = demo_row account_id token now
demo_image account_id token now (some row) = to_demo token now row

demo_image-plan :
    (account_id token : String) (now : ℕ) (row : Option Subscription)
    → (demo_image account_id token now row).plan ≡ "demo"
demo_image-plan account_id token now none = refl
demo_image-plan account_id token now (some row) = refl

module _ (hash_key : String → String) (settings : Settings) where
  -- The row that a sign-up leaves, for an account with and without a row before.
  activate_demo-row :
      (account_id j : String) (draws : Draws) (now : ℕ) (b : Billing)
      → get_row j (activate_demo hash_key settings account_id draws now b).1.subscriptions ≡ (
          if str_eq j account_id
          then some (
              demo_image account_id
                (demo_token (get_row account_id b.subscriptions) draws.portal_token)
                now
                (get_row account_id b.subscriptions))
          else get_row j b.subscriptions)
  unfolding activate_demo
  activate_demo-row account_id j draws now b =
      elim (Option-cases (get_row account_id b.subscriptions)) [
        | inl e ↦ rw (
          e,
          get_row-add j (demo_row account_id draws.portal_token now) b.subscriptions e,
          str_eq_comm account_id j,
        )
        | inr (row, e) ↦
            rw
              (
                e,
                get_row-update account_id j
                    (to_demo (kept_token row.portal_token draws.portal_token) now) (λ x. refl)
                    b.subscriptions,
              )
              (elim (Bool-cases (str_eq j account_id)) [
                | inl same ↦ rw (same, str_eq_eq j account_id same, e)
                | inr apart ↦ rw apart
              ])
      ]

  -- A trial is signed up for 14 days, and is active at every later time.
  pub activate_demo-never_expires :
      (account_id : String) (draws : Draws) (now later : ℕ) (b : Billing)
      → let rows = (activate_demo hash_key settings account_id draws now b).1.subscriptions in
        is_active account_id later rows ≡ true
  unfolding row_is_active
  activate_demo-never_expires account_id draws now later b =
      elim (Option-cases (get_row account_id b.subscriptions)) [
        | inl e ↦
            is_active_of_row account_id later _ (demo_row account_id draws.portal_token now)
              (rw (activate_demo-row account_id account_id draws now b, str_eq_refl account_id, e))
        | inr (row, e) ↦
            is_active_of_row account_id later _
              (to_demo (kept_token row.portal_token draws.portal_token) now row)
              (rw (activate_demo-row account_id account_id draws now b, str_eq_refl account_id, e))
      ]

  -- A sign-up for an account that exists, which anyone can make, hands out the account's portal
  -- token as it was, and a key that opens the account.
  pub activate_demo-discloses :
      (account_id token : String) (draws : Draws) (now later : ℕ) (b : Billing) (row : Subscription)
      → get_row account_id b.subscriptions ≡ some row
      → row.portal_token ≡ some token
      → is_empty token ≡ false
      → find (has_hash (hash_key draws.raw_key)) b.api_keys ≡ none
      → let (issued, after) = activate_demo hash_key settings account_id draws now b in
        (verify_portal_token account_id issued.portal_token b.subscriptions ≡ true)
        × ((verify_api_key hash_key (some issued.mobile_api_key) later after.api_keys).0 ≡ (
            if is_expired (deadline now settings.api_key_default_ttl_days) later
            then http_error 401
            else ok (
                auth_context (
                  new_key hash_key settings
                    (demo_key_request account_id)
                    draws.raw_key
                    draws.key_id
                    now))))
  unfolding activate_demo
  activate_demo-discloses account_id token draws now later b row h t named fresh = (
    verify_portal_token_of_row account_id _ token b.subscriptions row h t
        ∙ rw (h, t, named) (str_eq_refl token),
    issue-verify hash_key settings (demo_key_request account_id) draws.raw_key draws.key_id now
        later b.api_keys fresh,
  )

  -- Once an account has signed up for a trial, no payment, and no other event of any provider, ever
  -- lets it trade live: the events leave the plan at `demo`.
  pub demo_payments_blocked :
      (account_id : String) (draws : Draws) (now later : ℕ) (b : Billing)
      (history : List (PaymentEvent × Draws × ℕ))
      → let signed_up = (activate_demo hash_key settings account_id draws now b).1 in
        allows_live_trading account_id later
          (apply_events hash_key settings history signed_up).subscriptions
        ≡ false
  demo_payments_blocked account_id draws now later b history =
      let signed_up = (activate_demo hash_key settings account_id draws now b).1 in
      let token = demo_token (get_row account_id b.subscriptions) draws.portal_token in
      let row = demo_image account_id token now (get_row account_id b.subscriptions) in
      let (row', e, k) =
        apply_events-Keeps hash_key settings history signed_up account_id row
          (rw (activate_demo-row account_id account_id draws now b, str_eq_refl account_id)) in
      demo_row_blocked account_id later
        (apply_events hash_key settings history signed_up).subscriptions row' e
        (k.plan ∙ demo_image-plan account_id token now (get_row account_id b.subscriptions))
