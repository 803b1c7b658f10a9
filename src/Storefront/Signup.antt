-- ===== src/Storefront/Signup.antt =====
-- `demo_signup` of backend/app/api/subscription_router.py, against the portal.
use aegis_platform_server_te.Prelude.{
  ℕ, ◌+◌, ◌≡◌, ◌∙◌, true, Option, none, some, String, arith, ltb, if◌then◌else◌, or_text, strip,
  text_or_empty, find,
}
use aegis_platform_server_te.Models.{Settings, hours}
use aegis_platform_server_te.Subscriptions.{Draws, is_active, activate_demo}
use aegis_platform_server_te.Subscriptions.Demo.{activate_demo-never_expires}
use aegis_platform_server_te.Devices.{has_token, consume_download_token}
use aegis_platform_server_te.Devices.Downloads.{issue-consume}
use aegis_platform_server_te.Storefront.{Shop, demo_signup}

-- Whoever signs up for a trial has a subscription that is active at every later time, not only for
-- the trial's fourteen days, and a link that downloads the application for three days as the plan
-- demo. The drawn download token must be new in the table.
pub signup_grants :
    (hash_key : String → String) (settings : Settings) (given : Option String)
    (drawn download : String) (draws : Draws) (now later : ℕ) (shop : Shop)
    → find (has_token download) shop.tokens ≡ none
    → let (issued, after) = demo_signup hash_key settings given drawn draws download now shop in
      (is_active issued.account_id later after.billing.subscriptions ≡ true)
      × ((consume_download_token download later after.tokens).0 ≡ (
          if ltb later (now + hours 72)
          then some
              (record { account_id = issued.account_id; plan = "demo"; uses = 1; max_uses = 1 })
          else none))
unfolding demo_signup activate_demo
signup_grants hash_key settings given drawn download draws now later shop fresh =
    let account_id = or_text (strip (text_or_empty given)) drawn in
    (
      unfold activate_demo in
          activate_demo-never_expires hash_key settings account_id draws now later shop.billing,
      issue-consume download account_id "demo" 1 72 now later shop.tokens fresh ∙ ground arith,
    )
