-- ===== src/Portal/Tests.antt =====
-- The theorems on the portal, on one active account.
use aegis_platform_server_te.Prelude.{
  ◌≡◌, refl, true, false, none, some, List, [], ◌∷◌, ok, http_error, find, str_eq,
}
use aegis_platform_server_te.Models.{Subscription, active}
use aegis_platform_server_te.Subscriptions.{verify_portal_token, is_active, row_is_active}
use aegis_platform_server_te.Devices.{has_token, consume_download_token}
use aegis_platform_server_te.Portal.{
  portal_status, portal_download_url, portal_signal_history, portal_trade_quota,
  portal_issue_mobile_key,
}
use aegis_platform_server_te.Portal.Access.{portal_refused, mobile_key_broken, download_url-consume}

abbrev row : Subscription
row = record {
  account_id = "A";
  provider = some "paystack";
  provider_customer_id = none;
  provider_subscription_id = none;
  status = active;
  current_period_end = none;
  grace_period_ends_at = none;
  portal_token = some "t";
  plan = "enterprise";
  max_devices = 10;
  max_trades_per_day = 0;
  updated_at = 0;
}

abbrev rows : List Subscription
rows = row ∷ []

wrong : verify_portal_token "A" "x" rows ≡ false
unfolding verify_portal_token find str_eq
wrong = refl

right : verify_portal_token "A" "t" rows ≡ true
unfolding verify_portal_token find str_eq
right = refl

alive : is_active "A" 100 rows ≡ true
unfolding is_active row_is_active find str_eq
alive = refl

unused : find (has_token "d") [] ≡ none
unfolding find
unused = refl

portal_refused_test :
    (portal_status "A" "x" 100 rows ≡ http_error 401)
    × (portal_signal_history "A" "x" 50 100 rows [] ≡ http_error 401)
    × (portal_trade_quota "A" "x" "2026-01-01" 100 rows [] ≡ http_error 401)
    × (portal_download_url "A" "x" "d" 100 rows [] ≡ (http_error 401, []))
    × (portal_issue_mobile_key "A" "x" 100 rows [] ≡ (http_error 401, []))
portal_refused_test = portal_refused "A" "x" "2026-01-01" "d" 50 100 rows [] [] [] [] wrong

mobile_key_broken_test : portal_issue_mobile_key "A" "t" 100 rows [] ≡ (http_error 500, [])
mobile_key_broken_test = mobile_key_broken "A" "t" 100 rows [] right alive

download_url-consume_test :
    let (reply, after) = portal_download_url "A" "t" "d" 100 rows [] in
    (reply ≡ ok (record { token = "d"; plan = "starter"; expires_hours = 24 }))
    × ((consume_download_token "d" 200 after).0
        ≡ some (record { account_id = "A"; plan = "starter"; uses = 1; max_uses = 1 }))
download_url-consume_test = download_url-consume "A" "t" "d" 100 200 rows [] right alive unused
