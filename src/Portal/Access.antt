-- ===== src/Portal/Access.antt =====
-- Who the endpoints of backend/app/api/portal_router.py answer.
use aegis_platform_server_te.Prelude.{
  ℕ, ◌+◌, ◌≡◌, refl, ◌∙◌, inl, inr, true, false, none, some, List, String, arith, if◌then◌else◌, ok,
  http_error, Option-cases, find, str_eq, ltb,
}
use aegis_platform_server_te.Models.{Subscription, DownloadToken, TradeDailyCounter, ApiKey, hours}
use aegis_platform_server_te.Records.{SignalHistory}
use aegis_platform_server_te.Subscriptions.{get_row, verify_portal_token, is_active}
use aegis_platform_server_te.Devices.{has_token, consume_download_token}
use aegis_platform_server_te.Devices.Downloads.{issue-consume}
use aegis_platform_server_te.Portal.{
  status_of, get_status, authenticate, portal_status, portal_download_url, portal_signal_history,
  portal_trade_quota, portal_issue_mobile_key,
}

-- Without the token of the account's row every endpoint of the portal answers 401 and changes
-- nothing.
pub portal_refused :
    (account_id token day drawn : String) (limit now : ℕ) (rows : List Subscription)
    (signals : List SignalHistory) (counters : List TradeDailyCounter) (tokens : List DownloadToken)
    (keys : List ApiKey)
    → verify_portal_token account_id token rows ≡ false
    → (portal_status account_id token now rows ≡ http_error 401)
      × (portal_signal_history account_id token limit now rows signals ≡ http_error 401)
      × (portal_trade_quota account_id token day now rows counters ≡ http_error 401)
      × (portal_download_url account_id token drawn now rows tokens ≡ (http_error 401, tokens))
      × (portal_issue_mobile_key account_id token now rows keys ≡ (http_error 401, keys))
unfolding authenticate portal_status portal_signal_history portal_trade_quota portal_download_url
    portal_issue_mobile_key
portal_refused account_id token day drawn limit now rows signals counters tokens keys wrong =
    rw wrong (refl, refl, refl, refl, refl)

token_has_row :
    (account_id token : String) (rows : List Subscription)
    → verify_portal_token account_id token rows ≡ true
    → (row : Subscription) × (get_row account_id rows ≡ some row)
unfolding verify_portal_token
token_has_row account_id token rows v = elim (Option-cases (get_row account_id rows)) [
  | inl n ↦ cc (rw (n, verify_portal_token) at v)
  | inr (row, e) ↦ (row, e)
]

-- With the right token every member gets the status of the account's row, so 404 is never sent.
authenticated_member :
    (account_id token : String) (now : ℕ) (rows : List Subscription)
    → verify_portal_token account_id token rows ≡ true
    → (row : Subscription) × (get_row account_id rows ≡ some row)
      × (authenticate account_id token now rows
          ≡ ok (record { status = status_of row; is_active = is_active account_id now rows }))
unfolding authenticate get_status
authenticated_member account_id token now rows v =
    let (row, e) = token_has_row account_id token rows v in (row, e, rw (v, e, get_status) refl)

-- A member who is signed in and whose subscription is active cannot have a key made for the phone:
-- every request is answered with 500.
pub mobile_key_broken :
    (account_id token : String) (now : ℕ) (rows : List Subscription) (keys : List ApiKey)
    → verify_portal_token account_id token rows ≡ true
    → is_active account_id now rows ≡ true
    → portal_issue_mobile_key account_id token now rows keys ≡ (http_error 500, keys)
unfolding portal_issue_mobile_key
mobile_key_broken account_id token now rows keys v active =
    let (row, e, a) = authenticated_member account_id token now rows v in rw (a, active) refl

-- The link that an active member is given downloads the application for a day, for the member's
-- account and always as the plan starter, whatever plan the account is on. The drawn token must be
-- new in the table.
pub download_url-consume :
    (account_id token drawn : String) (now later : ℕ) (rows : List Subscription)
    (tokens : List DownloadToken)
    → verify_portal_token account_id token rows ≡ true
    → is_active account_id now rows ≡ true
    → find (has_token drawn) tokens ≡ none
    → let (reply, after) = portal_download_url account_id token drawn now rows tokens in
      (reply ≡ ok (record { token = drawn; plan = "starter"; expires_hours = 24 }))
      × ((consume_download_token drawn later after).0 ≡ (
          if ltb later (now + hours 24)
          then some (record { account_id = account_id; plan = "starter"; uses = 1; max_uses = 1 })
          else none))
unfolding portal_download_url str_eq
download_url-consume account_id token drawn now later rows tokens v active fresh =
    let (row, e, a) = authenticated_member account_id token now rows v in
    rw (a, active)
      (refl, issue-consume drawn account_id "starter" 1 24 now later tokens fresh ∙ ground arith)
