-- ===== src/Delivery/Burned.antt =====
-- `download_apk` of backend/app/api/download_router.py with a token that has one use left.
use aegis_platform_server_te.Prelude.{
  ℕ, ◌+◌, ◌≤◌, ◌≡◌, refl, ◌∙◌, true, false, none, some, List, String, arith, str_eq_refl,
  http_error, find, update, find-update_key,
}
use aegis_platform_server_te.Models.{DownloadToken}
use aegis_platform_server_te.Devices.{
  has_token, is_consumable, used_once, consumed_of, consume_download_token,
}
use aegis_platform_server_te.Delivery.{State, download_apk}

consume_good :
    (token : String) (now : ℕ) (rows : List DownloadToken) (row : DownloadToken)
    → find (has_token token) rows ≡ some row
    → is_consumable row now ≡ true
    → consume_download_token token now rows
      ≡ (some (consumed_of row), update (has_token token) used_once rows)
unfolding consume_download_token
consume_good token now rows row e good = rw (e, good, consume_download_token) refl

consume_bad :
    (token : String) (now : ℕ) (rows : List DownloadToken) (row : DownloadToken)
    → find (has_token token) rows ≡ some row
    → is_consumable row now ≡ false
    → consume_download_token token now rows ≡ (none, rows)
unfolding consume_download_token
consume_bad token now rows row e bad = rw (e, bad, consume_download_token) refl

used_up :
    (row : DownloadToken) (now : ℕ)
    → row.max_uses ≤ row.uses + 1
    → is_consumable (used_once row) now ≡ false
used_up row now h = ground arith

-- When the file of the application is missing, a good link with one use left is answered with 500
-- and is used up all the same: once the file is there the link is refused.
pub missing_file_burns :
    (token actor : String) (now later : ℕ) (st : State) (row : DownloadToken)
    → find (has_token token) st.tokens ≡ some row
    → is_consumable row now ≡ true
    → row.max_uses ≤ row.uses + 1
    → let (first, after) = download_apk false actor token now st in
      (first ≡ http_error 500) × ((download_apk true actor token later after).0 ≡ http_error 403)
unfolding download_apk
missing_file_burns token actor now later st row e good last =
    let rows = update (has_token token) used_once st.tokens in
    let stored : find (has_token token) rows ≡ some (used_once row) =
      find-update_key (λ x. x.token) token token used_once (λ x. refl) st.tokens
      ∙ rw (str_eq_refl token, e) refl in
    rw
      (
        consume_good token now st.tokens row e good,
        consume_bad token later rows (used_once row) stored (used_up row later last),
      )
      (refl, refl)
