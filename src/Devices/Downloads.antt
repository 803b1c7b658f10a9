-- ===== src/Devices/Downloads.antt =====
-- The uses of a download token (backend/app/services/device_binding_service.py).

use aegis_platform_server_te.Prelude.{
  ℕ, ◌+◌, ◌-◌, ◌≡◌, ◌≤◌, ◌<◌, refl, inl, inr, ◌⊎◌, true, Option, none, some, List, [], ◌∷◌, String,
  arith, str_eq_refl, ltb, Bool-cases, if◌then◌else◌, find, add_row, find-update_key, find-add_key,
  ◌&&◌,
}
use aegis_platform_server_te.Models.{DownloadToken, hours}
use aegis_platform_server_te.Devices.{
  has_token, download_row, issue_download_token, is_consumable, used_once, consumed_of,
  consume_download_token,
}

abbrev found {ℓ} : {A : Type ℓ} → Option A → ℕ
found none = 0
found (some a) = 1

consumable_below :
    (row : DownloadToken) (now : ℕ) → is_consumable row now ≡ true → row.uses < row.max_uses
consumable_below row now h = ground arith

-- One attempt: it counts one use of the token, or it changes nothing.
consume_cases :
    (token : String) (now : ℕ) (rows : List DownloadToken) (row : DownloadToken)
    → find (has_token token) rows ≡ some row
    → let (answer, after) = consume_download_token token now rows in
      ((answer ≡ none) × (find (has_token token) after ≡ some row))
      ⊎ ((row.uses < row.max_uses)
          × (answer ≡ some (consumed_of row))
          × (find (has_token token) after ≡ some (used_once row)))
unfolding consume_download_token
consume_cases token now rows row e = elim (Bool-cases (is_consumable row now)) [
  | inl good ↦
      rw (e, good, consume_download_token)
        (inr (
          consumable_below row now good,
          refl,
          rw (
            find-update_key (λ x. x.token) token token used_once (λ x. refl) rows,
            str_eq_refl token,
            e,
          ),
        ))
  | inr bad ↦ rw (e, bad, consume_download_token) (inl (refl, e))
]

-- How many of the attempts at these times succeed, one after the other.
unfoldable pub downloads : String → List ℕ → List DownloadToken → ℕ
downloads token [] rows = 0
downloads token (now ∷ later) rows =
    found (consume_download_token token now rows).0
    + downloads token later (consume_download_token token now rows).1

-- However often a link is followed, and whenever, it yields at most the downloads that its token has
-- left.
pub downloads_bounded :
    (token : String) (times : List ℕ) (rows : List DownloadToken) (row : DownloadToken)
    → find (has_token token) rows ≡ some row
    → downloads token times rows ≤ row.max_uses - row.uses
unfolding downloads
downloads_bounded token [] rows row e = omega arith
downloads_bounded token (now ∷ later) rows row e = elim (consume_cases token now rows row e) [
  | inl (refused, same) ↦ rw refused (
      omega
        (arith, downloads_bounded token later (consume_download_token token now rows).1 row same))
  | inr (left, given, used) ↦ rw given (
      omega (
        arith,
        downloads_bounded token later (consume_download_token token now rows).1 (used_once row)
            used,
      ))
]

consume_of_row :
    (token : String) (now : ℕ) (rows : List DownloadToken) (row : DownloadToken)
    → find (has_token token) rows ≡ some row
    → (consume_download_token token now rows).0
      ≡ (if is_consumable row now then some (consumed_of row) else none)
unfolding consume_download_token
consume_of_row token now rows row e = rw (e, consume_download_token) (ground arith)

-- A token just issued is good for its first use before it expires, if it allows a use at all, and
-- then tells the account and the plan that it was issued for.
pub issue-consume :
    (token account_id plan : String) (max_uses ttl_hours now later : ℕ) (rows : List DownloadToken)
    → find (has_token token) rows ≡ none
    → (consume_download_token token later
        (issue_download_token token account_id plan max_uses ttl_hours now rows)).0
      ≡ (if ltb later (now + hours ttl_hours) && ltb 0 max_uses
          then some (record { account_id = account_id; plan = plan; uses = 1; max_uses = max_uses })
          else none)
unfolding issue_download_token
issue-consume token account_id plan max_uses ttl_hours now later rows fresh =
    let row = download_row token account_id plan max_uses ttl_hours now in
    rw
      (consume_of_row token later (add_row row rows) row
        (rw (find-add_key (λ x. x.token) token row rows fresh, str_eq_refl token)))
      (ground arith)
