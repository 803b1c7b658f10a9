-- ===== src/Security/Lifecycle.antt =====
-- Requests made with a key of backend/app/security.py: what issuing, revoking and forcing the rotation of it do to them.

use aegis_platform_server_te.Prelude.{
  ℕ, ◌≡◌, ◌↔◌, ◌⊎◌, refl, inl, inr, true, false, Option, none, some, List, String, arith, ◌==◌,
  str_eq_refl, str_eq_eq, if◌then◌else◌, Response, ok, http_error, find, update, find-update,
  update-none, find-add_row, Bool-cases, Option-cases,
}
use aegis_platform_server_te.Models.{ApiKey, Settings}
use aegis_platform_server_te.Security.{
  AuthContext, auth_context, KeyRequest, has_hash, has_id, is_expired, check_row, verify_api_key,
  new_key, issue_api_key, require_account_match, revoke_row, revoke_api_key, force_row,
  force_rotate_key, value_or, deadline,
}

-- A row opens the door at a time: it is not revoked, has not expired and need not be rotated.
pub record IsUsable (row : ApiKey) (now : ℕ) : Type 0 where
  pub not_revoked : row.revoked ≡ false
  pub in_time : is_expired row.expires_at now ≡ false
  pub not_forced : row.force_rotate ≡ false

check_row-ok :
    (o : Option ApiKey) (now : ℕ) (row : ApiKey)
    → check_row o now ≡ ok row
    → (o ≡ some row) × IsUsable row now
unfolding check_row
check_row-ok none now row h = ground arith
check_row-ok (some r) now row h = ground arith

check_row_of_IsUsable :
    (row : ApiKey) (now : ℕ) → IsUsable row now → check_row (some row) now ≡ ok row
unfolding check_row
check_row_of_IsUsable row now u = ground arith

check_row_revoked :
    (row : ApiKey) (now : ℕ) → row.revoked ≡ true → check_row (some row) now ≡ http_error 401
unfolding check_row
check_row_revoked row now h = ground arith

check_row_forced :
    (row : ApiKey) (now : ℕ) → row.force_rotate ≡ true → check_row (some row) now ≡ http_error 401
unfolding check_row
check_row_forced row now h = ground arith

abbrev answer : Response ApiKey → Response AuthContext
answer (ok row) = ok (auth_context row)
answer (http_error e) = http_error e

-- Revoking writes to the rows of that id, and to none if there are none.
revoked_table :
    (key_id : ℕ) (revoked_by : Option String) (now : ℕ) (keys : List ApiKey)
    → (revoke_api_key key_id revoked_by now keys).1
      ≡ update (has_id key_id) (revoke_row revoked_by now) keys
unfolding revoke_api_key
revoked_table key_id revoked_by now keys = elim (Option-cases (find (has_id key_id) keys)) [
  | inl e ↦ rw (e, update-none (has_id key_id) (revoke_row revoked_by now) keys e)
  | inr (r, e) ↦ rw e
]

forced_table :
    (key_id : ℕ) (keys : List ApiKey)
    → (force_rotate_key key_id keys).0 ≡ true
    → (force_rotate_key key_id keys).1 ≡ update (has_id key_id) force_row keys
unfolding force_rotate_key
forced_table key_id keys h = ground arith

module _ (hash_key : String → String) where
  pub verify_answer :
      (raw : String) (now : ℕ) (keys : List ApiKey)
      → (verify_api_key hash_key (some raw) now keys).0
        ≡ answer (check_row (find (has_hash (hash_key raw)) keys) now)
  unfolding verify_api_key
  verify_answer raw now keys = ground arith

  -- A request is let in with `auth` exactly when the key's row is usable at that time and `auth` is
  -- the context of that row.
  pub verify-ok_iff :
      (raw : String) (now : ℕ) (keys : List ApiKey) (auth : AuthContext)
      → ((verify_api_key hash_key (some raw) now keys).0 ≡ ok auth) ↔ (
          (row : ApiKey) × (find (has_hash (hash_key raw)) keys ≡ some row)
          × IsUsable row now
          × (auth ≡ auth_context row))
  verify-ok_iff raw now keys auth = (there, back)
    where
      split :
          (r : Response ApiKey)
          → check_row (find (has_hash (hash_key raw)) keys) now ≡ r
          → answer r ≡ ok auth
          → (row : ApiKey) × (find (has_hash (hash_key raw)) keys ≡ some row)
            × IsUsable row now
            × (auth ≡ auth_context row)
      split (ok row) e h = let p = check_row-ok _ now row e in (row, p.0, p.1, cc)
      split (http_error c) e h = cc

      there :
          (verify_api_key hash_key (some raw) now keys).0 ≡ ok auth
          → (row : ApiKey) × (find (has_hash (hash_key raw)) keys ≡ some row)
            × IsUsable row now
            × (auth ≡ auth_context row)
      there h = split _ refl (cc (verify_answer raw now keys))

      back :
          (row : ApiKey) × (find (has_hash (hash_key raw)) keys ≡ some row)
            × IsUsable row now
            × (auth ≡ auth_context row)
          → (verify_api_key hash_key (some raw) now keys).0 ≡ ok auth
      back (row, e, u, a) = rw (verify_answer raw now keys, e, check_row_of_IsUsable row now u, a)

  -- A key that nobody had is good from its issue until its lifetime has passed, and for ever if the
  -- lifetime is 0 days; it stands for the account and the role that it was issued with.
  pub issue-verify :
      (settings : Settings) (req : KeyRequest) (raw : String) (key_id now later : ℕ)
      (keys : List ApiKey)
      → find (has_hash (hash_key raw)) keys ≡ none
      → let ttl = value_or req.expires_in_days settings.api_key_default_ttl_days in
        (verify_api_key hash_key
          (some raw)
          later
          (issue_api_key hash_key settings req raw key_id now keys)).0
        ≡ (if is_expired (deadline now ttl) later
            then http_error 401
            else ok (auth_context (new_key hash_key settings req raw key_id now)))
  unfolding issue_api_key check_row
  issue-verify settings req raw key_id now later keys fresh =
      rw (verify_answer raw later _, find-add_row _ _ keys fresh, str_eq_refl (hash_key raw))
        (ground arith)

  -- After a revocation the revoked key is refused for good, and every other key is treated as before.
  pub revoke-verify :
      (raw : String) (key_id now later : ℕ) (revoked_by : Option String) (keys : List ApiKey)
      (row : ApiKey)
      → find (has_hash (hash_key raw)) keys ≡ some row
      → (verify_api_key hash_key (some raw) later (revoke_api_key key_id revoked_by now keys).1).0
        ≡ (if row.id == key_id
            then http_error 401
            else (verify_api_key hash_key (some raw) later keys).0)
  revoke-verify raw key_id now later revoked_by keys row e =
      rw
        (
          revoked_table key_id revoked_by now keys,
          verify_answer raw later _,
          verify_answer raw later keys,
          find-update (has_hash (hash_key raw)) (has_id key_id) (revoke_row revoked_by now)
              (λ x. refl) keys,
          e,
        )
        (elim (Bool-cases (row.id == key_id)) [
          | inl same ↦ rw (same, check_row_revoked (revoke_row revoked_by now row) later refl)
          | inr apart ↦ rw apart
        ])

  -- Once a rotation is forced on a live key it is refused until it is replaced, and every other key
  -- is treated as before.
  pub force_rotate-verify :
      (raw : String) (key_id later : ℕ) (keys : List ApiKey) (row : ApiKey)
      → find (has_hash (hash_key raw)) keys ≡ some row
      → (force_rotate_key key_id keys).0 ≡ true
      → (verify_api_key hash_key (some raw) later (force_rotate_key key_id keys).1).0 ≡ (
          if row.id == key_id
          then http_error 401
          else (verify_api_key hash_key (some raw) later keys).0)
  force_rotate-verify raw key_id later keys row e done =
      rw
        (
          forced_table key_id keys done,
          verify_answer raw later _,
          verify_answer raw later keys,
          find-update (has_hash (hash_key raw)) (has_id key_id) force_row (λ x. refl) keys,
          e,
        )
        (elim (Bool-cases (row.id == key_id)) [
          | inl same ↦ rw (same, check_row_forced (force_row row) later refl)
          | inr apart ↦ rw apart
        ])

-- A key opens exactly its own account, and an admin key every account.
pub require_account_match-ok_iff :
    (auth : AuthContext) (requested : String)
    → (require_account_match auth requested ≡ ok tt)
      ↔ ((auth.is_admin ≡ true) ⊎ (auth.account_id ≡ some requested))
unfolding require_account_match
require_account_match-ok_iff auth requested = elim (Option-cases auth.account_id) [
  | inl e ↦ (λ h. ground arith, λ h. ground arith)
  | inr (a, e) ↦
      (λ h. ground (arith, str_eq_eq a requested), λ h. ground (arith, str_eq_refl requested))
]
