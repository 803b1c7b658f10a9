-- ===== src/Admin/Rotation.antt =====
-- `rotate_key` of backend/app/api/admin_router.py, against the keys of backend/app/security.py.
use aegis_platform_server_te.Prelude.{
  ℕ, ◌≡◌, refl, ◌∙◌, true, false, none, some, String, ◌==◌, if◌then◌else◌, str_eq_refl, ok,
  http_error, find, find-add_row, find-add_row_old,
}
use aegis_platform_server_te.Models.{ApiKey, Settings}
use aegis_platform_server_te.Security.{
  AuthContext, auth_context, has_hash, has_id, is_expired, deadline, value_or, verify_api_key,
  new_key, issue_api_key,
}
use aegis_platform_server_te.Security.Lifecycle.{issue-verify, revoke-verify}
use aegis_platform_server_te.Admin.{
  State, Drawn, RotateRequest, actor, rotate_request, rotate_found, guarded_passed, rotate_key,
}

module _ (hash_key : String → String) (settings : Settings) where
  -- A rotation answers with a new key for the account of the old one. From then on the old key is
  -- refused, and the new key is good until its lifetime is over, for the same account and the same
  -- role as the old key. The new key's hash and id must be new in the table.
  pub rotate-verify :
      (auth : AuthContext) (body : RotateRequest) (drawn : Drawn) (now later : ℕ) (st : State)
      (raw : String) (old : ApiKey)
      → auth.is_admin ≡ true
      → find (has_id body.key_id) st.keys ≡ some old
      → find (has_hash (hash_key raw)) st.keys ≡ some old
      → find (has_hash (hash_key drawn.raw)) st.keys ≡ none
      → (drawn.key_id == body.key_id) ≡ false
      → (old.id == body.key_id) ≡ true
      → let (reply, after) = rotate_key hash_key settings auth body drawn now st in
        let ttl = value_or body.expires_in_days settings.api_key_default_ttl_days in
        let fresh =
          new_key hash_key settings (rotate_request auth body old) drawn.raw drawn.key_id now in
        (reply ≡ ok (record { account_id = old.account_id; api_key = drawn.raw }))
        × ((verify_api_key hash_key (some raw) later after.keys).0 ≡ http_error 401)
        × ((verify_api_key hash_key (some drawn.raw) later after.keys).0 ≡ (
            if is_expired (deadline now ttl) later
            then http_error 401
            else ok (auth_context fresh)))
        × (fresh.account_id ≡ old.account_id)
        × (fresh.is_admin ≡ old.is_admin)
  unfolding rotate_key
  rotate-verify auth body drawn now later st raw old admin by_id by_hash unused apart same =
      let req = rotate_request auth body old in
      let fresh = new_key hash_key settings req drawn.raw drawn.key_id now in
      let issued = issue_api_key hash_key settings req drawn.raw drawn.key_id now st.keys in
      let runs : rotate_key hash_key settings auth body drawn now st
          ≡ rotate_found hash_key settings (some old) auth body drawn now st =
        guarded_passed auth _ st admin ∙ rw by_id refl in
      let old_row = find-add_row_old (has_hash (hash_key raw)) fresh old st.keys by_hash in
      let new_row = find-add_row (has_hash (hash_key drawn.raw)) fresh st.keys unused in
      rw runs (
        refl,
        revoke-verify hash_key raw body.key_id now later (some (actor auth)) issued old
              (unfold issue_api_key in old_row)
            ∙ rw same refl,
        revoke-verify hash_key drawn.raw body.key_id now later (some (actor auth)) issued fresh
              (unfold issue_api_key in (new_row ∙ rw (str_eq_refl (hash_key drawn.raw)) refl))
            ∙ rw apart (
                issue-verify hash_key settings req drawn.raw drawn.key_id now later st.keys unused),
        refl,
        refl,
      )
