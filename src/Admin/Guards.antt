-- ===== src/Admin/Guards.antt =====
-- The administrator's guard of the endpoints of backend/app/api/admin_router.py.
use aegis_platform_server_te.Prelude.{ℕ, ◌≡◌, Option, String, http_error, false}
use aegis_platform_server_te.Models.{Settings}
use aegis_platform_server_te.Security.{AuthContext}
use aegis_platform_server_te.Admin.{
  State, guarded_refused, Drawn, IssueRequest, RotateRequest, issue_client_key, issue_admin_key,
  rotate_key, revoke_key, force_rotate,
}
use aegis_platform_server_te.Admin.Tenants.{SetPlanRequest, set_tenant_plan}

module _ (hash_key : String → String) (settings : Settings) where
  -- With a key that is not an administrator's, every endpoint that issues, rotates, revokes or
  -- forces a key or sets a plan answers 403, and changes no key, no plan and no audit event.
  pub admin_only :
      (auth : AuthContext) (issue : IssueRequest) (label : Option String) (rotate : RotateRequest)
      (plan : SetPlanRequest) (key_id now : ℕ) (drawn : Drawn) (st : State)
      → auth.is_admin ≡ false
      → (issue_client_key hash_key settings auth issue drawn now st ≡ (http_error 403, st))
        × (issue_admin_key hash_key settings auth label drawn now st ≡ (http_error 403, st))
        × (rotate_key hash_key settings auth rotate drawn now st ≡ (http_error 403, st))
        × (revoke_key auth key_id now st ≡ (http_error 403, st))
        × (force_rotate auth key_id now st ≡ (http_error 403, st))
        × (set_tenant_plan auth plan now st ≡ (http_error 403, st))
  unfolding issue_client_key issue_admin_key rotate_key revoke_key force_rotate set_tenant_plan
  admin_only auth issue label rotate plan key_id now drawn st e = (
    guarded_refused auth _ st e,
    guarded_refused auth _ st e,
    guarded_refused auth _ st e,
    guarded_refused auth _ st e,
    guarded_refused auth _ st e,
    guarded_refused auth _ st e,
  )
