-- ===== src/Admin/Tests.antt =====
-- The theorems on the administrator's endpoints, on one client key and one subscription.
use aegis_platform_server_te.Prelude.{
  ◌≡◌, refl, true, false, none, some, [], ◌∷◌, String, str_eq, concat, ok, http_error, find,
}
use aegis_platform_server_te.Models.{ApiKey, active, default_settings}
use aegis_platform_server_te.Plans.{resolve_plan}
use aegis_platform_server_te.Security.{
  AuthContext, auth_context, has_hash, has_id, verify_api_key, new_key,
}
use aegis_platform_server_te.Subscriptions.{get_row}
use aegis_platform_server_te.Devices.{max_devices}
use aegis_platform_server_te.TradeLimits.{limit_for}
use aegis_platform_server_te.Admin.{
  State, Drawn, IssueRequest, RotateRequest, rotate_request, issue_client_key, issue_admin_key,
  rotate_key, revoke_key, force_rotate,
}
use aegis_platform_server_te.Admin.Rotation.{rotate-verify}
use aegis_platform_server_te.Admin.Guards.{admin_only}
use aegis_platform_server_te.Admin.Tenants.{SetPlanRequest, set_tenant_plan, set_plan_takes_effect}

abbrev hashed : String → String
hashed raw = concat "#" raw

abbrev client : ApiKey
client = record {
  id = 4;
  key_hash = "#old";
  account_id = some "ACC-1";
  is_admin = false;
  label = some "phone";
  revoked = false;
  created_at = 10;
  last_used_at = none;
  expires_at = none;
  rotation_due_at = none;
  force_rotate = false;
  issued_by = none;
  revoked_by = none;
  revoked_at = none;
  replaces_key_id = none;
}

abbrev admin_auth : AuthContext
admin_auth = auth_context (record client { id = 1; is_admin = true; account_id = none })

abbrev st : State
st = record { keys = client ∷ []; subscriptions = []; audit = [] }

abbrev body : RotateRequest
body = record { key_id = 4; label = none; expires_in_days = some 30; rotation_days = none }

abbrev drawn : Drawn
drawn = record { raw = "new"; account = "ACC-9"; key_id = 5 }

by_id : find (has_id 4) st.keys ≡ some client
unfolding find
by_id = refl

by_hash : find (has_hash "#old") st.keys ≡ some client
unfolding find str_eq
by_hash = refl

unused : find (has_hash "#new") st.keys ≡ none
unfolding find str_eq
unused = refl

rotate-verify_example :
    let (reply, after) = rotate_key hashed default_settings admin_auth body drawn 100 st in
    let fresh =
      new_key hashed default_settings (rotate_request admin_auth body client) "new" 5 100 in
    (reply ≡ ok (record { account_id = some "ACC-1"; api_key = "new" }))
    × ((verify_api_key hashed (some "old") 200 after.keys).0 ≡ http_error 401)
    × ((verify_api_key hashed (some "new") 200 after.keys).0 ≡ ok (auth_context fresh))
    × (fresh.account_id ≡ some "ACC-1")
    × (fresh.is_admin ≡ false)
rotate-verify_example =
    rotate-verify hashed default_settings admin_auth body drawn 100 200 st "old" client refl by_id
      by_hash unused refl refl

abbrev issue : IssueRequest
issue = record { account_id = none; label = none; expires_in_days = none; rotation_days = none }

abbrev plan_body : SetPlanRequest
plan_body = record { account_id = "ACC-1"; plan = "Business"; status = some active }

admin_only_test :
    let auth = auth_context client in
    (issue_client_key hashed default_settings auth issue drawn 100 st ≡ (http_error 403, st))
    × (issue_admin_key hashed default_settings auth none drawn 100 st ≡ (http_error 403, st))
    × (rotate_key hashed default_settings auth body drawn 100 st ≡ (http_error 403, st))
    × (revoke_key auth 4 100 st ≡ (http_error 403, st))
    × (force_rotate auth 4 100 st ≡ (http_error 403, st))
    × (set_tenant_plan auth plan_body 100 st ≡ (http_error 403, st))
admin_only_test =
    admin_only hashed default_settings (auth_context client) issue none body plan_body 4 100 drawn
      st refl

apart : str_eq "ACC-2" "ACC-1" ≡ false
unfolding str_eq
apart = refl

set_plan_takes_effect_example :
    let (reply, after) = set_tenant_plan admin_auth plan_body 100 st in
    (reply ≡ ok (resolve_plan "Business"))
    × (max_devices "ACC-1" after.subscriptions ≡ 3)
    × (limit_for "ACC-1" after.subscriptions ≡ 200)
    × (get_row "ACC-2" after.subscriptions ≡ get_row "ACC-2" st.subscriptions)
unfolding resolve_plan
set_plan_takes_effect_example = set_plan_takes_effect admin_auth plan_body 100 "ACC-2" st refl apart
