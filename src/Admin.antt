-- ===== src/Admin.antt =====
-- The endpoints of backend/app/api/admin_router.py that change keys and plans, over the keys, the
-- subscriptions and the audit trail. The context is that of the caller's verified key. Random keys
-- and account ids, the ids that the database assigns and the time are arguments. The free text of an
-- audit event and the address of the caller are left out.
pub mod Rotation
pub mod Guards
pub mod Tenants
mod Tests
use aegis_platform_server_te.Prelude.{
  ℕ, zero, suc, ◌≡◌, refl, Bool, true, false, Option, none, some, List, String, str_eq,
  if◌then◌else◌, Response, ok, http_error, find, update, add_row, is_empty, or_text, text_or_empty,
  strip, concat, decimal,
}
use aegis_platform_server_te.Models.{
  ApiKey, Settings, Subscription, Status, active, past_due, suspended, canceled, demo, other,
}
use aegis_platform_server_te.Plans.{Plan, resolve_plan}
use aegis_platform_server_te.Records.{AuditEvent, record_event}
use aegis_platform_server_te.Security.{
  AuthContext, KeyRequest, has_id, issue_api_key, revoke_api_key, force_rotate_key, require_admin,
}
use aegis_platform_server_te.Subscriptions.{has_account, get_row}

pub record State : Type 0 where
  pub keys : List ApiKey
  pub subscriptions : List Subscription
  pub audit : List AuditEvent

-- `_actor`.
abbrev pub labelled : Option String → Bool
labelled none = false
labelled (some s) = if is_empty s then false else true

abbrev pub key_actor : Option ℕ → String
key_actor none = "admin"
key_actor (some key_id) = concat "key:" (decimal key_id)

unfoldable pub actor : AuthContext → String
actor auth = if labelled auth.label then text_or_empty auth.label else key_actor auth.key_id

-- `str(auth.key_id) if auth.key_id else None`.
abbrev pub actor_id : Option ℕ → Option String
actor_id none = none
actor_id (some zero) = none
actor_id (some (suc n)) = some (decimal (suc n))

-- The event that an administrator's action leaves.
abbrev pub event_of :
    AuthContext
    → Option String
    → String
    → Option String
    → Option String
    → Option String
    → ℕ
    → AuditEvent
event_of auth label action target_type target_id account_id now = record {
  created_at = now;
  actor_type = "admin_key";
  actor_id = actor_id auth.key_id;
  actor_label = label;
  action = action;
  target_type = target_type;
  target_id = target_id;
  account_id = account_id;
  success = true;
}

abbrev pub audited : AuditEvent → State → State
audited event st = record st { audit = record_event event st.audit }

-- `require_admin(auth)` before the body of an endpoint.
unfoldable pub guarded {ℓ} :
    {A : Type ℓ} → AuthContext → Response A × State → State → Response A × State
guarded auth body st = elim (require_admin auth) [ http_error e ↦ (http_error e, st) | ok u ↦ body ]

pub guarded_refused {ℓ} :
    {A : Type ℓ} (auth : AuthContext) (body : Response A × State) (st : State)
    → auth.is_admin ≡ false
    → guarded auth body st ≡ (http_error 403, st)
unfolding guarded require_admin
guarded_refused auth body st e = rw e refl

pub guarded_passed {ℓ} :
    {A : Type ℓ} (auth : AuthContext) (body : Response A × State) (st : State)
    → auth.is_admin ≡ true
    → guarded auth body st ≡ body
unfolding guarded require_admin
guarded_passed auth body st e = rw e refl

-- `body.label or default`.
abbrev pub label_or : Option String → String → String
label_or label default = or_text (text_or_empty label) default

-- What the database and `secrets` hand out for one new key.
pub record Drawn : Type 0 where
  pub raw : String
  pub account : String
  pub key_id : ℕ

pub record IssueRequest : Type 0 where
  pub account_id : Option String
  pub label : Option String
  pub expires_in_days : Option ℕ
  pub rotation_days : Option ℕ

-- The account id and the raw key of the answer.
pub record Issued : Type 0 where
  pub account_id : Option String
  pub api_key : String

abbrev pub account_or_new : Option String → String → String
account_or_new account_id drawn = or_text (strip (text_or_empty account_id)) drawn

abbrev pub client_request : AuthContext → IssueRequest → String → KeyRequest
client_request auth body account_id = record {
  account_id = some account_id;
  is_admin = false;
  label = some (label_or body.label (concat "mobile key for " account_id));
  issued_by = some (actor auth);
  expires_in_days = body.expires_in_days;
  rotation_days = body.rotation_days;
  replaces_key_id = none;
}

abbrev pub admin_request : AuthContext → Option String → KeyRequest
admin_request auth label = record {
  account_id = none;
  is_admin = true;
  label = some (label_or label "additional admin key");
  issued_by = some (actor auth);
  expires_in_days = none;
  rotation_days = none;
  replaces_key_id = none;
}

pub record RotateRequest : Type 0 where
  pub key_id : ℕ
  pub label : Option String
  pub expires_in_days : Option ℕ
  pub rotation_days : Option ℕ

abbrev pub rotate_request : AuthContext → RotateRequest → ApiKey → KeyRequest
rotate_request auth body old = record {
  account_id = old.account_id;
  is_admin = old.is_admin;
  label = some (label_or body.label (label_or old.label "rotated key"));
  issued_by = some (actor auth);
  expires_in_days = body.expires_in_days;
  rotation_days = body.rotation_days;
  replaces_key_id = some body.key_id;
}

abbrev pub found_or_404 : Bool → AuditEvent → List ApiKey → State → Response (Unit {0}) × State
found_or_404 false event keys st = (http_error 404, record st { keys = keys })
found_or_404 true event keys st = (ok tt, audited event (record st { keys = keys }))

unfoldable pub revoke_key : AuthContext → ℕ → ℕ → State → Response (Unit {0}) × State
revoke_key auth key_id now st =
    let (done, keys) = revoke_api_key key_id (some (actor auth)) now st.keys in
    guarded auth
      (found_or_404 done
        (event_of auth (some (actor auth)) "key.revoke" (some "api_key") (some (decimal key_id))
          none now)
        keys st)
      st

unfoldable pub force_rotate : AuthContext → ℕ → ℕ → State → Response (Unit {0}) × State
force_rotate auth key_id now st =
    let (done, keys) = force_rotate_key key_id st.keys in
    guarded auth
      (found_or_404 done
        (event_of auth (some (actor auth)) "key.force_rotate" (some "api_key")
          (some (decimal key_id)) none now)
        keys st)
      st

module _ (hash_key : String → String) (settings : Settings) where
  unfoldable pub issue_client_key :
      AuthContext → IssueRequest → Drawn → ℕ → State → Response Issued × State
  issue_client_key auth body drawn now st =
      let account_id = account_or_new body.account_id drawn.account in
      guarded auth
        (
          ok (record { account_id = some account_id; api_key = drawn.raw }),
          audited
              (event_of auth (some (actor auth)) "key.issue" (some "api_key") (some account_id)
                (some account_id) now)
              (record st {
                keys =
                    issue_api_key hash_key settings (client_request auth body account_id) drawn.raw
                      drawn.key_id now st.keys;
              }),
        )
        st

  unfoldable pub issue_admin_key :
      AuthContext → Option String → Drawn → ℕ → State → Response Issued × State
  issue_admin_key auth label drawn now st =
      guarded auth
        (
          ok (record { account_id = none; api_key = drawn.raw }),
          audited
              (event_of auth (some (actor auth)) "key.issue" (some "api_key") (some "admin") none
                now)
              (record st {
                keys =
                    issue_api_key hash_key settings (admin_request auth label) drawn.raw
                      drawn.key_id now st.keys;
              }),
        )
        st

  abbrev pub rotated_keys :
      AuthContext → RotateRequest → ApiKey → Drawn → ℕ → List ApiKey → List ApiKey
  rotated_keys auth body old drawn now keys =
      (revoke_api_key body.key_id (some (actor auth)) now (
        issue_api_key hash_key settings (rotate_request auth body old) drawn.raw drawn.key_id now
          keys)).1

  abbrev pub rotate_found :
      Option ApiKey → AuthContext → RotateRequest → Drawn → ℕ → State → Response Issued × State
  rotate_found none auth body drawn now st = (http_error 404, st)
  rotate_found (some old) auth body drawn now st = (
    ok (record { account_id = old.account_id; api_key = drawn.raw }),
    audited
        (event_of auth (some (actor auth)) "key.rotate" (some "api_key")
          (some (decimal body.key_id)) old.account_id now)
        (record st { keys = rotated_keys auth body old drawn now st.keys }),
  )

  unfoldable pub rotate_key :
      AuthContext → RotateRequest → Drawn → ℕ → State → Response Issued × State
  rotate_key auth body drawn now st =
      guarded auth (rotate_found (find (has_id body.key_id) st.keys) auth body drawn now st) st
