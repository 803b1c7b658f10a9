-- ===== src/Security.antt =====
-- API keys with lifecycle checks (backend/app/security.py). SHA-256 is a parameter. The random key,
-- the row's id, which the database assigns, and the time are arguments.
pub mod Lifecycle
mod Tests
use aegis_platform_server_te.Prelude.{
  ℕ, zero, suc, ◌+◌, ◌≡◌, Bool, true, false, not, ◌&&◌, ◌||◌, Option, none, some, List, [], ◌∷◌,
  String, leb, ltb, ◌==◌, str_eq, if◌then◌else◌, Response, ok, http_error, raise_if, ◌>>◌, ◌>>=◌,
  find, update, add_row,
}
use aegis_platform_server_te.Models.{ApiKey, Settings, days}

pub record AuthContext : Type 0 where
  pub account_id : Option String
  pub is_admin : Bool
  pub label : Option String
  pub key_id : Option ℕ
  pub force_rotate : Bool
  pub expires_at : Option ℕ
  pub rotation_due_at : Option ℕ

abbrev pub has_hash : String → ApiKey → Bool
has_hash h row = str_eq row.key_hash h

abbrev pub has_id : ℕ → ApiKey → Bool
has_id key_id row = row.id == key_id

-- `row.expires_at is not None and row.expires_at <= now`.
abbrev pub is_expired : Option ℕ → ℕ → Bool
is_expired none now = false
is_expired (some t) now = leb t now

abbrev pub auth_context : ApiKey → AuthContext
auth_context row = record {
  account_id = row.account_id;
  is_admin = row.is_admin;
  label = row.label;
  key_id = some row.id;
  force_rotate = row.force_rotate;
  expires_at = row.expires_at;
  rotation_due_at = row.rotation_due_at;
}

-- The checks of `verify_api_key` on the row that the lookup by hash gives.
unfoldable pub check_row : Option ApiKey → ℕ → Response ApiKey
check_row none now = http_error 401
check_row (some row) now = do
  raise_if row.revoked 401
  raise_if (is_expired row.expires_at now) 401
  raise_if row.force_rotate 401
  ok row

abbrev pub touched : ℕ → ApiKey → ApiKey
touched now row = record row { last_used_at = some now }

abbrev pub verified :
    Response ApiKey → String → ℕ → List ApiKey → Response AuthContext × List ApiKey
verified (http_error e) h now keys = (http_error e, keys)
verified (ok row) h now keys = (ok (auth_context row), update (has_hash h) (touched now) keys)

-- `timedelta(days=n) if n and n > 0 else None`, from the time `now`.
abbrev pub deadline : ℕ → ℕ → Option ℕ
deadline now zero = none
deadline now (suc n) = some (now + days (suc n))

-- `value if value is not None else default`.
abbrev pub value_or : Option ℕ → ℕ → ℕ
value_or none d = d
value_or (some n) d = n

-- What a caller of `issue_api_key` passes.
pub record KeyRequest : Type 0 where
  pub account_id : Option String
  pub is_admin : Bool
  pub label : Option String
  pub issued_by : Option String
  pub expires_in_days : Option ℕ
  pub rotation_days : Option ℕ
  pub replaces_key_id : Option ℕ

module _ (hash_key : String → String) where
  unfoldable pub verify_api_key :
      Option String → ℕ → List ApiKey → Response AuthContext × List ApiKey
  verify_api_key none now keys = (http_error 401, keys)
  verify_api_key (some raw) now keys =
      verified (check_row (find (has_hash (hash_key raw)) keys) now) (hash_key raw) now keys

  abbrev pub new_key : Settings → KeyRequest → String → ℕ → ℕ → ApiKey
  new_key settings req raw key_id now = record {
    id = key_id;
    key_hash = hash_key raw;
    account_id = req.account_id;
    is_admin = req.is_admin;
    label = req.label;
    revoked = false;
    created_at = now;
    last_used_at = none;
    expires_at = deadline now (value_or req.expires_in_days settings.api_key_default_ttl_days);
    rotation_due_at = deadline now (value_or req.rotation_days settings.api_key_rotation_days);
    force_rotate = false;
    issued_by = req.issued_by;
    revoked_by = none;
    revoked_at = none;
    replaces_key_id = req.replaces_key_id;
  }

  -- The raw key is the argument `raw`, which the code draws and returns.
  unfoldable pub issue_api_key : Settings → KeyRequest → String → ℕ → ℕ → List ApiKey → List ApiKey
  issue_api_key settings req raw key_id now keys =
      add_row (new_key settings req raw key_id now) keys

unfoldable pub require_account_match : AuthContext → String → Response (Unit {0})
require_account_match auth requested = if auth.is_admin then ok tt else elim auth.account_id [
  | none ↦ http_error 403
  | some a ↦ if str_eq a requested then ok tt else http_error 403
]

unfoldable pub require_admin : AuthContext → Response (Unit {0})
require_admin auth = raise_if (not auth.is_admin) 403

abbrev pub revoke_row : Option String → ℕ → ApiKey → ApiKey
revoke_row revoked_by now row = record row {
  revoked = true;
  revoked_by = revoked_by;
  revoked_at = some now;
}

abbrev is_found {ℓ} : {A : Type ℓ} → Option A → Bool
is_found none = false
is_found (some _) = true

unfoldable pub revoke_api_key : ℕ → Option String → ℕ → List ApiKey → Bool × List ApiKey
revoke_api_key key_id revoked_by now keys =
    if is_found (find (has_id key_id) keys)
    then (true, update (has_id key_id) (revoke_row revoked_by now) keys)
    else (false, keys)

abbrev pub force_row : ApiKey → ApiKey
force_row row = record row { force_rotate = true }

abbrev may_force : Option ApiKey → Bool
may_force none = false
may_force (some row) = not row.revoked

unfoldable pub force_rotate_key : ℕ → List ApiKey → Bool × List ApiKey
force_rotate_key key_id keys =
    if may_force (find (has_id key_id) keys)
    then (true, update (has_id key_id) force_row keys)
    else (false, keys)
