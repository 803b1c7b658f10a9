-- ===== src/Delivery.antt =====
-- The endpoints of devices and downloads (backend/app/api/device_router.py and
-- backend/app/api/download_router.py). Whether the file of the application exists is an argument; the
-- heartbeats of devices are in Heartbeats.
pub mod Burned
mod Tests
use aegis_platform_server_te.Prelude.{
  ℕ, ◌==◌, not, Bool, true, false, Option, none, some, List, String, if◌then◌else◌, Response, ok,
  http_error,
}
use aegis_platform_server_te.Models.{Subscription, DeviceBinding, DownloadToken}
use aegis_platform_server_te.Security.{AuthContext, require_account_match, require_admin}
use aegis_platform_server_te.Records.{AuditEvent, record_event}
use aegis_platform_server_te.Devices.{
  Registration, value_error, known, rejected, bound, Consumed, consume_download_token,
  issue_download_token,
}
use aegis_platform_server_te.Devices
use aegis_platform_server_te.Admin.{actor_id}

pub record State : Type 0 where
  pub bindings : List DeviceBinding
  pub tokens : List DownloadToken
  pub audit : List AuditEvent

abbrev pub event_of :
    String → Option String → String → Option String → Option String → Bool → ℕ → AuditEvent
event_of actor_type actor action account_id target success now = record {
  created_at = now;
  actor_type = actor_type;
  actor_id = actor;
  actor_label = none;
  action = action;
  target_type = target;
  target_id = none;
  account_id = account_id;
  success = success;
}

abbrev pub audited : AuditEvent → State → State
audited event st = record st { audit = record_event event st.audit }

-- The answer of `register_device` to what the service says; a `ValueError` is not caught.
abbrev pub registered :
    AuthContext
    → String
    → ℕ
    → Registration × List DeviceBinding
    → State
    → Response Registration × State
registered auth account_id now (value_error, rows) st =
    (http_error 500, record st { bindings = rows })
registered auth account_id now (known n, rows) st = (ok (known n), record st { bindings = rows })
registered auth account_id now (rejected m n, rows) st = (
  http_error 403,
  audited
      (event_of "account_key" (actor_id auth.key_id) "device.bind_rejected" (some account_id) none
        false now)
      (record st { bindings = rows }),
)
registered auth account_id now (bound m n, rows) st = (
  ok (bound m n),
  audited
      (event_of "account_key" (actor_id auth.key_id) "device.bind" (some account_id) (some "device")
        true now)
      (record st { bindings = rows }),
)

unfoldable pub register_device :
    AuthContext
    → List Subscription
    → String
    → String
    → Option String
    → ℕ
    → State
    → Response Registration × State
register_device auth subscriptions account_id device_id label now st =
    elim (require_account_match auth account_id) [
      | http_error e ↦ (http_error e, st)
      | ok u ↦
          registered auth account_id now
            (Devices.register subscriptions account_id device_id label now st.bindings) st
    ]

-- `if not ok`, on the number of rows that `clear` has deleted.
unfoldable pub clear_device_binding : AuthContext → String → ℕ → State → Response (Unit {0}) × State
clear_device_binding auth account_id now st = elim (require_admin auth) [
  | http_error e ↦ (http_error e, st)
  | ok u ↦
      let (n, rows) = Devices.clear account_id st.bindings in
      if n == 0 then (http_error 404, record st { bindings = rows }) else (
        ok tt,
        audited
            (event_of "admin_key" (actor_id auth.key_id) "device.unbind" (some account_id) none true
              now)
            (record st { bindings = rows }),
      )
]

-- The token is consumed before the file is looked for.
abbrev pub sent : Bool → String → ℕ → Option Consumed → State → Response Consumed × State
sent exists actor now none st = (http_error 403, st)
sent exists actor now (some consumed) st = if not exists then (http_error 500, st) else (
  ok consumed,
  audited
      (event_of "download_token" (some actor) "apk.download" (some consumed.account_id) (some "apk")
        true now)
      st,
)

-- `exists` is `apk_path.exists()`, and `actor` the start of the token that the audit keeps.
unfoldable pub download_apk : Bool → String → String → ℕ → State → Response Consumed × State
download_apk exists actor token now st =
    let (consumed, tokens) = consume_download_token token now st.tokens in
    sent exists actor now consumed (record st { tokens = tokens })

unfoldable pub issue_token :
    AuthContext → String → String → ℕ → ℕ → String → ℕ → State → Response String × State
issue_token auth account_id plan max_uses ttl_hours drawn now st = elim (require_admin auth) [
  | http_error e ↦ (http_error e, st)
  | ok u ↦ (
    ok drawn,
    audited
        (event_of "admin_key" (actor_id auth.key_id) "download_token.issue" (some account_id)
          (some "download_token") true now)
        (record st {
          tokens = issue_download_token drawn account_id plan max_uses ttl_hours now st.tokens;
        }),
  )
]
