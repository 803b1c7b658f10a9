-- ===== src/Records.antt =====
-- The tables of events and their retention (backend/app/services/audit_service.py,
-- signal_history_service.py, upload_diagnostic_service.py and retention_service.py). Of rows with
-- the same time the older insertion is listed first, where the database may choose. The mean and
-- the percentile of the latencies are left out.
pub mod Newest
pub mod Retention
mod Tests
use aegis_platform_server_te.Prelude.{
  ℕ, zero, suc, ◌-◌, min, max, Bool, true, false, not, ◌&&◌, ◌||◌, Option, none, some, List, [],
  ◌∷◌, String, ltb, leb, ◌==◌, str_eq, if◌then◌else◌, is_empty, length, take, select, count_where,
  delete_where, add_row,
}
use aegis_platform_server_te.Models.{days, hours}

pub record AuditEvent : Type 0 where
  pub created_at : ℕ
  pub actor_type : String
  pub actor_id : Option String
  pub actor_label : Option String
  pub action : String
  pub target_type : Option String
  pub target_id : Option String
  pub account_id : Option String
  pub success : Bool

pub record SignalHistory : Type 0 where
  pub account_id : String
  pub signal : String
  pub rule_name : String
  pub created_at : ℕ

pub record UploadDiagnostic : Type 0 where
  pub created_at : ℕ
  pub account_id : String
  pub success : Bool
  pub http_status : Option ℕ
  pub latency_ms : Option ℕ
  pub error_code : Option String

module _ {ℓ} {A : Type ℓ} (time : A → ℕ) where
  -- Where a row stands among those that are ordered from the newest to the oldest.
  abbrev pub place : A → List A → List A
  place x [] = x ∷ []
  place x (y ∷ ys) = if ltb (time y) (time x) then x ∷ y ∷ ys else y ∷ place x ys

  unfoldable pub newest_first : List A → List A
  newest_first [] = []
  newest_first (x ∷ xs) = place x (newest_first xs)

  -- `order_by(created_at.desc()).limit(limit)` on the rows that a `where` keeps.
  unfoldable pub newest : ℕ → (A → Bool) → List A → List A
  newest limit p rows = take limit (newest_first (select p rows))

  -- `delete(…).where(created_at < cutoff)`: the rows left and how many went.
  unfoldable pub purge_older_than : ℕ → List A → ℕ × List A
  purge_older_than cutoff rows =
      let old = λ (row : A). ltb (time row) cutoff in (count_where old rows, delete_where old rows)

-- `if value: q = q.where(column == value)`.
abbrev pub matches : Option String → Option String → Bool
matches none column = true
matches (some value) none = is_empty value
matches (some value) (some s) = is_empty value || str_eq s value

abbrev pub audit_filter : Option String → Option String → Option String → AuditEvent → Bool
audit_filter action account_id actor_id row =
    matches action (some row.action)
    && (matches account_id row.account_id && matches actor_id row.actor_id)

-- `AuditService.record` and `AuditService.list_events`.
unfoldable pub record_event : AuditEvent → List AuditEvent → List AuditEvent
record_event event rows = add_row event rows

unfoldable pub list_events :
    ℕ → Option String → Option String → Option String → List AuditEvent → List AuditEvent
list_events limit action account_id actor_id rows =
    newest (λ row. row.created_at) (min (max limit 1) 500) (audit_filter action account_id actor_id)
      rows

-- `SignalHistoryService`.
unfoldable pub record_signal : SignalHistory → List SignalHistory → List SignalHistory
record_signal row rows = add_row row rows

abbrev pub of_account : String → SignalHistory → Bool
of_account account_id row = str_eq row.account_id account_id

unfoldable pub get_history : String → ℕ → List SignalHistory → List SignalHistory
get_history account_id limit rows =
    newest (λ row. row.created_at) (min limit 200) (of_account account_id) rows

unfoldable pub get_recent : ℕ → List SignalHistory → List SignalHistory
get_recent limit rows = newest (λ row. row.created_at) (min limit 200) (λ row. true) rows

-- `UploadDiagnosticService`.
unfoldable pub record_upload : UploadDiagnostic → List UploadDiagnostic → List UploadDiagnostic
record_upload row rows = add_row row rows

abbrev pub upload_filter : Option String → UploadDiagnostic → Bool
upload_filter account_id row = matches account_id (some row.account_id)

unfoldable pub last_n : ℕ → Option String → List UploadDiagnostic → List UploadDiagnostic
last_n limit account_id rows =
    newest (λ row. row.created_at) (min (max limit 1) 200) (upload_filter account_id) rows

pub record Trends : Type 0 where
  pub total : ℕ
  pub successes : ℕ
  pub failures : ℕ

abbrev pub in_window : ℕ → Option String → UploadDiagnostic → Bool
in_window since account_id row = leb since row.created_at && upload_filter account_id row

unfoldable pub trends : ℕ → ℕ → Option String → List UploadDiagnostic → Trends
trends window now account_id rows =
    let found = select (in_window (now - hours window) account_id) rows in
    let good = count_where (λ row. row.success) found in
    record { total = length found; successes = good; failures = length found - good }

-- What the retention keeps of the two tables, and its counts.
pub record Purged : Type 0 where
  pub audit : ℕ
  pub uploads : ℕ
  pub audit_rows : List AuditEvent
  pub upload_rows : List UploadDiagnostic

-- `int(getattr(settings, "AUDIT_RETENTION_DAYS", 90) or 90)`: 0 is 90.
abbrev pub retention_days : ℕ → ℕ
retention_days zero = 90
retention_days (suc n) = suc n

unfoldable pub purge_old_records : ℕ → ℕ → List AuditEvent → List UploadDiagnostic → Purged
purge_old_records setting now audit uploads =
    let cutoff = now - days (retention_days setting) in
    let (a, audit_rows) = purge_older_than (λ row. row.created_at) cutoff audit in
    let (u, upload_rows) = purge_older_than (λ row. row.created_at) cutoff uploads in
    record { audit = a; uploads = u; audit_rows = audit_rows; upload_rows = upload_rows }
