-- ===== src/Support.antt =====
-- The reports of issues and their listing (backend/app/api/support_router.py). The bounds of a report
-- are those of `ReportIssueBody`, whose refusal is answered with 422. A limit of the listing is not
-- negative.
pub mod Secrets
mod Tests
use aegis_platform_server_te.Prelude.{
  ℕ, zero, suc, Bool, true, false, ◌&&◌, not, Option, none, some, List, [], ◌∷◌, String, concat,
  contains, lower, is_empty, text_or_empty, leb, min, if◌then◌else◌, Response, ok, http_error,
  add_row,
}
use mathlib.Core.List.{map}
use aegis_platform_server_te.Security.{AuthContext, require_admin}
use aegis_platform_server_te.Accounts.{text_length}
use aegis_platform_server_te.Records.{newest}

pub record SupportTicket : Type 0 where
  pub id : ℕ
  pub created_at : ℕ
  pub account_id : Option String
  pub email : Option String
  pub subject : String
  pub message : String
  pub last_http_code : Option ℕ
  pub device_model : Option String
  pub app_version : Option String
  pub android_version : Option String
  pub status : String

pub record ReportIssueBody : Type 0 where
  pub account_id : Option String
  pub email : Option String
  pub subject : String
  pub message : String
  pub last_http_code : Option ℕ
  pub device_model : Option String
  pub app_version : Option String
  pub android_version : Option String

abbrev pub is_between : ℕ → ℕ → String → Bool
is_between low high s = leb low (text_length s) && leb (text_length s) high

abbrev pub is_valid : ReportIssueBody → Bool
is_valid body = is_between 3 200 body.subject && is_between 5 4000 body.message

-- `s[:n]`.
abbrev pub cut : ℕ → String → String
cut zero s = ""
cut (suc n) String.[] = ""
cut (suc n) (String.◌∷◌ c s) = String.◌∷◌ c (cut n s)

-- `(s or "")[:n] or None`.
abbrev pub cut_or_none : ℕ → Option String → Option String
cut_or_none n s = let short = cut n (text_or_empty s) in if is_empty short then none else some short

abbrev pub secret_marks : List String
secret_marks = "api_key" ∷ "api-key" ∷ "x-api-key" ∷ "bearer " ∷ []

abbrev pub contains_any : String → List String → Bool
contains_any s [] = false
contains_any s (mark ∷ marks) = if contains s mark then true else contains_any s marks

unfoldable pub redacted : String → String
redacted message =
    if contains_any (lower message) secret_marks
    then concat "[redacted possible secret] " (cut 200 message)
    else message

abbrev pub ticket_of : ReportIssueBody → ℕ → ℕ → SupportTicket
ticket_of body id now = record {
  id = id;
  created_at = now;
  account_id = body.account_id;
  email = body.email;
  subject = cut 200 body.subject;
  message = cut 4000 (redacted body.message);
  last_http_code = body.last_http_code;
  device_model = cut_or_none 120 body.device_model;
  app_version = cut_or_none 40 body.app_version;
  android_version = cut_or_none 40 body.android_version;
  status = "open";
}

-- The answer is the ticket's id, which the database assigns.
unfoldable pub report_issue :
    ReportIssueBody → ℕ → ℕ → List SupportTicket → Response ℕ × List SupportTicket
report_issue body id now tickets =
    if is_valid body
    then (ok id, add_row (ticket_of body id now) tickets)
    else (http_error 422, tickets)

-- What the listing shows of a ticket.
pub record TicketRow : Type 0 where
  pub id : ℕ
  pub created_at : ℕ
  pub account_id : Option String
  pub subject : String
  pub message : String
  pub last_http_code : Option ℕ
  pub device_model : Option String
  pub status : String

abbrev pub shown : SupportTicket → TicketRow
shown ticket = record {
  id = ticket.id;
  created_at = ticket.created_at;
  account_id = ticket.account_id;
  subject = ticket.subject;
  message = cut 500 ticket.message;
  last_http_code = ticket.last_http_code;
  device_model = ticket.device_model;
  status = ticket.status;
}

unfoldable pub list_tickets : AuthContext → ℕ → List SupportTicket → Response (List TicketRow)
list_tickets auth limit tickets = elim (require_admin auth) [
  | http_error e ↦ http_error e
  | ok u ↦ ok (map shown (newest (λ ticket. ticket.created_at) (min limit 200) (λ t. true) tickets))
]
