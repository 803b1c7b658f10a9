-- ===== src/Support/Tests.antt =====
-- A report of a phone that quotes its key.
use aegis_platform_server_te.Prelude.{◌≡◌, refl, true, none, [], concat, lower, arith, ok, add_row}
use aegis_platform_server_te.Support.{
  SupportTicket, ReportIssueBody, report_issue, redacted, is_valid,
}
use aegis_platform_server_te.Support.Secrets.{mark_of, report-message}

abbrev body : ReportIssueBody
body = record {
  account_id = none;
  email = none;
  subject = "Help";
  message = "My API_KEY=abc fails";
  last_http_code = none;
  device_model = none;
  app_version = none;
  android_version = none;
}

body_valid : is_valid body ≡ true
body_valid = refl

report-message_test :
    (ticket : SupportTicket) × (report_issue body 1 0 [] ≡ (ok 1, add_row ticket []))
    × (ticket.message ≡ concat (mark_of body.message) body.message)
report-message_test = report-message body 1 0 [] body_valid (omega arith)

key_stored : redacted body.message ≡ "[redacted possible secret] My API_KEY=abc fails"
unfolding redacted lower
key_stored = refl
