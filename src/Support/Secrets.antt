-- ===== src/Support/Secrets.antt =====
-- What is left of a secret in a report (backend/app/api/support_router.py).
use aegis_platform_server_te.Prelude.{
  ℕ, suc, zero, ◌+◌, ◌≤◌, ◌≡◌, refl, ◌∙◌, ap, inl, inr, true, List, String, concat, lower, arith,
  if◌then◌else◌, Bool-cases, ok, add_row,
}
use aegis_platform_server_te.Accounts.{text_length}
use aegis_platform_server_te.Support.{
  SupportTicket, ReportIssueBody, is_valid, cut, contains_any, secret_marks, redacted, ticket_of,
  report_issue,
}

-- A text that is not too long is not cut.
cut_all : (n : ℕ) (s : String) → text_length s ≤ n → cut n s ≡ s
cut_all zero String.[] h = refl
cut_all (suc n) String.[] h = refl
cut_all zero (String.◌∷◌ c s) h = absurd (none_left (text_length s) h)
  where
    none_left : (m : ℕ) → suc m ≤ 0 → ⊥
    none_left m h = ground arith
cut_all (suc n) (String.◌∷◌ c s) h = ap (String.◌∷◌ c) (cut_all n s (ground arith))

text_length-concat : (s t : String) → text_length (concat s t) ≡ text_length s + text_length t
text_length-concat String.[] t = ground arith
text_length-concat (String.◌∷◌ c s) t = ground (arith, text_length-concat s t)

-- The mark before a message that may hold a secret.
abbrev pub mark_of : String → String
mark_of message =
    if contains_any (lower message) secret_marks then "[redacted possible secret] " else ""

redacted_short :
    (message : String)
    → text_length message ≤ 200
    → redacted message ≡ concat (mark_of message) message
unfolding redacted
redacted_short message h = elim (Bool-cases (contains_any (lower message) secret_marks)) [
  | inl e ↦ rw (e, cut_all 200 message h) refl
  | inr e ↦ rw (e) refl
]

length-mark_of : (message : String) → text_length (mark_of message) ≤ 27
length-mark_of message = elim (Bool-cases (contains_any (lower message) secret_marks)) [
  | inl e ↦ rw (e) (omega arith)
  | inr e ↦ rw (e) (omega arith)
]

-- The ticket of a report of at most 200 characters holds its message whole, also when the message is
-- marked as redacted: a secret in it is stored.
pub report-message :
    (body : ReportIssueBody) (id now : ℕ) (tickets : List SupportTicket)
    → is_valid body ≡ true
    → text_length body.message ≤ 200
    → (ticket : SupportTicket) × (report_issue body id now tickets
        ≡ (ok id, add_row ticket tickets))
      × (ticket.message ≡ concat (mark_of body.message) body.message)
unfolding report_issue
report-message body id now tickets valid short =
    let whole = redacted_short body.message short in
    let bound : text_length (redacted body.message) ≤ 4000 =
      rw (whole, text_length-concat (mark_of body.message) body.message)
        (fits (text_length (mark_of body.message)) (text_length body.message)
          (length-mark_of body.message) short) in
    (
      ticket_of body id now,
      rw (valid, report_issue) refl,
      cut_all 4000 (redacted body.message) bound ∙ whole,
    )
  where
    fits : (m n : ℕ) → m ≤ 27 → n ≤ 200 → m + n ≤ 4000
    fits m n h k = omega arith
