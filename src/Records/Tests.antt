-- ===== src/Records/Tests.antt =====
-- The theorems on the tables of events, on three events.
use aegis_platform_server_te.Prelude.{
  ℕ, ◌+◌, ◌≤◌, ◌≡◌, refl, Bool, true, none, some, List, [], ◌∷◌, String, ltb, str_eq, All,
  count_where, select, length,
}
use aegis_platform_server_te.Records.{
  AuditEvent, audit_filter, newest_first, newest, list_events, purge_old_records,
}
use aegis_platform_server_te.Records.Newest.{IsDescending, list_events-newest}
use aegis_platform_server_te.Records.Retention.{purge_keeps_window}

abbrev event_at : ℕ → String → AuditEvent
event_at t action = record {
  created_at = t;
  actor_type = "admin_key";
  actor_id = none;
  actor_label = none;
  action = action;
  target_type = none;
  target_id = none;
  account_id = none;
  success = true;
}

abbrev trail : List AuditEvent
trail = event_at 5 "key.issue" ∷ event_at 9 "key.issue" ∷ event_at 7 "key.revoke" ∷ []

lists_one : list_events 0 (some "key.issue") none none trail ≡ event_at 9 "key.issue" ∷ []
unfolding list_events newest newest_first select str_eq
lists_one = refl

abbrev is_issue : AuditEvent → Bool
is_issue e = str_eq e.action "key.issue"

list_events-newest_test :
    let listed = list_events 2 (some "key.issue") none none trail in
    All (λ e. audit_filter (some "key.issue") none none e ≡ true) listed
    × IsDescending (λ e. e.created_at) listed
    × (count_where (λ e. ltb 6 e.created_at) listed ≡ 1)
    × (count_where is_issue listed ≤ count_where is_issue trail)
unfolding count_where str_eq
list_events-newest_test = list_events-newest 2 6 (some "key.issue") none none is_issue trail

purge_keeps_window_test :
    let purged = purge_old_records 0 7776008 trail [] in
    (count_where is_issue purged.audit_rows ≡ 1)
    × (count_where (λ u. true) purged.upload_rows ≡ 0)
    × (purged.audit + length purged.audit_rows ≡ 3)
    × (purged.uploads + length purged.upload_rows ≡ 0)
unfolding count_where str_eq
purge_keeps_window_test = purge_keeps_window 0 7776008 trail [] is_issue (λ u. true)
