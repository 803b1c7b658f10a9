-- ===== src/Analysis/Recorded.antt =====
-- What `analyze_screenshot` of backend/app/api/brain_router.py records of a call.
use aegis_platform_server_te.Prelude.{
  ℕ, ◌≡◌, refl, inl, inr, Bool, true, false, Option, none, some, List, String, ltb, ◌==◌, Response,
  ok, http_error, Bool-cases, add_row,
}
use mathlib.Core.List.{map}
use aegis_platform_server_te.Security.{AuthContext, require_account_match}
use aegis_platform_server_te.RateLimit.{enforce_redis}
use aegis_platform_server_te.IndicatorHistory.{SortedSets, append_frame, get_history}
use aegis_platform_server_te.Signals.{Frame, RuleResult, Outcome, evaluate}
use aegis_platform_server_te.Signals
use aegis_platform_server_te.Records.{SignalHistory, record_upload, record_signal}
use aegis_platform_server_te.Analysis.{
  Vision, seen, value_error, other_error, Upload, State, Analyzed, upload_row, signal_row,
  failed_upload, evaluated, arrival_of, analyzed, checked_upload, is_refused_type, max_upload_size,
  analyze_screenshot,
}

-- The status of an answer, and the signals that it adds.
abbrev pub status_of : Response RuleResult → ℕ
status_of (ok result) = 200
status_of (http_error e) = e

abbrev pub is_ok : Response RuleResult → Bool
is_ok (ok result) = true
is_ok (http_error e) = false

abbrev pub signals_with : Response RuleResult → String → ℕ → List SignalHistory → List SignalHistory
signals_with (ok result) account_id now rows = add_row (signal_row account_id result now) rows
signals_with (http_error e) account_id now rows = rows

-- A call has left one upload with the status of its answer, and a signal if it was answered.
abbrev pub Recorded : {Redis : Type 0} → Analyzed Redis → String → ℕ → State Redis → Type 0
Recorded (reply, after) account_id now st =
    (code : Option String) × (after.uploads
      ≡ add_row (upload_row account_id (is_ok reply) (status_of reply) code now) st.uploads)
    × (after.signals ≡ signals_with reply account_id now st.signals)

failed_Recorded :
    {Redis : Type 0} (account_id error_code : String) (status now : ℕ) (st : State Redis)
    → Recorded (failed_upload account_id status error_code now st) account_id now st
unfolding failed_upload record_upload
failed_Recorded account_id error_code status now st = (some error_code, refl, refl)

evaluated-Recorded :
    {Redis : Type 0} (o : Outcome RuleResult) (account_id : String) (now : ℕ) (st : State Redis)
    → Recorded (evaluated o account_id now st) account_id now st
unfolding evaluated record_upload record_signal
evaluated-Recorded Signals.type_error account_id now st =
    failed_Recorded account_id "analysis_failed" 500 now st
evaluated-Recorded (Signals.ok result) account_id now st = (none, refl, refl)

module _ {Y Entry Redis : Type 0} (lt : Y → Y → Bool) (redis : SortedSets Entry Redis)
    (dumps : Frame Y → ℕ → String → Entry) (loads : Entry → Frame Y × ℕ)
    (max_frames ttl_seconds lookback : ℕ) where
  analyzed-Recorded :
      (v : Vision Y) (upload : Upload Y) (account_id : String) (now : ℕ) (st : State Redis)
      → Recorded
          (analyzed lt redis dumps loads max_frames ttl_seconds lookback v upload account_id now st)
          account_id
          now
          st
  analyzed-Recorded value_error upload account_id now st =
      failed_Recorded account_id "decode_or_value" 400 now st
  analyzed-Recorded other_error upload account_id now st =
      failed_Recorded account_id "analysis_failed" 500 now st
  analyzed-Recorded (seen frame) upload account_id now st =
      let stored =
        append_frame redis dumps max_frames ttl_seconds account_id
          (arrival_of lt redis dumps loads max_frames ttl_seconds lookback frame upload) st.redis in
      evaluated-Recorded
        (evaluate lt lookback
          (map (λ (f : Frame Y × ℕ). f.0) (get_history redis loads account_id stored)))
        account_id now (record st { redis = stored })

  checked_Recorded :
      (upload : Upload Y) (account_id : String) (now : ℕ) (st : State Redis)
      → Recorded
          (checked_upload lt redis dumps loads max_frames ttl_seconds lookback upload account_id now
            st)
          account_id
          now
          st
  unfolding checked_upload
  checked_Recorded upload account_id now st =
      elim (Bool-cases (is_refused_type upload.content_type)) [
        | inl e ↦ rw e (failed_Recorded account_id "bad_content_type" 400 now st)
        | inr e ↦ elim (Bool-cases (upload.size == 0)) [
          | inl f ↦ rw (e, f) (failed_Recorded account_id "empty_body" 400 now st)
          | inr f ↦ elim (Bool-cases (ltb max_upload_size upload.size)) [
            | inl g ↦ rw (e, f, g) (failed_Recorded account_id "too_large" 413 now st)
            | inr g ↦ rw (e, f, g) (analyzed-Recorded upload.vision upload account_id now st)
          ]
        ]
      ]

  -- Every call of an account with its own key that the rate limit lets in is recorded once, with the
  -- status of its answer, whichever way it ends; a signal is recorded exactly when it is answered
  -- without an error, also when no rule fired.
  pub analyze-Recorded :
      (auth : AuthContext) (setting minute now : ℕ) (upload : Upload Y) (account_id : String)
      (st : State Redis)
      → require_account_match auth account_id ≡ ok tt
      → (enforce_redis setting minute now st.window).0 ≡ ok tt
      → Recorded
          (analyze_screenshot lt redis dumps loads max_frames ttl_seconds lookback auth setting
            minute upload account_id now st)
          account_id
          now
          st
  unfolding analyze_screenshot
  analyze-Recorded auth setting minute now upload account_id st allowed in_time =
      let window = (enforce_redis setting minute now st.window).1 in
      rw (allowed, analyze_screenshot, in_time)
        (checked_Recorded upload account_id now (record st { window = window }))
