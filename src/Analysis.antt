-- ===== src/Analysis.antt =====
-- The analysis of a screenshot (backend/app/api/brain_router.py), over the rate limit, the history of
-- frames, the rule engine and the records. What the vision makes of the bytes of an image is a
-- parameter; the latency and the confidence are left out.
pub mod Recorded
mod Tests
use aegis_platform_server_te.Prelude.{
  ℕ, suc, Bool, true, false, not, ◌&&◌, ◌||◌, Option, none, some, List, [], ◌∷◌, String, ltb, ◌==◌,
  str_eq, if◌then◌else◌, Response, ok, http_error, text_or_empty, is_empty, strip, lower,
  starts_with,
}
use Prim.Native.Char.{code}
use mathlib.Core.List.{map}
use aegis_platform_server_te.Security.{AuthContext, require_account_match}
use aegis_platform_server_te.RateLimit.{enforce_redis}
use aegis_platform_server_te.IndicatorHistory.{SortedSets, Arrival, append_frame, get_history}
use aegis_platform_server_te.Signals.{Frame, RuleResult, Signal, Outcome, evaluate}
use aegis_platform_server_te.Signals
use aegis_platform_server_te.Records.{SignalHistory, UploadDiagnostic, record_signal, record_upload}

-- `decode_image` and `extract_frame_state`: a frame, a `ValueError`, or any other error.
pub data Vision (Y : Type 0) : Type 0 where
  seen : Frame Y → Vision Y
  value_error other_error : Vision Y

pub record Upload (Y : Type 0) : Type 0 where
  pub content_type : Option String
  pub size : ℕ
  pub vision : Vision Y
  pub captured_at_ms : Option ℕ
  pub now_ms : ℕ
  pub nonce : String

pub record State (Redis : Type 0) : Type 0 where
  -- the account's window of the rate limit
  pub window : List ℕ
  pub redis : Redis
  pub uploads : List UploadDiagnostic
  pub signals : List SignalHistory

-- `MAX_UPLOAD_SIZE`
abbrev pub max_upload_size : ℕ
max_upload_size = 20971520

-- `s.split(";")[0]`
abbrev pub before_semicolon : String → String
before_semicolon String.[] = String.[]
before_semicolon (String.◌∷◌ c s) =
    let rest = before_semicolon s in if code c == 59 then String.[] else String.◌∷◌ c rest

abbrev pub image_content_types : List String
image_content_types =
    "image/jpeg" ∷ "image/jpg" ∷ "image/png" ∷ "image/webp" ∷ "image/bmp" ∷ "image/x-ms-bmp"
    ∷ "application/octet-stream" ∷ []

abbrev pub is_listed : String → List String → Bool
is_listed s [] = false
is_listed s (t ∷ ts) = str_eq t s || is_listed s ts

unfoldable pub is_refused_type : Option String → Bool
is_refused_type content_type =
    let ct = lower (strip (before_semicolon (text_or_empty content_type))) in
    not (is_empty ct) && (not (is_listed ct image_content_types) && not (starts_with ct "image/"))

abbrev pub upload_row : String → Bool → ℕ → Option String → ℕ → UploadDiagnostic
upload_row account_id success status error_code now = record {
  created_at = now;
  account_id = account_id;
  success = success;
  http_status = some status;
  latency_ms = none;
  error_code = error_code;
}

-- The text that the engine's result has for its signal.
abbrev pub signal_text : Option Signal → String
signal_text none = "HOLD"
signal_text (some Signals.buy) = "BUY"
signal_text (some Signals.sell) = "SELL"

abbrev pub signal_row : String → RuleResult → ℕ → SignalHistory
signal_row account_id result now = record {
  account_id = account_id;
  signal = signal_text result.signal;
  rule_name = result.rule_name;
  created_at = now;
}

abbrev pub Analyzed : Type 0 → Type 0
Analyzed Redis = Response RuleResult × State Redis

-- A failure is recorded before it is raised.
unfoldable pub failed_upload :
    {Redis : Type 0} → String → ℕ → String → ℕ → State Redis → Analyzed Redis
failed_upload account_id status error_code now st = (
  http_error status,
  record st {
    uploads = record_upload (upload_row account_id false status (some error_code) now) st.uploads;
  },
)

unfoldable pub evaluated :
    {Redis : Type 0} → Outcome RuleResult → String → ℕ → State Redis → Analyzed Redis
unfolding failed_upload
evaluated Signals.type_error account_id now st =
    failed_upload account_id 500 "analysis_failed" now st
evaluated (Signals.ok result) account_id now st = (
  ok result,
  record st {
    uploads = record_upload (upload_row account_id true 200 none now) st.uploads;
    signals = record_signal (signal_row account_id result now) st.signals;
  },
)

module _ {Y Entry Redis : Type 0} (lt : Y → Y → Bool) (redis : SortedSets Entry Redis)
    (dumps : Frame Y → ℕ → String → Entry) (loads : Entry → Frame Y × ℕ)
    (max_frames ttl_seconds lookback : ℕ) where
  abbrev pub arrival_of : Frame Y → Upload Y → Arrival (Frame Y)
  arrival_of frame upload = record {
    frame = frame;
    captured_at_ms = upload.captured_at_ms;
    now_ms = upload.now_ms;
    nonce = upload.nonce;
  }

  -- The `try` block.
  abbrev pub analyzed : Vision Y → Upload Y → String → ℕ → State Redis → Analyzed Redis
  analyzed value_error upload account_id now st =
      failed_upload account_id 400 "decode_or_value" now st
  analyzed other_error upload account_id now st =
      failed_upload account_id 500 "analysis_failed" now st
  analyzed (seen frame) upload account_id now st =
      let stored =
        append_frame redis dumps max_frames ttl_seconds account_id (arrival_of frame upload)
          st.redis in
      let history = map (λ (f : Frame Y × ℕ). f.0) (get_history redis loads account_id stored) in
      evaluated (evaluate lt lookback history) account_id now (record st { redis = stored })

  unfoldable pub checked_upload : Upload Y → String → ℕ → State Redis → Analyzed Redis
  checked_upload upload account_id now st =
      if is_refused_type upload.content_type
      then failed_upload account_id 400 "bad_content_type" now st
      else if upload.size == 0
      then failed_upload account_id 400 "empty_body" now st
      else if ltb max_upload_size upload.size
      then failed_upload account_id 413 "too_large" now st
      else analyzed upload.vision upload account_id now st

  -- `setting` is the rate limit and `minute` its window.
  unfoldable pub analyze_screenshot :
      AuthContext → ℕ → ℕ → Upload Y → String → ℕ → State Redis → Analyzed Redis
  analyze_screenshot auth setting minute upload account_id now st =
      elim (require_account_match auth account_id) [
        | http_error e ↦ (http_error e, st)
        | ok u ↦
            let (allowed, window) = enforce_redis setting minute now st.window in
            elim allowed [
              | http_error e ↦ (http_error e, record st { window = window })
              | ok v ↦ checked_upload upload account_id now (record st { window = window })
            ]
      ]
