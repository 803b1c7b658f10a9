-- ===== src/Analysis/Tests.antt =====
-- The theorem on the analysis, on one frame that is the first of its account.
use aegis_platform_server_te.Prelude.{ℕ, ◌≡◌, refl, false, none, some, [], ◌∷◌, ltb, ok}
use aegis_platform_server_te.Security.{AuthContext, require_account_match}
use aegis_platform_server_te.RateLimit.{enforce_redis}
use aegis_platform_server_te.Prelude.{str_eq, delete_where, add_row}
use aegis_platform_server_te.Signals.{Frame}
use aegis_platform_server_te.IndicatorHistory.Store.{Store, sets}
use aegis_platform_server_te.Analysis.{Upload, seen, State, analyze_screenshot}
use aegis_platform_server_te.Analysis.Recorded.{Recorded, analyze-Recorded}

abbrev blank : Frame ℕ
blank = record {
  band1 = none;
  band2 = none;
  ma4 = none;
  cci5 = none;
  rsi6 = none;
  price_close = none;
  price_band7 = none;
  price_band8 = none;
}

abbrev upload : Upload ℕ
upload = record {
  content_type = some "image/png";
  size = 900;
  vision = seen blank;
  captured_at_ms = some 5000;
  now_ms = 6000;
  nonce = "n";
}

abbrev auth : AuthContext
auth = record {
  account_id = some "A";
  is_admin = false;
  label = none;
  key_id = some 3;
  force_rotate = false;
  expires_at = none;
  rotation_due_at = none;
}

abbrev st : State Store
st = record { window = 20 ∷ []; redis = λ k. []; uploads = []; signals = [] }

matches : require_account_match auth "A" ≡ ok tt
unfolding require_account_match str_eq
matches = refl

in_time : (enforce_redis 120 60 30 st.window).0 ≡ ok tt
unfolding enforce_redis delete_where add_row
in_time = refl

analyze-Recorded_example :
    Recorded
      (analyze_screenshot ltb sets
        (λ f t n. t)
        (λ e. (blank, e))
        60
        600
        10
        auth
        120
        60
        upload
        "A"
        30
        st)
      "A"
      30
      st
analyze-Recorded_example =
    analyze-Recorded ltb sets (λ f t n. t) (λ e. (blank, e)) 60 600 10 auth 120 60 30 upload "A" st
      matches in_time
