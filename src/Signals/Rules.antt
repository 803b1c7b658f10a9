-- ===== src/Signals/Rules.antt =====
-- The six rules of backend/app/services/signal_rule_engine.py, and what they see when they fire.
use aegis_platform_server_te.Prelude.{
  ℕ, ◌≡◌, inl, inr, Bool, true, false, Option, some, List, arith, Bool-cases, Option-cases, String,
}
use aegis_platform_server_te.Signals.{
  Signal, buy, sell, Band, Frame, RuleResult, Outcome, ok, crossed, rule_base_sell, rule_base_buy,
  rule_uptrend_2u_sell, rule_downtrend_2l_buy, rule_price_filter_sell, rule_price_filter_buy,
  rule_result, with_lines, run_rule,
}

result_fired :
    (b : Bool) (signal : Signal) (name : String) (r : RuleResult)
    → Path (Outcome (Option RuleResult)) (ok (some (rule_result b signal name))) (ok (some r))
    → r.fired ≡ true
    → (b ≡ true) × (r.signal ≡ some signal)
result_fired b signal name r e f = ground arith

module _ {Y : Type 0} (lt : Y → Y → Bool) where
  with_lines-fired :
      (prev cur : Frame Y) (others : Y → Y → Y → Bool) (signal : Signal) (name : String)
      (r : RuleResult)
      → with_lines lt prev cur others signal name ≡ ok (some r)
      → r.fired ≡ true
      → (ma4 : Y) × (rsi6 : Y) × (prsi6 : Y) × (cur.rsi6 ≡ some rsi6)
        × (others ma4 rsi6 prsi6 ≡ true)
        × (r.signal ≡ some signal)
  unfolding with_lines
  with_lines-fired prev cur others signal name r e f = elim (Option-cases cur.ma4) [
    | inl n ↦ cc (rw (n, with_lines) at e)
    | inr (ma4, p) ↦ elim (Option-cases cur.rsi6) [
      | inl n ↦ cc (rw (p, n, with_lines) at e)
      | inr (rsi6, q) ↦ elim (Option-cases prev.rsi6) [
        | inl n ↦ cc (rw (p, q, n, with_lines) at e)
        | inr (prsi6, s) ↦
            let shown =
              result_fired (others ma4 rsi6 prsi6) signal name r (rw (p, q, s, with_lines) at e)
                f in
            (ma4, rsi6, prsi6, q, shown.0, shown.1)
      ]
    ]
  ]

  -- What a rule that fires has seen: its bands, its lines, and that its conditions hold of them.
  run_rule-fired :
      (prev cur : Frame Y) (first : Band Y → Band Y → Band Y → Band Y → Bool)
      (others : Band Y → Band Y → Y → Y → Y → Bool) (signal : Signal) (name : String)
      (r : RuleResult)
      → run_rule lt prev cur first others signal name ≡ ok (some r)
      → r.fired ≡ true
      → (b1 : Band Y) × (pb1 : Band Y) × (ma4 : Y) × (rsi6 : Y) × (prsi6 : Y) × (cur.band1
          ≡ some b1)
        × (cur.rsi6 ≡ some rsi6)
        × (others b1 pb1 ma4 rsi6 prsi6 ≡ true)
        × (r.signal ≡ some signal)
  unfolding run_rule with_lines
  run_rule-fired prev cur first others signal name r e f = elim (Option-cases cur.band1) [
    | inl n ↦ cc (rw (n, run_rule) at e)
    | inr (b1, p) ↦ elim (Option-cases cur.band2) [
      | inl n ↦ cc (rw (p, n, run_rule) at e)
      | inr (b2, q) ↦ elim (Option-cases prev.band1) [
        | inl n ↦ cc (rw (p, q, n, run_rule) at e)
        | inr (pb1, s) ↦ elim (Option-cases prev.band2) [
          | inl n ↦ cc (rw (p, q, s, n, run_rule) at e)
          | inr (pb2, t) ↦ elim (Bool-cases (first b1 b2 pb1 pb2)) [
            | inr silent ↦ cc (rw (p, q, s, t, silent, run_rule) at e)
            | inl says ↦
                let (ma4, rsi6, prsi6, u, v, w) =
                  with_lines-fired prev cur (others b1 pb1) signal name r
                    (rw (p, q, s, t, says, run_rule) at e) f in
                (b1, pb1, ma4, rsi6, prsi6, p, u, v, w)
          ]
        ]
      ]
    ]
  ]

  -- Where the fast line #6 stands for a signal: above the upper line of band #1 to sell, not above
  -- its lower line to buy.
  abbrev pub Stands : Signal → Band Y → Y → Type 0
  Stands sell b1 rsi6 = lt rsi6 b1.upper ≡ true
  Stands buy b1 rsi6 = lt rsi6 b1.lower ≡ false

  abbrev pub Evidence : RuleResult → Frame Y → Type 0
  Evidence r cur =
      (signal : Signal) × (b1 : Band Y) × (rsi6 : Y) × (r.signal ≡ some signal)
      × (cur.band1 ≡ some b1)
      × (cur.rsi6 ≡ some rsi6)
      × Stands signal b1 rsi6

  run_rule-Evidence :
      (prev cur : Frame Y) (first : Band Y → Band Y → Band Y → Band Y → Bool)
      (others : Band Y → Band Y → Y → Y → Y → Bool) (signal : Signal) (name : String)
      (r : RuleResult)
      → ((b1 pb1 : Band Y) (ma4 rsi6 prsi6 : Y)
          → others b1 pb1 ma4 rsi6 prsi6 ≡ true
          → Stands signal b1 rsi6)
      → run_rule lt prev cur first others signal name ≡ ok (some r)
      → r.fired ≡ true
      → Evidence r cur
  run_rule-Evidence prev cur first others signal name r enough e f =
      let (b1, pb1, ma4, rsi6, prsi6, p, u, v, w) =
        run_rule-fired prev cur first others signal name r e f in
      (signal, b1, rsi6, w, p, u, enough b1 pb1 ma4 rsi6 prsi6 v)

  module _ (lookback : ℕ) where
    pub base_sell-Evidence :
        (prev cur : Frame Y) (history : List (Frame Y)) (r : RuleResult)
        → rule_base_sell lt lookback prev cur history ≡ ok (some r)
        → r.fired ≡ true
        → Evidence r cur
    unfolding rule_base_sell crossed
    base_sell-Evidence prev cur history r e f =
        run_rule-Evidence prev cur _ _ sell _ r (λ b1 pb1 ma4 rsi6 prsi6 h. ground arith) e f

    pub base_buy-Evidence :
        (prev cur : Frame Y) (history : List (Frame Y)) (r : RuleResult)
        → rule_base_buy lt lookback prev cur history ≡ ok (some r)
        → r.fired ≡ true
        → Evidence r cur
    unfolding rule_base_buy crossed
    base_buy-Evidence prev cur history r e f =
        run_rule-Evidence prev cur _ _ buy _ r (λ b1 pb1 ma4 rsi6 prsi6 h. ground arith) e f

    pub uptrend-Evidence :
        (prev cur : Frame Y) (history : List (Frame Y)) (r : RuleResult)
        → rule_uptrend_2u_sell lt lookback prev cur history ≡ ok (some r)
        → r.fired ≡ true
        → Evidence r cur
    unfolding rule_uptrend_2u_sell crossed
    uptrend-Evidence prev cur history r e f =
        run_rule-Evidence prev cur _ _ sell _ r (λ b1 pb1 ma4 rsi6 prsi6 h. ground arith) e f

    pub downtrend-Evidence :
        (prev cur : Frame Y) (history : List (Frame Y)) (r : RuleResult)
        → rule_downtrend_2l_buy lt lookback prev cur history ≡ ok (some r)
        → r.fired ≡ true
        → Evidence r cur
    unfolding rule_downtrend_2l_buy crossed
    downtrend-Evidence prev cur history r e f =
        run_rule-Evidence prev cur _ _ buy _ r (λ b1 pb1 ma4 rsi6 prsi6 h. ground arith) e f

    pub price_sell-Evidence :
        (prev cur : Frame Y) (history : List (Frame Y)) (r : RuleResult)
        → rule_price_filter_sell lt lookback prev cur history ≡ ok (some r)
        → r.fired ≡ true
        → Evidence r cur
    unfolding rule_price_filter_sell crossed
    price_sell-Evidence prev cur history r e f =
        run_rule-Evidence prev cur _ _ sell _ r (λ b1 pb1 ma4 rsi6 prsi6 h. ground arith) e f

    pub price_buy-Evidence :
        (prev cur : Frame Y) (history : List (Frame Y)) (r : RuleResult)
        → rule_price_filter_buy lt lookback prev cur history ≡ ok (some r)
        → r.fired ≡ true
        → Evidence r cur
    unfolding rule_price_filter_buy crossed
    price_buy-Evidence prev cur history r e f =
        run_rule-Evidence prev cur _ _ buy _ r (λ b1 pb1 ma4 rsi6 prsi6 h. ground arith) e f
