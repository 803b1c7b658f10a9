-- ===== src/Signals/Failures.antt =====
-- What `evaluate` of backend/app/services/signal_rule_engine.py needs of the two last frames.
use aegis_platform_server_te.Prelude.{
  ℕ, ◌≡◌, ◌⊎◌, refl, inl, inr, Bool, Option, none, some, List, [], ◌∷◌, arith, Bool-cases,
  Option-cases, All, String,
}
use aegis_platform_server_te.Signals.{
  Signal, buy, sell, Band, Frame, RuleResult, Outcome, ok, type_error, Rule, rules, first_fired,
  evaluate, last_two, after_rule, run_rule, with_lines, rule_base_sell, rule_base_buy,
  rule_uptrend_2u_sell, rule_downtrend_2l_buy, rule_price_filter_sell, rule_price_filter_buy,
}

-- What the rules need: both indicator bands of both frames, #4 and #6 of the last, #6 of the one
-- before it.
pub record IsComplete {Y : Type 0} (prev cur : Frame Y) : Type 0 where
  pub b1 : (b : Band Y) × (cur.band1 ≡ some b)
  pub b2 : (b : Band Y) × (cur.band2 ≡ some b)
  pub pb1 : (b : Band Y) × (prev.band1 ≡ some b)
  pub pb2 : (b : Band Y) × (prev.band2 ≡ some b)
  pub line4 : (y : Y) × (cur.ma4 ≡ some y)
  pub line6 : (y : Y) × (cur.rsi6 ≡ some y)
  pub prev_line6 : (y : Y) × (prev.rsi6 ≡ some y)

-- One of the four bands is not there.
abbrev pub LacksBand : {Y : Type 0} → Frame Y → Frame Y → Type 0
LacksBand prev cur =
    (cur.band1 ≡ none) ⊎ ((cur.band2 ≡ none) ⊎ ((prev.band1 ≡ none) ⊎ (prev.band2 ≡ none)))

module _ {Y : Type 0} (lt : Y → Y → Bool) where
  abbrev Total : {A : Type 0} → Outcome A → Type 0
  Total {A} x = (a : A) × (x ≡ ok a)

  with_lines-Total :
      (prev cur : Frame Y) (others : Y → Y → Y → Bool) (signal : Signal) (name : String)
      → IsComplete prev cur
      → Total (with_lines lt prev cur others signal name)
  unfolding with_lines
  with_lines-Total prev cur others signal name c =
      rw ((c.line4).1, (c.line6).1, (c.prev_line6).1, with_lines) (_, refl)

  run_rule-Total :
      (prev cur : Frame Y) (first : Band Y → Band Y → Band Y → Band Y → Bool)
      (others : Band Y → Band Y → Y → Y → Y → Bool) (signal : Signal) (name : String)
      → IsComplete prev cur
      → Total (run_rule lt prev cur first others signal name)
  unfolding run_rule with_lines
  run_rule-Total prev cur first others signal name c =
      elim (Bool-cases (first ((c.b1).0) ((c.b2).0) ((c.pb1).0) ((c.pb2).0))) [
        | inl says ↦
            rw ((c.b1).1, (c.b2).1, (c.pb1).1, (c.pb2).1, run_rule, says)
              (with_lines-Total prev cur (others ((c.b1).0) ((c.pb1).0)) signal name c)
        | inr silent ↦ rw ((c.b1).1, (c.b2).1, (c.pb1).1, (c.pb2).1, run_rule, silent) (none, refl)
      ]

  rules-Total :
      (lookback : ℕ) (prev cur : Frame Y) (history : List (Frame Y))
      → IsComplete prev cur
      → All (λ rule. Total (rule prev cur history)) (rules lt lookback)
  unfolding rule_base_sell rule_base_buy rule_uptrend_2u_sell rule_downtrend_2l_buy
      rule_price_filter_sell rule_price_filter_buy
  rules-Total lookback prev cur history c = (
    run_rule-Total prev cur _ _ sell _ c,
    (
      run_rule-Total prev cur _ _ buy _ c,
      (
        run_rule-Total prev cur _ _ sell _ c,
        (
          run_rule-Total prev cur _ _ buy _ c,
          (run_rule-Total prev cur _ _ sell _ c, (run_rule-Total prev cur _ _ buy _ c, tt)),
        ),
      ),
    ),
  )

  after_rule-Total :
      (x : Outcome (Option RuleResult)) (rest : Outcome RuleResult)
      → Total x
      → Total rest
      → Total (after_rule lt x rest)
  after_rule-Total x rest (none, e) t = rw e t
  after_rule-Total x rest (some result, e) t = elim (Bool-cases result.fired) [
    | inl fires ↦ (result, ground arith)
    | inr silent ↦ let (a, p) = t in (a, ground arith)
  ]

  first_fired-Total :
      (rs : List (Rule lt)) (prev cur : Frame Y) (history : List (Frame Y))
      → All (λ rule. Total (rule prev cur history)) rs
      → Total (first_fired lt rs prev cur history)
  unfolding first_fired
  first_fired-Total [] prev cur history h = (_, refl)
  first_fired-Total (rule ∷ rest) prev cur history h =
      after_rule-Total (rule prev cur history) (first_fired lt rest prev cur history) (h.0)
        (first_fired-Total rest prev cur history (h.1))

  -- When the two last frames have everything that the rules need, the engine gives a result: it
  -- does not raise, whatever the earlier frames lack.
  pub evaluate-Total :
      (lookback : ℕ) (history : List (Frame Y)) (prev cur : Frame Y)
      → last_two lt history ≡ some (prev, cur)
      → IsComplete prev cur
      → (r : RuleResult) × (evaluate lt lookback history ≡ ok r)
  unfolding evaluate
  evaluate-Total lookback history prev cur last c =
      rw (last, evaluate)
        (first_fired-Total (rules lt lookback) prev cur history
          (rules-Total lookback prev cur history c))

  run_rule-raises :
      (prev cur : Frame Y) (first : Band Y → Band Y → Band Y → Band Y → Bool)
      (others : Band Y → Band Y → Y → Y → Y → Bool) (signal : Signal) (name : String)
      → LacksBand prev cur
      → run_rule lt prev cur first others signal name ≡ type_error
  unfolding run_rule
  run_rule-raises prev cur first others signal name lacks = elim (Option-cases cur.band1) [
    | inl n ↦ rw (n, run_rule) refl
    | inr (b1, p) ↦ elim (Option-cases cur.band2) [
      | inl n ↦ rw (p, n, run_rule) refl
      | inr (b2, q) ↦ elim (Option-cases prev.band1) [
        | inl n ↦ rw (p, q, n, run_rule) refl
        | inr (pb1, s) ↦ elim (Option-cases prev.band2) [
          | inl n ↦ rw (p, q, s, n, run_rule) refl
          | inr (pb2, t) ↦ ground arith
        ]
      ]
    ]
  ]

  -- When one of the two last frames lacks an indicator band, the engine raises a `TypeError`
  -- instead of giving a result without a signal.
  pub evaluate-raises :
      (lookback : ℕ) (history : List (Frame Y)) (prev cur : Frame Y)
      → last_two lt history ≡ some (prev, cur)
      → LacksBand prev cur
      → evaluate lt lookback history ≡ type_error
  unfolding evaluate first_fired rule_base_sell
  evaluate-raises lookback history prev cur last lacks =
      rw (last, evaluate, rule_base_sell, run_rule-raises prev cur _ _ sell _ lacks) refl
