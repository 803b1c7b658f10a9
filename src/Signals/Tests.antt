-- ===== src/Signals/Tests.antt =====
-- The theorems on the signal engine, on frames with numbers for rows.
use aegis_platform_server_te.Prelude.{
  ℕ, ◌≡◌, refl, inl, inr, true, none, some, String, List, [], ◌∷◌, ltb, arith, Any,
}
use aegis_platform_server_te.Signals.{
  sell, Band, Frame, RuleResult, ok, type_error, evaluate, last_two, rules, first_fired, run_rule,
  with_lines, crossed, side_of, is_between, diverges, divergence, rule_base_sell, rule_base_buy,
  rule_uptrend_2u_sell, rule_downtrend_2l_buy, rule_price_filter_sell, min_of, max_of, new_high,
}
use aegis_platform_server_te.Signals.Order.{IsOrder}
use aegis_platform_server_te.Signals.Rules.{Evidence}
use aegis_platform_server_te.Signals.Engine.{evaluate-Evidence, signals_agree}
use aegis_platform_server_te.Signals.Failures.{evaluate-Total, evaluate-raises}

abbrev band : ℕ → ℕ → ℕ → Band ℕ
band u m l = record { upper = u; middle = m; lower = l }

-- #2's middle line is below that of #1, and #6 below its upper line.
abbrev before : Frame ℕ
before = record {
  band1 = some (band 100 150 200);
  band2 = some (band 110 140 210);
  ma4 = some 160;
  cci5 = some 50;
  rsi6 = some 120;
  price_close = some 40;
  price_band7 = some (band 60 80 100);
  price_band8 = some (band 60 80 100);
}

-- #2's middle line went below that of #1, #6 above its upper line, the price above both bands.
abbrev now : Frame ℕ
now = record {
  band1 = some (band 100 150 200);
  band2 = some (band 110 160 210);
  ma4 = some 130;
  cci5 = some 50;
  rsi6 = some 90;
  price_close = some 40;
  price_band7 = some (band 60 80 100);
  price_band8 = some (band 60 80 100);
}

abbrev two_frames : List (Frame ℕ)
two_frames = before ∷ now ∷ []

abbrev fired : RuleResult
fired = record { fired = true; signal = some sell; rule_name = "price_filter_sell" }

two_fire : evaluate ltb 20 two_frames ≡ ok fired
unfolding evaluate first_fired run_rule with_lines crossed side_of is_between diverges divergence
    rule_base_sell rule_base_buy rule_uptrend_2u_sell rule_downtrend_2l_buy rule_price_filter_sell
two_fire = refl

-- The upper and the middle line of #2 went above the upper line of #1, as #6 did, while the price is
-- higher than two frames ago and #5 lower.
abbrev earlier : Frame ℕ
earlier = record before { price_close = some 60; cci5 = some 30 }

abbrev risen : Frame ℕ
risen = record now { band2 = some (band 80 90 210) }

abbrev four_frames : List (Frame ℕ)
four_frames = earlier ∷ earlier ∷ before ∷ risen ∷ []

abbrev named_sell : String → RuleResult
named_sell name = record { fired = true; signal = some sell; rule_name = name }

base_sell_fires :
    rule_base_sell ltb 20 before risen four_frames ≡ ok (some (named_sell "base_sell"))
unfolding rule_base_sell run_rule with_lines crossed side_of is_between diverges divergence min_of
    max_of new_high
base_sell_fires = refl

uptrend_sell_fires :
    rule_uptrend_2u_sell ltb 20 before risen four_frames ≡ ok (some (named_sell "uptrend_2u_sell"))
unfolding rule_uptrend_2u_sell run_rule with_lines crossed side_of is_between diverges divergence
    min_of max_of new_high
uptrend_sell_fires = refl

abbrev SomeRule : RuleResult → Type 0
SomeRule r = Any (λ rule. rule before risen four_frames ≡ ok (some r)) (rules ltb 20)

base_sell_is_one : SomeRule (named_sell "base_sell")
base_sell_is_one = inl base_sell_fires

uptrend_sell_is_one : SomeRule (named_sell "uptrend_2u_sell")
uptrend_sell_is_one = inr (inr (inl uptrend_sell_fires))

numbers : IsOrder ltb
numbers = record {
  irrefl = λ a. ground arith;
  trans = λ a b c h k. ground arith;
  total = λ a b h k. ground arith;
}

evaluate-Evidence_example :
    (prev : Frame ℕ) × (cur : Frame ℕ) × (last_two ltb two_frames ≡ some (prev, cur))
    × Evidence ltb fired cur
evaluate-Evidence_example = evaluate-Evidence ltb 20 two_frames fired two_fire refl

signals_agree_example : some sell ≡ some sell
signals_agree_example =
    signals_agree ltb numbers 20 before risen four_frames (band 100 150 200)
      (named_sell "base_sell") (named_sell "uptrend_2u_sell") refl refl refl refl base_sell_is_one
      uptrend_sell_is_one

evaluate-Total_test : (r : RuleResult) × (evaluate ltb 20 two_frames ≡ ok r)
evaluate-Total_test = evaluate-Total ltb 20 two_frames before now refl (record {
  b1 = (band 100 150 200, refl);
  b2 = (band 110 160 210, refl);
  pb1 = (band 100 150 200, refl);
  pb2 = (band 110 140 210, refl);
  line4 = (130, refl);
  line6 = (90, refl);
  prev_line6 = (120, refl);
})

abbrev blind : Frame ℕ
blind = record now { band2 = none }

evaluate-raises_test : evaluate ltb 20 (before ∷ blind ∷ []) ≡ type_error
evaluate-raises_test =
    evaluate-raises ltb 20 (before ∷ blind ∷ []) before blind refl (inr (inl refl))
