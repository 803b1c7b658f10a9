-- ===== src/Signals/Engine.antt =====
-- `evaluate` of backend/app/services/signal_rule_engine.py over its rules.
use aegis_platform_server_te.Prelude.{
  ℕ, ◌≡◌, ◌⊎◌, inl, inr, Bool, true, false, Option, none, some, List, [], ◌∷◌, arith, Option-cases,
  Any,
}
use aegis_platform_server_te.Signals.{
  buy, sell, Band, Frame, RuleResult, Outcome, ok, type_error, Rule, rules, first_fired, evaluate,
  last_two, after_rule,
}
use aegis_platform_server_te.Signals.Order.{IsOrder, lt_of_lt_le}
use aegis_platform_server_te.Signals.Rules.{
  Evidence, base_sell-Evidence, base_buy-Evidence, uptrend-Evidence, downtrend-Evidence,
  price_sell-Evidence, price_buy-Evidence,
}

module _ {Y : Type 0} (lt : Y → Y → Bool) where
  after_rule-cases :
      (x : Outcome (Option RuleResult)) (rest : Outcome RuleResult) (r : RuleResult)
      → after_rule lt x rest ≡ ok r
      → r.fired ≡ true
      → (x ≡ ok (some r)) ⊎ (rest ≡ ok r)
  after_rule-cases type_error rest r e f = ground arith
  after_rule-cases (ok none) rest r e f = inr e
  after_rule-cases (ok (some result)) rest r e f = ground arith

  -- A result that fired comes from one of the rules.
  first_fired-Any :
      (rs : List (Rule lt)) (prev cur : Frame Y) (history : List (Frame Y)) (r : RuleResult)
      → first_fired lt rs prev cur history ≡ ok r
      → r.fired ≡ true
      → Any (λ rule. rule prev cur history ≡ ok (some r)) rs
  unfolding first_fired
  first_fired-Any [] prev cur history r e f = ground arith
  first_fired-Any (rule ∷ rest) prev cur history r e f =
      let ih = first_fired-Any rest prev cur history r in
      elim (after_rule-cases (rule prev cur history) (first_fired lt rest prev cur history) r e f) [
        | inl this ↦ inl this
        | inr later ↦ inr (ih later f)
      ]

  -- Every rule of the list, when it fires, has its evidence.
  rules-Evidence :
      (lookback : ℕ) (prev cur : Frame Y) (history : List (Frame Y)) (r : RuleResult)
      → r.fired ≡ true
      → Any (λ rule. rule prev cur history ≡ ok (some r)) (rules lt lookback)
      → Evidence lt r cur
  rules-Evidence k prev cur history r f (inl e) = base_sell-Evidence lt k prev cur history r e f
  rules-Evidence k prev cur history r f (inr (inl e)) =
      base_buy-Evidence lt k prev cur history r e f
  rules-Evidence k prev cur history r f (inr (inr (inl e))) =
      uptrend-Evidence lt k prev cur history r e f
  rules-Evidence k prev cur history r f (inr (inr (inr (inl e)))) =
      downtrend-Evidence lt k prev cur history r e f
  rules-Evidence k prev cur history r f (inr (inr (inr (inr (inl e))))) =
      price_sell-Evidence lt k prev cur history r e f
  rules-Evidence k prev cur history r f (inr (inr (inr (inr (inr (inl e)))))) =
      price_buy-Evidence lt k prev cur history r e f
  rules-Evidence k prev cur history r f (inr (inr (inr (inr (inr (inr e)))))) = absurd e

  -- A signal that the engine gives is for the last frame: to sell only while #6 is above the upper
  -- line of band #1 in it, to buy only while #6 is not above the lower line.
  pub evaluate-Evidence :
      (lookback : ℕ) (history : List (Frame Y)) (r : RuleResult)
      → evaluate lt lookback history ≡ ok r
      → r.fired ≡ true
      → (prev : Frame Y) × (cur : Frame Y) × (last_two lt history ≡ some (prev, cur))
        × Evidence lt r cur
  unfolding evaluate
  evaluate-Evidence lookback history r e f = elim (Option-cases (last_two lt history)) [
    | inl n ↦ absurd (short r (rw (n, evaluate) at e) f)
    | inr ((prev, cur), p) ↦ (
      prev,
      cur,
      p,
      rules-Evidence lookback prev cur history r f
          (first_fired-Any (rules lt lookback) prev cur history r (rw (p, evaluate) at e) f),
    )
  ]
    where
      short :
          (r : RuleResult)
          → Path
              (Outcome RuleResult)
              (ok (record { fired = false; signal = none; rule_name = "insufficient_history" }))
              (ok r)
          → r.fired ≡ true
          → ⊥
      short r e f = ground arith

  -- A line above the upper line of a band is above its lower line.
  opposite :
      (o : IsOrder lt) (b : Band Y) (y : Y)
      → lt b.lower b.upper ≡ false
      → lt y b.upper ≡ true
      → lt y b.lower ≡ false
      → ⊥
  opposite o b y order h k = cc (lt_of_lt_le lt o y b.upper b.lower h order)

  one_side :
      (o : IsOrder lt) (cur : Frame Y) (b1 : Band Y) (r s : RuleResult)
      → cur.band1 ≡ some b1
      → lt b1.lower b1.upper ≡ false
      → Evidence lt r cur
      → Evidence lt s cur
      → r.signal ≡ s.signal
  one_side o cur b1 r s band order (sell, b, y, e, p, q, h) (sell, b', y', e', p', q', h') = cc
  one_side o cur b1 r s band order (buy, b, y, e, p, q, h) (buy, b', y', e', p', q', h') = cc
  one_side o cur b1 r s band order (sell, b, y, e, p, q, h) (buy, b', y', e', p', q', h') =
      absurd (opposite o b1 y order (cc) (cc))
  one_side o cur b1 r s band order (buy, b, y, e, p, q, h) (sell, b', y', e', p', q', h') =
      absurd (opposite o b1 y' order (cc) (cc))

  -- In frames whose lines of band #1 are in order, rules that fire on the same frames do not
  -- contradict each other: any two of them give the same signal, so the order in which the engine
  -- tries them decides the name and not the trade.
  pub signals_agree :
      (o : IsOrder lt) (lookback : ℕ) (prev cur : Frame Y) (history : List (Frame Y)) (b1 : Band Y)
      (r s : RuleResult)
      → cur.band1 ≡ some b1
      → lt b1.lower b1.upper ≡ false
      → r.fired ≡ true
      → s.fired ≡ true
      → Any (λ rule. rule prev cur history ≡ ok (some r)) (rules lt lookback)
      → Any (λ rule. rule prev cur history ≡ ok (some s)) (rules lt lookback)
      → r.signal ≡ s.signal
  signals_agree o lookback prev cur history b1 r s band order fr fs hr hs =
      one_side o cur b1 r s band order (rules-Evidence lookback prev cur history r fr hr)
        (rules-Evidence lookback prev cur history s fs hs)
