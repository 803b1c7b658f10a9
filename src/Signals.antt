-- ===== src/Signals.antt =====
-- The signal rule engine (backend/app/services/signal_rule_engine.py). A pixel row is a value of a
-- type `Y` with a test `lt`, since the code compares rows only: a smaller row is higher on the
-- chart. Rows are never NaN. The text of a result's reason is left out.
pub mod Order
pub mod Primitives
pub mod Rules
pub mod Engine
pub mod Failures
mod Tests
use aegis_platform_server_te.Prelude.{
  ℕ, zero, suc, ◌/◌, Bool, true, false, not, ◌&&◌, ◌||◌, Option, none, some, List, [], ◌∷◌, String,
  ltb, ◌==◌, length, take, drop, last_n, if◌then◌else◌,
}

pub data Side : Type 0 where
  above below : Side

pub data Divergence : Type 0 where
  bearish bullish : Divergence

pub data Signal : Type 0 where
  buy sell : Signal

abbrev pub is_side : Side → Option Side → Bool
is_side above (some above) = true
is_side below (some below) = true
is_side _ _ = false

abbrev pub is_divergence : Divergence → Option Divergence → Bool
is_divergence bearish (some bearish) = true
is_divergence bullish (some bullish) = true
is_divergence _ _ = false

-- A band of three lines, as `{"U": y, "M": y, "L": y}`.
pub record Band (Y : Type 0) : Type 0 where
  pub upper : Y
  pub middle : Y
  pub lower : Y

-- A frame state. What the vision step does not find in the image is none.
pub record Frame (Y : Type 0) : Type 0 where
  pub band1 : Option (Band Y)
  pub band2 : Option (Band Y)
  pub ma4 : Option Y
  pub cci5 : Option Y
  pub rsi6 : Option Y
  pub price_close : Option Y
  pub price_band7 : Option (Band Y)
  pub price_band8 : Option (Band Y)

pub record RuleResult : Type 0 where
  pub fired : Bool
  pub signal : Option Signal
  pub rule_name : String

-- A rule returns, or raises a `TypeError` where it subscripts or compares `None`.
pub data Outcome {ℓ} (A : Type ℓ) : Type ℓ where
  ok : A → Outcome A
  type_error : Outcome A

infixl 5 ◌>>=◌
abbrev pub ◌>>=◌ {ℓ κ} : {A : Type ℓ} {B : Type κ} → Outcome A → (A → Outcome B) → Outcome B
ok a >>= f = f a
type_error >>= f = type_error

abbrev pub need {ℓ} : {A : Type ℓ} → Option A → Outcome A
need none = type_error
need (some a) = ok a

abbrev pub rule_result : Bool → Signal → String → RuleResult
rule_result fired signal name = record {
  fired = fired;
  signal = if fired then some signal else none;
  rule_name = name;
}

-- The values that are there, `[f.get(k) for f in frames if f.get(k) is not None]`.
abbrev pub present : {Y : Type 0} → (Frame Y → Option Y) → List (Frame Y) → List Y
present get [] = []
present get (f ∷ fs) = elim (get f) [ none ↦ present get fs | some y ↦ y ∷ present get fs ]

-- `xs[-n:]`, which is all of `xs` for n = 0.
abbrev pub window {ℓ} : {A : Type ℓ} → ℕ → List A → List A
window zero xs = xs
window (suc n) xs = last_n (suc n) xs

module _ {Y : Type 0} (lt : Y → Y → Bool) where
  -- `a <= b`
  abbrev pub le : Y → Y → Bool
  le a b = not (lt b a)

  unfoldable pub side_of : Y → Y → Side
  side_of value level = if lt value level then above else below

  abbrev pub changed : Side → Side → Option Side
  changed above above = none
  changed below below = none
  changed _ cur = some cur

  unfoldable pub crossed : Y → Y → Y → Y → Option Side
  unfolding side_of
  crossed prev_value prev_level cur_value cur_level =
      changed (side_of prev_value prev_level) (side_of cur_value cur_level)

  -- Python's `min(a, b)` and `max(a, b)`.
  abbrev pub lowest : Y → Y → Y
  lowest a b = if lt b a then b else a

  abbrev pub highest : Y → Y → Y
  highest a b = if lt a b then b else a

  unfoldable pub is_between : Y → Y → Y → Bool
  is_between value low high = le (lowest low high) value && le value (highest low high)

  -- `min(values)` and `max(values)` of a list with a first element.
  unfoldable pub min_of : Y → List Y → Y
  min_of m [] = m
  min_of m (y ∷ ys) = min_of (lowest m y) ys

  unfoldable pub max_of : Y → List Y → Y
  max_of m [] = m
  max_of m (y ∷ ys) = max_of (highest m y) ys

  unfoldable pub higher_high : List Y → Y → Bool
  higher_high [] current = false
  higher_high (y ∷ ys) current = lt current (min_of y ys)

  unfoldable pub lower_low : List Y → Y → Bool
  lower_low [] current = false
  lower_low (y ∷ ys) current = lt (max_of y ys) current

  -- `min(late) < min(early)`. The code never asks it of an empty half.
  unfoldable pub new_high : List Y → List Y → Bool
  new_high (e ∷ early) (l ∷ late) = lt (min_of l late) (min_of e early)
  new_high _ _ = false

  -- `max(late) > max(early)`
  unfoldable pub new_low : List Y → List Y → Bool
  new_low (e ∷ early) (l ∷ late) = lt (max_of e early) (max_of l late)
  new_low _ _ = false

  unfoldable pub divergence : List Y → List Y → Option Divergence
  divergence indicator price =
      let n = length price in
      let mid = n / 2 in
      if ltb n 4 || not (length indicator == n)
      then none
      else if new_high (take mid price) (drop mid price)
          && not (new_high (take mid indicator) (drop mid indicator))
      then some bearish
      else if new_low (take mid price) (drop mid price)
          && not (new_low (take mid indicator) (drop mid indicator))
      then some bullish
      else none

  -- The fourth condition of the first four rules, on the frames of the lookback window.
  unfoldable pub diverges : Divergence → List (Frame Y) → Bool
  diverges kind frames =
      let prices = present (λ f. f.price_close) frames in
      let cci_vals = present (λ f. f.cci5) frames in
      if length prices == length cci_vals
      then is_divergence kind (divergence cci_vals prices)
      else false

  abbrev pub Rule : Type 0
  Rule = Frame Y → Frame Y → List (Frame Y) → Outcome (Option RuleResult)

  -- The frame of every rule: its first condition, on the bands of the current and the previous
  -- frame, decides whether the rule says anything; its other conditions, on the bands and on #4, #6
  -- and the previous #6, decide whether it fires.
  unfoldable pub with_lines :
      Frame Y → Frame Y → (Y → Y → Y → Bool) → Signal → String → Outcome (Option RuleResult)
  with_lines prev cur others signal name = do
    ma4 ← need cur.ma4
    rsi6 ← need cur.rsi6
    prsi6 ← need prev.rsi6
    ok (some (rule_result (others ma4 rsi6 prsi6) signal name))

  unfoldable pub run_rule :
      Frame Y
      → Frame Y
      → (Band Y → Band Y → Band Y → Band Y → Bool)
      → (Band Y → Band Y → Y → Y → Y → Bool)
      → Signal
      → String
      → Outcome (Option RuleResult)
  run_rule prev cur first others signal name = do
    b1 ← need cur.band1
    b2 ← need cur.band2
    pb1 ← need prev.band1
    pb2 ← need prev.band2
    if not (first b1 b2 pb1 pb2) then ok none else with_lines prev cur (others b1 pb1) signal name

  module _ (divergence_lookback : ℕ) where
    unfoldable pub rule_base_sell : Rule
    rule_base_sell prev cur history =
        run_rule prev cur
          (λ b1 b2 pb1 pb2. is_side above (crossed pb2.middle pb1.upper b2.middle b1.upper))
          (λ b1 pb1 ma4 rsi6 prsi6.
            (is_between ma4 b1.middle b1.upper || is_side above (some (side_of ma4 b1.upper)))
            && ((is_side above (crossed prsi6 pb1.upper rsi6 b1.upper)
                  || is_side above (some (side_of rsi6 b1.upper)))
                && diverges bearish (window divergence_lookback history)))
          sell "base_sell"

    unfoldable pub rule_base_buy : Rule
    rule_base_buy prev cur history =
        run_rule prev cur
          (λ b1 b2 pb1 pb2. is_side below (crossed pb2.middle pb1.lower b2.middle b1.lower))
          (λ b1 pb1 ma4 rsi6 prsi6.
            (is_between ma4 b1.middle b1.lower || is_side below (some (side_of ma4 b1.lower)))
            && ((is_side below (crossed prsi6 pb1.lower rsi6 b1.lower)
                  || is_side below (some (side_of rsi6 b1.lower)))
                && diverges bullish (window divergence_lookback history)))
          buy "base_buy"

    unfoldable pub rule_uptrend_2u_sell : Rule
    rule_uptrend_2u_sell prev cur history =
        run_rule prev cur
          (λ b1 b2 pb1 pb2. is_side above (crossed pb2.upper pb1.upper b2.upper b1.upper))
          (λ b1 pb1 ma4 rsi6 prsi6.
            (is_between ma4 b1.middle b1.upper || is_side above (some (side_of ma4 b1.upper)))
            && ((is_side above (crossed prsi6 pb1.upper rsi6 b1.upper))
                && diverges bearish (window divergence_lookback history)))
          sell "uptrend_2u_sell"

    unfoldable pub rule_downtrend_2l_buy : Rule
    rule_downtrend_2l_buy prev cur history =
        run_rule prev cur
          (λ b1 b2 pb1 pb2. is_side below (crossed pb2.lower pb1.lower b2.lower b1.lower))
          (λ b1 pb1 ma4 rsi6 prsi6.
            (is_between ma4 b1.middle b1.lower || is_side below (some (side_of ma4 b1.lower)))
            && ((is_side below (crossed prsi6 pb1.lower rsi6 b1.lower))
                && diverges bullish (window divergence_lookback history)))
          buy "downtrend_2l_buy"

    -- The price is above both outer bands of the price panel, which must both be there.
    abbrev pub price_above : Option (Band Y) → Option (Band Y) → Option Y → Bool
    price_above (some pb7) (some pb8) (some price) = lt price (lowest pb7.upper pb8.upper)
    price_above _ _ _ = false

    abbrev pub price_below : Option (Band Y) → Option (Band Y) → Option Y → Bool
    price_below (some pb7) (some pb8) (some price) = lt (highest pb7.lower pb8.lower) price
    price_below _ _ _ = false

    unfoldable pub rule_price_filter_sell : Rule
    rule_price_filter_sell prev cur history =
        run_rule prev cur
          (λ b1 b2 pb1 pb2. is_side below (crossed pb2.middle pb1.middle b2.middle b1.middle))
          (λ b1 pb1 ma4 rsi6 prsi6.
            (is_between ma4 b1.middle b1.upper || is_between ma4 b1.middle b1.lower)
            && ((is_side above (crossed prsi6 pb1.upper rsi6 b1.upper))
                && price_above cur.price_band7 cur.price_band8 cur.price_close))
          sell "price_filter_sell"

    unfoldable pub rule_price_filter_buy : Rule
    rule_price_filter_buy prev cur history =
        run_rule prev cur
          (λ b1 b2 pb1 pb2. is_side above (crossed pb2.middle pb1.middle b2.middle b1.middle))
          (λ b1 pb1 ma4 rsi6 prsi6.
            (is_between ma4 b1.middle b1.upper || is_between ma4 b1.middle b1.lower)
            && ((is_side below (crossed prsi6 pb1.lower rsi6 b1.lower))
                && price_below cur.price_band7 cur.price_band8 cur.price_close))
          buy "price_filter_buy"

    -- `_rules`, in the order in which they are tried.
    abbrev pub rules : List Rule
    rules =
        rule_base_sell ∷ rule_base_buy ∷ rule_uptrend_2u_sell ∷ rule_downtrend_2l_buy
        ∷ rule_price_filter_sell ∷ rule_price_filter_buy ∷ []

  abbrev pub unfired : String → RuleResult
  unfired name = record { fired = false; signal = none; rule_name = name }

  abbrev pub after_rule : Outcome (Option RuleResult) → Outcome RuleResult → Outcome RuleResult
  after_rule type_error rest = type_error
  after_rule (ok none) rest = rest
  after_rule (ok (some result)) rest = if result.fired then ok result else rest

  -- The loop of `evaluate`: the first rule that fires, and no rule after it is asked.
  unfoldable pub first_fired : List Rule → Frame Y → Frame Y → List (Frame Y) → Outcome RuleResult
  first_fired [] prev cur history = ok (unfired "no_rule_matched")
  first_fired (rule ∷ rest) prev cur history =
      let later = first_fired rest prev cur history in after_rule (rule prev cur history) later

  -- `history[-2], history[-1]`
  abbrev pub last_two : List (Frame Y) → Option (Frame Y × Frame Y)
  last_two [] = none
  last_two (f ∷ []) = none
  last_two (f ∷ g ∷ []) = some (f, g)
  last_two (f ∷ g ∷ h ∷ rest) = last_two (g ∷ h ∷ rest)

  unfoldable pub evaluate : ℕ → List (Frame Y) → Outcome RuleResult
  unfolding first_fired
  evaluate divergence_lookback history = elim (last_two history) [
    | none ↦ ok (unfired "insufficient_history")
    | some (prev, cur) ↦ first_fired (rules divergence_lookback) prev cur history
  ]
