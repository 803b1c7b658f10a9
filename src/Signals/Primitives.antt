-- ===== src/Signals/Primitives.antt =====
-- The primitives of the engine against what their names say.
use aegis_platform_server_te.Prelude.{
  ◌≡◌, ◌≢◌, ◌↔◌, refl, Bool, true, false, not, ◌&&◌, some, List, [], ◌∷◌, arith, All, Any, length,
  take, drop, ◌/◌, ◌≤◌,
}
use aegis_platform_server_te.Signals.{
  lowest, highest, min_of, higher_high, new_high, new_low, is_between, divergence, bullish,
}
use aegis_platform_server_te.Signals.Order.{IsOrder, lt-min_of, min_of-lt}

module _ {Y : Type 0} (lt : Y → Y → Bool) (o : IsOrder lt) where
  -- A row is a new high exactly when there is something to compare it with and it is above all of it.
  pub higher_high_iff :
      (values : List Y) (current : Y)
      → (higher_high lt values current ≡ true)
        ↔ ((values ≢ []) × All (λ y. lt current y ≡ true) values)
  unfolding higher_high
  higher_high_iff [] current = (λ h. cc, λ h. absurd (h.0 refl))
  higher_high_iff (y ∷ ys) current =
      let (there, back) = lt-min_of lt o current y ys in (λ h. (λ e. cc e, there h), λ h. back h.1)

  All-above :
      (m : Y) (late : List Y) (es : List Y)
      → All (λ e. lt (min_of lt m late) e ≡ true) es
        ↔ All (λ e. Any (λ l. lt l e ≡ true) (m ∷ late)) es
  All-above m late [] = (λ h. tt, λ h. tt)
  All-above m late (e ∷ es) =
      let (there, back) = min_of-lt lt o e m late in
      let (on, off) = All-above m late es in (λ h. (there h.0, on h.1), λ h. (back h.0, off h.1))

  -- The later half makes a new high exactly when both halves have rows and every row of the earlier
  -- half has some row of the later half above it.
  pub new_high_iff :
      (early late : List Y)
      → (new_high lt early late ≡ true)
        ↔ ((early ≢ []) × All (λ e. Any (λ l. lt l e ≡ true) late) early)
  unfolding new_high
  new_high_iff [] late = (λ h. cc, λ h. absurd (h.0 refl))
  new_high_iff (e ∷ early) [] = (λ h. cc, λ h. absurd (h.1).0)
  new_high_iff (e ∷ early) (l ∷ late) =
      let (on, off) = All-above l late (e ∷ early) in
      let (there, back) = lt-min_of lt o (min_of lt l late) e early in
      (λ h. (λ n. cc n, on (there h)), λ h. back (off h.1))

  lowest_comm : (a b : Y) → lowest lt a b ≡ lowest lt b a
  lowest_comm a b = ground (arith, o.total a b, o.trans a b a, o.irrefl a)

  highest_comm : (a b : Y) → highest lt a b ≡ highest lt b a
  highest_comm a b = ground (arith, o.total a b, o.trans a b a, o.irrefl a)

  -- Whether a row is between two lines does not depend on which of them is named first, and both
  -- lines are between themselves.
  pub is_between_comm :
      (value a b : Y)
      → (is_between lt value a b ≡ is_between lt value b a) × (is_between lt a a b ≡ true)
  unfolding is_between
  is_between_comm value a b = (
    rw (lowest_comm a b, highest_comm a b),
    ground (arith, o.irrefl a, o.irrefl b, o.trans a b a),
  )

-- When the later half of the window makes both a new high and a new low of the price that #5
-- confirms neither of, only the bearish divergence is reported: a bullish one needs that there is no
-- bearish one.
pub divergence-bullish_iff :
    {Y : Type 0} (lt : Y → Y → Bool) (indicator price : List Y)
    → let mid = length price / 2 in
      (divergence lt indicator price ≡ some bullish) ↔ (
        (4 ≤ length price)
        × (length indicator ≡ length price)
        × ((new_high lt (take mid price) (drop mid price)
              && not (new_high lt (take mid indicator) (drop mid indicator)))
            ≡ false)
        × ((new_low lt (take mid price) (drop mid price)
              && not (new_low lt (take mid indicator) (drop mid indicator)))
            ≡ true))
unfolding divergence
divergence-bullish_iff lt indicator price = (λ h. ground arith, λ h. ground arith)
