-- ===== src/Signals/Order.antt =====
-- The order of pixel rows, and what `min` and `max` over a list say of its elements.
use aegis_platform_server_te.Prelude.{
  ◌≡◌, ◌↔◌, ◌⊎◌, inl, inr, Bool, true, false, List, [], ◌∷◌, All, Any, Bool-cases,
}
use aegis_platform_server_te.Signals.{lowest, min_of}

-- `<` is the strict part of a total order.
pub record IsOrder {Y : Type 0} (lt : Y → Y → Bool) : Type 0 where
  pub irrefl : (a : Y) → lt a a ≡ false
  pub trans : (a b c : Y) → lt a b ≡ true → lt b c ≡ true → lt a c ≡ true
  pub total : (a b : Y) → lt a b ≡ false → lt b a ≡ false → a ≡ b

module _ {Y : Type 0} (lt : Y → Y → Bool) (o : IsOrder lt) where
  -- A row below another is below every row that the other is not above of.
  pub lt_of_lt_le : (a b c : Y) → lt a b ≡ true → lt c b ≡ false → lt a c ≡ true
  lt_of_lt_le a b c h k = elim (Bool-cases (lt a c)) [
    | inl yes_it_is ↦ yes_it_is
    | inr n ↦ elim (Bool-cases (lt c a)) [
      | inl less ↦ cc (o.trans c a b less h)
      | inr m ↦ cc (o.total a c n m)
    ]
  ]

  pub lt_of_le_lt : (a b c : Y) → lt b a ≡ false → lt b c ≡ true → lt a c ≡ true
  lt_of_le_lt a b c k h = elim (Bool-cases (lt a c)) [
    | inl yes_it_is ↦ yes_it_is
    | inr n ↦ elim (Bool-cases (lt a b)) [
      | inl less ↦ cc (o.trans a b c less h)
      | inr m ↦ cc (o.total a b m k)
    ]
  ]

  lt-lowest : (c a b : Y) → (lt c (lowest lt a b) ≡ true) ↔ ((lt c a ≡ true) × (lt c b ≡ true))
  lt-lowest c a b = elim (Bool-cases (lt b a)) [
    | inl less ↦ rw less (λ h. (o.trans c b a h less, h), λ h. h.1)
    | inr not_less ↦ rw not_less (λ h. (h, lt_of_lt_le c a b h not_less), λ h. h.0)
  ]

  -- A row is above the least of a list exactly when it is above all of it.
  pub lt-min_of :
      (c m : Y) (ys : List Y)
      → (lt c (min_of lt m ys) ≡ true) ↔ ((lt c m ≡ true) × All (λ y. lt c y ≡ true) ys)
  unfolding min_of
  lt-min_of c m [] = (λ h. (h, tt), λ h. h.0)
  lt-min_of c m (y ∷ ys) =
      let (there, back) = lt-min_of c (lowest lt m y) ys in
      let (split, join) = lt-lowest c m y in
      (
        λ h. let (first, rest) = there h in let (p, q) = split first in (p, (q, rest)),
        λ h. back (join (h.0, (h.1).0), (h.1).1),
      )

  lowest-lt : (a b c : Y) → (lt (lowest lt a b) c ≡ true) ↔ ((lt a c ≡ true) ⊎ (lt b c ≡ true))
  lowest-lt a b c = elim (Bool-cases (lt b a)) [
    | inl less ↦ rw less (λ h. inr h, λ h. elim h [ inl p ↦ o.trans b a c less p | inr q ↦ q ])
    | inr not_less ↦
        rw not_less (λ h. inl h, λ h. elim h [ inl p ↦ p | inr q ↦ lt_of_le_lt a b c not_less q ])
  ]

  -- The least of a list is above a row exactly when some element is.
  pub min_of-lt :
      (c m : Y) (ys : List Y) → (lt (min_of lt m ys) c ≡ true) ↔ Any (λ y. lt y c ≡ true) (m ∷ ys)
  unfolding min_of
  min_of-lt c m [] = (λ h. inl h, λ h. elim h [ inl p ↦ p | inr q ↦ absurd q ])
  min_of-lt c m (y ∷ ys) =
      let (there, back) = min_of-lt c (lowest lt m y) ys in
      let (split, join) = lowest-lt m y c in
      (
        λ h. elim (there h) [
          | inl first ↦ elim (split first) [ inl p ↦ inl p | inr q ↦ inr (inl q) ]
          | inr rest ↦ inr (inr rest)
        ],
        λ h. back (elim h [
          | inl p ↦ inl (join (inl p))
          | inr r ↦ elim r [ inl q ↦ inl (join (inr q)) | inr rest ↦ inr rest ]
        ]),
      )
