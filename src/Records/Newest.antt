-- ===== src/Records/Newest.antt =====
-- The listings of backend/app/services/audit_service.py, signal_history_service.py and
-- upload_diagnostic_service.py.
use aegis_platform_server_te.Prelude.{
  ℕ, zero, suc, ◌+◌, ◌≤◌, ◌≡◌, refl, min, max, Bool, true, Option, ◌&&◌, List, [], ◌∷◌, String, ltb,
  arith, All-take, if◌then◌else◌, All, take, select, count_where, inl, inr, Bool-cases,
}
use aegis_platform_server_te.Records.{
  AuditEvent, place, newest_first, newest, audit_filter, list_events,
}

module _ {ℓ κ} {A : Type ℓ} (time : A → ℕ) (P : A → Type κ) where
  All-place : (x : A) (xs : List A) → P x → All P xs → All P (place time x xs)
  All-place x [] h k = (h, tt)
  All-place x (y ∷ ys) h k = elim (Bool-cases (ltb (time y) (time x))) [
    | inl e ↦ rw e (h, k)
    | inr e ↦ rw e (k.0, All-place x ys h k.1)
  ]

  All-newest_first : (xs : List A) → All P xs → All P (newest_first time xs)
  unfolding newest_first
  All-newest_first [] h = tt
  All-newest_first (x ∷ xs) h = All-place x (newest_first time xs) h.0 (All-newest_first xs h.1)

module _ {ℓ} {A : Type ℓ} (p : A → Bool) where
  All-select : (xs : List A) → All (λ x. p x ≡ true) (select p xs)
  unfolding select
  All-select [] = tt
  All-select (x ∷ xs) = elim (Bool-cases (p x)) [
    | inl e ↦ rw e (e, All-select xs)
    | inr e ↦ rw e (All-select xs)
  ]

  count-select :
      (q : A → Bool) (xs : List A) → count_where q (select p xs) ≡ count_where (λ x. p x && q x) xs
  unfolding select count_where
  count-select q [] = refl
  count-select q (x ∷ xs) = ground (arith, count-select q xs)

  count-both_le : (q : A → Bool) (xs : List A) → count_where (λ x. p x && q x) xs ≤ count_where q xs
  unfolding count_where
  count-both_le q [] = omega arith
  count-both_le q (x ∷ xs) = ground (arith, count-both_le q xs)

module _ {ℓ} {A : Type ℓ} (time : A → ℕ) where
  -- From the newest to the oldest.
  abbrev pub IsDescending : List A → Type 0
  IsDescending [] = Unit
  IsDescending (x ∷ xs) = All (λ y. time y ≤ time x) xs × IsDescending xs

  abbrev pub is_after : ℕ → A → Bool
  is_after t x = ltb t (time x)

  All-le : (a b : ℕ) (xs : List A) → a ≤ b → All (λ y. time y ≤ a) xs → All (λ y. time y ≤ b) xs
  All-le a b [] h k = tt
  All-le a b (x ∷ xs) h k = (omega (arith, k.0), All-le a b xs h k.1)

  place-IsDescending : (x : A) (xs : List A) → IsDescending xs → IsDescending (place time x xs)
  place-IsDescending x [] d = (tt, tt)
  place-IsDescending x (y ∷ ys) d = elim (Bool-cases (ltb (time y) (time x))) [
    | inl e ↦
        let lt : time y ≤ time x = ground arith in
        rw e ((lt, All-le (time y) (time x) ys lt d.0), d)
    | inr e ↦
        rw e (
          All-place time (λ z. time z ≤ time y) x ys (ground arith) d.0,
          place-IsDescending x ys d.1,
        )
  ]

  newest_first-IsDescending : (xs : List A) → IsDescending (newest_first time xs)
  unfolding newest_first
  newest_first-IsDescending [] = tt
  newest_first-IsDescending (x ∷ xs) =
      place-IsDescending x (newest_first time xs) (newest_first-IsDescending xs)

  count-place :
      (q : A → Bool) (x : A) (xs : List A)
      → count_where q (place time x xs) ≡ (if q x then 1 else 0) + count_where q xs
  unfolding count_where
  count-place q x [] = omega arith
  count-place q x (y ∷ ys) = ground (arith, count-place q x ys)

  count-newest_first :
      (q : A → Bool) (xs : List A) → count_where q (newest_first time xs) ≡ count_where q xs
  unfolding newest_first count_where
  count-newest_first q [] = refl
  count-newest_first q (x ∷ xs) =
      omega (arith, count-place q x (newest_first time xs), count-newest_first q xs)

  none_after : (t : ℕ) (xs : List A) → All (λ y. time y ≤ t) xs → count_where (is_after t) xs ≡ 0
  unfolding count_where
  none_after t [] h = refl
  none_after t (x ∷ xs) h = ground (arith, none_after t xs)

  count_take_le :
      (q : A → Bool) (n : ℕ) (xs : List A) → count_where q (take n xs) ≤ count_where q xs
  unfolding count_where
  count_take_le q zero xs = omega arith
  count_take_le q (suc n) [] = omega arith
  count_take_le q (suc n) (x ∷ xs) = omega (arith, count_take_le q n xs)

  count_take_after :
      (t n : ℕ) (xs : List A)
      → IsDescending xs
      → count_where (is_after t) (take n xs) ≡ min n (count_where (is_after t) xs)
  unfolding count_where
  count_take_after t zero xs d = omega arith
  count_take_after t (suc n) [] d = omega arith
  count_take_after t (suc n) (x ∷ xs) d = elim (Bool-cases (ltb t (time x))) [
    | inl e ↦ rw e (omega (arith, count_take_after t n xs d.1))
    | inr e ↦
        let h = All-le (time x) t xs (ground arith) d.0 in
        rw e (omega (arith, count_take_after t n xs d.1, none_after t xs h))
  ]

  take-IsDescending : (n : ℕ) (xs : List A) → IsDescending xs → IsDescending (take n xs)
  take-IsDescending zero xs d = tt
  take-IsDescending (suc n) [] d = tt
  take-IsDescending (suc n) (x ∷ xs) d =
      (All-take (λ y. time y ≤ time x) n xs d.0, take-IsDescending n xs d.1)

  -- What a listing of `limit` rows is: rows that the filter keeps, ordered, among them as many of
  -- the newest as there are.
  pub newest_lem :
      (limit t : ℕ) (p q : A → Bool) (rows : List A)
      → All (λ x. p x ≡ true) (newest time limit p rows)
        × IsDescending (newest time limit p rows)
        × (count_where (is_after t) (newest time limit p rows)
            ≡ min limit (count_where (λ x. p x && is_after t x) rows))
        × (count_where q (newest time limit p rows) ≤ count_where q rows)
  unfolding newest
  newest_lem limit t p q rows =
      let sorted = newest_first time (select p rows) in
      let d = newest_first-IsDescending (select p rows) in
      (
        All-take (λ x. p x ≡ true) limit sorted
            (All-newest_first time (λ x. p x ≡ true) (select p rows) (All-select p rows)),
        take-IsDescending limit sorted d,
        rw
            (
              count_take_after t limit sorted d,
              count-newest_first (is_after t) (select p rows),
              count-select p (is_after t) rows,
            )
            refl,
        omega (
          arith,
          count_take_le q limit sorted,
          count-newest_first q (select p rows),
          count-select p q rows,
          count-both_le p q rows,
        ),
      )

-- The listing of the audit trail has between 1 and 500 places, whatever limit is asked for, and
-- holds events of the trail that the filters keep, from the newest to the oldest: for every time,
-- all that the filters keep of the events after it, or as many of them as there are places.
pub list_events-newest :
    (limit t : ℕ) (action account_id actor_id : Option String) (q : AuditEvent → Bool)
    (rows : List AuditEvent)
    → let listed = list_events limit action account_id actor_id rows in
      All (λ e. audit_filter action account_id actor_id e ≡ true) listed
      × IsDescending (λ e. e.created_at) listed
      × (count_where (λ e. ltb t e.created_at) listed
          ≡ min (min (max limit 1) 500) (
              count_where
                (λ e. audit_filter action account_id actor_id e && ltb t e.created_at)
                rows))
      × (count_where q listed ≤ count_where q rows)
unfolding list_events
list_events-newest limit t action account_id actor_id q rows =
    newest_lem (λ e. e.created_at) (min (max limit 1) 500) t
      (audit_filter action account_id actor_id) q rows
