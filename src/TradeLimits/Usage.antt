-- ===== src/TradeLimits/Usage.antt =====
-- What a series of trades uses up.

use aegis_platform_server_te.Prelude.{
  ℕ, ◌+◌, ◌≡◌, ◌≤◌, ◌<◌, refl, inl, inr, true, false, Option, none, some, List, [], ◌∷◌, String,
  arith, str_eq, str_eq_eq, str_eq_refl, str_eq_comm, leb, ltb, ◌==◌, Bool-cases, Option-cases,
  if◌then◌else◌, find, find-update, find-add_row, find-add_row_miss, ◌&&◌, ◌||◌, find_holds,
}
use aegis_platform_server_te.Models.{TradeDailyCounter, Subscription}
use aegis_platform_server_te.TradeLimits.{
  limit_for, is_day, used_on, Quota, status, counter, counted, write_count, consume_at, consume,
}

-- Both tests of one row: it is the row of one account and one day.
is_day_both :
    (a d j e : String) (row : TradeDailyCounter)
    → is_day j e row ≡ true
    → is_day a d row ≡ (str_eq a j && str_eq d e)
is_day_both a d j e row h =
    ground
      (arith, str_eq_eq row.account_id j, str_eq_eq row.day e, str_eq_comm j a, str_eq_comm e d)

other_day :
    (a d j e : String) (n : ℕ) (rows : List TradeDailyCounter)
    → (str_eq a j && str_eq d e) ≡ false
    → used_on j e (write_count (find (is_day a d) rows) a d n rows) ≡ used_on j e rows
other_day a d j e n rows apart = elim (Option-cases (find (is_day a d) rows)) [
  | inl new ↦ rw (new, find-add_row_miss (is_day j e) (counter a d n) rows apart)
  | inr (row, old) ↦
      rw (old, find-update (is_day j e) (is_day a d) (counted n) (λ x. refl) rows)
        (elim (Option-cases (find (is_day j e) rows)) [
          | inl missing ↦ rw missing
          | inr (r, there) ↦
              rw (there, is_day_both a d j e r (find_holds (is_day j e) r rows there), apart)
        ])
]

same_day :
    (a d : String) (n : ℕ) (rows : List TradeDailyCounter)
    → used_on a d (write_count (find (is_day a d) rows) a d n rows) ≡ used_on a d rows + n
same_day a d n rows = elim (Option-cases (find (is_day a d) rows)) [
  | inl new ↦
      rw (new, find-add_row (is_day a d) (counter a d n) rows new, str_eq_refl a, str_eq_refl d)
        (omega arith)
  | inr (row, old) ↦ rw (
    old,
    find-update (is_day a d) (is_day a d) (counted n) (λ x. refl) rows,
    old,
    find_holds (is_day a d) row rows old,
  )
]

-- A trade that is counted raises the count of its account and day by its number, and no other.
used_on-write :
    (a d j e : String) (n : ℕ) (rows : List TradeDailyCounter)
    → used_on j e (write_count (find (is_day a d) rows) a d n rows)
      ≡ used_on j e rows + (if str_eq a j && str_eq d e then n else 0)
used_on-write a d j e n rows = elim (Bool-cases (str_eq a j && str_eq d e)) [
  | inl same ↦
      let here : a ≡ j = str_eq_eq a j (ground arith) in
      let today : d ≡ e = str_eq_eq d e (ground arith) in
      rw (same, ← here, ← today) (same_day a d n rows)
  | inr apart ↦ rw apart (omega (arith, other_day a d j e n rows apart))
]

abbrev taken : Option Quota → ℕ → ℕ
taken none n = 0
taken (some q) n = n

-- A request is granted exactly when the account has no limit or the trades fit into what is left.
-- Then they are counted for that account and day alone; refused, nothing changes.
pub consume_lem :
    (subscriptions : List Subscription) (a d j e : String) (n : ℕ) (rows : List TradeDailyCounter)
    → let limit = limit_for a subscriptions in
      let fits = limit == 0 || leb (used_on a d rows + n) limit in
      let (answer, after) = consume subscriptions a d n rows in
      (answer ≡ (if fits then some (status subscriptions a d after) else none))
      × (used_on j e after
          ≡ used_on j e rows + (if fits && (str_eq a j && str_eq d e) then n else 0))
unfolding consume status
consume_lem subscriptions a d j e n rows =
    elim (Bool-cases (
      ltb 0 (limit_for a subscriptions)
      && ltb (limit_for a subscriptions) (used_on a d rows + n))) [
        | inl over ↦ rw (over, consume_at) (ground arith, ground arith)
        | inr fits ↦
            rw (fits, consume_at)
              (ground (arith, same_day a d n rows), ground (arith, used_on-write a d j e n rows))
      ]

-- A request for trades: the account, the day and the number.
abbrev pub Request : Type 0
Request = String × String × ℕ

unfoldable pub consume_all :
    List Subscription → List Request → List TradeDailyCounter → List TradeDailyCounter
consume_all subscriptions [] rows = rows
consume_all subscriptions ((a, d, n) ∷ rest) rows =
    consume_all subscriptions rest (consume subscriptions a d n rows).1

consume-within :
    (subscriptions : List Subscription) (a d j e : String) (n : ℕ) (rows : List TradeDailyCounter)
    → 0 < limit_for j subscriptions
    → used_on j e rows ≤ limit_for j subscriptions
    → used_on j e (consume subscriptions a d n rows).1 ≤ limit_for j subscriptions
consume-within subscriptions a d j e n rows some_limit h =
    ground (arith, (consume_lem subscriptions a d j e n rows).1, str_eq_eq a j, str_eq_eq d e)

-- Whatever requests arrive, one after the other, for whatever accounts and days, an account with a
-- limit never has more trades on a day than its limit.
pub consume_all-within :
    (subscriptions : List Subscription) (requests : List Request) (j e : String)
    (rows : List TradeDailyCounter)
    → 0 < limit_for j subscriptions
    → used_on j e rows ≤ limit_for j subscriptions
    → used_on j e (consume_all subscriptions requests rows) ≤ limit_for j subscriptions
unfolding consume_all
consume_all-within subscriptions [] j e rows some_limit h = h
consume_all-within subscriptions ((a, d, n) ∷ rest) j e rows some_limit h =
    consume_all-within subscriptions rest j e (consume subscriptions a d n rows).1 some_limit
      (consume-within subscriptions a d j e n rows some_limit h)
