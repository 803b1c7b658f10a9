-- ===== src/RateLimit/Window.antt =====
-- Sequences of requests against the two windows of backend/app/core/account_rate_limit.py.
use aegis_platform_server_te.Prelude.{
  ℕ, ◌+◌, ◌≤◌, ◌<◌, ◌≡◌, refl, Bool, not, List, [], ◌∷◌, ltb, leb, ◌==◌, arith, inl, inr,
  if◌then◌else◌, ok, http_error, All, All-add_row, All-delete, length, length-add_row, add_row,
  count-add_row, delete_where, count_where, Bool-cases,
}
use aegis_platform_server_te.RateLimit.{
  limit_of, is_out, zadd, enforce_redis, popleft_old, enforce_local,
}

-- The times of requests, the last one first.
abbrev pub IsOrdered : List ℕ → Type 0
IsOrdered [] = Unit
IsOrdered (now ∷ earlier) = All (λ t. t ≤ now) earlier × IsOrdered earlier

abbrev pub IsStrict : List ℕ → Type 0
IsStrict [] = Unit
IsStrict (now ∷ earlier) = All (λ t. t < now) earlier × IsStrict earlier

abbrev IsAscending : List ℕ → Type 0
IsAscending [] = Unit
IsAscending (t ∷ ts) = All (λ s. t ≤ s) ts × IsAscending ts

-- A request is no more than a window ago, the end of the window included or not.
abbrev pub is_recent : ℕ → ℕ → ℕ → Bool
is_recent window now t = not (ltb (t + window) now)

abbrev pub is_within : ℕ → ℕ → ℕ → Bool
is_within window now t = not (leb (t + window) now)

module _ (setting window : ℕ) where
  -- The queue after some requests.
  unfoldable pub queue_after : List ℕ → List ℕ
  queue_after [] = []
  queue_after (now ∷ earlier) = (enforce_local setting window now (queue_after earlier)).1

  unfoldable pub set_after : List ℕ → List ℕ
  set_after [] = []
  set_after (now ∷ earlier) = (enforce_redis setting window now (set_after earlier)).1

module _ (window : ℕ) where
  none_old :
      (now t : ℕ) (ts : List ℕ)
      → now ≤ t + window
      → All (λ s. t ≤ s) ts
      → count_where (is_recent window now) ts ≡ length ts
  unfolding count_where
  none_old now t [] h a = refl
  none_old now t (s ∷ ts) h a = ground (arith, none_old now t ts)

  length-popleft_old :
      (now : ℕ) (ts : List ℕ)
      → IsAscending ts
      → length (popleft_old window now ts) ≡ count_where (is_recent window now) ts
  unfolding popleft_old count_where
  length-popleft_old now [] a = refl
  length-popleft_old now (t ∷ ts) a = ground (arith, length-popleft_old now ts, none_old now t ts)

  count-popleft_old :
      (before now : ℕ) (ts : List ℕ)
      → before ≤ now
      → count_where (is_recent window now) (popleft_old window before ts)
        ≡ count_where (is_recent window now) ts
  unfolding popleft_old count_where
  count-popleft_old before now [] h = refl
  count-popleft_old before now (t ∷ ts) h = ground (arith, count-popleft_old before now ts)

  All-popleft_old :
      (P : ℕ → Type 0) (now : ℕ) (ts : List ℕ) → All P ts → All P (popleft_old window now ts)
  unfolding popleft_old
  All-popleft_old P now [] a = tt
  All-popleft_old P now (t ∷ ts) a = elim (Bool-cases (ltb (t + window) now)) [
    | inl e ↦ rw e (All-popleft_old P now ts a.1)
    | inr e ↦ rw e a
  ]

  popleft_old-IsAscending :
      (now : ℕ) (ts : List ℕ) → IsAscending ts → IsAscending (popleft_old window now ts)
  unfolding popleft_old
  popleft_old-IsAscending now [] a = tt
  popleft_old-IsAscending now (t ∷ ts) a = elim (Bool-cases (ltb (t + window) now)) [
    | inl e ↦ rw e (popleft_old-IsAscending now ts a.1)
    | inr e ↦ rw e a
  ]

add_row-IsAscending :
    (t : ℕ) (ts : List ℕ) → IsAscending ts → All (λ s. s ≤ t) ts → IsAscending (add_row t ts)
unfolding add_row
add_row-IsAscending t [] a h = (tt, tt)
add_row-IsAscending t (s ∷ ts) a h =
    (All-add_row (λ x. s ≤ x) t ts h.0 a.0, add_row-IsAscending t ts a.1 h.1)

All-le : (a b : ℕ) (ts : List ℕ) → a ≤ b → All (λ t. t ≤ a) ts → All (λ t. t ≤ b) ts
All-le a b [] h k = tt
All-le a b (t ∷ ts) h k = (omega (arith, k.0), All-le a b ts h k.1)

module _ (setting window : ℕ) where
  queue-le :
      (now : ℕ) (earlier : List ℕ)
      → All (λ t. t ≤ now) earlier
      → All (λ t. t ≤ now) (queue_after setting window earlier)
  unfolding queue_after enforce_local
  queue-le now [] a = tt
  queue-le now (n ∷ earlier) a =
      All-add_row (λ t. t ≤ now) n (popleft_old window n (queue_after setting window earlier)) a.0
        (All-popleft_old window (λ t. t ≤ now) n (queue_after setting window earlier)
          (queue-le now earlier a.1))

  queue-IsAscending :
      (times : List ℕ) → IsOrdered times → IsAscending (queue_after setting window times)
  unfolding queue_after enforce_local
  queue-IsAscending [] o = tt
  queue-IsAscending (n ∷ earlier) o =
      add_row-IsAscending n (popleft_old window n (queue_after setting window earlier))
        (popleft_old-IsAscending window n (queue_after setting window earlier)
          (queue-IsAscending earlier o.1))
        (All-popleft_old window (λ t. t ≤ n) n (queue_after setting window earlier)
          (queue-le n earlier o.0))

  -- What the queue has forgotten is out of every later window.
  count-queue :
      (now : ℕ) (times : List ℕ)
      → All (λ t. t ≤ now) times
      → count_where (is_recent window now) (queue_after setting window times)
        ≡ count_where (is_recent window now) times
  unfolding queue_after enforce_local count_where
  count-queue now [] a = refl
  count-queue now (n ∷ earlier) a = omega (
    arith,
    count-add_row (is_recent window now) n
        (popleft_old window n (queue_after setting window earlier)),
    count-popleft_old window n now (queue_after setting window earlier) a.0,
    count-queue now earlier a.1,
  )

  -- Requests counted in the process are let in exactly when, with the new one, no more came within
  -- the last window than the limit. The times never go back; refused requests count too.
  pub enforce_local-within :
      (now : ℕ) (earlier : List ℕ)
      → IsOrdered (now ∷ earlier)
      → (enforce_local setting window now (queue_after setting window earlier)).0 ≡ (
          if ltb (limit_of setting) (count_where (is_recent window now) (now ∷ earlier))
          then http_error 429
          else ok tt)
  unfolding enforce_local count_where
  enforce_local-within now earlier o =
      let q = queue_after setting window earlier in
      rw
        (
          length-add_row now (popleft_old window now q),
          length-popleft_old window now q (queue-IsAscending earlier o.1),
          count-queue now earlier o.0,
        )
        (ground arith)

is_out_lem : (window now t : ℕ) → is_out window now t ≡ not (is_within window now t)
is_out_lem window now t = ground arith

module _ (window : ℕ) where
  length-delete_out :
      (now : ℕ) (ts : List ℕ)
      → length (delete_where (is_out window now) ts) ≡ count_where (is_within window now) ts
  unfolding delete_where count_where
  length-delete_out now [] = refl
  length-delete_out now (t ∷ ts) = ground (arith, is_out_lem window now t, length-delete_out now ts)

  count-delete_out :
      (before now : ℕ) (ts : List ℕ)
      → before ≤ now
      → count_where (is_within window now) (delete_where (is_out window before) ts)
        ≡ count_where (is_within window now) ts
  unfolding delete_where count_where
  count-delete_out before now [] h = refl
  count-delete_out before now (t ∷ ts) h =
      ground (arith, is_out_lem window before t, count-delete_out before now ts)

-- No earlier time is the new one.
delete_same : (now : ℕ) (ts : List ℕ) → All (λ t. t < now) ts → delete_where (λ s. s == now) ts ≡ ts
unfolding delete_where
delete_same now [] a = refl
delete_same now (t ∷ ts) a = ground (arith, delete_same now ts)

All-lt : (a b : ℕ) (ts : List ℕ) → a ≤ b → All (λ t. t < a) ts → All (λ t. t < b) ts
All-lt a b [] h k = tt
All-lt a b (t ∷ ts) h k = (omega (arith, k.0), All-lt a b ts h k.1)

module _ (setting window : ℕ) where
  set-lt :
      (now : ℕ) (earlier : List ℕ)
      → All (λ t. t < now) earlier
      → All (λ t. t < now) (set_after setting window earlier)
  unfolding set_after enforce_redis zadd
  set-lt now [] a = tt
  set-lt now (n ∷ earlier) a =
      let s = set_after setting window earlier in
      All-add_row (λ t. t < now) n _ a.0
        (All-delete (λ t. t < now) (λ x. x == n) _
          (All-delete (λ t. t < now) (is_out window n) s (set-lt now earlier a.1)))

  zadd_new :
      (now : ℕ) (ts : List ℕ)
      → All (λ t. t < now) ts
      → zadd now (delete_where (is_out window now) ts)
        ≡ add_row now (delete_where (is_out window now) ts)
  unfolding zadd
  zadd_new now ts a =
      rw
        (delete_same now (delete_where (is_out window now) ts)
          (All-delete (λ t. t < now) (is_out window now) ts a))
        refl

  count-set :
      (now : ℕ) (times : List ℕ)
      → All (λ t. t < now) times
      → IsStrict times
      → count_where (is_within window now) (set_after setting window times)
        ≡ count_where (is_within window now) times
  unfolding set_after enforce_redis count_where
  count-set now [] a o = refl
  count-set now (n ∷ earlier) a o =
      let s = set_after setting window earlier in
      rw
        (
          zadd_new n s (set-lt n earlier o.0),
          count-add_row (is_within window now) n (delete_where (is_out window n) s),
          count-delete_out window n now s (omega (arith, a.0)),
          count-set now earlier a.1 o.1,
        )
        (omega arith)

  -- Requests counted in Redis are let in exactly when, with the new one, no more came within the
  -- last window than the limit, its very end left out. No two requests have the same time, and the
  -- times never go back; refused requests count too.
  pub enforce_redis-within :
      (now : ℕ) (earlier : List ℕ)
      → 0 < window
      → IsStrict (now ∷ earlier)
      → (enforce_redis setting window now (set_after setting window earlier)).0 ≡ (
          if ltb (limit_of setting) (count_where (is_within window now) (now ∷ earlier))
          then http_error 429
          else ok tt)
  unfolding enforce_redis count_where
  enforce_redis-within now earlier w o =
      let s = set_after setting window earlier in
      rw
        (
          zadd_new now s (set-lt now earlier o.0),
          length-add_row now (delete_where (is_out window now) s),
          length-delete_out window now s,
          count-set now earlier o.0 o.1,
        )
        (ground arith)
