-- ===== src/RateLimit.antt =====
-- The sliding window of an account's requests (backend/app/core/account_rate_limit.py). Times are
-- numbers of one unit, of which a minute has `window`; `time.time()` is an argument. The window of
-- Redis is a sorted set whose members are the texts of the times, so it holds a time once; the
-- local one is a queue. A negative limit, which lets everything pass, is not modelled. The set's own
-- expiry, five seconds past the window of its last request, is left out: by then every time in it
-- is out of the window, and the next call would remove it.
pub mod Window
mod Tests
use aegis_platform_server_te.Prelude.{
  ℕ, zero, suc, ◌+◌, ◌-◌, Bool, true, false, not, ◌&&◌, List, [], ◌∷◌, ltb, leb, ◌==◌,
  if◌then◌else◌, Response, ok, http_error, length, add_row, delete_where, find, has_key,
}

-- `int(getattr(settings, "API_RATE_LIMIT_PER_MINUTE", 120) or 120)`: 0 is 120.
abbrev pub limit_of : ℕ → ℕ
limit_of zero = 120
limit_of (suc n) = suc n

-- `zremrangebyscore(key, 0, now - window)`: a bound below zero removes nothing.
abbrev pub is_out : ℕ → ℕ → ℕ → Bool
is_out window now t = leb window now && leb t (now - window)

-- `zadd(key, {str(now): now})`.
unfoldable pub zadd : ℕ → List ℕ → List ℕ
zadd t ts = add_row t (delete_where (λ s. s == t) ts)

abbrev pub over : ℕ → List ℕ → Response (Unit {0})
over limit ts = if ltb limit (length ts) then http_error 429 else ok tt

-- The pipeline on Redis; the set is written before its size is looked at.
unfoldable pub enforce_redis : ℕ → ℕ → ℕ → List ℕ → Response (Unit {0}) × List ℕ
unfolding zadd
enforce_redis setting window now ts =
    let after = zadd now (delete_where (is_out window now) ts) in
    (over (limit_of setting) after, after)

-- `while q and q[0] < now - window: q.popleft()`.
unfoldable pub popleft_old : ℕ → ℕ → List ℕ → List ℕ
popleft_old window now [] = []
popleft_old window now (t ∷ ts) =
    let rest = popleft_old window now ts in if ltb (t + window) now then rest else t ∷ ts

-- The fallback in the process.
unfoldable pub enforce_local : ℕ → ℕ → ℕ → List ℕ → Response (Unit {0}) × List ℕ
enforce_local setting window now q =
    let after = add_row now (popleft_old window now q) in (over (limit_of setting) after, after)
