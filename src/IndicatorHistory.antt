-- ===== src/IndicatorHistory.antt =====
-- The rolling history of an account's frames
-- (backend/app/services/indicator_history_service.py). Redis is the interface `SortedSets`. A member
-- is the JSON of a frame with its time and its nonce, which the caller draws; times are in
-- milliseconds. Times to live are left out, so a key is read while it lives.
pub mod Reorder
pub mod Store
mod Tests
use aegis_platform_server_te.Prelude.{
  ℕ, ◌≡◌, ◌≢◌, Bool, true, false, Option, none, some, List, [], ◌∷◌, String, concat, if◌then◌else◌,
  take,
}
use mathlib.Core.List.{map, reverse}

-- A member of a set that is listed from the highest rank to the lowest. A member that is there
-- already is not added again.
module _ {Entry : Type 0} (is_above : Entry → Entry → Bool) where
  abbrev pub put : Entry → List Entry → List Entry
  put e [] = e ∷ []
  put e (x ∷ xs) =
      if is_above e x then e ∷ x ∷ xs else if is_above x e then x ∷ put e xs else x ∷ xs

-- What the history uses of Redis, and its documented behaviour. The members of a sorted set are
-- ranked by their score and, among equal scores, by their bytes; `trim k n` is
-- `zremrangebyrank(k, 0, -(n + 1))`, which leaves the `n` of the highest rank.
pub record SortedSets (Entry Redis : Type 0) : Type 0 where
  pub is_above : Entry → Entry → Bool
  pub members : String → Redis → List Entry
  pub zadd : String → Entry → Redis → Redis
  pub trim : String → ℕ → Redis → Redis
  pub expire : String → ℕ → Redis → Redis
  pub delete : String → Redis → Redis
  pub zrange : String → Redis → List Entry
  pub above_asym : (a b : Entry) → is_above a b ≡ true → is_above b a ≡ false
  pub above_trans :
      (a b c : Entry) → is_above a b ≡ true → is_above b c ≡ true → is_above a c ≡ true
  pub above_total : (a b : Entry) → is_above a b ≡ false → is_above b a ≡ false → a ≡ b
  pub members-zadd :
      (k : String) (e : Entry) (r : Redis) → members k (zadd k e r) ≡ put is_above e (members k r)
  pub members-trim :
      (k : String) (n : ℕ) (r : Redis) → members k (trim k n r) ≡ take n (members k r)
  pub members-expire : (k : String) (n : ℕ) (r : Redis) → members k (expire k n r) ≡ members k r
  pub members-delete : (k : String) (r : Redis) → members k (delete k r) ≡ []
  pub zrange_lem : (k : String) (r : Redis) → zrange k r ≡ reverse (members k r)

-- What a caller of `append_frame` passes, with the drawn nonce and the time of the server.
pub record Arrival (Frame : Type 0) : Type 0 where
  pub frame : Frame
  pub captured_at_ms : Option ℕ
  pub now_ms : ℕ
  pub nonce : String

-- `captured_at_ms / 1000.0 if captured_at_ms is not None else time.time()`.
abbrev pub taken_at : Option ℕ → ℕ → ℕ
taken_at none now = now
taken_at (some t) now = t

abbrev pub history_key : String → String
history_key account_id = concat "indicator_history:" account_id

-- `dumps` and `loads` write and read a frame with its time.
module _ {Frame Entry Redis : Type 0} (redis : SortedSets Entry Redis)
    (dumps : Frame → ℕ → String → Entry) (max_frames ttl_seconds : ℕ) where
  unfoldable pub append_frame : String → Arrival Frame → Redis → Redis
  append_frame account_id a r =
      let k = history_key account_id in
      let member = dumps a.frame (taken_at a.captured_at_ms a.now_ms) a.nonce in
      redis.expire k ttl_seconds (redis.trim k max_frames (redis.zadd k member r))

module _ {Frame Entry Redis : Type 0} (redis : SortedSets Entry Redis)
    (loads : Entry → Frame × ℕ) where
  unfoldable pub get_history : String → Redis → List (Frame × ℕ)
  get_history account_id r = map loads (redis.zrange (history_key account_id) r)

module _ {Entry Redis : Type 0} (redis : SortedSets Entry Redis) where
  unfoldable pub clear : String → Redis → Redis
  clear account_id r = redis.delete (history_key account_id) r
