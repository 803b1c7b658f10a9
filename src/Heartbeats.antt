-- ===== src/Heartbeats.antt =====
-- The heartbeats of the phones (backend/app/services/device_health_service.py) and their endpoints
-- (backend/app/api/device_router.py). Redis is the interface `ExpiringKeys`; what a phone sends is
-- opaque. Times are whole seconds of one clock; a listing reads it once for all its rows.
pub mod Fleet
mod Tests
use aegis_platform_server_te.Prelude.{
  ℕ, ◌+◌, ◌-◌, ◌≤◌, ◌≡◌, ◌≢◌, Bool, false, ◌||◌, Option, none, some, List, [], ◌∷◌, String, concat,
  ltb, str_eq, if◌then◌else◌, Response, ok, http_error,
}
use mathlib.Core.List.{map}
use aegis_platform_server_te.Security.{AuthContext, require_account_match, require_admin}

-- `{**data, "received_at": time.time()}`.
pub record Beat (Data : Type 0) : Type 0 where
  pub heartbeat : Data
  pub received_at : ℕ

abbrev pub is_member : String → List String → Bool
is_member a [] = false
is_member a (b ∷ names) = str_eq b a || is_member a names

-- What the service uses of Redis, and its documented behaviour: `set` with `ex`, `get` at a time, and
-- the sets.
pub record ExpiringKeys (Data Redis : Type 0) : Type 0 where
  pub set : String → Beat Data → (ex now : ℕ) → Redis → Redis
  pub get : String → ℕ → Redis → Option (Beat Data)
  pub sadd : String → String → Redis → Redis
  pub smembers : String → Redis → List String
  pub get-set :
      (k : String) (v : Beat Data) (ex now later : ℕ) (r : Redis)
      → now ≤ later
      → get k later (set k v ex now r) ≡ (if ltb later (now + ex) then some v else none)
  pub get-set_other :
      (k j : String) (v : Beat Data) (ex now later : ℕ) (r : Redis)
      → k ≢ j
      → get j later (set k v ex now r) ≡ get j later r
  pub get-sadd :
      (k j name : String) (later : ℕ) (r : Redis)
      → k ≢ j
      → get j later (sadd k name r) ≡ get j later r
  pub smembers-sadd :
      (k a name : String) (r : Redis)
      → is_member a (smembers k (sadd k name r)) ≡ (str_eq name a || is_member a (smembers k r))
  pub smembers-set :
      (k j : String) (v : Beat Data) (ex now : ℕ) (r : Redis)
      → k ≢ j
      → smembers j (set k v ex now r) ≡ smembers j r

abbrev pub heartbeat_ttl_seconds : ℕ
heartbeat_ttl_seconds = 180

abbrev pub device_set_key : String
device_set_key = "devices:known"

abbrev pub health_key : String → String
health_key account_id = concat "device_health:" account_id

-- A row of the listing of all devices.
pub data Health (Data : Type 0) : Type 0 where
  offline : Health Data
  online : (seconds_since_heartbeat : ℕ) → Beat Data → Health Data

module _ {Data : Type 0} where
  abbrev pub health_of : Option (Beat Data) → ℕ → Health Data
  health_of none now = offline
  health_of (some beat) now = online (now - beat.received_at) beat

module _ {Data Redis : Type 0} (redis : ExpiringKeys Data Redis) where
  unfoldable pub record_heartbeat : String → Data → ℕ → Redis → Redis
  record_heartbeat account_id data_of now r = redis.sadd device_set_key account_id (
      redis.set (health_key account_id) (record { heartbeat = data_of; received_at = now })
        heartbeat_ttl_seconds now r)

  unfoldable pub get_health : String → ℕ → Redis → Option (Beat Data)
  get_health account_id now r = redis.get (health_key account_id) now r

  unfoldable pub list_all : ℕ → Redis → List (String × Health Data)
  unfolding get_health
  list_all now r =
      map (λ account_id. (account_id, health_of (get_health account_id now r) now))
        (redis.smembers device_set_key r)

  unfoldable pub receive_heartbeat :
      AuthContext → String → Data → ℕ → Redis → Response (Unit {0}) × Redis
  unfolding record_heartbeat
  receive_heartbeat auth account_id data_of now r = elim (require_account_match auth account_id) [
    | http_error e ↦ (http_error e, r)
    | ok u ↦ (ok tt, record_heartbeat account_id data_of now r)
  ]

  abbrev pub health_or_404 : Option (Beat Data) → Response (Beat Data)
  health_or_404 none = http_error 404
  health_or_404 (some beat) = ok beat

  unfoldable pub get_device_health : AuthContext → String → ℕ → Redis → Response (Beat Data)
  unfolding get_health
  get_device_health auth account_id now r = elim (require_account_match auth account_id) [
    | http_error e ↦ http_error e
    | ok u ↦ health_or_404 (get_health account_id now r)
  ]

  unfoldable pub list_device_health :
      AuthContext → ℕ → Redis → Response (List (String × Health Data))
  unfolding list_all
  list_device_health auth now r = elim (require_admin auth) [
    | http_error e ↦ http_error e
    | ok u ↦ ok (list_all now r)
  ]
