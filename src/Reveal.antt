-- ===== src/Reveal.antt =====
-- The single-use claim of credentials after a payment
-- (backend/app/services/credential_reveal_service.py). Redis is the interface `RedisKeys`: a key
-- holds at most one value. Times to live are left out, so a value is read while it lives. Calls are
-- taken one after another: `reveal` reads and deletes in two commands, and two calls that overlap are
-- not modelled.
pub mod SingleUse
mod Tests
use aegis_platform_server_te.Prelude.{
  ◌≡◌, ◌≢◌, Bool, true, false, Option, none, some, String, concat, str_eq, if◌then◌else◌,
}

-- What is stored: the account of an activation reference, or the credentials that wait for it.
pub record Credentials : Type 0 where
  pub account_id : String
  pub portal_token : String
  pub mobile_api_key : String

pub data Value : Type 0 where
  account : String → Value
  pending : Credentials → Value

-- What the service uses of Redis, and its documented behaviour.
pub record RedisKeys (Redis : Type 0) : Type 0 where
  pub get : String → Redis → Option Value
  pub set : String → Value → Redis → Redis
  pub delete : String → Redis → Redis
  pub get-set : (k : String) (v : Value) (r : Redis) → get k (set k v r) ≡ some v
  pub get-set_other : (k j : String) (v : Value) (r : Redis) → k ≢ j → get j (set k v r) ≡ get j r
  pub get-delete : (k : String) (r : Redis) → get k (delete k r) ≡ none
  pub get-delete_other : (k j : String) (r : Redis) → k ≢ j → get j (delete k r) ≡ get j r

abbrev pub reveal_key : String → String
reveal_key token = concat "reveal_token:" token

abbrev pub pending_key : String → String
pending_key account_id = concat "pending_credentials:" account_id

module _ {Redis : Type 0} (redis : RedisKeys Redis) where
  -- The token is drawn by the caller and returned.
  unfoldable pub create_reveal_token : String → String → Redis → Redis
  create_reveal_token account_id token r = redis.set (reveal_key token) (account account_id) r

  unfoldable pub stash_credentials : String → String → String → Redis → Redis
  stash_credentials account_id portal_token mobile_api_key r =
      redis.set (pending_key account_id)
        (pending (record {
          account_id = account_id;
          portal_token = portal_token;
          mobile_api_key = mobile_api_key;
        }))
        r

  -- The credentials under the account's key, or the token put back for another try.
  abbrev pub claim : Option Value → String → String → Redis → Option Credentials × Redis
  claim (some (pending waiting)) account_id token r = (
    some (record {
      account_id = account_id;
      portal_token = waiting.portal_token;
      mobile_api_key = waiting.mobile_api_key;
    }),
    redis.delete (pending_key account_id) r,
  )
  claim _ account_id token r = (none, redis.set (reveal_key token) (account account_id) r)

  abbrev pub stored_account : Option Value → Option String
  stored_account (some (account account_id)) = some account_id
  stored_account _ = none

  unfoldable pub reveal : String → String → Redis → Option Credentials × Redis
  reveal account_id token r = elim (stored_account (redis.get (reveal_key token) r)) [
    | none ↦ (none, r)
    | some stored ↦
        if str_eq stored account_id
        then (let left = redis.delete (reveal_key token) r in
            claim (redis.get (pending_key account_id) left) account_id token left)
        else (none, r)
  ]
