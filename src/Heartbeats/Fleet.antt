-- ===== src/Heartbeats/Fleet.antt =====
-- What the operator sees of the phones after any heartbeats
-- (backend/app/services/device_health_service.py).
use Prim.Native.Char.{code}
use aegis_platform_server_te.Prelude.{
  ℕ, ◌+◌, ◌-◌, ◌≤◌, ◌≡◌, ◌≢◌, ◌∙◌, refl, ap, sym, inl, inr, suc, Response-cases, Bool, true, false,
  ◌||◌, Option, none, some, List, [], ◌∷◌, String, ltb, str_eq, str_eq_refl, str_eq_eq,
  if◌then◌else◌, arith, find, All, Bool-cases, Option-cases, Response, ok, http_error,
}
use mathlib.Core.List.{map}
use aegis_platform_server_te.Security.{AuthContext, require_account_match, require_admin}
use aegis_platform_server_te.Subscriptions.{is_some}
use aegis_platform_server_te.Heartbeats.{
  Beat, ExpiringKeys, is_member, Health, offline, online, health_of, device_set_key, health_key,
  record_heartbeat, get_health, list_all, receive_heartbeat, list_device_health,
}

-- A request to `receive_heartbeat` with its time.
pub record Sent (Data : Type 0) : Type 0 where
  pub auth : AuthContext
  pub account_id : String
  pub data_of : Data
  pub now : ℕ

abbrev pub is_ok : Response (Unit {0}) → Bool
is_ok (ok u) = true
is_ok (http_error e) = false

module _ {Data : Type 0} where
  -- The last heartbeat of an account that was let in.
  abbrev pub is_of : String → Sent Data → Bool
  is_of a s =
      if is_ok (require_account_match s.auth s.account_id) then str_eq s.account_id a else false

  unfoldable pub last_sent : String → List (Sent Data) → Option (Sent Data)
  last_sent a [] = none
  last_sent a (s ∷ sent) = elim (last_sent a sent) [
    | some t ↦ some t
    | none ↦ if is_of a s then some s else none
  ]

  abbrev pub beat_of : Sent Data → Beat Data
  beat_of s = record { heartbeat = s.data_of; received_at = s.now }

  -- A heartbeat that is less than three minutes old, over what was there before.
  abbrev pub alive : ℕ → Option (Sent Data) → Option (Beat Data) → Option (Beat Data)
  alive later none before = before
  alive later (some s) before = if ltb later (s.now + 180) then some (beat_of s) else none

  -- The row of an account by its last heartbeat.
  abbrev pub row_of : ℕ → String → Option (Sent Data) → Option (String × Health Data)
  row_of later a none = none
  row_of later a (some s) =
      some (a, if ltb later (s.now + 180) then online (later - s.now) (beat_of s) else offline)

  abbrev pub is_row : String → String × Health Data → Bool
  is_row a row = str_eq row.0 a

  find-rows :
      (f : String → Health Data) (a : String) (names : List String)
      → find (is_row a) (map (λ b. (b, f b)) names)
        ≡ (if is_member a names then some (a, f a) else none)
  unfolding find
  find-rows f a [] = refl
  find-rows f a (b ∷ names) = elim (Bool-cases (str_eq b a)) [
    | inl e ↦ rw (e, str_eq_eq b a e) refl
    | inr e ↦ rw (e, find-rows f a names) refl
  ]

eighth_code : String → ℕ
eighth_code
      (String.◌∷◌ a (
        String.◌∷◌ b
          (String.◌∷◌ c (String.◌∷◌ d (String.◌∷◌ e (String.◌∷◌ f (String.◌∷◌ g s))))))) =
    code g
eighth_code _ = 0

skip : ℕ → String → String
skip (suc n) (String.◌∷◌ c s) = skip n s
skip _ s = s

health_keys_apart : (a b : String) → a ≢ b → health_key a ≢ health_key b
unfolding skip
health_keys_apart a b apart e = apart (ap (skip 14) e)

set_key_apart : (a : String) → device_set_key ≢ health_key a
unfolding eighth_code
set_key_apart a e = absurd (different (ap eighth_code e))
  where
    different : Path ℕ (eighth_code device_set_key) (eighth_code (health_key a)) → ⊥
    different e = ground arith

texts_apart : (a b : String) → str_eq a b ≡ false → a ≢ b
texts_apart a b e same = let f = sym (str_eq_refl a) ∙ ap (str_eq a) same ∙ e in cc

module _ {Data Redis : Type 0} (redis : ExpiringKeys Data Redis) where
  -- The store after some requests.
  unfoldable pub receive_all : List (Sent Data) → Redis → Redis
  receive_all [] r = r
  receive_all (s ∷ sent) r =
      receive_all sent ((receive_heartbeat redis s.auth s.account_id s.data_of s.now r).1)

  health-record :
      (a b : String) (d : Data) (now later : ℕ) (r : Redis)
      → now ≤ later
      → get_health redis a later (record_heartbeat redis b d now r) ≡ (
          if str_eq b a
          then if ltb later (now + 180)
            then some (record { heartbeat = d; received_at = now })
            else none
          else get_health redis a later r)
  unfolding get_health record_heartbeat
  health-record a b d now later r h =
      redis.get-sadd device_set_key (health_key a) b later _ (set_key_apart a)
      ∙ elim (Bool-cases (str_eq b a)) [
        | inl e ↦ rw (e, str_eq_eq b a e) (redis.get-set (health_key a) _ 180 now later r h)
        | inr e ↦ rw (e) (
            redis.get-set_other (health_key b) (health_key a) _ 180 now later r
              (health_keys_apart b a (texts_apart b a e)))
      ]

  members-record :
      (a b : String) (d : Data) (now : ℕ) (r : Redis)
      → is_member a (redis.smembers device_set_key (record_heartbeat redis b d now r))
        ≡ (str_eq b a || is_member a (redis.smembers device_set_key r))
  unfolding record_heartbeat
  members-record a b d now r =
      redis.smembers-sadd device_set_key a b _
      ∙ ap (λ names. str_eq b a || is_member a names)
          (redis.smembers-set (health_key b) device_set_key _ 180 now r
            (λ e. set_key_apart b (sym e)))

  health-receive :
      (a : String) (s : Sent Data) (later : ℕ) (r : Redis)
      → s.now ≤ later
      → get_health redis a later ((receive_heartbeat redis s.auth s.account_id s.data_of s.now r).1)
        ≡ (if is_of a s
            then if ltb later (s.now + 180) then some (beat_of s) else none
            else get_health redis a later r)
  unfolding receive_heartbeat
  health-receive a s later r h = elim (Response-cases (require_account_match s.auth s.account_id)) [
    | inl x ↦ rw (x.1, receive_heartbeat) (health-record a s.account_id s.data_of s.now later r h)
    | inr x ↦ rw (x.1, receive_heartbeat) refl
  ]

  members-receive :
      (a : String) (s : Sent Data) (r : Redis)
      → is_member a (
          redis.smembers device_set_key
            ((receive_heartbeat redis s.auth s.account_id s.data_of s.now r).1))
        ≡ (is_of a s || is_member a (redis.smembers device_set_key r))
  unfolding receive_heartbeat
  members-receive a s r = elim (Response-cases (require_account_match s.auth s.account_id)) [
    | inl x ↦ rw (x.1, receive_heartbeat) (members-record a s.account_id s.data_of s.now r)
    | inr x ↦ rw (x.1, receive_heartbeat) refl
  ]

  health-receive_all :
      (a : String) (later : ℕ) (sent : List (Sent Data)) (r : Redis)
      → All (λ s. s.now ≤ later) sent
      → get_health redis a later (receive_all sent r)
        ≡ alive later (last_sent a sent) (get_health redis a later r)
  unfolding receive_all last_sent
  health-receive_all a later [] r h = refl
  health-receive_all a later (s ∷ sent) r (now, rest) =
      let after = (receive_heartbeat redis s.auth s.account_id s.data_of s.now r).1 in
      health-receive_all a later sent after rest ∙ elim (Option-cases (last_sent a sent)) [
        | inr x ↦ rw (x.1) refl
        | inl n ↦
            rw (n, health-receive a s later r now)
              (elim (Bool-cases (is_of a s)) [ inl e ↦ rw (e) refl | inr e ↦ rw (e) refl ])
      ]

  members-receive_all :
      (a : String) (sent : List (Sent Data)) (r : Redis)
      → is_member a (redis.smembers device_set_key (receive_all sent r))
        ≡ (is_some (last_sent a sent) || is_member a (redis.smembers device_set_key r))
  unfolding receive_all last_sent
  members-receive_all a [] r = refl
  members-receive_all a (s ∷ sent) r =
      let after = (receive_heartbeat redis s.auth s.account_id s.data_of s.now r).1 in
      members-receive_all a sent after ∙ elim (Option-cases (last_sent a sent)) [
        | inr x ↦ rw (x.1) refl
        | inl n ↦
            rw (n, members-receive a s r)
              (elim (Bool-cases (is_of a s)) [ inl e ↦ rw (e) refl | inr e ↦ rw (e) refl ])
      ]

  listed_row :
      (a : String) (later : ℕ) (sent : List (Sent Data)) (r : Redis)
      → redis.smembers device_set_key r ≡ []
      → All (λ s. s.now ≤ later) sent
      → find (is_row a) (list_all redis later (receive_all sent r))
        ≡ row_of later a (last_sent a sent)
  unfolding list_all
  listed_row a later sent r empty h =
      let after = receive_all sent r in
      find-rows (λ b. health_of (get_health redis b later after) later) a
        (redis.smembers device_set_key after)
      ∙ elim (Option-cases (last_sent a sent)) [
        | inl n ↦ rw (members-receive_all a sent r, n, empty) refl
        | inr (s, e) ↦
            rw (members-receive_all a sent r, health-receive_all a later sent r h, e)
              (elim (Bool-cases (ltb later (s.now + 180))) [
                | inl l ↦ rw (l) refl
                | inr l ↦ rw (l) refl
              ])
      ]

  -- Whatever heartbeats arrive at an empty store, in whatever order of accounts, the operator's
  -- listing has a row for an account exactly when one of its own was let in. The row is online with
  -- the last of them and its age while that is less than three minutes old, and offline from then on;
  -- heartbeats under a foreign key change nothing.
  pub list-receive_all :
      (auth : AuthContext) (a : String) (later : ℕ) (sent : List (Sent Data)) (r : Redis)
      → require_admin auth ≡ ok tt
      → redis.smembers device_set_key r ≡ []
      → All (λ s. s.now ≤ later) sent
      → (rows : List (String × Health Data)) × (list_device_health redis auth later
            (receive_all sent r)
          ≡ ok rows)
        × (find (is_row a) rows ≡ row_of later a (last_sent a sent))
  unfolding list_device_health
  list-receive_all auth a later sent r admin empty h =
      let after = receive_all sent r in
      (
        list_all redis later after,
        rw (admin, list_device_health) refl,
        listed_row a later sent r empty h,
      )
