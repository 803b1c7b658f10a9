-- ===== src/Heartbeats/Tests.antt =====
-- A fleet of two phones, on a store that is a function of its keys.
use aegis_platform_server_te.Prelude.{
  ℕ, ◌+◌, ◌≡◌, ◌≢◌, refl, inl, inr, Bool, true, false, ◌||◌, Option, none, some, List, [], ◌∷◌,
  String, ltb, str_eq, str_eq_refl, str_eq_eq, if◌then◌else◌, arith, find, Bool-cases, ok,
}
use aegis_platform_server_te.Security.{AuthContext, require_account_match, require_admin}
use aegis_platform_server_te.Heartbeats.{
  Beat, is_member, ExpiringKeys, Health, online, list_device_health,
}
use aegis_platform_server_te.Heartbeats.Fleet.{
  Sent, is_row, row_of, last_sent, receive_all, list-receive_all,
}

record Store : Type 0 where
  kept : String → Option (Beat ℕ × ℕ)
  names : String → List String

abbrev fresh : ℕ → Option (Beat ℕ × ℕ) → Option (Beat ℕ)
fresh later none = none
fresh later (some (beat, end)) = if ltb later end then some beat else none

abbrev with_member : String → List String → List String
with_member name known = if is_member name known then known else name ∷ known

differs : (k j : String) → k ≢ j → str_eq k j ≡ false
differs k j other = elim (Bool-cases (str_eq k j)) [
  | inl same ↦ absurd (other (str_eq_eq k j same))
  | inr apart ↦ apart
]

with_member_lem :
    (a name : String) (known : List String)
    → is_member a (with_member name known) ≡ (str_eq name a || is_member a known)
with_member_lem a name known = elim (Bool-cases (is_member name known)) [
  | inr e ↦ rw (e) refl
  | inl e ↦ rw (e) (elim (Bool-cases (str_eq name a)) [
    | inl same ↦ rw (same) (rw (str_eq_eq name a same) at e)
    | inr apart ↦ rw (apart) refl
  ])
]

abbrev stores : ExpiringKeys ℕ Store
stores = record {
  set =
      λ k v ex now r. record r { kept = λ j. if str_eq k j then some (v, now + ex) else r.kept j };
  get = λ k later r. fresh later (r.kept k);
  sadd = λ k name r. record r {
    names = λ j. if str_eq k j then with_member name (r.names j) else r.names j;
  };
  smembers = λ k r. r.names k;
  get-set = λ k v ex now later r h. rw (str_eq_refl k) refl;
  get-set_other = λ k j v ex now later r other. rw (differs k j other) refl;
  get-sadd = λ k j name later r other. refl;
  smembers-sadd = λ k a name r. rw (str_eq_refl k) (with_member_lem a name (r.names k));
  smembers-set = λ k j v ex now r other. refl;
}

abbrev empty : Store
empty = record { kept = λ k. none; names = λ k. [] }

abbrev phone_of : Option String → Bool → AuthContext
phone_of account_id is_admin = record {
  account_id = account_id;
  is_admin = is_admin;
  label = none;
  key_id = none;
  force_rotate = false;
  expires_at = none;
  rotation_due_at = none;
}

abbrev beats : List (Sent ℕ)
beats =
    record { auth = phone_of (some "A") false; account_id = "A"; data_of = 80; now = 100 }
    ∷ record { auth = phone_of (some "B") false; account_id = "A"; data_of = 1; now = 150 }
    ∷ record { auth = phone_of (some "B") false; account_id = "B"; data_of = 60; now = 160 }
    ∷ []

abbrev operator : AuthContext
operator = phone_of none true

operator_passes : require_admin operator ≡ ok tt
unfolding require_admin
operator_passes = refl

list-receive_all_example :
    (rows : List (String × Health ℕ)) × (list_device_health stores operator 279
        (receive_all stores beats empty)
      ≡ ok rows)
    × (find (is_row "A") rows ≡ row_of 279 "A" (last_sent "A" beats))
list-receive_all_example =
    list-receive_all stores operator "A" 279 beats empty operator_passes refl
      (omega arith, (omega arith, (omega arith, tt)))

online_until_the_end :
    row_of 279 "A" (last_sent "A" beats)
    ≡ some ("A", online 179 (record { heartbeat = 80; received_at = 100 }))
unfolding last_sent str_eq require_account_match
online_until_the_end = refl
