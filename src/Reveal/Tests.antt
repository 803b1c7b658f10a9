-- ===== src/Reveal/Tests.antt =====
-- The theorems on the claim of credentials, on a store that is a function of its keys.
use aegis_platform_server_te.Prelude.{
  ◌≡◌, ◌≢◌, refl, false, Option, none, some, String, str_eq, str_eq_refl, str_eq_eq, if◌then◌else◌,
  Bool-cases, inl, inr,
}
use aegis_platform_server_te.Reveal.{
  RedisKeys, Value, account, Credentials, create_reveal_token, stash_credentials, reveal,
  reveal_key, pending_key,
}
use aegis_platform_server_te.Reveal.SingleUse.{reveal-reveal, early_reveal-reveal, stash-reveal}

abbrev Store : Type 0
Store = String → Option Value

differs : (k j : String) → k ≢ j → str_eq k j ≡ false
differs k j other = elim (Bool-cases (str_eq k j)) [
  | inl same ↦ absurd (other (str_eq_eq k j same))
  | inr apart ↦ apart
]

abbrev stores : RedisKeys Store
stores = record {
  get = λ k r. r k;
  set = λ k v r j. if str_eq k j then some v else r j;
  delete = λ k r j. if str_eq k j then none else r j;
  get-set = λ k v r. rw (str_eq_refl k) refl;
  get-set_other = λ k j v r other. rw (differs k j other) refl;
  get-delete = λ k r. rw (str_eq_refl k) refl;
  get-delete_other = λ k j r other. rw (differs k j other) refl;
}

abbrev empty : Store
empty key = none

abbrev issued : Store
issued = create_reveal_token stores "A1" "t" empty

abbrev ready : Store
ready = stash_credentials stores "A1" "p" "m" issued

abbrev claimed : Credentials
claimed = record { account_id = "A1"; portal_token = "p"; mobile_api_key = "m" }

reveal-reveal_example : (reveal stores "A1" "t" ((reveal stores "A1" "t" ready).1)).0 ≡ none
reveal-reveal_example =
    reveal-reveal stores "A1" "A1" "t" ready claimed (stash-reveal stores "A1" "t" "p" "m" empty)

issued_waits : issued (reveal_key "t") ≡ some (account "A1")
unfolding create_reveal_token str_eq
issued_waits = refl

nothing_pending : issued (pending_key "A1") ≡ none
unfolding create_reveal_token str_eq
nothing_pending = refl

early_reveal-reveal_test :
    ((reveal stores "A1" "t" issued).0 ≡ none)
    × ((reveal stores "A1" "t"
          (stash_credentials stores "A1" "p" "m" ((reveal stores "A1" "t" issued).1))).0
        ≡ some claimed)
early_reveal-reveal_test =
    early_reveal-reveal stores "A1" "t" "p" "m" issued issued_waits nothing_pending
