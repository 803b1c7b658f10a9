-- ===== src/Reveal/SingleUse.antt =====
-- Claims of credentials (backend/app/services/credential_reveal_service.py), one after another.
use Prim.Native.Char.{code}
use aegis_platform_server_te.Prelude.{
  ℕ, ◌≡◌, ◌≢◌, ◌∙◌, refl, sym, ap, inl, inr, Option, none, some, String, str_eq, str_eq_refl, arith,
  Bool-cases, Option-cases,
}
use aegis_platform_server_te.Reveal.{
  Credentials, Value, account, pending, RedisKeys, reveal_key, pending_key, create_reveal_token,
  stash_credentials, claim, stored_account, reveal,
}

first_code : String → ℕ
first_code (String.◌∷◌ c s) = code c
first_code String.[] = 0

keys_apart : (token account_id : String) → reveal_key token ≢ pending_key account_id
unfolding first_code
keys_apart token account_id e = absurd (different (ap first_code e))
  where
    different : Path ℕ (first_code (reveal_key token)) (first_code (pending_key account_id)) → ⊥
    different e = ground arith

module _ {Redis : Type 0} (redis : RedisKeys Redis) where
  -- A claim when both are there.
  reveal-both :
      (account_id token : String) (r : Redis) (waiting : Credentials)
      → redis.get (reveal_key token) r ≡ some (account account_id)
      → redis.get (pending_key account_id) r ≡ some (pending waiting)
      → (reveal redis account_id token r).0
        ≡ some (record {
          account_id = account_id;
          portal_token = waiting.portal_token;
          mobile_api_key = waiting.mobile_api_key;
        })
  unfolding reveal
  reveal-both account_id token r waiting t p =
      let kept =
        redis.get-delete_other (reveal_key token) (pending_key account_id) r
          (keys_apart token account_id)
        ∙ p in
      rw (t, reveal, str_eq_refl, kept) refl

  -- After a reference is issued and the webhook has stored the account's credentials,
  -- the claim gives them.
  pub stash-reveal :
      (account_id token portal_token mobile_api_key : String) (r : Redis)
      → (reveal redis account_id token (
          stash_credentials redis account_id portal_token mobile_api_key
            (create_reveal_token redis account_id token r))).0
        ≡ some (record {
          account_id = account_id;
          portal_token = portal_token;
          mobile_api_key = mobile_api_key;
        })
  unfolding stash_credentials create_reveal_token
  stash-reveal account_id token portal_token mobile_api_key r =
      let waiting : Credentials = record {
        account_id = account_id;
        portal_token = portal_token;
        mobile_api_key = mobile_api_key;
      } in
      let issued = redis.set (reveal_key token) (account account_id) r in
      reveal-both account_id token (redis.set (pending_key account_id) (pending waiting) issued)
        waiting
        (redis.get-set_other (pending_key account_id) (reveal_key token) (pending waiting) issued
            (λ e. keys_apart token account_id (sym e))
          ∙ redis.get-set (reveal_key token) (account account_id) r)
        (redis.get-set (pending_key account_id) (pending waiting) issued)

  unknown_reveal :
      (other token : String) (r : Redis)
      → redis.get (reveal_key token) r ≡ none
      → (reveal redis other token r).0 ≡ none
  unfolding reveal
  unknown_reveal other token r n = rw (n, reveal) refl

  claim_spends :
      (found : Option Value) (account_id token : String) (r : Redis) (claimed : Credentials)
      → redis.get (reveal_key token) r ≡ none
      → (claim redis found account_id token r).0 ≡ some claimed
      → redis.get (reveal_key token) ((claim redis found account_id token r).1) ≡ none
  claim_spends none account_id token r claimed n e = ground arith
  claim_spends (some (account a)) account_id token r claimed n e = ground arith
  claim_spends (some (pending waiting)) account_id token r claimed n e =
      redis.get-delete_other (pending_key account_id) (reveal_key token) r
        (λ k. keys_apart token account_id (sym k))
      ∙ n

  reveal_spends :
      (account_id token : String) (r : Redis) (claimed : Credentials)
      → (reveal redis account_id token r).0 ≡ some claimed
      → redis.get (reveal_key token) ((reveal redis account_id token r).1) ≡ none
  unfolding reveal
  reveal_spends account_id token r claimed e =
      let left = redis.delete (reveal_key token) r in
      elim (Option-cases (stored_account redis (redis.get (reveal_key token) r))) [
        | inl n ↦ cc (rw (n, reveal) at e)
        | inr (stored, p) ↦ elim (Bool-cases (str_eq stored account_id)) [
          | inr foreign ↦ cc (rw (p, foreign, reveal) at e)
          | inl own ↦
              rw (p, own, reveal)
                (claim_spends (redis.get (pending_key account_id) left) account_id token left
                  claimed (redis.get-delete (reveal_key token) r) (rw (p, own, reveal) at e))
        ]
      ]

  -- A claim of credentials works once: after it the same reference gives nothing, to any account.
  pub reveal-reveal :
      (account_id other token : String) (r : Redis) (claimed : Credentials)
      → (reveal redis account_id token r).0 ≡ some claimed
      → (reveal redis other token ((reveal redis account_id token r).1)).0 ≡ none
  reveal-reveal account_id other token r claimed e =
      unknown_reveal other token ((reveal redis account_id token r).1)
        (reveal_spends account_id token r claimed e)

  early_reveal :
      (account_id token : String) (r : Redis)
      → redis.get (reveal_key token) r ≡ some (account account_id)
      → redis.get (pending_key account_id) r ≡ none
      → reveal redis account_id token r ≡ (
        none,
        redis.set (reveal_key token) (account account_id) (redis.delete (reveal_key token) r),
      )
  unfolding reveal
  early_reveal account_id token r t p =
      let kept =
        redis.get-delete_other (reveal_key token) (pending_key account_id) r
          (keys_apart token account_id)
        ∙ p in
      rw (t, reveal, str_eq_refl, kept) refl

  -- A claim that comes before the webhook gives nothing and loses nothing: after the webhook the
  -- same reference gives the credentials.
  pub early_reveal-reveal :
      (account_id token portal_token mobile_api_key : String) (r : Redis)
      → redis.get (reveal_key token) r ≡ some (account account_id)
      → redis.get (pending_key account_id) r ≡ none
      → ((reveal redis account_id token r).0 ≡ none)
        × ((reveal redis account_id token (
              stash_credentials redis account_id portal_token mobile_api_key
                ((reveal redis account_id token r).1))).0
            ≡ some (record {
              account_id = account_id;
              portal_token = portal_token;
              mobile_api_key = mobile_api_key;
            }))
  unfolding stash_credentials
  early_reveal-reveal account_id token portal_token mobile_api_key r t p =
      let waiting : Credentials = record {
        account_id = account_id;
        portal_token = portal_token;
        mobile_api_key = mobile_api_key;
      } in
      let early = early_reveal account_id token r t p in
      let back = (reveal redis account_id token r).1 in
      (
        ap (λ x. x.0) early,
        reveal-both account_id token (redis.set (pending_key account_id) (pending waiting) back)
            waiting
            (redis.get-set_other (pending_key account_id) (reveal_key token) (pending waiting) back
                (λ e. keys_apart token account_id (sym e))
              ∙ ap (λ x. redis.get (reveal_key token) x.1) early
              ∙ redis.get-set (reveal_key token) (account account_id)
                  (redis.delete (reveal_key token) r))
            (redis.get-set (pending_key account_id) (pending waiting) back),
      )
