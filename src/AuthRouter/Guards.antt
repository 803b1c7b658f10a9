-- ===== src/AuthRouter/Guards.antt =====
-- The endpoints of backend/app/api/auth_router.py that act for the account of a session.
use aegis_platform_server_te.Prelude.{
  ℕ, ◌≡◌, refl, ap, Response-cases, false, none, some, Option, List, String, inl, inr, ◌==◌,
  Bool-cases, Option-cases, starts_with, ok, http_error, lower,
}
use aegis_platform_server_te.Accounts.{UserAccount, AccountStore}
use aegis_platform_server_te.Accounts.Login.{resolve_session}
use aegis_platform_server_te.Accounts.Sessions.{logout_all-resolve}
use aegis_platform_server_te.AuthRouter.{
  bearer, session_user, logout_all, me, totp_setup, totp_enable, totp_disable,
}

-- The header names a token whose session is over, or names none.
abbrev pub HasNoSession : (String → String) → Option String → ℕ → AccountStore → Type 0
HasNoSession hash_token authorization now store =
    (token : String)
    → bearer authorization ≡ ok token
    → resolve_session hash_token token now store ≡ none

bearer_401 : (authorization : Option String) (c : ℕ) → bearer authorization ≡ http_error c → c ≡ 401
unfolding bearer
bearer_401 none c e = cc
bearer_401 (some a) c e = elim (Bool-cases (starts_with (lower a) "bearer ")) [
  | inl t ↦ cc (rw (t, bearer) at e)
  | inr f ↦ cc (rw (f, bearer) at e)
]

module _ (hash_token : String → String) where
  bearer_refused :
      (authorization : Option String) (now : ℕ) (store : AccountStore)
      → HasNoSession hash_token authorization now store
      → session_user hash_token authorization now store ≡ http_error 401
  unfolding session_user
  bearer_refused authorization now store h = elim (Response-cases (bearer authorization)) [
    | inl (token, e) ↦ rw (e, session_user, h token e) refl
    | inr (c, e) ↦ rw (e, session_user, bearer_401 authorization c e) refl
  ]

module _ (hash_password : String → String → String) (hash_token : String → String)
    (digest : String → ℕ → List ℕ) where
  -- Without a session that lives, every endpoint that acts for an account answers 401 and leaves
  -- the store as it is.
  pub guarded_refused :
      (authorization : Option String) (drawn otp password : String) (now : ℕ) (store : AccountStore)
      → HasNoSession hash_token authorization now store
      → (me hash_token authorization now store ≡ http_error 401)
        × (logout_all hash_token authorization now store ≡ (http_error 401, store))
        × (totp_setup hash_token authorization drawn now store ≡ (http_error 401, store))
        × (totp_enable hash_token digest authorization otp now store ≡ (http_error 401, store))
        × (totp_disable hash_password hash_token digest authorization password otp now store
            ≡ (http_error 401, store))
  unfolding me logout_all totp_setup totp_enable totp_disable
  guarded_refused authorization drawn otp password now store h =
      let refused = bearer_refused hash_token authorization now store h in
      rw (refused, me, logout_all, totp_setup, totp_enable, totp_disable)
        (refl, refl, refl, refl, refl)

module _ (hash_token : String → String) where
  session_resolved :
      (authorization : Option String) (now : ℕ) (store : AccountStore) (user : UserAccount)
      → session_user hash_token authorization now store ≡ ok user
      → (token : String) × (resolve_session hash_token token now store ≡ some user)
  unfolding session_user
  session_resolved authorization now store user e = elim (Response-cases (bearer authorization)) [
    | inr (c, b) ↦ cc (rw (b, session_user) at e)
    | inl (token, b) ↦ elim (Option-cases (resolve_session hash_token token now store)) [
      | inl n ↦ cc (rw (b, session_user, n) at e)
      | inr (found, s) ↦ (token, rw (s) (cc (rw (b, session_user, s) at e)))
    ]
  ]

  -- After a logout everywhere, by the header of whatever session, no header opens the account of
  -- that session again, until it logs in anew.
  pub logout_all-session :
      (authorization other : Option String) (now later n : ℕ) (store after : AccountStore)
      (user resolved : UserAccount)
      → session_user hash_token authorization now store ≡ ok user
      → logout_all hash_token authorization now store ≡ (ok n, after)
      → session_user hash_token other later after ≡ ok resolved
      → (resolved.id == user.id) ≡ false
  unfolding logout_all
  logout_all-session authorization other now later n store after user resolved u e r =
      let (token, p) = session_resolved other later after resolved r in
      logout_all-resolve hash_token user.id now later token store resolved
        (rw (ap (λ x. x.1) (rw (u, logout_all) at e)) p)
