-- ===== src/Accounts/Factors.antt =====
-- Two-factor login of backend/app/services/auth_service.py, against logins.
use aegis_platform_server_te.Prelude.{
  ℕ, ◌≡◌, ◌≢◌, ◌↔◌, ◌⊎◌, refl, inl, inr, true, false, Option, none, some, List, String, arith, find,
  update, is_empty, Bool-cases, Option-cases, find-update, find_holds,
}
use aegis_platform_server_te.Accounts.{
  UserAccount, AccountStore, ok, normal, has_email, has_user_id, LoginReply, verify_password,
}
use aegis_platform_server_te.Accounts.Totp.{verify_totp}
use aegis_platform_server_te.Accounts.Login.{login, totp_passes}
use aegis_platform_server_te.Accounts.SecondFactor.{
  with_secret, setup_2fa, enable_2fa, enabled_2fa, disable_2fa, may_enable,
}
use aegis_platform_server_te.Accounts.Sessions.{login-ok_iff}

module _ (hash_password : String → String → String) (hash_token : String → String)
    (digest : String → ℕ → List ℕ) where
  -- Starting the setup of two-factor login, which a session is enough for, turns it off for an
  -- account that had it on: from then on the password alone opens a session.
  pub setup-login :
      (user_id now later : ℕ) (secret email password raw : String) (store : AccountStore)
      (user : UserAccount)
      → find (has_user_id user_id) store.users ≡ some user
      → find (has_email (normal email)) store.users ≡ some user
      → verify_password hash_password password user ≡ true
      → (reply : LoginReply) × ((login hash_password hash_token digest email password none raw later
            ((setup_2fa user_id secret now store).1)).0
          ≡ ok reply)
  unfolding setup_2fa
  setup-login user_id now later secret email password raw store user i e right =
      let stored =
        find-update (has_email (normal email)) (has_user_id user_id) (with_secret secret now)
          (λ x. refl) store.users in
      let (there, back) =
        login-ok_iff hash_password hash_token digest email password raw none later (record store {
          users = update (has_user_id user_id) (with_secret secret now) store.users;
        }) in
      rw (i, setup_2fa)
        (back (
          with_secret secret now user,
          rw (stored, e, find_holds (has_user_id user_id) user store.users i) refl,
          (right, inl refl),
        ))

  no_code :
      (now later : ℕ) (user u : UserAccount)
      → Path (Option UserAccount) (some (enabled_2fa now user)) (some u)
      → ((u.totp_enabled ≡ false) ⊎ (totp_passes digest u.totp_secret none later ≡ true))
      → ⊥
  unfolding totp_passes
  no_code now later user u e (inl off) = ground arith
  no_code now later user u e (inr passes) = elim (Option-cases u.totp_secret) [
    | inl n ↦ cc (rw (n, totp_passes) at passes)
    | inr (s, p) ↦ cc (rw (p, totp_passes) at passes)
  ]

  -- After two-factor login was turned on, a login without a code fails, whatever the password.
  pub enable-login :
      (user_id now later : ℕ) (code email password raw : String) (store : AccountStore)
      (user : UserAccount) (reply : LoginReply)
      → (enable_2fa digest user_id code now store).0 ≡ true
      → find (has_user_id user_id) store.users ≡ some user
      → find (has_email (normal email)) store.users ≡ some user
      → (login hash_password hash_token digest email password none raw later
          ((enable_2fa digest user_id code now store).1)).0
        ≢ ok reply
  unfolding enable_2fa
  enable-login user_id now later code email password raw store user reply on i e opens =
      let stored =
        find-update (has_email (normal email)) (has_user_id user_id) (enabled_2fa now) (λ x. refl)
          store.users in
      let (there, back) =
        login-ok_iff hash_password hash_token digest email password raw none later
          (record store { users = update (has_user_id user_id) (enabled_2fa now) store.users }) in
      elim (Bool-cases (may_enable digest (some user) code now)) [
        | inr wrong ↦ cc (rw (i, wrong, enable_2fa) at on)
        | inl right ↦
            let (u, f, (p, q)) = there (reply, rw (i, enable_2fa, right) at opens) in
            let g = rw (stored, e, find_holds (has_user_id user_id) user store.users i) at f in
            no_code now later user u g q
      ]

  -- Two-factor login is turned off with the password, and with a code where it is on.
  pub disable-true_iff :
      (user_id now : ℕ) (password code : String) (store : AccountStore)
      → ((disable_2fa hash_password digest user_id password code now store).0 ≡ true) ↔ (
          (user : UserAccount) × (find (has_user_id user_id) store.users ≡ some user)
          × (verify_password hash_password password user ≡ true)
          × ((user.totp_enabled ≡ false)
              ⊎ ((secret : String) × (user.totp_secret ≡ some secret)
                  × (is_empty secret ≡ false)
                  × (verify_totp digest secret code now ≡ true))))
  unfolding disable_2fa
  disable-true_iff user_id now password code store =
      elim (Option-cases (find (has_user_id user_id) store.users)) [
        | inl n ↦ rw (n, disable_2fa) (λ h. ground arith, λ h. ground arith)
        | inr (user, p) ↦ rw (p, disable_2fa) (ground arith)
      ]
