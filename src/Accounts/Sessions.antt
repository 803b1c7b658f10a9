-- ===== src/Accounts/Sessions.antt =====
-- Sessions from login to logout (backend/app/services/auth_service.py).
use aegis_platform_server_te.Prelude.{
  ℕ, ◌+◌, ◌≤◌, ◌≡◌, ◌↔◌, ◌⊎◌, refl, inl, inr, true, false, Option, none, some, List, String, ltb,
  ◌==◌, str_eq_refl, arith, find, update, add_row, Bool-cases, Option-cases, find-update,
  find-update-none, find-update_apart, find-add_row, find_holds, find_weaker_none,
}
use aegis_platform_server_te.Models.{days}
use aegis_platform_server_te.Accounts.{
  UserAccount, AccountStore, Result, ok, raised, normal, has_email, has_user_id, has_session,
  live_session, live_session_of, revoke_session, LoginReply, verify_password,
}
use aegis_platform_server_te.Accounts.Login.{
  logged_in, logout_all, new_session, opened, resolve_session, logout, totp_passes, login_check,
  login,
}

-- A session of a user that is revoked, by itself or with all of the user's, gives no account.
pub revoked_resolve :
    (hash_token : String → String) (token : String) (user_id now later : ℕ) (store : AccountStore)
    (user : UserAccount)
    → resolve_session hash_token token later (record store {
      sessions = update (live_session_of user_id) (revoke_session now) store.sessions;
    })
      ≡ some user
    → (user.id == user_id) ≡ false
unfolding resolve_session
revoked_resolve hash_token token user_id now later store user e =
    let rows = update (live_session_of user_id) (revoke_session now) store.sessions in
    elim (Option-cases (find (live_session (hash_token token)) rows)) [
      | inl n ↦ cc (rw (n, resolve_session) at e)
      | inr (row, p) ↦ elim (Bool-cases (ltb row.expires_at later)) [
        | inl ended ↦ cc (rw (p, resolve_session, ended) at e)
        | inr fresh ↦
            let same =
              find_holds (has_user_id row.user_id) user store.users
                (rw (p, resolve_session, fresh) at e) in
            let (apart, live) =
              find-update_apart (live_session (hash_token token)) (live_session_of user_id)
                (revoke_session now) (λ x h. ground arith) row store.sessions p in
            ground arith
      ]
    ]

module _ (hash_token : String → String) where
  -- After a logout the token gives no account, at any time.
  pub logout-resolve :
      (token : String) (now later : ℕ) (store : AccountStore)
      → resolve_session hash_token token later ((logout hash_token token now store).1) ≡ none
  unfolding logout resolve_session
  logout-resolve token now later store =
      let h = hash_token token in
      elim (Option-cases (find (has_session h) store.sessions)) [
        | inl n ↦
            let gone =
              find_weaker_none (live_session h) (has_session h) (λ x k. ground arith) store.sessions
                n in
            rw (n, logout, gone, resolve_session) refl
        | inr (row, p) ↦
            let gone =
              find-update-none (live_session h) (has_session h) (revoke_session now)
                (λ x k. ground arith) (λ x k. ground arith) store.sessions in
            rw (p, logout, gone, resolve_session) refl
      ]

  -- After a logout everywhere no token gives the user's account.
  pub logout_all-resolve :
      (user_id now later : ℕ) (token : String) (store : AccountStore) (user : UserAccount)
      → resolve_session hash_token token later ((logout_all user_id now store).1) ≡ some user
      → (user.id == user_id) ≡ false
  unfolding logout_all
  logout_all-resolve user_id now later token store user e =
      revoked_resolve hash_token token user_id now later store user e

module _ (hash_password : String → String → String) (digest : String → ℕ → List ℕ) where
  -- The two factors of a user: the password, and a code where two-factor login is on.
  abbrev pub Passes : UserAccount → String → Option String → ℕ → Type 0
  Passes user password totp_code now =
      (verify_password hash_password password user ≡ true)
      × ((user.totp_enabled ≡ false) ⊎ (totp_passes digest user.totp_secret totp_code now ≡ true))

  pub check-Passes :
      (user : UserAccount) (password : String) (totp_code : Option String) (now : ℕ)
      → Passes user password totp_code now
      → login_check hash_password digest (some user) password totp_code now ≡ ok user
  unfolding login_check
  check-Passes user password totp_code now (p, q) = ground arith

  pub Passes-check :
      (user v : UserAccount) (password : String) (totp_code : Option String) (now : ℕ)
      → login_check hash_password digest (some user) password totp_code now ≡ ok v
      → Passes user password totp_code now
  unfolding login_check
  Passes-check user v password totp_code now e =
      elim (Bool-cases (verify_password hash_password password user)) [
        | inr wrong ↦ cc (rw (wrong, login_check) at e)
        | inl right ↦ elim (Bool-cases user.totp_enabled) [
          | inr off ↦ (right, inl off)
          | inl on ↦ elim (Bool-cases (totp_passes digest user.totp_secret totp_code now)) [
            | inl good ↦ (right, inr good)
            | inr bad ↦ cc (rw (right, on, bad, login_check) at e)
          ]
        ]
      ]

module _ (hash_password : String → String → String) (hash_token : String → String)
    (digest : String → ℕ → List ℕ) where
  opened_ok :
      (r : Result UserAccount) (raw : String) (now : ℕ) (store : AccountStore) (reply : LoginReply)
      → (opened hash_token r raw now store).0 ≡ ok reply
      → (user : UserAccount) × (r ≡ ok user)
  opened_ok (raised e) raw now store reply h = ground arith
  opened_ok (ok user) raw now store reply h = (user, refl)

  -- A login opens a session exactly when the email, without spaces and in lower case, is that of an
  -- account, the password is the account's, and the code is accepted where two-factor login is on.
  pub login-ok_iff :
      (email password raw : String) (totp_code : Option String) (now : ℕ) (store : AccountStore)
      → ((reply : LoginReply) × ((login hash_password hash_token digest email password totp_code raw
              now store).0
            ≡ ok reply))
        ↔ ((user : UserAccount) × (find (has_email (normal email)) store.users ≡ some user)
            × Passes hash_password digest user password totp_code now)
  unfolding login login_check
  login-ok_iff email password raw totp_code now store = (there, back)
    where
      there :
          ((reply : LoginReply) × ((login hash_password hash_token digest email password totp_code
                raw now store).0
              ≡ ok reply))
          → ((user : UserAccount) × (find (has_email (normal email)) store.users ≡ some user)
              × Passes hash_password digest user password totp_code now)
      there (reply, h) =
          let (v, c) =
            opened_ok
              (login_check hash_password digest (find (has_email (normal email)) store.users)
                password totp_code now)
              raw now store reply h in
          elim (Option-cases (find (has_email (normal email)) store.users)) [
            | inl n ↦ cc (rw (n, login_check) at c)
            | inr (user, p) ↦ (
              user,
              p,
              Passes-check hash_password digest user v password totp_code now (rw p at c),
            )
          ]

      back :
          ((user : UserAccount) × (find (has_email (normal email)) store.users ≡ some user)
            × Passes hash_password digest user password totp_code now)
          → ((reply : LoginReply) × ((login hash_password hash_token digest email password totp_code
                  raw now store).0
                ≡ ok reply))
      back (user, p, q) =
          rw (p, login, check-Passes hash_password digest user password totp_code now q) (_, refl)

  -- What a login that passes leaves.
  login_opens :
      (email password raw : String) (totp_code : Option String) (now : ℕ) (store : AccountStore)
      (user : UserAccount)
      → find (has_email (normal email)) store.users ≡ some user
      → Passes hash_password digest user password totp_code now
      → (login hash_password hash_token digest email password totp_code raw now store).1
        ≡ record store {
          users = update (has_user_id user.id) (logged_in now) store.users;
          sessions = add_row (new_session hash_token user raw now) store.sessions;
        }
  unfolding login
  login_opens email password raw totp_code now store user e passes =
      rw (e, login, check-Passes hash_password digest user password totp_code now passes) refl

  -- A session that a login opens gives the account that logged in, until thirty days later. The
  -- random token's hash must be new in the table, and the account the one row of its id.
  pub login-resolve :
      (email password raw : String) (totp_code : Option String) (now later : ℕ)
      (store : AccountStore) (user : UserAccount)
      → find (has_email (normal email)) store.users ≡ some user
      → find (has_user_id user.id) store.users ≡ some user
      → find (has_session (hash_token raw)) store.sessions ≡ none
      → Passes hash_password digest user password totp_code now
      → later ≤ now + days 30
      → resolve_session hash_token raw later
          ((login hash_password hash_token digest email password totp_code raw now store).1)
        ≡ some (logged_in now user)
  unfolding resolve_session
  login-resolve email password raw totp_code now later store user e i fresh passes l =
      let found =
        find-add_row (live_session (hash_token raw)) (new_session hash_token user raw now)
          store.sessions
          (find_weaker_none (live_session (hash_token raw)) (has_session (hash_token raw))
            (λ x k. ground arith) store.sessions fresh) in
      let stored =
        find-update (has_user_id user.id) (has_user_id user.id) (logged_in now) (λ x. refl)
          store.users in
      let opens = login_opens email password raw totp_code now store user e passes in
      rw (opens, found, resolve_session, str_eq_refl, opens, stored, i) (ground arith)
