-- ===== src/AuthRouter/Takeover.antt =====
-- `password_forgot`, `password_reset` and `login` of backend/app/api/auth_router.py, one after
-- another.
use aegis_platform_server_te.Prelude.{
  ℕ, ◌+◌, ◌≤◌, ◌≡◌, refl, true, false, none, some, List, String, ltb, str_eq_refl, arith, ok, find,
  add_row, count_where, find-add_row, count-add_row, find-count_none,
}
use aegis_platform_server_te.Models.{hours}
use aegis_platform_server_te.Accounts.{
  UserAccount, AuthToken, AccountStore, normal, has_email, has_user_id, live_token, live_session_of,
  password_reset, text_length, revoke_session, use_token, LoginReply, new_token,
}
use aegis_platform_server_te.Accounts
use aegis_platform_server_te.Accounts.Recovery.{request_password_reset, reset_password}
use aegis_platform_server_te.Accounts.Resets.{reset-login}
use aegis_platform_server_te.AuthRouter
use aegis_platform_server_te.AuthRouter.{password_forgot, login}

module _ (hash_token : String → String) where
  -- The row that a request for a reset adds.
  abbrev pub reset_row : UserAccount → String → String → ℕ → AuthToken
  reset_row user email raw now =
      new_token hash_token (some user.id) (some (normal email)) none password_reset raw
        (now + hours 24) now

  abbrev pub asked : UserAccount → String → String → ℕ → AccountStore → AccountStore
  asked user email raw now store = record store {
    tokens = add_row (reset_row user email raw now) store.tokens;
  }

  forgot_leaves :
      (email raw : String) (now : ℕ) (store : AccountStore) (user : UserAccount)
      → find (has_email (normal email)) store.users ≡ some user
      → password_forgot hash_token email raw now store
        ≡ (ok (some raw), asked user email raw now store)
  unfolding password_forgot request_password_reset
  forgot_leaves email raw now store user e = rw (e, request_password_reset) refl

  row_found :
      (user : UserAccount) (email raw : String) (now : ℕ) (store : AccountStore)
      → find (live_token (hash_token raw) password_reset) store.tokens ≡ none
      → find
          (live_token (hash_token raw) password_reset)
          (add_row (reset_row user email raw now) store.tokens)
        ≡ some (reset_row user email raw now)
  row_found user email raw now store fresh =
      let p = live_token (hash_token raw) password_reset in
      rw (find-add_row p (reset_row user email raw now) store.tokens fresh, str_eq_refl) refl

  one_row :
      (user : UserAccount) (email raw : String) (now : ℕ) (store : AccountStore)
      → find (live_token (hash_token raw) password_reset) store.tokens ≡ none
      → count_where
          (live_token (hash_token raw) password_reset)
          (add_row (reset_row user email raw now) store.tokens)
        ≡ 1
  one_row user email raw now store fresh =
      let p = live_token (hash_token raw) password_reset in
      rw
        (
          count-add_row p (reset_row user email raw now) store.tokens,
          find-count_none p store.tokens fresh,
          str_eq_refl,
        )
        (omega arith)

module _ (hash_password : String → String → String) (hash_token : String → String) where
  -- A token that was just asked for resets the password.
  asked-resets :
      (email raw password salt : String) (now later : ℕ) (store : AccountStore) (user : UserAccount)
      → find (has_user_id user.id) store.users ≡ some user
      → find (live_token (hash_token raw) password_reset) store.tokens ≡ none
      → 8 ≤ text_length password
      → later ≤ now + hours 24
      → (after : AccountStore) × (reset_password hash_password hash_token raw password salt later
            (asked hash_token user email raw now store)
          ≡ (Accounts.ok true, after))
  unfolding reset_password
  asked-resets email raw password salt now later store user i fresh long in_time =
      let p = live_token (hash_token raw) password_reset in
      let short : ltb (text_length password) 8 ≡ false = ground arith in
      let late : ltb (now + hours 24) later ≡ false = ground arith in
      rw
        (
          short,
          one_row hash_token user email raw now store fresh,
          row_found hash_token user email raw now store fresh,
          late,
          i,
          reset_password,
        )
        (_, refl)

module _ (hash_password : String → String → String) (hash_token : String → String)
    (digest : String → ℕ → List ℕ) where
  -- Whoever knows the email of an account without two-factor login can take it over with no other
  -- secret: the answer to a forgotten password holds a reset token, which within a day is accepted
  -- with a password of the caller's choice of at least eight characters, and then a login with that
  -- email and that password succeeds. The token's hash must be new in the table, and the account the one row of its id.
  pub forgot_takes_over :
      (email raw password salt session : String) (now later last : ℕ) (store : AccountStore)
      (user : UserAccount)
      → find (has_email (normal email)) store.users ≡ some user
      → find (has_user_id user.id) store.users ≡ some user
      → find (live_token (hash_token raw) password_reset) store.tokens ≡ none
      → user.totp_enabled ≡ false
      → 8 ≤ text_length password
      → later ≤ now + hours 24
      → (first second : AccountStore) × (password_forgot hash_token email raw now store
          ≡ (ok (some raw), first))
        × (AuthRouter.password_reset hash_password hash_token raw password salt later first
            ≡ (ok tt, second))
        × ((reply : LoginReply) × ((login hash_password hash_token digest email password none
                session last second).0
              ≡ ok reply))
  unfolding AuthRouter.password_reset login
  forgot_takes_over email raw password salt session now later last store user e i fresh off long
        in_time =
      let first = asked hash_token user email raw now store in
      let (second, done) =
        asked-resets hash_password hash_token email raw password salt now later store user i fresh
          long in_time in
      let short : ltb (text_length password) 8 ≡ false = ground arith in
      let (reply, r) =
        reset-login hash_password hash_token digest raw password salt email session later last first
          second (reset_row hash_token user email raw now) user done
          (row_found hash_token user email raw now store fresh) i e off in
      (
        first,
        second,
        forgot_leaves hash_token email raw now store user e,
        rw (short, done) refl,
        (reply, rw (r) refl),
      )
