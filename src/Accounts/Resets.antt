-- ===== src/Accounts/Resets.antt =====
-- `reset_password` of backend/app/services/auth_service.py, against logins and sessions.
use aegis_platform_server_te.Prelude.{
  ℕ, ◌≤◌, ◌≡◌, refl, sym, ◌∙◌, inl, inr, true, false, none, some, List, String, leb, ltb, ◌==◌,
  str_eq_refl, arith, find, update, count_where, Bool-cases, Option-cases, find-update,
  find-update-none, find-count_none,
}
use aegis_platform_server_te.Accounts.{
  UserAccount, AuthToken, AccountStore, ok, normal, has_email, has_user_id, live_session_of,
  live_token, password_reset, text_length, revoke_session, use_token, LoginReply,
}
use aegis_platform_server_te.Accounts.Login.{resolve_session, login}
use aegis_platform_server_te.Accounts.Recovery.{with_password, reset_password, user_of}
use aegis_platform_server_te.Accounts.Sessions.{revoked_resolve, login-ok_iff}

just : {A : Type 0} (a b : A) → some a ≡ some b → a ≡ b
just a b e = cc

module _ (hash_password : String → String → String) (hash_token : String → String) where
  -- What a successful reset has found, and what it leaves.
  pub reset_leaves :
      (token password salt : String) (now : ℕ) (store after : AccountStore)
      → reset_password hash_password hash_token token password salt now store ≡ (ok true, after)
      → (row : AuthToken) × (user : UserAccount) × (find
            (live_token (hash_token token) password_reset)
            store.tokens
          ≡ some row)
        × (user_of row.user_id store.users ≡ some user)
        × (after ≡ record {
          users =
              update
                (has_user_id user.id)
                (with_password hash_password password salt now)
                store.users;
          sessions = update (live_session_of user.id) (revoke_session now) store.sessions;
          tokens = update (live_token (hash_token token) password_reset) use_token store.tokens;
        })
  unfolding reset_password
  reset_leaves token password salt now store after e =
      let p = live_token (hash_token token) password_reset in
      elim (Bool-cases (ltb (text_length password) 8)) [
        | inl short ↦ cc (rw (short, reset_password) at e)
        | inr enough ↦ elim (Bool-cases (leb (count_where p store.tokens) 1)) [
          | inr many ↦ cc (rw (enough, many, reset_password) at e)
          | inl single ↦ elim (Option-cases (find p store.tokens)) [
            | inl n ↦ cc (rw (enough, single, n, reset_password) at e)
            | inr (row, f) ↦ elim (Bool-cases (ltb row.expires_at now)) [
              | inl late ↦ cc (rw (enough, single, f, late, reset_password) at e)
              | inr in_time ↦ elim (Option-cases (user_of row.user_id store.users)) [
                | inl n ↦ cc (rw (enough, single, f, in_time, n, reset_password) at e)
                | inr (user, u) ↦
                    (row, user, f, u, cc (rw (enough, single, f, in_time, u, reset_password) at e))
              ]
            ]
          ]
        ]
      ]

  -- After a reset no session of the user, opened before it, gives the user's account.
  pub reset-resolve :
      (token password salt session : String) (now later : ℕ) (store after : AccountStore)
      (row : AuthToken) (user resolved : UserAccount)
      → reset_password hash_password hash_token token password salt now store ≡ (ok true, after)
      → find (live_token (hash_token token) password_reset) store.tokens ≡ some row
      → user_of row.user_id store.users ≡ some user
      → resolve_session hash_token session later after ≡ some resolved
      → (resolved.id == user.id) ≡ false
  reset-resolve token password salt session now later store after row user resolved done f u e =
      let (row', user', f', u', leaves) = reset_leaves token password salt now store after done in
      let same_row = just row' row (sym f' ∙ f) in
      let same_user = just user' user (sym u' ∙ rw same_row u) in
      let ended =
        revoked_resolve hash_token session user'.id now later
          (record {
            users =
                update (has_user_id user'.id) (with_password hash_password password salt now)
                  store.users;
            sessions = store.sessions;
            tokens = update (live_token (hash_token token) password_reset) use_token store.tokens;
          })
          resolved (rw leaves at e) in
      rw same_user at ended

  -- A reset token works once: when it is used again nothing changes, and a password that is long
  -- enough is answered with `False`.
  pub reset-reset :
      (token password salt again salt' : String) (now later : ℕ) (store after : AccountStore)
      → reset_password hash_password hash_token token password salt now store ≡ (ok true, after)
      → (8 ≤ text_length again)
      → reset_password hash_password hash_token token again salt' later after ≡ (ok false, after)
  unfolding reset_password find count_where
  reset-reset token password salt again salt' now later store after done long =
      let p = live_token (hash_token token) password_reset in
      let (row, user, f, u, leaves) = reset_leaves token password salt now store after done in
      let gone = find-update-none p p use_token (λ x h. ground arith) (λ x h. h) store.tokens in
      rw (leaves, gone, find-count_none p (update p use_token store.tokens) gone) (ground arith)

module _ (hash_password : String → String → String) (hash_token : String → String)
    (digest : String → ℕ → List ℕ) where
  -- After a reset the new password opens a session for the user whose token it was, when two-factor
  -- login is off for them.
  pub reset-login :
      (token password salt email raw : String) (now later : ℕ) (store after : AccountStore)
      (row : AuthToken) (user : UserAccount)
      → reset_password hash_password hash_token token password salt now store ≡ (ok true, after)
      → find (live_token (hash_token token) password_reset) store.tokens ≡ some row
      → user_of row.user_id store.users ≡ some user
      → find (has_email (normal email)) store.users ≡ some user
      → user.totp_enabled ≡ false
      → (reply : LoginReply) × ((login hash_password hash_token digest email password none raw later
            after).0
          ≡ ok reply)
  reset-login token password salt email raw now later store after row user done f u e off =
      let (row', user', f', u', leaves) =
        reset_leaves hash_password hash_token token password salt now store after done in
      let same_row = just row' row (sym f' ∙ f) in
      let same_user = just user' user (sym u' ∙ rw same_row u) in
      let stored =
        find-update (has_email (normal email)) (has_user_id user'.id)
          (with_password hash_password password salt now) (λ x. refl) store.users in
      let (there, back) =
        login-ok_iff hash_password hash_token digest email password raw none later after in
      back (
        with_password hash_password password salt now user,
        rw (leaves, stored, e, same_user) (ground arith),
        (str_eq_refl (hash_password password salt), inl off),
      )
