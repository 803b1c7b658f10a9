-- ===== src/Accounts/Login.antt =====
-- Login, and the sessions that it opens (`login`, `resolve_session`, `logout` and `logout_all` of
-- backend/app/services/auth_service.py).
use aegis_platform_server_te.Prelude.{
  ℕ, ◌+◌, Bool, true, false, not, ◌&&◌, Option, none, some, List, String, ltb, if◌then◌else◌, find,
  update, add_row, count_where, is_empty,
}
use aegis_platform_server_te.Models.{days}
use aegis_platform_server_te.Accounts.Totp.{verify_totp}
use aegis_platform_server_te.Accounts.{
  UserAccount, AuthSession, AccountStore, Result, normal, has_email, has_user_id, has_session,
  live_session, live_session_of, is_found, revoke_session, LoginReply, ok, raised, value_error,
  verify_password,
}

abbrev pub logged_in : ℕ → UserAccount → UserAccount
logged_in now u = record u { last_login_at = some now }

unfoldable pub logout_all : ℕ → ℕ → AccountStore → ℕ × AccountStore
logout_all user_id now store = (
  count_where (live_session_of user_id) store.sessions,
  record store { sessions = update (live_session_of user_id) (revoke_session now) store.sessions },
)

module _ (hash_token : String → String) where
  abbrev pub new_session : UserAccount → String → ℕ → AuthSession
  new_session user raw now = record {
    session_token_hash = hash_token raw;
    user_id = user.id;
    account_id = user.account_id;
    created_at = now;
    expires_at = now + days 30;
    revoked = false;
    revoked_at = none;
  }

  abbrev pub opened :
      Result UserAccount → String → ℕ → AccountStore → Result LoginReply × AccountStore
  opened (raised e) raw now store = (raised e, store)
  opened (ok user) raw now store = (
    ok (record {
      session_token = raw;
      account_id = user.account_id;
      email = user.email;
      email_verified = user.email_verified;
      totp_enabled = user.totp_enabled;
      is_admin = user.is_admin;
    }),
    record store {
      users = update (has_user_id user.id) (logged_in now) store.users;
      sessions = add_row (new_session user raw now) store.sessions;
    },
  )

  unfoldable pub resolve_session : String → ℕ → AccountStore → Option UserAccount
  resolve_session token now store = elim (find (live_session (hash_token token)) store.sessions) [
    | none ↦ none
    | some row ↦ if ltb row.expires_at now then none else find (has_user_id row.user_id) store.users
  ]

  unfoldable pub logout : String → ℕ → AccountStore → Bool × AccountStore
  logout token now store =
      let h = hash_token token in
      if is_found (find (has_session h) store.sessions)
      then (
        true,
        record store { sessions = update (has_session h) (revoke_session now) store.sessions },
      )
      else (false, store)

module _ (digest : String → ℕ → List ℕ) where
  -- `not totp_code or not user.totp_secret or not verify_totp(…)`, negated.
  unfoldable pub totp_passes : Option String → Option String → ℕ → Bool
  totp_passes none code now = false
  totp_passes (some secret) none now = false
  totp_passes (some secret) (some code) now =
      not (is_empty code) && (not (is_empty secret) && verify_totp digest secret code now)

module _ (hash_password : String → String → String) (digest : String → ℕ → List ℕ) where
  unfoldable pub login_check : Option UserAccount → String → Option String → ℕ → Result UserAccount
  login_check none password totp_code now = raised value_error
  login_check (some user) password totp_code now =
      if not (verify_password hash_password password user)
      then raised value_error
      else if user.totp_enabled && not (totp_passes digest user.totp_secret totp_code now)
      then raised value_error
      else ok user

module _ (hash_password : String → String → String) (hash_token : String → String)
    (digest : String → ℕ → List ℕ) where
  unfoldable pub login :
      String → String → Option String → String → ℕ → AccountStore → Result LoginReply × AccountStore
  unfolding login_check
  login email password totp_code raw now store =
      opened hash_token
        (login_check hash_password digest (find (has_email (normal email)) store.users) password
          totp_code now)
        raw now store
