-- ===== src/Accounts/Recovery.antt =====
-- The reset of a password and the confirmation of a phone, by one-time tokens
-- (`request_password_reset`, `reset_password`, `request_phone_otp` and `verify_phone_otp` of
-- backend/app/services/auth_service.py).
use aegis_platform_server_te.Prelude.{
  ℕ, ◌+◌, Bool, true, false, not, ◌&&◌, Option, none, some, List, String, ltb, if◌then◌else◌, find,
  update, add_row, is_empty, strip,
}
use aegis_platform_server_te.Models.{hours, minutes}
use aegis_platform_server_te.Accounts.{
  UserAccount, AuthToken, AccountStore, Result, scalar_one_or_none, normal, has_email, has_user_id,
  has_phone, live_session_of, live_token, live_otp, is_found, text_length, revoke_session,
  use_token, password_reset, phone_otp, ok, raised, value_error, integrity_error, new_token,
}

abbrev pub with_phone : String → ℕ → UserAccount → UserAccount
with_phone phone now u = record u { phone = some phone; phone_verified = true; updated_at = now }

-- Another account has the phone.
abbrev pub has_phone_not : String → ℕ → UserAccount → Bool
has_phone_not phone user_id u = has_phone phone u && not (has_user_id user_id u)

-- The account that the code is confirmed for, if an email is given and known.
abbrev pub confirmed_user : Option String → List UserAccount → Option UserAccount
confirmed_user none users = none
confirmed_user (some email) users =
    if is_empty email then none else find (has_email (normal email)) users

abbrev pub phone_confirmed :
    Option UserAccount → (AuthToken → Bool) → String → ℕ → AccountStore → Result Bool × AccountStore
phone_confirmed none p phone now store =
    (ok true, record store { tokens = update p use_token store.tokens })
phone_confirmed (some user) p phone now store =
    if is_found (find (has_phone_not phone user.id) store.users)
    then (raised integrity_error, store)
    else (
      ok true,
      record store {
        users = update (has_user_id user.id) (with_phone phone now) store.users;
        tokens = update p use_token store.tokens;
      },
    )

abbrev pub otp_checked :
    Result (Option AuthToken)
    → (AuthToken → Bool)
    → String
    → Option String
    → ℕ
    → AccountStore
    → Result Bool × AccountStore
otp_checked (raised e) p phone email now store = (raised e, store)
otp_checked (ok none) p phone email now store = (ok false, store)
otp_checked (ok (some row)) p phone email now store =
    if ltb row.expires_at now
    then (ok false, store)
    else phone_confirmed (confirmed_user email store.users) p phone now store

-- The row's user, `UserAccount.id == row.user_id`, which no row satisfies for `None`.
abbrev pub user_of : Option ℕ → List UserAccount → Option UserAccount
user_of none users = none
user_of (some user_id) users = find (has_user_id user_id) users

module _ (hash_token : String → String) where
  unfoldable pub request_password_reset :
      String → String → ℕ → AccountStore → Option String × AccountStore
  request_password_reset email raw now store = elim (find (has_email (normal email)) store.users) [
    | none ↦ (none, store)
    | some user ↦ (
      some raw,
      record store {
        tokens =
            add_row
              (new_token hash_token (some user.id) (some (normal email)) none password_reset raw
                (now + hours 24) now)
              store.tokens;
      },
    )
  ]

  -- The code is drawn by the caller, six digits.
  unfoldable pub request_phone_otp : String → String → ℕ → AccountStore → String × AccountStore
  request_phone_otp phone code now store = (
    code,
    record store {
      tokens =
          add_row
            (new_token hash_token none none (some (strip phone)) phone_otp code (now + minutes 10)
              now)
            store.tokens;
    },
  )

  unfoldable pub verify_phone_otp :
      String → String → Option String → ℕ → AccountStore → Result Bool × AccountStore
  verify_phone_otp phone code email now store =
      let p = live_otp (hash_token (strip code)) (strip phone) in
      otp_checked (scalar_one_or_none p store.tokens) p (strip phone) email now store

module _ (hash_password : String → String → String) where
  abbrev pub with_password : String → String → ℕ → UserAccount → UserAccount
  with_password password salt now u = record u {
    password_hash = hash_password password salt;
    password_salt = salt;
    updated_at = now;
  }

  abbrev pub password_reset_done :
      Option UserAccount
      → (AuthToken → Bool)
      → String
      → String
      → ℕ
      → AccountStore
      → Result Bool × AccountStore
  password_reset_done none p password salt now store = (ok false, store)
  password_reset_done (some user) p password salt now store = (
    ok true,
    record {
      users = update (has_user_id user.id) (with_password password salt now) store.users;
      sessions = update (live_session_of user.id) (revoke_session now) store.sessions;
      tokens = update p use_token store.tokens;
    },
  )

  abbrev pub reset_checked :
      Result (Option AuthToken)
      → (AuthToken → Bool)
      → String
      → String
      → ℕ
      → AccountStore
      → Result Bool × AccountStore
  reset_checked (raised e) p password salt now store = (raised e, store)
  reset_checked (ok none) p password salt now store = (ok false, store)
  reset_checked (ok (some row)) p password salt now store =
      if ltb row.expires_at now
      then (ok false, store)
      else password_reset_done (user_of row.user_id store.users) p password salt now store

module _ (hash_password : String → String → String) (hash_token : String → String) where
  unfoldable pub reset_password :
      String → String → String → ℕ → AccountStore → Result Bool × AccountStore
  reset_password token password salt now store =
      let p = live_token (hash_token token) password_reset in
      if ltb (text_length password) 8
      then (raised value_error, store)
      else reset_checked hash_password (scalar_one_or_none p store.tokens) p password salt now store
