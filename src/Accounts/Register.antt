-- ===== src/Accounts/Register.antt =====
-- Registration and the confirmation of the email (`register` and `verify_email` of
-- backend/app/services/auth_service.py).
use aegis_platform_server_te.Prelude.{
  ℕ, zero, suc, ◌+◌, Bool, true, false, ◌||◌, Option, none, some, List, String, ltb, if◌then◌else◌,
  find, update, add_row, is_empty, or_text, text_or_empty, strip,
}
use aegis_platform_server_te.Models.{hours}
use aegis_platform_server_te.Accounts.{
  UserAccount, AuthToken, AccountStore, Result, scalar_one_or_none, normal, has_email, has_account,
  has_user_id, live_token, is_found, text_length, use_token, Drawn, given_phone, phone_used,
  phone_taken, email_verify, ok, raised, value_error, integrity_error, new_token,
}

abbrev pub verified_email : ℕ → UserAccount → UserAccount
verified_email now u = record u { email_verified = true; updated_at = now }

-- `if row.user_id:`, where a missing user changes nothing.
abbrev pub mark_email : Option ℕ → ℕ → List UserAccount → List UserAccount
mark_email none now users = users
mark_email (some zero) now users = users
mark_email (some (suc n)) now users = update (has_user_id (suc n)) (verified_email now) users

abbrev pub email_checked :
    Result (Option AuthToken) → (AuthToken → Bool) → ℕ → AccountStore → Result Bool × AccountStore
email_checked (raised e) p now store = (raised e, store)
email_checked (ok none) p now store = (ok false, store)
email_checked (ok (some row)) p now store = if ltb row.expires_at now then (ok false, store) else (
  ok true,
  record store {
    users = mark_email row.user_id now store.users;
    tokens = update p use_token store.tokens;
  },
)

module _ (hash_token : String → String) where
  abbrev pub registered : UserAccount → String → ℕ → AccountStore → AccountStore
  registered user raw now store = record store {
    users = add_row user store.users;
    tokens =
        add_row
          (new_token hash_token (some user.id) (some user.email) none email_verify raw
            (now + hours 24) now)
          store.tokens;
  }

  unfoldable pub verify_email : String → ℕ → AccountStore → Result Bool × AccountStore
  verify_email token now store =
      let p = live_token (hash_token token) email_verify in
      email_checked (scalar_one_or_none p store.tokens) p now store

module _ (hash_password : String → String → String) where
  abbrev pub new_user : String → String → Option String → Option String → Drawn → UserAccount
  new_user email password phone account_id drawn = record {
    id = drawn.user_id;
    account_id = or_text (strip (text_or_empty account_id)) drawn.account;
    email = normal email;
    phone = given_phone phone;
    password_hash = hash_password password drawn.salt;
    password_salt = drawn.salt;
    email_verified = false;
    phone_verified = false;
    is_admin = false;
    totp_secret = none;
    totp_enabled = false;
    created_at = drawn.now;
    updated_at = drawn.now;
    last_login_at = none;
  }

module _ (hash_password : String → String → String) (hash_token : String → String) where
  -- The account's id and the raw verification token are the reply.
  unfoldable pub register :
      String
      → String
      → Option String
      → Option String
      → Drawn
      → AccountStore
      → Result UserAccount × AccountStore
  register email password phone account_id drawn store =
      let user = new_user hash_password email password phone account_id drawn in
      if is_empty user.email || ltb (text_length password) 8
      then (raised value_error, store)
      else if is_found (find (has_email user.email) store.users)
      then (raised value_error, store)
      else if phone_taken phone store.users
      then (raised value_error, store)
      else if is_found (find (has_account user.account_id) store.users)
          || phone_used user.phone store.users
      then (raised integrity_error, store)
      else (ok user, registered hash_token user drawn.token drawn.now store)
