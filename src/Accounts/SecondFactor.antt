-- ===== src/Accounts/SecondFactor.antt =====
-- Two-factor login on and off (`setup_2fa`, `enable_2fa` and `disable_2fa` of
-- backend/app/services/auth_service.py).
use aegis_platform_server_te.Prelude.{
  ℕ, Bool, true, false, not, ◌&&◌, ◌||◌, Option, none, some, List, String, if◌then◌else◌, find,
  update, is_empty,
}
use aegis_platform_server_te.Accounts.Totp.{verify_totp}
use aegis_platform_server_te.Accounts.{
  UserAccount, AccountStore, Result, has_user_id, is_found, ok, raised, value_error,
  verify_password,
}

abbrev pub with_secret : String → ℕ → UserAccount → UserAccount
with_secret secret now u = record u {
  totp_secret = some secret;
  totp_enabled = false;
  updated_at = now;
}

-- The new secret is drawn by the caller and returned.
unfoldable pub setup_2fa : ℕ → String → ℕ → AccountStore → Result String × AccountStore
setup_2fa user_id secret now store =
    if is_found (find (has_user_id user_id) store.users)
    then (
      ok secret,
      record store { users = update (has_user_id user_id) (with_secret secret now) store.users },
    )
    else (raised value_error, store)

abbrev pub enabled_2fa : ℕ → UserAccount → UserAccount
enabled_2fa now u = record u { totp_enabled = true; updated_at = now }

abbrev pub disabled_2fa : ℕ → UserAccount → UserAccount
disabled_2fa now u = record u { totp_enabled = false; totp_secret = none; updated_at = now }

module _ (digest : String → ℕ → List ℕ) where
  -- `user.totp_secret` is set and its code is right. An empty code is compared like any other.
  abbrev pub code_right : Option String → String → ℕ → Bool
  code_right none code now = false
  code_right (some secret) code now = not (is_empty secret) && verify_totp digest secret code now

  abbrev pub may_enable : Option UserAccount → String → ℕ → Bool
  may_enable none code now = false
  may_enable (some user) code now = code_right user.totp_secret code now

  unfoldable pub enable_2fa : ℕ → String → ℕ → AccountStore → Bool × AccountStore
  enable_2fa user_id code now store =
      if may_enable (find (has_user_id user_id) store.users) code now
      then (
        true,
        record store { users = update (has_user_id user_id) (enabled_2fa now) store.users },
      )
      else (false, store)

module _ (hash_password : String → String → String) (digest : String → ℕ → List ℕ) where
  abbrev pub may_disable : Option UserAccount → String → String → ℕ → Bool
  may_disable none password code now = false
  may_disable (some user) password code now =
      verify_password hash_password password user
      && (not user.totp_enabled || code_right digest user.totp_secret code now)

  unfoldable pub disable_2fa : ℕ → String → String → ℕ → AccountStore → Bool × AccountStore
  disable_2fa user_id password code now store =
      if may_disable (find (has_user_id user_id) store.users) password code now
      then (
        true,
        record store { users = update (has_user_id user_id) (disabled_2fa now) store.users },
      )
      else (false, store)
