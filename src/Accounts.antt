-- ===== src/Accounts.antt =====
-- User accounts, sessions and one-time tokens (backend/app/services/auth_service.py and the tables
-- of backend/app/db/models.py that it keeps). PBKDF2, SHA-256 and the digest of HMAC-SHA1 are
-- parameters. Random texts, the ids that the database assigns, and the time are arguments. The
-- columns that describe a session's device are left out.
pub mod Totp
pub mod Register
pub mod Login
pub mod Recovery
pub mod Sessions
pub mod Registration
pub mod Resets
pub mod SecondFactor
pub mod Factors
mod Tests
use aegis_platform_server_te.Prelude.{
  ℕ, zero, suc, ◌+◌, ◌-◌, ◌≡◌, Bool, true, false, not, ◌&&◌, ◌||◌, Option, none, some, List, [],
  ◌∷◌, String, leb, ltb, ◌==◌, str_eq, if◌then◌else◌, find, update, add_row, count_where, has_key,
  is_empty, or_text, text_or_empty, strip, lower,
}
use aegis_platform_server_te.Models.{days, hours, minutes}

pub record UserAccount : Type 0 where
  pub id : ℕ
  pub account_id : String
  pub email : String
  pub phone : Option String
  pub password_hash : String
  pub password_salt : String
  pub email_verified : Bool
  pub phone_verified : Bool
  pub is_admin : Bool
  pub totp_secret : Option String
  pub totp_enabled : Bool
  pub created_at : ℕ
  pub updated_at : ℕ
  pub last_login_at : Option ℕ

pub record AuthSession : Type 0 where
  pub session_token_hash : String
  pub user_id : ℕ
  pub account_id : String
  pub created_at : ℕ
  pub expires_at : ℕ
  pub revoked : Bool
  pub revoked_at : Option ℕ

pub data Purpose : Type 0 where
  email_verify password_reset phone_otp : Purpose

pub record AuthToken : Type 0 where
  pub user_id : Option ℕ
  pub email : Option String
  pub phone : Option String
  pub purpose : Purpose
  pub token_hash : String
  pub expires_at : ℕ
  pub used : Bool
  pub created_at : ℕ

pub record AccountStore : Type 0 where
  pub users : List UserAccount
  pub sessions : List AuthSession
  pub tokens : List AuthToken

-- What a method raises: a `ValueError`, the database's refusal of a second row with a unique value,
-- or the refusal of `scalar_one_or_none` to choose among several rows.
pub data Error : Type 0 where
  value_error integrity_error multiple_results : Error

pub data Result {ℓ} (A : Type ℓ) : Type ℓ where
  ok : A → Result A
  raised : Error → Result A

-- `scalar_one_or_none()` of a select on columns that are not unique.
abbrev pub scalar_one_or_none : {A : Type 0} → (A → Bool) → List A → Result (Option A)
scalar_one_or_none p xs =
    if leb (count_where p xs) 1 then ok (find p xs) else raised multiple_results

abbrev pub normal : String → String
normal email = lower (strip email)

abbrev pub has_email : String → UserAccount → Bool
has_email = has_key (λ u. u.email)

abbrev pub has_account : String → UserAccount → Bool
has_account = has_key (λ u. u.account_id)

abbrev pub has_user_id : ℕ → UserAccount → Bool
has_user_id user_id u = u.id == user_id

abbrev pub same_text : Option String → String → Bool
same_text none s = false
same_text (some t) s = str_eq t s

abbrev pub has_phone : String → UserAccount → Bool
has_phone phone u = same_text u.phone phone

abbrev pub has_session : String → AuthSession → Bool
has_session = has_key (λ s. s.session_token_hash)

abbrev pub live_session : String → AuthSession → Bool
live_session h s = has_session h s && not s.revoked

abbrev pub live_session_of : ℕ → AuthSession → Bool
live_session_of user_id s = s.user_id == user_id && not s.revoked

abbrev pub same_purpose : Purpose → Purpose → Bool
same_purpose email_verify email_verify = true
same_purpose password_reset password_reset = true
same_purpose phone_otp phone_otp = true
same_purpose _ _ = false

abbrev pub live_token : String → Purpose → AuthToken → Bool
live_token h purpose t = str_eq t.token_hash h && (same_purpose t.purpose purpose && not t.used)

abbrev pub live_otp : String → String → AuthToken → Bool
live_otp h phone t = live_token h phone_otp t && same_text t.phone phone

abbrev pub is_found : {A : Type 0} → Option A → Bool
is_found none = false
is_found (some _) = true

abbrev pub text_length : String → ℕ
text_length String.[] = 0
text_length (String.◌∷◌ c s) = suc (text_length s)

abbrev pub revoke_session : ℕ → AuthSession → AuthSession
revoke_session now s = record s { revoked = true; revoked_at = some now }

abbrev pub use_token : AuthToken → AuthToken
use_token t = record t { used = true }

-- What `register` draws, and the id that the database gives the row.
pub record Drawn : Type 0 where
  pub salt : String
  pub account : String
  pub token : String
  pub user_id : ℕ
  pub now : ℕ

pub record LoginReply : Type 0 where
  pub session_token : String
  pub account_id : String
  pub email : String
  pub email_verified : Bool
  pub totp_enabled : Bool
  pub is_admin : Bool

-- `if phone: phone = phone.strip()`.
abbrev pub given_phone : Option String → Option String
given_phone none = none
given_phone (some p) = some (if is_empty p then p else strip p)

abbrev pub phone_used : Option String → List UserAccount → Bool
phone_used none users = false
phone_used (some p) users = is_found (find (has_phone p) users)

abbrev pub phone_taken : Option String → List UserAccount → Bool
phone_taken none users = false
phone_taken (some p) users = not (is_empty p) && phone_used (given_phone (some p)) users

module _ (hash_token : String → String) where
  abbrev pub new_token :
      Option ℕ → Option String → Option String → Purpose → String → ℕ → ℕ → AuthToken
  new_token user_id email phone purpose raw expires_at now = record {
    user_id = user_id;
    email = email;
    phone = phone;
    purpose = purpose;
    token_hash = hash_token raw;
    expires_at = expires_at;
    used = false;
    created_at = now;
  }

module _ (hash_password : String → String → String) where
  abbrev pub verify_password : String → UserAccount → Bool
  verify_password password user =
      str_eq (hash_password password user.password_salt) user.password_hash
