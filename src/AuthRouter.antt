-- ===== src/AuthRouter.antt =====
-- The endpoints of subscriber identity (backend/app/api/auth_router.py) over the account store.
-- Texts that the service draws, the ids of the database and the time are arguments; the email of a
-- body is the text that its validation leaves. The answer of an uncaught error is 500.
pub mod Takeover
pub mod Guards
mod Tests
use aegis_platform_server_te.Prelude.{
  ℕ, Bool, true, false, not, Option, none, some, List, String, ltb, ◌==◌, str_eq, if◌then◌else◌,
  Response, ok, http_error, strip, lower, starts_with,
}
use aegis_platform_server_te.Accounts.{
  UserAccount, AccountStore, Result, Drawn, LoginReply, Error, raised, text_length,
}
use aegis_platform_server_te.Accounts
use aegis_platform_server_te.Accounts.Register
use aegis_platform_server_te.Accounts.Login
use aegis_platform_server_te.Accounts.Recovery
use aegis_platform_server_te.Accounts.SecondFactor
use Prim.Native.Char.{code}

-- `s.split(" ", 1)[1]`: what follows the first space.
abbrev pub after_space : String → String
after_space String.[] = String.[]
after_space (String.◌∷◌ c s) = if code c == 32 then s else after_space s

unfoldable pub bearer : Option String → Response String
bearer none = http_error 401
bearer (some authorization) =
    if starts_with (lower authorization) "bearer "
    then ok (strip (after_space authorization))
    else http_error 401

-- `except ValueError as e: raise HTTPException(code, …)`.
abbrev pub error_code : Error → ℕ → ℕ
error_code Accounts.value_error c = c
error_code Accounts.integrity_error c = 500
error_code Accounts.multiple_results c = 500

abbrev pub answered {ℓ} : {A : Type ℓ} → ℕ → Result A → Response A
answered c (Accounts.ok a) = ok a
answered c (raised e) = http_error (error_code e c)

-- `if not ok: raise HTTPException(400, …)`.
abbrev pub accepted : Result Bool → Response (Unit {0})
accepted (Accounts.ok true) = ok tt
accepted (Accounts.ok false) = http_error 400
accepted (raised e) = http_error (error_code e 400)

-- What `/me` tells of the account of the session.
pub record Me : Type 0 where
  pub account_id : String
  pub email : String
  pub phone : Option String
  pub email_verified : Bool
  pub phone_verified : Bool
  pub totp_enabled : Bool
  pub is_admin : Bool

abbrev pub me_of : UserAccount → Me
me_of user = record {
  account_id = user.account_id;
  email = user.email;
  phone = user.phone;
  email_verified = user.email_verified;
  phone_verified = user.phone_verified;
  totp_enabled = user.totp_enabled;
  is_admin = user.is_admin;
}

unfoldable pub phone_request_otp :
    (String → String) → String → String → ℕ → AccountStore → Response String × AccountStore
unfolding Recovery.request_phone_otp
phone_request_otp hash_token phone drawn now store =
    let (otp, after) = Recovery.request_phone_otp hash_token phone drawn now store in
    (ok otp, after)

module _ (hash_token : String → String) where
  -- `user = await _auth.resolve_session(token)`, or 401.
  unfoldable pub session_user : Option String → ℕ → AccountStore → Response UserAccount
  session_user authorization now store = elim (bearer authorization) [
    | http_error e ↦ http_error e
    | ok token ↦ elim (Login.resolve_session hash_token token now store) [
      | none ↦ http_error 401
      | some user ↦ ok user
    ]
  ]

  unfoldable pub logout : Option String → ℕ → AccountStore → Response (Unit {0}) × AccountStore
  logout authorization now store = elim (bearer authorization) [
    | http_error e ↦ (http_error e, store)
    | ok token ↦ (ok tt, (Login.logout hash_token token now store).1)
  ]

  unfoldable pub logout_all : Option String → ℕ → AccountStore → Response ℕ × AccountStore
  logout_all authorization now store = elim (session_user authorization now store) [
    | http_error e ↦ (http_error e, store)
    | ok user ↦ let (n, after) = Login.logout_all user.id now store in (ok n, after)
  ]

  unfoldable pub me : Option String → ℕ → AccountStore → Response Me
  me authorization now store = elim (session_user authorization now store) [
    | http_error e ↦ http_error e
    | ok user ↦ ok (me_of user)
  ]

  unfoldable pub verify_email : String → ℕ → AccountStore → Response (Unit {0}) × AccountStore
  verify_email token now store =
      let (r, after) = Register.verify_email hash_token token now store in (accepted r, after)

  -- The answer has the raw token when the email is that of an account.
  unfoldable pub password_forgot :
      String → String → ℕ → AccountStore → Response (Option String) × AccountStore
  password_forgot email drawn now store =
      let (raw, after) = Recovery.request_password_reset hash_token email drawn now store in
      (ok raw, after)

  unfoldable pub phone_verify_otp :
      String → String → Option String → ℕ → AccountStore → Response (Unit {0}) × AccountStore
  phone_verify_otp phone otp email now store =
      let (r, after) = Recovery.verify_phone_otp hash_token phone otp email now store in
      (accepted r, after)

  unfoldable pub totp_setup :
      Option String → String → ℕ → AccountStore → Response String × AccountStore
  totp_setup authorization drawn now store = elim (session_user authorization now store) [
    | http_error e ↦ (http_error e, store)
    | ok user ↦
        let (r, after) = SecondFactor.setup_2fa user.id drawn now store in (answered 500 r, after)
  ]

module _ (hash_token : String → String) (digest : String → ℕ → List ℕ) where
  unfoldable pub totp_enable :
      Option String → String → ℕ → AccountStore → Response (Unit {0}) × AccountStore
  totp_enable authorization otp now store = elim (session_user hash_token authorization now store) [
    | http_error e ↦ (http_error e, store)
    | ok user ↦
        let (r, after) = SecondFactor.enable_2fa digest user.id otp now store in
        (accepted (Accounts.ok r), after)
  ]

module _ (hash_password : String → String → String) (hash_token : String → String) where
  -- `password: str = Field(min_length=8)` answers 422.
  unfoldable pub register :
      String
      → String
      → Option String
      → Option String
      → Drawn
      → AccountStore
      → Response UserAccount × AccountStore
  register email password phone account_id drawn store =
      if ltb (text_length password) 8
      then (http_error 422, store)
      else let (r, after) =
          Register.register hash_password hash_token email password phone account_id drawn store in
        (answered 400 r, after)

  -- `new_password: str = Field(min_length=8)` answers 422.
  unfoldable pub password_reset :
      String → String → String → ℕ → AccountStore → Response (Unit {0}) × AccountStore
  password_reset token new_password salt now store =
      if ltb (text_length new_password) 8
      then (http_error 422, store)
      else let (r, after) =
          Recovery.reset_password hash_password hash_token token new_password salt now store in
        (accepted r, after)

module _ (hash_password : String → String → String) (hash_token : String → String)
    (digest : String → ℕ → List ℕ) where
  unfoldable pub login :
      String
      → String
      → Option String
      → String
      → ℕ
      → AccountStore
      → Response LoginReply × AccountStore
  login email password totp_code drawn now store =
      let (r, after) =
        Login.login hash_password hash_token digest email password totp_code drawn now store in
      (answered 401 r, after)

  unfoldable pub totp_disable :
      Option String → String → String → ℕ → AccountStore → Response (Unit {0}) × AccountStore
  totp_disable authorization password otp now store =
      elim (session_user hash_token authorization now store) [
        | http_error e ↦ (http_error e, store)
        | ok user ↦
            let (r, after) =
              SecondFactor.disable_2fa hash_password digest user.id password otp now store in
            (accepted (Accounts.ok r), after)
      ]
