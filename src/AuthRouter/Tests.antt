-- ===== src/AuthRouter/Tests.antt =====
-- The theorems on the identity endpoints, on a store with one account and one session.
use aegis_platform_server_te.Prelude.{
  ℕ, ◌≡◌, refl, true, false, none, some, List, [], ◌∷◌, String, ◌==◌, arith, ok, http_error, concat,
  find, update, count_where, strip, lower, str_eq,
}
use aegis_platform_server_te.Accounts.{
  UserAccount, AuthSession, AccountStore, normal, has_email, has_user_id, live_token,
  password_reset, LoginReply,
}
use aegis_platform_server_te.Accounts.Login
use aegis_platform_server_te.Accounts.Login.{resolve_session}
use aegis_platform_server_te.AuthRouter
use aegis_platform_server_te.AuthRouter.{
  bearer, session_user, me, logout_all, totp_setup, totp_enable, totp_disable, password_forgot,
  login,
}
use aegis_platform_server_te.AuthRouter.Takeover.{forgot_takes_over}
use aegis_platform_server_te.AuthRouter.Guards.{HasNoSession, guarded_refused, logout_all-session}

abbrev salted : String → String → String
salted password salt = concat salt password

abbrev plain : String → String
plain s = s

abbrev bytes : String → ℕ → List ℕ
bytes secret counter = 0 ∷ 0 ∷ 0 ∷ counter ∷ 0 ∷ []

abbrev bob : UserAccount
bob = record {
  id = 7;
  account_id = "ACC-7";
  email = "bob@x.org";
  phone = none;
  password_hash = "sold-password";
  password_salt = "s";
  email_verified = true;
  phone_verified = false;
  is_admin = false;
  totp_secret = none;
  totp_enabled = false;
  created_at = 0;
  updated_at = 0;
  last_login_at = none;
}

abbrev ann : UserAccount
ann = record bob { id = 8; account_id = "ACC-8"; email = "ann@x.org" }

abbrev session_of : UserAccount → String → AuthSession
session_of user hash = record {
  session_token_hash = hash;
  user_id = user.id;
  account_id = user.account_id;
  created_at = 0;
  expires_at = 90000;
  revoked = false;
  revoked_at = none;
}

abbrev store : AccountStore
store = record {
  users = bob ∷ ann ∷ [];
  sessions = session_of bob "h1" ∷ session_of ann "h2" ∷ [];
  tokens = [];
}

bob_by_email : find (has_email (normal "Bob@x.org")) store.users ≡ some bob
unfolding find strip lower str_eq
bob_by_email = refl

bob_by_id : find (has_user_id 7) store.users ≡ some bob
unfolding find
bob_by_id = refl

no_token : find (live_token "t" password_reset) store.tokens ≡ none
unfolding find
no_token = refl

forgot_takes_over_example :
    (first second : AccountStore) × (password_forgot plain "Bob@x.org" "t" 1000 store
      ≡ (ok (some "t"), first))
    × (AuthRouter.password_reset salted plain "t" "new-password" "s2" 2000 first ≡ (ok tt, second))
    × ((reply : LoginReply) × ((login salted plain bytes "Bob@x.org" "new-password" none "s" 3000
            second).0
          ≡ ok reply))
forgot_takes_over_example =
    forgot_takes_over salted plain bytes "Bob@x.org" "t" "new-password" "s2" "s" 1000 2000 3000
      store bob bob_by_email bob_by_id no_token refl (omega arith) (omega arith)

no_header : HasNoSession plain none 1000 store
unfolding bearer
no_header token e = cc

guarded_refused_test :
    (me plain none 1000 store ≡ http_error 401)
    × (logout_all plain none 1000 store ≡ (http_error 401, store))
    × (totp_setup plain none "S" 1000 store ≡ (http_error 401, store))
    × (totp_enable plain bytes none "000033" 1000 store ≡ (http_error 401, store))
    × (totp_disable salted plain bytes none "p" "000033" 1000 store ≡ (http_error 401, store))
guarded_refused_test = guarded_refused salted plain bytes none "S" "000033" "p" 1000 store no_header

abbrev after : AccountStore
after = (logout_all plain (some "Bearer h1") 1000 store).1

bob_session : session_user plain (some "Bearer h1") 1000 store ≡ ok bob
unfolding session_user bearer resolve_session find strip lower str_eq
bob_session = refl

logs_out : logout_all plain (some "Bearer h1") 1000 store ≡ (ok 1, after)
unfolding logout_all session_user bearer resolve_session find strip lower str_eq Login.logout_all
    count_where
logs_out = refl

ann_session : session_user plain (some "bearer  h2 ") 2000 after ≡ ok ann
unfolding logout_all session_user bearer resolve_session find update strip lower str_eq
    Login.logout_all
ann_session = refl

logout_all-session_test : (ann.id == bob.id) ≡ false
logout_all-session_test =
    logout_all-session plain (some "Bearer h1") (some "bearer  h2 ") 1000 2000 1 store after bob ann
      bob_session logs_out ann_session
