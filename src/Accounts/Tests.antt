-- ===== src/Accounts/Tests.antt =====
-- The theorems on accounts, on a user who registers, logs in and resets the password.
use aegis_platform_server_te.Prelude.{
  ℕ, ◌≤◌, ◌≡◌, ◌≢◌, refl, inl, true, false, none, some, List, [], ◌∷◌, String, ◌==◌, str_eq, arith,
  concat, find, update, add_row, count_where, has_key, strip, lower,
}
use aegis_platform_server_te.Accounts.{
  UserAccount, AuthSession, AuthToken, AccountStore, ok, normal, has_email, has_user_id,
  has_session, live_token, email_verify, password_reset, Drawn, LoginReply, verify_password,
  new_token,
}
use aegis_platform_server_te.Accounts.Totp.{totp, verify_totp, six_digits, truncated, totp-verify}
use aegis_platform_server_te.Accounts.Register.{
  new_user, register, registered, verify_email, verified_email,
}
use aegis_platform_server_te.Accounts.Login.{logged_in, login, resolve_session}
use aegis_platform_server_te.Accounts.Recovery.{reset_password, user_of}
use aegis_platform_server_te.Accounts.SecondFactor.{setup_2fa, enable_2fa}
use aegis_platform_server_te.Accounts.Sessions.{Passes, login-ok_iff, login-resolve}
use aegis_platform_server_te.Accounts.Registration.{register-IsUnique, register-verify, IsUnique}
use aegis_platform_server_te.Accounts.Resets.{reset-resolve, reset-reset}
use aegis_platform_server_te.Accounts.Factors.{setup-login, enable-login}

abbrev salted : String → String → String
salted password salt = concat salt password

abbrev plain : String → String
plain s = s

abbrev bytes : String → ℕ → List ℕ
bytes secret counter = 0 ∷ 0 ∷ 0 ∷ counter ∷ 0 ∷ []

abbrev drawn : Drawn
drawn = record { salt = "s"; account = "ACC-1"; token = "v"; user_id = 1; now = 1000 }

abbrev empty : AccountStore
empty = record { users = []; sessions = []; tokens = [] }

abbrev ann : UserAccount
ann = new_user salted " Ann@X.org " "long-password" none none drawn

abbrev one_user : AccountStore
one_user = registered plain ann "v" 1000 empty

registers :
    register salted plain " Ann@X.org " "long-password" none none drawn empty ≡ (ok ann, one_user)
unfolding register find strip lower
registers = refl

ann_by_email : find (has_email (normal "ann@x.ORG")) one_user.users ≡ some ann
unfolding find str_eq add_row strip lower
ann_by_email = refl

ann_by_id : find (has_user_id 1) one_user.users ≡ some ann
unfolding find add_row
ann_by_id = refl

ann-Passes : Passes salted bytes ann "long-password" none 2000
unfolding str_eq
ann-Passes = (refl, inl refl)

no_session : find (has_session "raw") one_user.sessions ≡ none
unfolding find
no_session = refl

login-ok_iff_example :
    (reply : LoginReply) × ((login salted plain bytes "ann@x.ORG" "long-password" none "raw" 2000
        one_user).0
      ≡ ok reply)
login-ok_iff_example =
    (login-ok_iff salted plain bytes "ann@x.ORG" "long-password" "raw" none 2000 one_user).1
      (ann, ann_by_email, ann-Passes)

login-resolve_example :
    resolve_session plain "raw" 3000
      ((login salted plain bytes "ann@x.ORG" "long-password" none "raw" 2000 one_user).1)
    ≡ some (logged_in 2000 ann)
login-resolve_example =
    login-resolve salted plain bytes "ann@x.ORG" "long-password" "raw" none 2000 3000 one_user ann
      ann_by_email ann_by_id no_session ann-Passes (omega arith)

no_users : (k : String) (key : UserAccount → String) → count_where (has_key key k) [] ≤ 1
unfolding count_where
no_users k key = omega arith

register-IsUnique_example :
    IsUnique salted plain ((register salted plain "a@b.c" "long-password" none none drawn empty).1)
register-IsUnique_example =
    register-IsUnique salted plain "a@b.c" "long-password" none none drawn empty
      (λ k. no_users k (λ u. u.email), λ k. no_users k (λ u. u.account_id))

no_token : find (live_token "v" email_verify) empty.tokens ≡ none
unfolding find
no_token = refl

register-verify_test :
    ((verify_email plain "v" 2000 one_user).0 ≡ ok true)
    × (find (has_email (normal " Ann@X.org ")) ((verify_email plain "v" 2000 one_user).1.users)
        ≡ some (verified_email 2000 ann))
register-verify_test =
    register-verify salted plain " Ann@X.org " "long-password" none none drawn ann empty one_user
      2000 registers no_token (omega arith) (omega arith)

abbrev reset_token : AuthToken
reset_token = new_token plain (some 1) (some "ann@x.org") none password_reset "r" 90000 1500

abbrev asked : AccountStore
asked = record { users = ann ∷ []; sessions = []; tokens = reset_token ∷ [] }

abbrev reset : AccountStore
reset = (reset_password salted plain "r" "new-password" "s2" 2000 asked).1

resets : reset_password salted plain "r" "new-password" "s2" 2000 asked ≡ (ok true, reset)
unfolding reset_password find str_eq count_where update
resets = refl

token_found : find (live_token "r" password_reset) asked.tokens ≡ some reset_token
unfolding find str_eq
token_found = refl

reset-reset_test :
    reset_password salted plain "r" "other-password" "s3" 2100 reset ≡ (ok false, reset)
reset-reset_test =
    reset-reset salted plain "r" "new-password" "s2" "other-password" "s3" 2000 2100 asked reset
      resets (omega arith)

abbrev other_user : UserAccount
other_user = record ann { id = 2; email = "bob@x.org" }

abbrev session_of : ℕ → String → AuthSession
session_of user_id hash = record {
  session_token_hash = hash;
  user_id = user_id;
  account_id = "ACC";
  created_at = 0;
  expires_at = 90000;
  revoked = false;
  revoked_at = none;
}

abbrev two_sessions : AccountStore
two_sessions = record {
  users = ann ∷ other_user ∷ [];
  sessions = session_of 1 "h1" ∷ session_of 2 "h2" ∷ [];
  tokens = reset_token ∷ [];
}

abbrev two_after : AccountStore
two_after = (reset_password salted plain "r" "new-password" "s2" 2000 two_sessions).1

two_resets :
    reset_password salted plain "r" "new-password" "s2" 2000 two_sessions ≡ (ok true, two_after)
unfolding reset_password find str_eq count_where update
two_resets = refl

ann_of_two : user_of (some 1) two_sessions.users ≡ some ann
unfolding find
ann_of_two = refl

other_stays : resolve_session plain "h2" 3000 two_after ≡ some other_user
unfolding reset_password resolve_session find str_eq count_where update
other_stays = refl

reset-resolve_example : (other_user.id == ann.id) ≡ false
reset-resolve_example =
    reset-resolve salted plain "r" "new-password" "s2" "h2" 2000 3000 two_sessions two_after
      reset_token ann other_user two_resets token_found ann_of_two other_stays

code_made : strip "000033" ≡ totp bytes "S" 990
unfolding totp six_digits truncated strip
code_made = refl

totp-verify_test : verify_totp bytes "S" "000033" 1000 ≡ true
totp-verify_test =
    totp-verify bytes "S" "000033" 990 1000 code_made (omega arith) (omega arith) (omega arith)

abbrev with_factor : UserAccount
with_factor = record ann { totp_secret = some "S"; totp_enabled = true }

abbrev factor_store : AccountStore
factor_store = record { users = with_factor ∷ []; sessions = []; tokens = [] }

factor_by_id : find (has_user_id 1) factor_store.users ≡ some with_factor
unfolding find
factor_by_id = refl

factor_by_email : find (has_email (normal "ann@x.org")) factor_store.users ≡ some with_factor
unfolding find str_eq strip lower
factor_by_email = refl

factor_password : verify_password salted "long-password" with_factor ≡ true
unfolding str_eq
factor_password = refl

setup-login_example :
    (reply : LoginReply) × ((login salted plain bytes "ann@x.org" "long-password" none "raw" 3000
        ((setup_2fa 1 "T" 2000 factor_store).1)).0
      ≡ ok reply)
setup-login_example =
    setup-login salted plain bytes 1 2000 3000 "T" "ann@x.org" "long-password" "raw" factor_store
      with_factor factor_by_id factor_by_email factor_password

enables : (enable_2fa bytes 1 "000033" 1000 factor_store).0 ≡ true
unfolding enable_2fa find verify_totp totp six_digits truncated strip str_eq
enables = refl

enable-login_test :
    (login salted plain bytes "ann@x.org" "long-password" none "raw" 3000
      ((enable_2fa bytes 1 "000033" 1000 factor_store).1)).0
    ≢ ok (record {
      session_token = "raw";
      account_id = "ACC-1";
      email = "ann@x.org";
      email_verified = false;
      totp_enabled = true;
      is_admin = false;
    })
enable-login_test =
    enable-login salted plain bytes 1 1000 3000 "000033" "ann@x.org" "long-password" "raw"
      factor_store with_factor
      (record {
        session_token = "raw";
        account_id = "ACC-1";
        email = "ann@x.org";
        email_verified = false;
        totp_enabled = true;
        is_admin = false;
      })
      enables factor_by_id factor_by_email
