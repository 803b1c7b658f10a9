-- ===== src/Security/Tests.antt =====
-- The theorems on API keys, on the keys of two accounts.
use aegis_platform_server_te.Prelude.{
  ◌≡◌, refl, false, none, some, List, [], ◌∷◌, String, ok, http_error, find, str_eq,
}
use aegis_platform_server_te.Models.{ApiKey, default_settings}
use aegis_platform_server_te.Security.{
  KeyRequest, new_key, auth_context, verify_api_key, issue_api_key, revoke_api_key, has_hash,
}
use aegis_platform_server_te.Security.Lifecycle.{verify-ok_iff, issue-verify, revoke-verify}

abbrev plain : String → String
plain s = s

abbrev request : String → KeyRequest
request account_id = record {
  account_id = some account_id;
  is_admin = false;
  label = none;
  issued_by = none;
  expires_in_days = none;
  rotation_days = none;
  replaces_key_id = none;
}

abbrev first_key : ApiKey
first_key = new_key plain default_settings (request "A1") "k1" 1 0

abbrev second_key : ApiKey
second_key = new_key plain default_settings (request "A2") "k2" 2 0

abbrev two_keys : List ApiKey
two_keys = first_key ∷ second_key ∷ []

first_found : find (has_hash "k1") two_keys ≡ some first_key
unfolding find str_eq
first_found = refl

third_new : find (has_hash "k3") two_keys ≡ none
unfolding find str_eq
third_new = refl

verify-ok_iff_example :
    (verify_api_key plain (some "k1") 60 two_keys).0 ≡ ok (auth_context first_key)
verify-ok_iff_example =
    (verify-ok_iff plain "k1" 60 two_keys (auth_context first_key)).1 (
      first_key,
      first_found,
      record { not_revoked = refl; in_time = refl; not_forced = refl },
      refl,
    )

issue-verify_test :
    (verify_api_key plain
      (some "k3")
      60
      (issue_api_key plain default_settings (request "A3") "k3" 3 0 two_keys)).0
    ≡ ok (auth_context (new_key plain default_settings (request "A3") "k3" 3 0))
issue-verify_test =
    issue-verify plain default_settings (request "A3") "k3" 3 0 60 two_keys third_new

revoke-verify_test :
    (verify_api_key plain (some "k1") 60 (revoke_api_key 1 none 30 two_keys).1).0 ≡ http_error 401
revoke-verify_test = revoke-verify plain "k1" 1 30 60 none two_keys first_key first_found
