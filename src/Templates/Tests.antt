-- ===== src/Templates/Tests.antt =====
-- The theorems on the templates, on one stack and one rulebook.
use aegis_platform_server_te.Prelude.{◌≡◌, refl, none, some, [], ◌∷◌, String, find, str_eq}
use aegis_platform_server_te.Templates.{
  Files, get_indicator_stack, get_rulebook, get_active_bundle, bundled, activate, read,
}
use aegis_platform_server_te.Templates.Activation.{activate-get_active_bundle, activate-none}

abbrev files : Files String
files = record {
  active_profile = none;
  documents = ("indicator_stack_v2.json", "S") ∷ ("rulebook_v1.json", "B") ∷ [];
}

stack_found : get_indicator_stack "2" files ≡ some "S"
unfolding get_indicator_stack read find str_eq
stack_found = refl

book_found : get_rulebook "v1" files ≡ some "B"
unfolding get_rulebook read find str_eq
book_found = refl

activate-get_active_bundle_example :
    get_active_bundle ((activate "2" "v1" 50 files).1)
    ≡ some (record {
      indicator_stack_version = "v2";
      rulebook_version = "v1";
      indicator_stack = "S";
      rulebook = "B";
      updated_at = some 50;
    })
activate-get_active_bundle_example =
    activate-get_active_bundle "2" "v1" 50 files "S" "B" stack_found book_found

missing : bundled (get_indicator_stack "9" files) (get_rulebook "v1" files) "" "" none ≡ none
unfolding get_indicator_stack get_rulebook read find str_eq
missing = refl

activate-none_test : activate "9" "v1" 60 files ≡ (none, files)
activate-none_test = activate-none "9" "v1" 60 files missing
