-- ===== src/Templates/Activation.antt =====
-- `activate` and `get_active_bundle` of backend/app/services/template_profile_service.py.
use aegis_platform_server_te.Prelude.{ℕ, ◌≡◌, refl, none, some, String, arith}
use aegis_platform_server_te.Templates.{
  Files, Pointer, lstrip_v, with_v, get_indicator_stack, get_rulebook, get_active_bundle,
  get_active_pointer, pointed, bundled, activate, read,
}

lstrip-with_v : (s : String) → lstrip_v (with_v s) ≡ lstrip_v s
lstrip-with_v String.[] = refl
lstrip-with_v (String.◌∷◌ c s) = ground arith

module _ {Document : Type 0} where
  stack-with_v :
      (version : String) (files : Files Document)
      → get_indicator_stack (with_v version) files ≡ get_indicator_stack version files
  unfolding get_indicator_stack
  stack-with_v version files = rw (lstrip-with_v version) refl

  book-with_v :
      (version : String) (files : Files Document)
      → get_rulebook (with_v version) files ≡ get_rulebook version files
  unfolding get_rulebook
  book-with_v version files = rw (lstrip-with_v version) refl

  other_pointer :
      (pointer : Pointer) (version : String) (files : Files Document)
      → (get_indicator_stack version (record files { active_profile = some pointer })
          ≡ get_indicator_stack version files)
        × (get_rulebook version (record files { active_profile = some pointer })
            ≡ get_rulebook version files)
  unfolding get_indicator_stack get_rulebook read
  other_pointer pointer version files = (refl, refl)

  -- The bundle that is active after an activation has the documents of the versions asked for,
  -- whether or not they were written with a leading v, and the versions with it.
  pub activate-get_active_bundle :
      (stack_version book_version : String) (now : ℕ) (files : Files Document)
      (stack book : Document)
      → get_indicator_stack stack_version files ≡ some stack
      → get_rulebook book_version files ≡ some book
      → get_active_bundle ((activate stack_version book_version now files).1)
        ≡ some (record {
          indicator_stack_version = with_v stack_version;
          rulebook_version = with_v book_version;
          indicator_stack = stack;
          rulebook = book;
          updated_at = some now;
        })
  unfolding activate get_active_bundle get_active_pointer
  activate-get_active_bundle stack_version book_version now files stack book s b =
      let pointer = pointed stack_version book_version now in
      rw
        (
          s,
          b,
          (other_pointer pointer (with_v stack_version) files).0,
          (other_pointer pointer (with_v book_version) files).1,
          stack-with_v stack_version files,
          book-with_v book_version files,
          s,
          b,
        )
        refl

  -- An activation of a version whose indicator stack or rulebook is missing fails and changes
  -- nothing.
  pub activate-none :
      (stack_version book_version : String) (now : ℕ) (files : Files Document)
      → bundled
          (get_indicator_stack stack_version files)
          (get_rulebook book_version files)
          ""
          ""
          none
        ≡ none
      → activate stack_version book_version now files ≡ (none, files)
  unfolding activate
  activate-none stack_version book_version now files missing = ground arith
