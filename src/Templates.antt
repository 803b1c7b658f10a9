-- ===== src/Templates.antt =====
-- The versioned indicator stacks and rulebooks
-- (backend/app/services/template_profile_service.py). The files of the folder are the pointer and the
-- documents by name; a document is opaque. A `FileNotFoundError` is `none`.
pub mod Activation
mod Tests
use aegis_platform_server_te.Prelude.{
  ℕ, Bool, true, false, Option, none, some, List, String, str_eq, if◌then◌else◌, find, starts_with,
  concat, ◌==◌,
}
use Prim.Native.Char.{code}
use mathlib.Core.Option

pub record Pointer : Type 0 where
  pub indicator_stack_version : Option String
  pub rulebook_version : Option String
  pub updated_at : Option ℕ

pub record Files (Document : Type 0) : Type 0 where
  pub active_profile : Option Pointer
  pub documents : List (String × Document)

-- `version.lstrip("v")`.
abbrev pub lstrip_v : String → String
lstrip_v String.[] = String.[]
lstrip_v (String.◌∷◌ c s) = if code c == 118 then lstrip_v s else String.◌∷◌ c s

-- `version if version.startswith("v") else f"v{version}"`; the second round of it changes nothing.
abbrev pub with_v : String → String
with_v version = if starts_with version "v" then version else concat "v" version

-- `ptr.get(name, "v1")`.
abbrev pub or_v1 : Option String → String
or_v1 none = "v1"
or_v1 (some version) = version

module _ {Document : Type 0} where
  abbrev pub is_named : String → String × Document → Bool
  is_named name file = str_eq file.0 name

  -- `_read` of a document.
  unfoldable pub read : String → Files Document → Option Document
  read name files =
      Option.map (λ (file : String × Document). file.1) (find (is_named name) files.documents)

  unfoldable pub get_active_pointer : Files Document → Pointer
  get_active_pointer files = elim files.active_profile [
    | some pointer ↦ pointer
    | none ↦ record {
      indicator_stack_version = some "v1";
      rulebook_version = some "v1";
      updated_at = none;
    }
  ]

  unfoldable pub get_indicator_stack : String → Files Document → Option Document
  get_indicator_stack version files =
      read (concat "indicator_stack_v" (concat (lstrip_v version) ".json")) files

  unfoldable pub get_rulebook : String → Files Document → Option Document
  get_rulebook version files = read (concat "rulebook_v" (concat (lstrip_v version) ".json")) files

abbrev pub pointed : String → String → ℕ → Pointer
pointed stack_version book_version now = record {
  indicator_stack_version = some (with_v stack_version);
  rulebook_version = some (with_v book_version);
  updated_at = some now;
}

pub record Bundle (Document : Type 0) : Type 0 where
  pub indicator_stack_version : String
  pub rulebook_version : String
  pub indicator_stack : Document
  pub rulebook : Document
  pub updated_at : Option ℕ

module _ {Document : Type 0} where
  abbrev pub bundled :
      Option Document → Option Document → String → String → Option ℕ → Option (Bundle Document)
  bundled (some stack) (some book) stack_v book_v updated_at = some (record {
    indicator_stack_version = stack_v;
    rulebook_version = book_v;
    indicator_stack = stack;
    rulebook = book;
    updated_at = updated_at;
  })
  bundled _ _ stack_v book_v updated_at = none

  unfoldable pub get_active_bundle : Files Document → Option (Bundle Document)
  get_active_bundle files =
      let pointer = get_active_pointer files in
      let stack_v = or_v1 pointer.indicator_stack_version in
      let book_v = or_v1 pointer.rulebook_version in
      bundled (get_indicator_stack stack_v files) (get_rulebook book_v files) stack_v book_v
        pointer.updated_at

  abbrev pub activated :
      Option Document → Option Document → Pointer → Files Document → Option Pointer × Files Document
  activated (some stack) (some book) pointer files =
      (some pointer, record files { active_profile = some pointer })
  activated _ _ pointer files = (none, files)

  unfoldable pub activate : String → String → ℕ → Files Document → Option Pointer × Files Document
  activate stack_version book_version now files =
      activated (get_indicator_stack stack_version files) (get_rulebook book_version files)
        (pointed stack_version book_version now) files
