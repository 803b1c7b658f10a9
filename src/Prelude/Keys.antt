-- ===== src/Prelude/Keys.antt =====
-- Tables whose rows are found by a text column.
use Prim.Native.String.{String}
use mathlib.Core.Path.{◌≡◌, ◌∙◌, ap}
use mathlib.Core.Logic.{inl, inr}
use mathlib.Core.Bool.{Bool}
use mathlib.Core.Option
use mathlib.Core.Option.{Option, none, some}
use mathlib.Core.List.{List}
use native.Mathlib.Omega.{arith}
use aegis_platform_server_te.Prelude.Tests.{
  if◌then◌else◌, str_eq, str_eq_eq, str_eq_refl, Bool-cases, Option-cases,
}
use aegis_platform_server_te.Prelude.Table.{
  find, update, add_row, find-update, find_holds, find-add_row, find-add_row_miss,
}

module _ {ℓ} {A : Type ℓ} (key : A → String) where
  abbrev pub has_key : String → A → Bool
  has_key k x = str_eq (key x) k

  pub find_key : (k : String) (r : A) (xs : List A) → find (has_key k) xs ≡ some r → key r ≡ k
  find_key k r xs e = str_eq_eq (key r) k (find_holds (has_key k) r xs e)

  -- An update of the rows of one key changes the row found by that key, and no other.
  pub find-update_key :
      (k j : String) (f : A → A)
      → ((x : A) → key (f x) ≡ key x)
      → (xs : List A)
      → find (has_key j) (update (has_key k) f xs)
        ≡ (if str_eq j k then Option.map f (find (has_key j) xs) else find (has_key j) xs)
  find-update_key k j f same xs =
      find-update (has_key j) (has_key k) f (λ x. ap (λ c. str_eq c j) (same x)) xs
      ∙ elim (Option-cases (find (has_key j) xs)) [
        | inl e ↦ rw e (ground arith)
        | inr (r, e) ↦ rw (e, find_key j r xs e) (ground arith)
      ]

  -- A row with a new key is found by that key, and hides no other.
  pub find-add_key :
      (j : String) (x : A) (xs : List A)
      → find (has_key (key x)) xs ≡ none
      → find (has_key j) (add_row x xs) ≡ (if str_eq (key x) j then some x else find (has_key j) xs)
  find-add_key j x xs fresh = elim (Bool-cases (str_eq (key x) j)) [
    | inl e ↦
        rw (e, ← str_eq_eq (key x) j e, find-add_row (has_key (key x)) x xs fresh, str_eq_refl)
    | inr e ↦ rw (e, find-add_row_miss (has_key j) x xs e)
  ]
