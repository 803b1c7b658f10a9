-- ===== src/Prelude/Table.antt =====
-- A database table as the list of its rows, and the statements that the services issue against it:
-- `select … where`, the update of the rows found, `insert`, `delete … where`, `count`.
use Prim.Native.Nat.{ℕ, ◌+◌, ◌≤◌}
use mathlib.Core.Path.{◌≡◌, refl}
use mathlib.Core.Logic.{inl, inr}
use mathlib.Core.Bool.{Bool, true, false}
use mathlib.Core.Option
use mathlib.Core.Option.{Option, none, some}
use mathlib.Core.List.{List, [], ◌∷◌, ◌++◌}
use native.Mathlib.Omega.{arith}
use aegis_platform_server_te.Prelude.Lists.{length, All}
use aegis_platform_server_te.Prelude.Tests.{if◌then◌else◌, Bool-cases}

module _ {ℓ} {A : Type ℓ} where
  -- The one row of a select on a unique key.
  unfoldable pub find : (A → Bool) → List A → Option A
  find p [] = none
  find p (x ∷ xs) = if p x then some x else find p xs

  -- All rows of a select.
  unfoldable pub select : (A → Bool) → List A → List A
  select p [] = []
  select p (x ∷ xs) = if p x then x ∷ select p xs else select p xs

  -- Write to the rows that a select finds.
  unfoldable pub update : (A → Bool) → (A → A) → List A → List A
  update p f [] = []
  update p f (x ∷ xs) = (if p x then f x else x) ∷ update p f xs

  unfoldable pub add_row : A → List A → List A
  add_row x xs = xs ++ x ∷ []

  -- `delete … where`: the rows left.
  unfoldable pub delete_where : (A → Bool) → List A → List A
  delete_where p [] = []
  delete_where p (x ∷ xs) = if p x then delete_where p xs else x ∷ delete_where p xs

  unfoldable pub count_where : (A → Bool) → List A → ℕ
  count_where p [] = 0
  count_where p (x ∷ xs) = (if p x then 1 else 0) + count_where p xs

  -- A row's image under an update, for the statement of laws.
  abbrev pub updated : (A → Bool) → (A → A) → A → A
  updated p f x = if p x then f x else x

  pub find-update :
      (q p : A → Bool) (f : A → A)
      → ((x : A) → q (f x) ≡ q x)
      → (xs : List A) → find q (update p f xs) ≡ Option.map (updated p f) (find q xs)
  unfolding find update
  find-update q p f same [] = refl
  find-update q p f same (x ∷ xs) = ground (arith, same x, find-update q p f same xs)

  pub find-update-none :
      (q p : A → Bool) (f : A → A)
      → ((x : A) → p x ≡ true → q (f x) ≡ false)
      → ((x : A) → p x ≡ false → q x ≡ false)
      → (xs : List A) → find q (update p f xs) ≡ none
  unfolding find update
  find-update-none q p f hit miss [] = refl
  find-update-none q p f hit miss (x ∷ xs) =
      ground (arith, hit x, miss x, find-update-none q p f hit miss xs)

  -- A row found after an update that hides the rows it writes is none of those.
  pub find-update_apart :
      (q p : A → Bool) (f : A → A)
      → ((x : A) → p x ≡ true → q (f x) ≡ false)
      → (r : A) (xs : List A) → find q (update p f xs) ≡ some r
      → (p r ≡ false) × (q r ≡ true)
  unfolding find update
  find-update_apart q p f hit r [] h = cc
  find-update_apart q p f hit r (x ∷ xs) h = ground (arith, hit x, find-update_apart q p f hit r xs)

  -- An update after which no row written satisfies the test leaves none that does.
  pub count-update-none :
      (q p : A → Bool) (f : A → A)
      → ((x : A) → p x ≡ true → q (f x) ≡ false)
      → ((x : A) → p x ≡ false → q x ≡ false)
      → (xs : List A) → count_where q (update p f xs) ≡ 0
  unfolding count_where update
  count-update-none q p f hit miss [] = refl
  count-update-none q p f hit miss (x ∷ xs) =
      ground (arith, hit x, miss x, count-update-none q p f hit miss xs)

  -- A select that finds nothing counts nothing.
  pub find-count_none : (q : A → Bool) (xs : List A) → find q xs ≡ none → count_where q xs ≡ 0
  unfolding find count_where
  find-count_none q [] h = refl
  find-count_none q (x ∷ xs) h = ground (arith, find-count_none q xs)

  -- A test that implies another finds nothing where the other does.
  pub find_weaker_none :
      (q p : A → Bool)
      → ((x : A) → q x ≡ true → p x ≡ true)
      → (xs : List A) → find p xs ≡ none
      → find q xs ≡ none
  unfolding find
  find_weaker_none q p sub [] h = refl
  find_weaker_none q p sub (x ∷ xs) h = ground (arith, sub x, find_weaker_none q p sub xs)

  pub find-add_row :
      (q : A → Bool) (x : A) (xs : List A)
      → find q xs ≡ none
      → find q (add_row x xs) ≡ (if q x then some x else none)
  unfolding find add_row
  find-add_row q x [] h = refl
  find-add_row q x (y ∷ ys) h = ground (arith, find-add_row q x ys)

  pub find-add_row_old :
      (q : A → Bool) (x r : A) (xs : List A) → find q xs ≡ some r → find q (add_row x xs) ≡ some r
  unfolding find add_row
  find-add_row_old q x r [] h = cc
  find-add_row_old q x r (y ∷ ys) h = ground (arith, find-add_row_old q x r ys)

  pub find-add_row_miss :
      (q : A → Bool) (x : A) (xs : List A) → q x ≡ false → find q (add_row x xs) ≡ find q xs
  unfolding find add_row
  find-add_row_miss q x [] h = ground arith
  find-add_row_miss q x (y ∷ ys) h = ground (arith, find-add_row_miss q x ys)

  pub find_holds : (q : A → Bool) (r : A) (xs : List A) → find q xs ≡ some r → q r ≡ true
  unfolding find
  find_holds q r [] h = cc
  find_holds q r (y ∷ ys) h = ground (arith, find_holds q r ys)

  pub count-update :
      (q p : A → Bool) (f : A → A)
      → ((x : A) → q (f x) ≡ q x)
      → (xs : List A) → count_where q (update p f xs) ≡ count_where q xs
  unfolding count_where update
  count-update q p f same [] = refl
  count-update q p f same (x ∷ xs) = ground (arith, same x, count-update q p f same xs)

  pub count-add_row :
      (q : A → Bool) (x : A) (xs : List A)
      → count_where q (add_row x xs) ≡ count_where q xs + (if q x then 1 else 0)
  unfolding count_where add_row
  count-add_row q x [] = omega arith
  count-add_row q x (y ∷ ys) = omega (arith, count-add_row q x ys)

  pub count-delete : (q : A → Bool) (xs : List A) → count_where q (delete_where q xs) ≡ 0
  unfolding count_where delete_where
  count-delete q [] = refl
  count-delete q (x ∷ xs) = ground (arith, count-delete q xs)

  pub count-delete_le :
      (q p : A → Bool) (xs : List A) → count_where q (delete_where p xs) ≤ count_where q xs
  unfolding count_where delete_where
  count-delete_le q p [] = omega arith
  count-delete_le q p (x ∷ xs) = ground (arith, count-delete_le q p xs)

  pub delete_none : (p : A → Bool) (xs : List A) → find p xs ≡ none → delete_where p xs ≡ xs
  unfolding find delete_where
  delete_none p [] h = refl
  delete_none p (x ∷ xs) h = ground (arith, delete_none p xs)

  pub length-update : (p : A → Bool) (f : A → A) (xs : List A) → length (update p f xs) ≡ length xs
  unfolding update
  length-update p f [] = refl
  length-update p f (x ∷ xs) = omega (arith, length-update p f xs)

  pub length-add_row : (x : A) (xs : List A) → length (add_row x xs) ≡ length xs + 1
  unfolding add_row
  length-add_row x [] = omega arith
  length-add_row x (y ∷ ys) = omega (arith, length-add_row x ys)

  pub length-delete_le : (p : A → Bool) (xs : List A) → length (delete_where p xs) ≤ length xs
  unfolding delete_where
  length-delete_le p [] = omega arith
  length-delete_le p (x ∷ xs) = ground (arith, length-delete_le p xs)

  pub count-length_le : (p : A → Bool) (xs : List A) → count_where p xs ≤ length xs
  unfolding count_where
  count-length_le p [] = omega arith
  count-length_le p (x ∷ xs) = ground (arith, count-length_le p xs)

  pub find-delete_self : (q : A → Bool) (xs : List A) → find q (delete_where q xs) ≡ none
  unfolding find delete_where
  find-delete_self q [] = refl
  find-delete_self q (x ∷ xs) = ground (arith, find-delete_self q xs)

  -- Rows that `p` does not match stay where a select for them finds them.
  pub find-delete_other :
      (q p : A → Bool)
      → ((x : A) → q x ≡ true → p x ≡ false)
      → (xs : List A) → find q (delete_where p xs) ≡ find q xs
  unfolding find delete_where
  find-delete_other q p apart [] = refl
  find-delete_other q p apart (x ∷ xs) = ground (arith, apart x, find-delete_other q p apart xs)

  pub update-none : (p : A → Bool) (f : A → A) (xs : List A) → find p xs ≡ none → update p f xs ≡ xs
  unfolding find update
  update-none p f [] h = refl
  update-none p f (x ∷ xs) h = ground (arith, update-none p f xs)

  -- A select that finds nothing matches no row that another select finds.
  pub find-none_miss :
      (q p : A → Bool) (r : A) (xs : List A) → find q xs ≡ none → find p xs ≡ some r → q r ≡ false
  unfolding find
  find-none_miss q p r [] h e = cc
  find-none_miss q p r (x ∷ xs) h e = ground (arith, find-none_miss q p r xs)

module _ {ℓ κ} {A : Type ℓ} (P : A → Type κ) where
  pub All-add_row : (x : A) (xs : List A) → P x → All P xs → All P (add_row x xs)
  unfolding add_row
  All-add_row x [] p a = (p, tt)
  All-add_row x (y ∷ ys) p a = (a.0, All-add_row x ys p a.1)

  pub All-delete : (q : A → Bool) (xs : List A) → All P xs → All P (delete_where q xs)
  unfolding delete_where
  All-delete q [] a = tt
  All-delete q (x ∷ xs) a = elim (Bool-cases (q x)) [
    | inl e ↦ rw e (All-delete q xs a.1)
    | inr e ↦ rw e (a.0, All-delete q xs a.1)
  ]
