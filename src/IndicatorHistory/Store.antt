-- ===== src/IndicatorHistory/Store.antt =====
-- Sorted sets as a function of their keys, which satisfy the laws of `SortedSets`.
use aegis_platform_server_te.Prelude.{
  ℕ, ◌≡◌, refl, true, false, Bool, List, [], String, ltb, str_eq, str_eq_refl, take, if◌then◌else◌,
  arith,
}
use mathlib.Core.List.{reverse}
use aegis_platform_server_te.IndicatorHistory.{SortedSets, put}

-- A member is its time.
abbrev pub Store : Type 0
Store = String → List ℕ

abbrev pub above : ℕ → ℕ → Bool
above a b = ltb b a

abbrev pub with_set : String → List ℕ → Store → Store
with_set k es r j = if str_eq k j then es else r j

pub above_asym : (a b : ℕ) → above a b ≡ true → above b a ≡ false
above_asym a b h = ground arith

pub above_trans : (a b c : ℕ) → above a b ≡ true → above b c ≡ true → above a c ≡ true
above_trans a b c h k = ground arith

pub above_total : (a b : ℕ) → above a b ≡ false → above b a ≡ false → a ≡ b
above_total a b h k = ground arith

pub in_set : (k : String) (es : List ℕ) (r : Store) → with_set k es r k ≡ es
in_set k es r = rw (str_eq_refl k) refl

abbrev pub sets : SortedSets ℕ Store
sets = record {
  is_above = above;
  members = λ k r. r k;
  zadd = λ k e r. with_set k (put above e (r k)) r;
  trim = λ k n r. with_set k (take n (r k)) r;
  expire = λ k n r. r;
  delete = λ k r. with_set k [] r;
  zrange = λ k r. reverse (r k);
  above_asym = above_asym;
  above_trans = above_trans;
  above_total = above_total;
  members-zadd = λ k e r. in_set k (put above e (r k)) r;
  members-trim = λ k n r. in_set k (take n (r k)) r;
  members-expire = λ k n r. refl;
  members-delete = λ k r. in_set k [] r;
  zrange_lem = λ k r. refl;
}
