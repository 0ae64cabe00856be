-- ===== src/Common/Keys.antt =====
-- A set of texts as a list in the order of insertion: a JavaScript `Set<string>`, a Redis set.
use notebortt_backend.Common.Tests.{if◌then◌else◌, Bool-cases, ==_self}
use Prim.Native.String.{String}
use mathlib.Core.Path.{◌≡◌, refl}
use mathlib.Core.Logic.{inl, inr}
use mathlib.Core.Bool.{Bool, true, false, ◌||◌, ◌&&◌, not}
use mathlib.Core.List.{List, [], ◌∷◌, ◌++◌}
use native.Mathlib.Omega.{arith}
use text.Mathlib.Text.{◌==◌}
use text.Mathlib.TextEquality.{eq_iff}

-- `set.has(k)`, SISMEMBER.
unfoldable pub has : String → List String → Bool
has k [] = false
has k (x ∷ xs) = x == k || has k xs

-- `set.add(k)`, SADD.
unfoldable pub add : String → List String → List String
unfolding has
add k xs = if has k xs then xs else xs ++ k ∷ []

-- SADD of several members; `new Set(xs)` where the second argument is empty.
unfoldable pub add_all : List String → List String → List String
unfolding add
add_all [] set = set
add_all (x ∷ xs) set = add_all xs (add x set)

-- SREM.
unfoldable pub remove : String → List String → List String
remove k [] = []
remove k (x ∷ xs) = let rest = remove k xs in if x == k then rest else x ∷ rest

unfoldable pub remove_all : List String → List String → List String
unfolding remove
remove_all [] set = set
remove_all (x ∷ xs) set = remove_all xs (remove x set)

pub has-append : (k : String) (xs ys : List String) → has k (xs ++ ys) ≡ (has k xs || has k ys)
unfolding has
has-append k [] ys = refl
has-append k (x ∷ xs) ys = ground (arith, has-append k xs ys)

pub has-add : (k j : String) (xs : List String) → has j (add k xs) ≡ (k == j || has j xs)
unfolding add has
has-add k j xs = elim (Bool-cases (has k xs)) [
  | inl old ↦ ground (arith, eq_iff k j)
  | inr new ↦ ground (arith, has-append j xs (k ∷ []))
]

pub has-add_all :
    (ks : List String) (j : String) (xs : List String)
    → has j (add_all ks xs) ≡ (has j ks || has j xs)
unfolding add_all has
has-add_all [] j xs = refl
has-add_all (k ∷ ks) j xs = ground (arith, has-add_all ks j (add k xs), has-add k j xs)

pub has-remove :
    (k j : String) (xs : List String) → has j (remove k xs) ≡ (not (k == j) && has j xs)
unfolding remove has
has-remove k j [] = ground arith
has-remove k j (x ∷ xs) = ground (arith, has-remove k j xs, eq_iff k j, eq_iff x k, eq_iff x j)

pub has-remove_all :
    (ks : List String) (j : String) (xs : List String)
    → has j (remove_all ks xs) ≡ (not (has j ks) && has j xs)
unfolding remove_all has
has-remove_all [] j xs = ground arith
has-remove_all (k ∷ ks) j xs = ground (arith, has-remove_all ks j (remove k xs), has-remove k j xs)

pub has-append_self : (k : String) (xs ys : List String) → has k (xs ++ k ∷ ys) ≡ true
unfolding has
has-append_self k [] ys = ground (arith, ==_self k)
has-append_self k (x ∷ xs) ys = ground (arith, has-append_self k xs ys)

pub ruleset key_laws = (has-add, has-add_all, has-remove, has-remove_all, has-append)
