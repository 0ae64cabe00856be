-- ===== src/Common/Lists.antt =====
-- Lists measured by native numbers, Boolean tests over lists, and a predicate on every entry.
use Prim.Native.Nat.{ℕ, zero, suc, ◌+◌, ◌≤◌}
use mathlib.Core.Path.{◌≡◌}
use mathlib.Core.Option.{Option, none, some}
use mathlib.Core.Bool.{Bool, true, false, ◌&&◌, ◌||◌}
use mathlib.Core.List.{List, [], ◌∷◌, ◌++◌}
use native.Mathlib.Omega.{arith}
use notebortt_backend.Common.Tests.{if◌then◌else◌}

module _ {ℓ} {A : Type ℓ} where
  abbrev pub length : List A → ℕ
  length [] = 0
  length (x ∷ xs) = suc (length xs)

  -- `xs.some(p)` and `xs.every(p)`.
  abbrev pub any : (A → Bool) → List A → Bool
  any p [] = false
  any p (x ∷ xs) = p x || any p xs

  abbrev pub all : (A → Bool) → List A → Bool
  all p [] = true
  all p (x ∷ xs) = p x && all p xs

  -- `xs.filter(p)`.
  abbrev pub filter_by : (A → Bool) → List A → List A
  filter_by p [] = []
  filter_by p (x ∷ xs) = let rest = filter_by p xs in if p x then x ∷ rest else rest

  pub length-append : (xs ys : List A) → length (xs ++ ys) ≡ length xs + length ys
  length-append [] ys = omega arith
  length-append (x ∷ xs) ys = omega (arith, length-append xs ys)

  length-filter_by-le : (p : A → Bool) (xs : List A) → length (filter_by p xs) ≤ length xs
  length-filter_by-le p [] = omega arith
  length-filter_by-le p (x ∷ xs) = ground (arith, length-filter_by-le p xs)

abbrev pub All {ℓ κ} : {A : Type ℓ} → (A → Type κ) → List A → Type κ
All P [] = Unit
All P (x ∷ xs) = P x × All P xs

module _ {ℓ} {A : Type ℓ} where
  -- SELECT ... LIMIT 1, `xs.find(p)`.
  abbrev pub find_by : (A → Bool) → List A → Option A
  find_by p [] = none
  find_by p (x ∷ xs) = let rest = find_by p xs in if p x then some x else rest

  -- UPDATE ... SET f WHERE p.
  abbrev pub update_where : (A → Bool) → (A → A) → List A → List A
  update_where p f [] = []
  update_where p f (x ∷ xs) = (if p x then f x else x) ∷ update_where p f xs

  -- The rows that an update does not move into or out of a selection.
  pub find_by-update_where :
      (q p : A → Bool) (f : A → A) (xs : List A)
      → ((x : A) → q (f x) ≡ q x)
      → find_by q (update_where p f xs)
        ≡ (elim (find_by q xs) [ none ↦ none | some x ↦ some (if p x then f x else x) ])
  find_by-update_where q p f [] same = ground arith
  find_by-update_where q p f (x ∷ xs) same =
      ground (arith, same x, find_by-update_where q p f xs same)

  pub find_by-append :
      (q : A → Bool) (xs ys : List A)
      → find_by q (xs ++ ys) ≡ (elim (find_by q xs) [ none ↦ find_by q ys | some x ↦ some x ])
  find_by-append q [] ys = ground arith
  find_by-append q (x ∷ xs) ys = ground (arith, find_by-append q xs ys)

  find_by-none : (q : A → Bool) (xs : List A) → any q xs ≡ false → find_by q xs ≡ none
  find_by-none q [] h = ground arith
  find_by-none q (x ∷ xs) h = ground (arith, h, find_by-none q xs)

-- `xs.slice(0, n)`.
abbrev pub take_first {ℓ} : {A : Type ℓ} → ℕ → List A → List A
take_first zero xs = []
take_first (suc n) [] = []
take_first (suc n) (x ∷ xs) = x ∷ take_first n xs

-- What a partial function makes of the entries that it takes.
abbrev pub filter_map {ℓ κ} : {A : Type ℓ} {B : Type κ} → (A → Option B) → List A → List B
filter_map f [] = []
filter_map f (x ∷ xs) = let rest = filter_map f xs in elim (f x) [ none ↦ rest | some y ↦ y ∷ rest ]

pub length-take_first-le {ℓ} : {A : Type ℓ} (n : ℕ) (xs : List A) → length (take_first n xs) ≤ n
length-take_first-le zero xs = omega arith
length-take_first-le (suc n) [] = omega arith
length-take_first-le (suc n) (x ∷ xs) = omega (arith, length-take_first-le n xs)
