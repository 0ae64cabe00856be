-- ===== src/Common/Assoc.antt =====
-- A map with text keys as an association list: a JavaScript object or `Map`, a Redis hash.
use notebortt_backend.Common.{not, ◌&&◌, false, ◌||◌, true, Bool-cases, inl, inr}
use notebortt_backend.Common.Tests.{if◌then◌else◌}
use notebortt_backend.Common.Keys.{has}
use Prim.Native.String.{String}
use mathlib.Core.Path.{◌≡◌, refl}
use mathlib.Core.Option.{Option, none, some}
use mathlib.Core.List.{List, [], ◌∷◌, map}
use native.Mathlib.Omega.{arith}
use text.Mathlib.Text.{◌==◌}
use text.Mathlib.TextEquality.{eq_iff}

module _ {ℓ} {V : Type ℓ} where
  -- `map.get(k)`, HGET.
  unfoldable pub get : String → List (String × V) → Option V
  get k [] = none
  get k ((j, v) ∷ m) = if j == k then some v else get k m

  -- `map.set(k, v)`, HSET: an old key keeps its place.
  unfoldable pub put : String → V → List (String × V) → List (String × V)
  put k v [] = (k, v) ∷ []
  put k v ((j, w) ∷ m) = if j == k then (k, v) ∷ m else (j, w) ∷ put k v m

  -- `map.delete(k)`, HDEL.
  unfoldable pub delete : String → List (String × V) → List (String × V)
  delete k [] = []
  delete k ((j, w) ∷ m) = let rest = delete k m in if j == k then rest else (j, w) ∷ rest

  unfoldable pub delete_all : List String → List (String × V) → List (String × V)
  unfolding delete
  delete_all [] m = m
  delete_all (k ∷ ks) m = delete_all ks (delete k m)

  -- Every entry of the first map, set in the second: `{ ...m, ...entries }`.
  unfoldable pub put_all : List (String × V) → List (String × V) → List (String × V)
  unfolding put
  put_all [] m = m
  put_all ((k, v) ∷ entries) m = put_all entries (put k v m)

  abbrev pub keys : List (String × V) → List String
  keys m = map (λ e. e.0) m

  abbrev pub values : List (String × V) → List V
  values m = map (λ e. e.1) m

  pub get-put :
      (k j : String) (v : V) (m : List (String × V))
      → get j (put k v m) ≡ (if k == j then some v else get j m)
  unfolding get put
  get-put k j v [] = refl
  get-put k j v ((i, w) ∷ m) = ground (arith, eq_iff k j, eq_iff i k, eq_iff i j, get-put k j v m)

  pub get-delete :
      (k j : String) (m : List (String × V))
      → get j (delete k m) ≡ (if k == j then none else get j m)
  unfolding get delete
  get-delete k j [] = ground arith
  get-delete k j ((i, w) ∷ m) = ground (arith, eq_iff k j, eq_iff i k, eq_iff i j, get-delete k j m)

  pub get-delete_all :
      (ks : List String) (j : String) (m : List (String × V))
      → get j (delete_all ks m) ≡ (if has j ks then none else get j m)
  unfolding delete_all has
  get-delete_all [] j m = refl
  get-delete_all (k ∷ ks) j m = ground (arith, get-delete_all ks j (delete k m), get-delete k j m)

abbrev pub or_else {ℓ} : {A : Type ℓ} → Option A → Option A → Option A
or_else none o = o
or_else (some a) o = some a

module _ {ℓ} {V : Type ℓ} where
  -- No key twice: what a JavaScript object, a `Map` and a Redis hash guarantee.
  abbrev pub IsUnique : List (String × V) → Type 0
  IsUnique [] = Unit {0}
  IsUnique ((k, v) ∷ m) = (has k (keys m) ≡ false) × IsUnique m

  pub has-keys-put :
      (k j : String) (v : V) (m : List (String × V))
      → has j (keys (put k v m)) ≡ (k == j || has j (keys m))
  unfolding has put
  has-keys-put k j v [] = refl
  has-keys-put k j v ((i, w) ∷ m) =
      ground (arith, has-keys-put k j v m, eq_iff i k, eq_iff i j, eq_iff k j)

  pub has-keys-delete :
      (k j : String) (m : List (String × V))
      → has j (keys (delete k m)) ≡ (not (k == j) && has j (keys m))
  unfolding has delete
  has-keys-delete k j [] = ground arith
  has-keys-delete k j ((i, w) ∷ m) =
      ground (arith, has-keys-delete k j m, eq_iff k j, eq_iff i k, eq_iff i j)

  pub has-keys-delete_all :
      (ks : List String) (j : String) (m : List (String × V))
      → has j (keys (delete_all ks m)) ≡ (not (has j ks) && has j (keys m))
  unfolding delete_all has
  has-keys-delete_all [] j m = ground arith
  has-keys-delete_all (k ∷ ks) j m =
      ground (arith, has-keys-delete_all ks j (delete k m), has-keys-delete k j m)

  pub put-IsUnique :
      (k : String) (v : V) (m : List (String × V)) → IsUnique m → IsUnique (put k v m)
  unfolding put has
  put-IsUnique k v [] h = (refl, tt)
  put-IsUnique k v ((i, w) ∷ m) (new, h) =
      ground (arith, put-IsUnique k v m h, has-keys-put k i v m, eq_iff k i, eq_iff i k)

  pub delete-IsUnique : (k : String) (m : List (String × V)) → IsUnique m → IsUnique (delete k m)
  unfolding delete
  delete-IsUnique k [] h = tt
  delete-IsUnique k ((i, w) ∷ m) (new, h) =
      ground (arith, delete-IsUnique k m h, has-keys-delete k i m)

  pub get-none : (x : String) (m : List (String × V)) → has x (keys m) ≡ false → get x m ≡ none
  unfolding get has
  get-none x [] h = refl
  get-none x ((k, v) ∷ m) h = ground (arith, get-none x m)

  pub get-put_all :
      (es m : List (String × V)) (j : String)
      → IsUnique es
      → get j (put_all es m) ≡ or_else (get j es) (get j m)
  unfolding put_all get
  get-put_all [] m j h = refl
  get-put_all ((k, v) ∷ es) m j (new, h) =
      ground (arith, get-put_all es (put k v m) j h, get-put k j v m, get-none k es new, eq_iff k j)

  -- Keys that are not among the entries keep their values.
  pub get-put_all_other :
      (es m : List (String × V)) (j : String)
      → has j (keys es) ≡ false
      → get j (put_all es m) ≡ get j m
  unfolding put_all has
  get-put_all_other [] m j h = refl
  get-put_all_other ((k, v) ∷ es) m j h =
      ground (arith, get-put_all_other es (put k v m) j, get-put k j v m)

  pub get-some :
      (x : String) (m : List (String × V)) → has x (keys m) ≡ true → (v : V) × (get x m ≡ some v)
  unfolding get has
  get-some x [] h = cc
  get-some x ((k, v) ∷ m) h = elim (Bool-cases (k == x)) [
    | inl same ↦ (v, rw same)
    | inr other ↦ let (w, e) = get-some x m (ground arith) in (w, rw other e)
  ]

pub ruleset assoc_laws = (get-put, get-delete, get-delete_all)
