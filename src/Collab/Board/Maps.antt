-- ===== src/Collab/Board/Maps.antt =====
-- The maps that a change writes.
use notebortt_backend.Common.Keys.{has}
use notebortt_backend.Collab.Board.{entry_of}
use notebortt_backend.Collab.Element.{id_of, stamped, BoardElement, num}
use notebortt_backend.Common.Assoc.{
  put_all, get, get-put, put, values, keys, or_else, has-keys-put, get-none,
}
use notebortt_backend.Common.{
  ℕ, String, Option, some, List, none, map, ◌≡◌, ◌≡◌, ◌∷◌, if◌then◌else◌, arith, if◌then◌else◌, [],
  ◌==◌, refl, filter_by, Bool, String-cases, false, not, ◌∙◌, eq_iff, ◌∙◌, true, inl, inr,
}
use notebortt_backend.Collab.Cascade.{keyed, normalize_upserts}
use mathlib.Core.Option

unfoldable pub find_last : String → List BoardElement → Option BoardElement
find_last x [] = none
find_last x (e ∷ es) = elim (find_last x es) [
  | none ↦ if id_of e == x then some e else none
  | some later ↦ some later
]

pub get-put_all_entries :
    (es : List BoardElement) (m : List (String × BoardElement)) (x : String)
    → get x (put_all (map entry_of es) m) ≡ or_else (find_last x es) (get x m)
unfolding put_all find_last
get-put_all_entries [] m x = refl
get-put_all_entries (e ∷ es) m x =
    ground (arith, get-put_all_entries es (put (id_of e) e m) x, get-put (id_of e) x e m)

get-keyed :
    (es : List BoardElement) (m : List (String × BoardElement)) (x : String)
    → get x (keyed es m) ≡ or_else (find_last x es) (get x m)
unfolding keyed find_last
get-keyed [] m x = refl
get-keyed (e ∷ es) m x = ground (arith, get-keyed es (put (id_of e) e m) x, get-put (id_of e) x e m)

-- A time stamp leaves the identifier alone.
id_of-stamped : (now : ℕ) (e : BoardElement) → id_of (stamped now e) ≡ id_of e
unfolding id_of stamped
id_of-stamped now e = rw (get-put "updatedAt" "id" (num now) e)

pub find_last-stamped :
    (now : ℕ) (es : List BoardElement) (x : String)
    → find_last x (map (stamped now) es) ≡ Option.map (stamped now) (find_last x es)
unfolding find_last
find_last-stamped now [] x = refl
find_last-stamped now (e ∷ es) x = ground (arith, find_last-stamped now es x, id_of-stamped now e)

abbrev pub is_some {ℓ} : {A : Type ℓ} → Option A → Bool
is_some none = false
is_some (some a) = true

pub has-find_last :
    (es : List BoardElement) (x : String) → has x (map id_of es) ≡ is_some (find_last x es)
unfolding has find_last
has-find_last [] x = refl
has-find_last (e ∷ es) x = ground (arith, has-find_last es x)

pub find_last-filter :
    (ds : List String) (es : List BoardElement) (x : String)
    → find_last x (filter_by (λ e. not (has (id_of e) ds)) es)
      ≡ (if has x ds then none else find_last x es)
unfolding find_last
find_last-filter ds [] x = ground arith
find_last-filter ds (e ∷ es) x = elim (String-cases (id_of e) x) [
  | inl same ↦ ground (arith, find_last-filter ds es x, eq_iff (id_of e) x)
  | inr other ↦ ground (arith, find_last-filter ds es x)
]

-- Entries stand under their own identifier, each once.
abbrev pub IsKeyed : List (String × BoardElement) → Type 0
IsKeyed [] = Unit {0}
IsKeyed ((k, e) ∷ m) = (id_of e ≡ k) × (has k (keys m) ≡ false) × IsKeyed m

put-IsKeyed :
    (e : BoardElement) (m : List (String × BoardElement)) → IsKeyed m → IsKeyed (put (id_of e) e m)
unfolding put has
put-IsKeyed e [] h = (refl, refl, tt)
put-IsKeyed e ((k, f) ∷ m) (own, once, h) = elim (String-cases k (id_of e)) [
  | inl same ↦ ground (arith, eq_iff k (id_of e))
  | inr other ↦ rw other (
    own,
    ground (arith, has-keys-put (id_of e) k e m, eq_iff (id_of e) k, eq_iff k (id_of e)),
    put-IsKeyed e m h,
  )
]

keyed-IsKeyed :
    (es : List BoardElement) (m : List (String × BoardElement)) → IsKeyed m → IsKeyed (keyed es m)
unfolding keyed
keyed-IsKeyed [] m h = h
keyed-IsKeyed (e ∷ es) m h = keyed-IsKeyed es (put (id_of e) e m) (put-IsKeyed e m h)

find_last-values :
    (m : List (String × BoardElement)) (x : String) → IsKeyed m → find_last x (values m) ≡ get x m
unfolding find_last get
find_last-values [] x h = refl
find_last-values ((k, e) ∷ m) x (own, once, h) =
    ground (arith, find_last-values m x h, get-none k m once, eq_iff k x)

-- Of several upserts of one element the last is kept.
pub find_last-normalize_upserts :
    (es : List BoardElement) (x : String) → find_last x (normalize_upserts es) ≡ find_last x es
unfolding normalize_upserts get
find_last-normalize_upserts es x =
    find_last-values (keyed es []) x (keyed-IsKeyed es [] tt) ∙ ground (arith, get-keyed es [] x)

pub IsKeyed-own :
    (m : List (String × BoardElement)) (x : String) (e : BoardElement)
    → IsKeyed m
    → get x m ≡ some e
    → id_of e ≡ x
unfolding get
IsKeyed-own [] x e h g = cc
IsKeyed-own ((k, f) ∷ m) x e (own, once, h) g = ground (arith, IsKeyed-own m x e h, eq_iff k x)
