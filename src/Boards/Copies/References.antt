-- ===== src/Boards/Copies/References.antt =====
-- The copy of a board does not refer to the elements of the original.
use notebortt_backend.Collab.Board.{get_or}
use notebortt_backend.Common.Keys.{has}
use notebortt_backend.Common.Assoc.{get, put_all, put, get-put}
use notebortt_backend.Collab.Element.{
  Value, bool, num, dec, str, arr, obj, Values, cons, Fields, field, null, nil, end,
}
use notebortt_backend.Common.{
  List, String, ◌∷◌, [], ◌≡◌, ◌≡◌, ◌&&◌, none, false, ◌⊎◌, ◌⊎◌, some, inl, arith, ◌==◌, inr, refl,
  true, Option, All, length, Bool-cases, ◌≤◌, ◌≤◌, map, Option-cases, ==_self,
}
use notebortt_backend.Boards.Copies.{
  remap_element_data, SourceRow, refers, is_id_key, remapped, refers_items, remap_items,
  refers_fields, remap_fields, create_element_id_map, build_duplicated_elements, paired,
  duplicate_row,
}

abbrev pub ids_of : List SourceRow → List String
ids_of [] = []
ids_of (row ∷ rows) = row.source_id ∷ ids_of rows

-- A map that takes each of some identifiers to a new one, which is none of them.
abbrev pub IsRenaming : List String → List (String × String) → Type 0
IsRenaming olds ids =
    (s : String)
    → ((get s ids ≡ none) × (has s olds ≡ false))
      ⊎ ((new : String) × (get s ids ≡ some new) × ((new == "") ≡ false) × (has new olds ≡ false))

remapped-refers :
    (olds : List String) (ids : List (String × String)) (key s : String)
    → IsRenaming olds ids
    → (is_id_key key && has (remapped ids key s) olds) ≡ false
remapped-refers olds ids key s renaming = elim (renaming s) [
  | inl (absent, other) ↦ ground (arith, absent, other)
  | inr (new, found, named, fresh) ↦ ground (arith, found, named, fresh)
]

mutual
  unfolding remap_element_data refers

  remap-refers :
      (olds : List String) (ids : List (String × String)) (key : String) (v : Value)
      → IsRenaming olds ids
      → refers olds key (remap_element_data ids key v) ≡ false
  remap-refers olds ids key null r = refl
  remap-refers olds ids key (bool b) r = refl
  remap-refers olds ids key (num n) r = refl
  remap-refers olds ids key (dec t) r = refl
  remap-refers olds ids key (str s) r = remapped-refers olds ids key s r
  remap-refers olds ids key (arr vs) r = items-refers olds ids key vs r
  remap-refers olds ids key (obj fs) r = fields-refers olds ids fs r

  items-refers :
      (olds : List String) (ids : List (String × String)) (key : String) (vs : Values)
      → IsRenaming olds ids
      → refers_items olds key (remap_items ids key vs) ≡ false
  items-refers olds ids key nil r = refl
  items-refers olds ids key (cons v vs) r =
      ground (arith, remap-refers olds ids key v r, items-refers olds ids key vs r)

  fields-refers :
      (olds : List String) (ids : List (String × String)) (fs : Fields)
      → IsRenaming olds ids
      → refers_fields olds (remap_fields ids fs) ≡ false
  fields-refers olds ids end r = refl
  fields-refers olds ids (field key v fs) r =
      ground (arith, remap-refers olds ids key v r, fields-refers olds ids fs r)

-- A drawn identifier: not empty, and none of the old ones.
abbrev pub IsFresh : List String → String → Type 0
IsFresh olds new = ((new == "") ≡ false) × (has new olds ≡ false)

abbrev IsFreshIfAny : List String → Option String → Type 0
IsFreshIfAny olds none = Unit {0}
IsFreshIfAny olds (some new) = IsFresh olds new

put-IsFresh :
    (olds : List String) (k new s : String) (m : List (String × String))
    → IsFresh olds new
    → IsFreshIfAny olds (get s m)
    → IsFreshIfAny olds (get s (put k new m))
put-IsFresh olds k new s m fresh h =
    rw (get-put k s new m)
      (elim (Bool-cases (k == s)) [ inl same ↦ rw same fresh | inr other ↦ rw other h ])

paired-IsFresh :
    (olds : List String) (rows : List SourceRow) (drawn : List String) (m : List (String × String))
    (s : String)
    → All (IsFresh olds) drawn
    → IsFreshIfAny olds (get s m)
    → IsFreshIfAny olds (get s (put_all (paired rows drawn) m))
unfolding put_all
paired-IsFresh olds [] drawn m s fresh h = h
paired-IsFresh olds (row ∷ rows) [] m s fresh h = h
paired-IsFresh olds (row ∷ rows) (new ∷ drawn) m s (first, rest) h =
    paired-IsFresh olds rows drawn (put row.source_id new m) s rest
      (put-IsFresh olds row.source_id new s m first h)

paired-covers :
    (rows : List SourceRow) (drawn : List String) (m : List (String × String)) (s : String)
    → length rows ≤ length drawn
    → get s (put_all (paired rows drawn) m) ≡ none
    → (has s (ids_of rows) ≡ false) × (get s m ≡ none)
unfolding put_all has
paired-covers [] drawn m s enough h = (refl, h)
paired-covers (row ∷ rows) [] m s enough h = absurd (omega arith)
paired-covers (row ∷ rows) (new ∷ drawn) m s enough h = ground (
  arith,
  paired-covers rows drawn (put row.source_id new m) s (omega arith) h,
  get-put row.source_id s new m,
)

map-IsRenaming :
    (rows : List SourceRow) (drawn : List String)
    → length rows ≤ length drawn
    → All (IsFresh (ids_of rows)) drawn
    → IsRenaming (ids_of rows) (create_element_id_map rows drawn)
unfolding create_element_id_map get
map-IsRenaming rows drawn enough fresh s =
    elim (Option-cases (get s (put_all (paired rows drawn) []))) [
      | inl absent ↦ inl (absent, (paired-covers rows drawn [] s enough absent).0)
      | inr (new, found) ↦
          let (named, apart) =
            rw found at (paired-IsFresh (ids_of rows) rows drawn [] s fresh tt) in
          inr (new, found, named, apart)
    ]

-- A row of the copy against the elements of the original.
abbrev pub IsDetached : List String → SourceRow → Type 0
IsDetached olds row =
    (has row.source_id olds ≡ false) × (refers_fields olds row.source_data ≡ false)

renamed-other :
    (olds : List String) (ids : List (String × String)) (s : String)
    → IsRenaming olds ids
    → has s olds ≡ true
    → has (get_or (get s ids) s) olds ≡ false
renamed-other olds ids s renaming old = elim (renaming s) [
  | inl (absent, other) ↦ ground arith
  | inr (new, found, named, fresh) ↦ rw found fresh
]

rows-IsDetached :
    (olds : List String) (ids : List (String × String)) (rows : List SourceRow)
    → IsRenaming olds ids
    → ((s : String) → has s (ids_of rows) ≡ true → has s olds ≡ true)
    → All (IsDetached olds) (map (duplicate_row ids) rows)
unfolding has
rows-IsDetached olds ids [] renaming inside = tt
rows-IsDetached olds ids (row ∷ rows) renaming inside = (
  (
    renamed-other olds ids row.source_id renaming
        (inside row.source_id (ground (arith, ==_self row.source_id))),
    fields-refers olds ids row.source_data renaming,
  ),
  rows-IsDetached olds ids rows renaming (λ s h. inside s (ground arith)),
)

-- The copy of a board is detached from it: where the drawn identifiers are new and there are
-- enough of them, no element of the copy has the identifier of an element of the original, and
-- none refers to one, at any depth, by a text under a key for identifiers.
pub build_duplicated_elements-IsDetached :
    (rows : List SourceRow) (drawn : List String)
    → length rows ≤ length drawn
    → All (IsFresh (ids_of rows)) drawn
    → All (IsDetached (ids_of rows)) (build_duplicated_elements rows drawn)
unfolding build_duplicated_elements
build_duplicated_elements-IsDetached rows drawn enough fresh =
    rows-IsDetached (ids_of rows) (create_element_id_map rows drawn) rows
      (map-IsRenaming rows drawn enough fresh) (λ s h. h)
