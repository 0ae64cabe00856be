-- ===== src/Collab/Persistence/RoundTrip.antt =====
-- An element goes to its row and back, and a clean board comes back from an eviction.
use notebortt_backend.Collab.Persistence.Steps.{IsSaved}
use notebortt_backend.Collab.Persistence.Write.{Matches}
use notebortt_backend.Collab.Board.{Board, get_or}
use notebortt_backend.Common.Assoc.{
  IsUnique, get, get-put, delete-IsUnique, put_all, get-delete, delete, get-put_all,
}
use notebortt_backend.Common.{
  ℕ, String, ◌≡◌, ◌≡◌, some, if◌then◌else◌, ◌==◌, arith, List, ◌||◌, ◌||◌, none, [], ◌∷◌, ◌∷◌,
  eq_iff, refl, Option, false, ◌⊎◌, ◌⊎◌, Option-cases, inl, inr, ◌∙◌, ◌∙◌, ap,
}
use notebortt_backend.Collab.Element.{id_of, BoardElement, str, num, or_empty, text_field}
use notebortt_backend.Collab.Persistence.{
  db_row_to_board_element, to_element_row, data_of, load_board, Row,
}
use mathlib.Core.Option

data_of-IsUnique : (e : BoardElement) → IsUnique e → IsUnique (data_of e)
data_of-IsUnique e h =
    delete-IsUnique "updatedAt" _ (delete-IsUnique "kind" _ (delete-IsUnique "id" e h))

get-data_of :
    (e : BoardElement) (key : String)
    → get key (data_of e)
      ≡ (if "updatedAt" == key || "kind" == key || "id" == key then none else get key e)
get-data_of e key = ground (
  arith,
  get-delete "updatedAt" key (delete "kind" (delete "id" e)),
  get-delete "kind" key (delete "id" e),
  get-delete "id" key e,
)

-- An element that is written as a row at `ts` and read back has the time stamp `ts`, and every
-- other field as it was, its identifier and its kind included.
get-db_row_to_board_element :
    (ts now : ℕ) (e : BoardElement) (id kind : String) (key : String)
    → IsUnique e
    → get "id" e ≡ some (str id)
    → get "kind" e ≡ some (str kind)
    → get key (db_row_to_board_element now (to_element_row ts e))
      ≡ (if "updatedAt" == key then some (num ts) else get key e)
unfolding db_row_to_board_element to_element_row id_of get
get-db_row_to_board_element ts now e id kind key unique is_id is_kind = ground (
  arith,
  get-put "updatedAt" key (num ts) (
      put_all (data_of e)
        (("id", str (id_of e)) ∷ ("kind", str (or_empty (text_field "kind" e))) ∷ [])),
  get-put_all (data_of e)
      (("id", str (id_of e)) ∷ ("kind", str (or_empty (text_field "kind" e))) ∷ []) key
      (data_of-IsUnique e unique),
  get-data_of e key,
  eq_iff "id" key,
  eq_iff "kind" key,
)

get-load_board :
    (now : ℕ) (rows : List (String × Row)) (x : String)
    → get x (load_board now rows)
      ≡ Option.map (λ r. db_row_to_board_element now (x, r)) (get x rows)
unfolding load_board get
get-load_board now [] x = refl
get-load_board now ((k, r) ∷ rows) x = ground (arith, get-load_board now rows x, eq_iff k x)

-- Equal but for the time stamp.
abbrev pub SameFields : BoardElement → BoardElement → Type 0
SameFields e e' = (key : String) → ("updatedAt" == key) ≡ false → get key e' ≡ get key e

-- Objects with a text for their identifier, that under which they stand, and for their kind.
abbrev pub AreElements : List (String × BoardElement) → Type 0
AreElements elements =
    (x : String) (e : BoardElement)
    → get x elements ≡ some e
    → IsUnique e
      × (get "id" e ≡ some (str x))
      × ((kind : String) × (get "kind" e ≡ some (str kind)))

-- What the row of a saved element is read back as.
Matches-some :
    (e : BoardElement) (o : Option Row)
    → Matches (some e) o
    → (r : Row) × (o ≡ some r)
      × (r.type ≡ or_empty (text_field "kind" e))
      × (r.data_fields ≡ data_of e)
Matches-some e none h = cc
Matches-some e (some r) h = (r, refl, ground arith, ground arith)

Matches-none : (o : Option Row) → Matches none o → o ≡ none
Matches-none none h = refl
Matches-none (some r) h = cc

row_SameFields :
    (now : ℕ) (x : String) (e : BoardElement) (r : Row)
    → r.type ≡ or_empty (text_field "kind" e)
    → r.data_fields ≡ data_of e
    → IsUnique e
    → get "id" e ≡ some (str x)
    → (kind : String) → get "kind" e ≡ some (str kind)
    → SameFields e (db_row_to_board_element now (x, r))
unfolding db_row_to_board_element get
row_SameFields now x e r type fields unique is_id kind is_kind key named = ground (
  arith,
  get-put "updatedAt" key (num (get_or r.updated_at now))
      (put_all r.data_fields (("id", str x) ∷ ("kind", str r.type) ∷ [])),
  get-put_all r.data_fields (("id", str x) ∷ ("kind", str r.type) ∷ []) key
      (rw fields (data_of-IsUnique e unique)),
  ap (get key) fields,
  get-data_of e key,
  eq_iff "id" key,
  eq_iff "kind" key,
)

-- A board that is evicted after everything was saved comes back when it is loaded: each element
-- with all its fields but the time stamp, and no element besides.
pub load_board-IsSaved :
    (b : Board) (rows : List (String × Row)) (now : ℕ) (x : String)
    → AreElements b.elements
    → IsSaved b rows
    → (x == "") ≡ false
    → ((get x b.elements ≡ none) × (get x (load_board now rows) ≡ none))
      ⊎ ((e : BoardElement) × (e' : BoardElement) × (get x b.elements ≡ some e)
          × (get x (load_board now rows) ≡ some e')
          × SameFields e e')
load_board-IsSaved b rows now x typed saved named = elim (Option-cases (get x b.elements)) [
  | inl gone ↦ inl (
    gone,
    get-load_board now rows x
        ∙ ap (Option.map _) (Matches-none (get x rows) (rw gone at (saved x named))),
  )
  | inr (e, found) ↦
      let (r, is_r, type, fields) = Matches-some e (get x rows) (rw found at (saved x named)) in
      let (unique, is_id, (kind, is_kind)) = typed x e found in
      inr (
        e,
        db_row_to_board_element now (x, r),
        found,
        get-load_board now rows x ∙ ap (Option.map _) is_r,
        row_SameFields now x e r type fields unique is_id kind is_kind,
      )
]
