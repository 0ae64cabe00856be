-- ===== src/Collab/Persistence/Write.antt =====
-- What the transaction of a flush leaves in the table.
use notebortt_backend.Common.Keys.{has, add_all, has-add_all, has-add}
use notebortt_backend.Collab.Board.Maps.{is_some}
use notebortt_backend.Collab.Element.{BoardElement, or_empty, text_field, id_of}
use notebortt_backend.Common.Assoc.{put_all, get, delete_all, get-delete_all, put, get-put, or_else}
use notebortt_backend.Common.{
  String, Option, ◌≡◌, List, ◌≡◌, none, if◌then◌else◌, arith, ℕ, [], ◌++◌, ◌∷◌, ◌==◌, some, refl,
  ◌||◌, ◌||◌, not, ◌&&◌, false, eq_iff, Option-cases, inl, inr,
}
use notebortt_backend.Collab.Persistence.{
  write, Row, Plan, data_of, plan_dirty, to_element_row, plan_one, plan_of,
}
use mathlib.Core.Option

-- What a row keeps of an element: all but the time stamp, which is the flush's.
abbrev content : BoardElement → String × BoardElement
content e = (or_empty (text_field "kind" e), data_of e)

abbrev row_content : Row → String × BoardElement
row_content r = (r.type, r.data_fields)

-- The row and the element agree, or there is neither.
abbrev pub Matches : Option BoardElement → Option Row → Type 0
Matches e r = Option.map content e ≡ Option.map row_content r

-- The last row that a list gives an identifier.
abbrev last_row : String → List (String × Row) → Option Row
last_row x [] = none
last_row x ((id, r) ∷ rows) = elim (last_row x rows) [
  | none ↦ if id == x then some r else none
  | some later ↦ some later
]

get-put_all_rows :
    (rows m : List (String × Row)) (x : String)
    → get x (put_all rows m) ≡ or_else (last_row x rows) (get x m)
unfolding put_all
get-put_all_rows [] m x = refl
get-put_all_rows ((k, r) ∷ rows) m x =
    ground (arith, get-put_all_rows rows (put k r m) x, get-put k x r m)

get-write :
    (plan : Plan) (rows : List (String × Row)) (x : String)
    → get x (write plan rows)
      ≡ or_else (last_row x plan.upserts) (if has x plan.deletes then none else get x rows)
unfolding write
get-write plan rows x = ground (
  arith,
  get-put_all_rows plan.upserts (delete_all plan.deletes rows) x,
  get-delete_all plan.deletes x rows,
)

last_row-append :
    (xs : List (String × Row)) (id : String) (r : Row) (x : String)
    → last_row x (xs ++ (id, r) ∷ []) ≡ (if id == x then some r else last_row x xs)
last_row-append [] id r x = ground arith
last_row-append ((k, q) ∷ xs) id r x = ground (arith, last_row-append xs id r x)

module _ (ts : ℕ) (elements : List (String × BoardElement))
    (own : (x : String) (e : BoardElement) → get x elements ≡ some e → id_of e ≡ x) where
  abbrev row_at : String → Option Row
  row_at x = Option.map (λ e. (to_element_row ts e).1) (get x elements)

  plan_one-upserts :
      (id : String) (plan : Plan) (x : String)
      → (x == "") ≡ false
      → last_row x (plan_one ts elements id plan).upserts ≡ (
          if id == x then or_else (row_at x) (last_row x plan.upserts) else last_row x plan.upserts)
  unfolding plan_one to_element_row
  plan_one-upserts id plan x named = elim (Option-cases (get id elements)) [
    | inl gone ↦ ground (arith, eq_iff id x)
    | inr (e, found) ↦ ground (
      arith,
      eq_iff id x,
      own id e found,
      last_row-append plan.upserts (id_of e) (to_element_row ts e).1 x,
    )
  ]

  plan_one-deletes :
      (id : String) (plan : Plan) (x : String)
      → (x == "") ≡ false
      → has x (plan_one ts elements id plan).deletes
        ≡ (has x plan.deletes || (id == x && not (is_some (get x elements))))
  unfolding plan_one
  plan_one-deletes id plan x named = ground (arith, eq_iff id x, has-add id x plan.deletes)

  -- An identifier is written from its element if it is dirty and has one.
  plan_dirty-upserts :
      (ids : List String) (plan : Plan) (x : String)
      → (x == "") ≡ false
      → last_row x (plan_dirty ts elements ids plan).upserts ≡ (
          if has x ids
          then or_else (row_at x) (last_row x plan.upserts)
          else last_row x plan.upserts)
  unfolding plan_dirty has
  plan_dirty-upserts [] plan x named = refl
  plan_dirty-upserts (id ∷ ids) plan x named = ground (
    arith,
    plan_dirty-upserts ids (plan_one ts elements id plan) x named,
    plan_one-upserts id plan x named,
  )

  -- An identifier is deleted if it is marked as deleted, or is dirty and has no element.
  plan_dirty-deletes :
      (ids : List String) (plan : Plan) (x : String)
      → (x == "") ≡ false
      → has x (plan_dirty ts elements ids plan).deletes
        ≡ (has x plan.deletes || (has x ids && not (is_some (get x elements))))
  unfolding plan_dirty has
  plan_dirty-deletes [] plan x named = ground arith
  plan_dirty-deletes (id ∷ ids) plan x named = ground (
    arith,
    plan_dirty-deletes ids (plan_one ts elements id plan) x named,
    plan_one-deletes id plan x named,
  )

  -- The row of an identifier after the transaction.
  pub get-write-plan_of :
      (dirty deleted : List String) (rows : List (String × Row)) (x : String)
      → (x == "") ≡ false
      → get x (write (plan_of ts elements dirty deleted) rows)
        ≡ or_else (if has x dirty then row_at x else none) (
            if has x deleted || (has x dirty && not (is_some (get x elements)))
            then none
            else get x rows)
  unfolding plan_of has
  get-write-plan_of dirty deleted rows x named = ground (
    arith,
    get-write (plan_of ts elements dirty deleted) rows x,
    plan_dirty-upserts dirty (record { upserts = []; deletes = add_all deleted [] }) x named,
    plan_dirty-deletes dirty (record { upserts = []; deletes = add_all deleted [] }) x named,
    has-add_all deleted x [],
  )
