-- ===== src/Collab/Persistence/Table.antt =====
-- The transaction of persistence-domain.ts on the table `elements` of all boards, whose key is the
-- identifier of an element alone.
use notebortt_backend.Common.Keys.{has}
use notebortt_backend.Common.{
  String, List, Option, ◌≡◌, some, [], ◌≡◌, ◌==◌, ◌∷◌, arith, false, none, if◌then◌else◌, ==_self,
  ◌&&◌, eq_iff, refl,
}
use notebortt_backend.Collab.Persistence.{write, Plan, Row}
use notebortt_backend.Common.Assoc.{
  get-put, put_all, get, put, IsUnique, keys, delete_all, get-delete_all, get-none,
}

pub record Stored : Type 0 where
  pub on_board : String
  pub stored_row : Row

-- DELETE of a board's rows with one of the identifiers.
unfoldable pub delete_from : String → List String → List (String × Stored) → List (String × Stored)
unfolding has
delete_from board_id ids [] = []
delete_from board_id ids ((k, s) ∷ t) =
    let rest = delete_from board_id ids t in
    if s.on_board == board_id && has k ids then rest else (k, s) ∷ rest

-- INSERT, where a conflict on the key sets the row and its board.
unfoldable pub upsert_into :
    String → List (String × Row) → List (String × Stored) → List (String × Stored)
unfolding put
upsert_into board_id [] t = t
upsert_into board_id ((k, row) ∷ rows) t =
    upsert_into board_id rows (put k (record { on_board = board_id; stored_row = row }) t)

unfoldable pub write_table : String → Plan → List (String × Stored) → List (String × Stored)
unfolding delete_from upsert_into
write_table board_id plan t =
    upsert_into board_id plan.upserts (delete_from board_id plan.deletes t)

abbrev pub if_on : String → Option Stored → Option Row
if_on board_id none = none
if_on board_id (some s) = if s.on_board == board_id then some s.stored_row else none

-- The row of an identifier that a board has.
abbrev pub row_on : String → String → List (String × Stored) → Option Row
row_on board_id k t = if_on board_id (get k t)

has-delete_from :
    (b k : String) (ids : List String) (t : List (String × Stored))
    → has k (keys t) ≡ false
    → has k (keys (delete_from b ids t)) ≡ false
unfolding delete_from has
has-delete_from b k ids [] h = refl
has-delete_from b k ids ((j, s) ∷ t) h = ground (arith, h, has-delete_from b k ids t)

get-delete_from :
    (b k : String) (ids : List String) (t : List (String × Stored))
    → IsUnique t
    → get k (delete_from b ids t) ≡ (elim (get k t) [
      | none ↦ none
      | some s ↦ if s.on_board == b && has k ids then none else some s
    ])
unfolding delete_from get has
get-delete_from b k ids [] h = refl
get-delete_from b k ids ((j, s) ∷ t) (new, h) = ground (
  arith,
  eq_iff j k,
  get-delete_from b k ids t h,
  get-none j (delete_from b ids t) (has-delete_from b j ids t new),
)

-- The rows of one board, as the models of a single board have them.
abbrev pub AreRowsOf : String → List (String × Row) → List (String × Stored) → Type 0
AreRowsOf b rows t = (k : String) → row_on b k t ≡ get k rows

upsert-own :
    (b : String) (es rows : List (String × Row)) (t : List (String × Stored))
    → AreRowsOf b rows t
    → AreRowsOf b (put_all es rows) (upsert_into b es t)
unfolding upsert_into put_all
upsert-own b [] rows t h = h
upsert-own b ((i, row) ∷ es) rows t h =
    let s : Stored = record { on_board = b; stored_row = row } in
    upsert-own b es (put i row rows) (put i s t)
      (λ k. ground (arith, h k, get-put i k row rows, get-put i k s t, ==_self b))

upsert-other :
    (b x k : String) (es : List (String × Row)) (t : List (String × Stored))
    → (b == x) ≡ false
    → row_on x k (upsert_into b es t) ≡ (if has k (keys es) then none else row_on x k t)
unfolding upsert_into has
upsert-other b x k [] t apart = refl
upsert-other b x k ((i, row) ∷ es) t apart =
    let s : Stored = record { on_board = b; stored_row = row } in
    ground (arith, apart, upsert-other b x k es (put i s t) apart, get-put i k s t, eq_iff i k)

kept-other :
    (b x k : String) (ids : List String) (o : Option Stored)
    → (b == x) ≡ false
    → if_on x
        (elim o [ none ↦ none | some s ↦ if s.on_board == b && has k ids then none else some s ])
      ≡ if_on x o
kept-other b x k ids none apart = refl
kept-other b x k ids (some s) apart =
    ground (arith, apart, eq_iff s.on_board b, eq_iff s.on_board x, eq_iff b x)

-- What the transaction of a flush makes of the table of all boards: the board's own rows become
-- what `write` makes of them, and every other board keeps its rows but for those whose identifiers
-- the flush upserts, which are taken from it.
pub write_table-rows :
    (b : String) (plan : Plan) (rows : List (String × Row)) (t : List (String × Stored))
    → IsUnique t
    → AreRowsOf b rows t
    → AreRowsOf b (write plan rows) (write_table b plan t)
      × ((x k : String)
          → (b == x) ≡ false
          → row_on x k (write_table b plan t)
            ≡ (if has k (keys plan.upserts) then none else row_on x k t))
unfolding write_table write
write_table-rows b plan rows t unique own = (
  upsert-own b plan.upserts (delete_all plan.deletes rows) (delete_from b plan.deletes t) (λ k.
      ground (
        arith,
        own k,
        get-delete_all plan.deletes k rows,
        get-delete_from b k plan.deletes t unique,
      )),
  λ x k apart.
      rw
        (
          upsert-other b x k plan.upserts (delete_from b plan.deletes t) apart,
          get-delete_from b k plan.deletes t unique,
          kept-other b x k plan.deletes (get k t) apart,
        )
        refl,
)
