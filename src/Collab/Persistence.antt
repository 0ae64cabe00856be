-- ===== src/Collab/Persistence.antt =====
-- persistence-domain.ts and load-domain.ts: the rows of one board in Postgres, the flush that
-- brings them up to date with Redis, and the elements that loading reads from them.
-- The rows are those of the board, and `elements.id` is the key; Table has those of all boards.
pub mod RoundTrip
pub mod Write
pub mod Steps
pub mod Kept
pub mod Interleaving
pub mod Processes
pub mod Table
use notebortt_backend.Common.Keys.{add_all, add}
use notebortt_backend.Collab.Board.{Board, peek_sequence, is_nil, get_or}
use notebortt_backend.Common.Assoc.{put, delete, put_all, delete_all, values, get}
use notebortt_backend.Collab.Element.{BoardElement, id_of, or_empty, num, str, text_field}
use notebortt_backend.Common.{
  ℕ, String, List, Bool, [], ◌∷◌, map, if◌then◌else◌, if◌then◌else◌, not, ◌==◌, ◌==◌, ◌&&◌, eqb,
  ◌&&◌, none, false, true, some, ◌-◌, ◌-◌, ◌++◌, ◌++◌, Option,
}

-- `elements` without its key and its board.
pub record Row : Type 0 where
  pub type : String
  pub data_fields : BoardElement
  pub updated_at : Option ℕ

-- `{ id, kind, updatedAt, ...data } = element`.
abbrev pub data_of : BoardElement → BoardElement
data_of e = delete "updatedAt" (delete "kind" (delete "id" e))

unfoldable pub to_element_row : ℕ → BoardElement → String × Row
to_element_row server_timestamp e = (
  id_of e,
  record {
    type = or_empty (text_field "kind" e);
    data_fields = data_of e;
    updated_at = some server_timestamp;
  },
)

-- `{ id, kind, ...data, updatedAt }`, with the clock where the row has no time stamp.
unfoldable pub db_row_to_board_element : ℕ → String × Row → BoardElement
db_row_to_board_element now (id, row) =
    put "updatedAt" (num (get_or row.updated_at now))
      (put_all row.data_fields (("id", str id) ∷ ("kind", str row.type) ∷ []))

-- What one flush writes.
pub record Plan : Type 0 where
  pub upserts : List (String × Row)
  pub deletes : List String

-- One round of the loop over the dirty identifiers; one that has lost its element is deleted.
unfoldable pub plan_one : ℕ → List (String × BoardElement) → String → Plan → Plan
plan_one ts elements id plan = if id == "" then plan else elim (get id elements) [
  | none ↦ record plan { deletes = add id plan.deletes }
  | some e ↦ record plan { upserts = plan.upserts ++ to_element_row ts e ∷ [] }
]

unfoldable pub plan_dirty : ℕ → List (String × BoardElement) → List String → Plan → Plan
plan_dirty ts elements [] plan = plan
plan_dirty ts elements (id ∷ ids) plan = plan_dirty ts elements ids (plan_one ts elements id plan)

unfoldable pub plan_of : ℕ → List (String × BoardElement) → List String → List String → Plan
plan_of ts elements dirty deleted =
    plan_dirty ts elements dirty (record { upserts = []; deletes = add_all deleted [] })

-- The transaction: the deletes, then the upserts.
unfoldable pub write : Plan → List (String × Row) → List (String × Row)
write plan rows = put_all plan.upserts (delete_all plan.deletes rows)

-- What a flush remembers of its beginning.
pub record Begun : Type 0 where
  pub started_at : ℕ
  pub sequence : ℕ
  pub epoch : ℕ

unfoldable pub begin : ℕ → Board → Begun
begin now b = record { started_at = now; sequence = peek_sequence b; epoch = b.dirty_epoch }

-- The script that marks the board as clean, unless a change has moved the epoch.
unfoldable pub clear_dirty : Bool → Begun → ℕ → Board → Bool × Board
clear_dirty incremental begun completed_at b =
    if not (eqb b.dirty_epoch begun.epoch) then (false, b) else (
      true,
      record b {
        in_dirty = false;
        dirty_score = none;
        dirty_since = none;
        last_flushed_seq = some begun.sequence;
        last_flushed_at = some completed_at;
        last_flush_duration = some (completed_at - begun.started_at);
        dirty_ids = if incremental then [] else b.dirty_ids;
        deleted_ids = if incremental then [] else b.deleted_ids;
      },
    )

-- `persistBoardIncremental` on a board that does not change meanwhile: with nothing marked it
-- leaves the database alone.
unfoldable pub persist_board_incremental : ℕ → Board → List (String × Row) → List (String × Row)
persist_board_incremental ts b rows =
    if is_nil b.dirty_ids && is_nil b.deleted_ids
    then rows
    else write (plan_of ts b.elements b.dirty_ids b.deleted_ids) rows

unfoldable pub persist_board_full_snapshot : ℕ → Board → List (String × Row) → List (String × Row)
persist_board_full_snapshot ts b rows = put_all (map (to_element_row ts) (values b.elements)) []

-- The elements that `loadBoard` reads from the rows.
unfoldable pub load_board : ℕ → List (String × Row) → List (String × BoardElement)
load_board now [] = []
load_board now ((id, row) ∷ rows) =
    (id, db_row_to_board_element now (id, row)) ∷ load_board now rows
