-- ===== src/Collab/Tests/Flush.antt =====
-- The flush, the change sets and the presence of a board at concrete values.
use notebortt_backend.Collab.Persistence.Table.{
  Stored, delete_from, AreRowsOf, upsert_into, write_table, row_on, write_table-rows,
}
use notebortt_backend.Collab.Persistence.Processes.{
  Turn, advances, changes, turn, turn_all, AreSerial, resting, turns-IsSynced,
  turns-clear_dirty-IsSaved,
}
use notebortt_backend.Collab.Persistence.Steps.{
  flush_step, IsSynced, World, IsSaved, idle, change_step,
}
use notebortt_backend.Collab.Cascade.{normalize_upserts, keyed}
use notebortt_backend.Collab.Processor.{options_for}
use notebortt_backend.Collab.Board.Tracked.{IsTracked, touched}
use notebortt_backend.Collab.Persistence.{
  Row, begin, clear_dirty, write, plan_of, plan_dirty, plan_one, to_element_row,
  persist_board_incremental, Plan,
}
use notebortt_backend.Collab.Board.Maps.{IsKeyed, IsKeyed-own}
use notebortt_backend.Collab.Tests.{board, stored}
use notebortt_backend.Common.Assoc.{get, keys, get-some, get-none, put_all, delete_all, put}
use notebortt_backend.Collab.Persistence.Interleaving.{flush_steps, flush_steps-IsSaved}
use notebortt_backend.Common.{
  List, String, ◌∷◌, arith, [], eq_iff, some, ◌≡◌, true, false, Bool-cases, none, inl, String-cases,
  sym, ap, inr, refl, ◌==◌, ◌==◌, if◌then◌else◌, if◌then◌else◌,
}
use notebortt_backend.Collab.Board.{
  Board, apply_change_set, get_sequence, commit, kept_upserts, cascade, peek_sequence, push_change,
}
use notebortt_backend.Collab.Element.{id_of, str, num, stamped}
use notebortt_backend.Collab.Mutation.{ChangeSet, collab}
use notebortt_backend.Common.Keys.{has, add_all, remove_all, add, remove}

-- All of its elements are new, and `g` was deleted.
abbrev pub busy : Board
busy = record board { dirty_ids = keys stored; deleted_ids = "g" ∷ [] }

abbrev old_rows : List (String × Row)
old_rows = ("g", record { type = "note"; data_fields = []; updated_at = some 3 }) ∷ []

pub stored-IsKeyed : IsKeyed stored
unfolding id_of get has
stored-IsKeyed = (refl, refl, (refl, refl, (refl, refl, (refl, refl, tt))))

only_g : (x : String) → has x ("g" ∷ []) ≡ true → x ≡ "g"
unfolding has
only_g x h = sym ((eq_iff "g" x).0 (ground arith))

not_g : (x : String) → has x (keys stored) ≡ true → has x ("g" ∷ []) ≡ false
unfolding has
not_g x h = elim (String-cases "g" x) [
  | inl same ↦ absurd (cc (ap (λ k. has k (keys stored)) same))
  | inr other ↦ rw other
]

pub busy-IsTracked : IsTracked busy
busy-IsTracked = record {
  own_key = λ x e. IsKeyed-own stored x e stored-IsKeyed;
  apart = not_g;
  dirty_present = λ x h. let (e, found) = get-some x stored h in rw found;
  deleted_absent = λ x h. get-none x stored (elim (Bool-cases (has x (keys stored))) [
    | inl known ↦ absurd (cc (not_g x known))
    | inr new ↦ new
  ]);
}

g_row-other : (x : String) → has x ("g" ∷ []) ≡ false → get x old_rows ≡ none
unfolding get has
g_row-other x h = ground arith

busy-IsSynced : IsSynced busy old_rows
busy-IsSynced x named free = rw (get-none x stored (ground arith), g_row-other x (ground arith))

-- A note is moved when the flush has read what to write, and before it writes.
abbrev moved_note : ChangeSet
moved_note = record {
  upserts = (("id", str "f") ∷ ("kind", str "note") ∷ ("x", num 9) ∷ []) ∷ [];
  deletes = [];
}

abbrev idle_world : World
idle_world = record { board = busy; rows = old_rows; flush = idle }

abbrev raced : World
raced = change_step 50 51 (options_for collab) moved_note (flush_steps 40 41 4 idle_world)

-- The flush has lost the race: the note is still marked, and the board is still dirty.
raced_test :
    (touched (flush_steps 60 61 2 raced).board "f" ≡ true)
    × ((flush_steps 60 61 2 raced).board.in_dirty ≡ true)
unfolding flush_step begin clear_dirty apply_change_set get_sequence commit kept_upserts
    normalize_upserts keyed put_all delete_all add_all remove_all add remove has get put cascade
    peek_sequence push_change id_of stamped write plan_of plan_dirty plan_one to_element_row
raced_test = (refl, refl)

-- Process 0 has read what to write when the note is moved; then process 1 flushes, after it.
abbrev serial_turns : List Turn
serial_turns =
    advances 0 40 41
    ∷ advances 0 40 41
    ∷ advances 0 40 41
    ∷ advances 0 40 41
    ∷ changes 50 51 (options_for collab) moved_note
    ∷ advances 0 60 61
    ∷ advances 0 60 61
    ∷ advances 1 70 71
    ∷ advances 1 70 71
    ∷ advances 1 70 71
    ∷ advances 1 70 71
    ∷ advances 1 70 71
    ∷ []

serial_turns-AreSerial : AreSerial serial_turns (resting busy old_rows)
unfolding turn flush_step
serial_turns-AreSerial = (
  (λ q h. ground (arith, h)),
  (
    (λ q h. ground (arith, h)),
    (
      (λ q h. ground (arith, h)),
      (
        (λ q h. ground (arith, h)),
        (
          (λ q h. ground (arith, h)),
          (
            (λ q h. ground (arith, h)),
            (
              (λ q h. ground (arith, h)),
              (
                (λ q h. ground (arith, h)),
                (
                  (λ q h. ground (arith, h)),
                  ((λ q h. ground (arith, h)), ((λ q h. ground (arith, h)), tt)),
                ),
              ),
            ),
          ),
        ),
      ),
    ),
  ),
)

turns-IsSynced_example :
    let c = turn_all serial_turns (resting busy old_rows) in IsSynced c.board c.rows
turns-IsSynced_example =
    turns-IsSynced serial_turns busy old_rows busy-IsTracked busy-IsSynced serial_turns-AreSerial

-- One flush up to its last script.
abbrev one_flush : List Turn
one_flush =
    advances 0 40 41
    ∷ advances 0 40 41
    ∷ advances 0 40 41
    ∷ advances 0 40 41
    ∷ advances 0 40 41
    ∷ []

one_flush-AreSerial : AreSerial one_flush (resting busy old_rows)
unfolding turn flush_step
one_flush-AreSerial = (
  (λ q h. ground (arith, h)),
  (
    (λ q h. ground (arith, h)),
    ((λ q h. ground (arith, h)), ((λ q h. ground (arith, h)), ((λ q h. ground (arith, h)), tt))),
  ),
)

turns-clear_dirty-IsSaved_example :
    let c = turn_all one_flush (resting busy old_rows) in
    IsSaved (clear_dirty true (begin 41 busy) 42 c.board).1 c.rows
unfolding turn flush_step begin clear_dirty
turns-clear_dirty-IsSaved_example =
    turns-clear_dirty-IsSaved one_flush busy old_rows 0 42 (begin 41 busy) busy-IsTracked
      busy-IsSynced one_flush-AreSerial refl refl

-- Two flushes at a time lose a change: process 0 has read the note, it is moved, process 1 flushes
-- it and clears the marks, and then process 0 writes what it has read.
abbrev overlapping : List Turn
overlapping =
    advances 0 40 41
    ∷ advances 0 40 41
    ∷ advances 0 40 41
    ∷ advances 0 40 41
    ∷ changes 50 51 (options_for collab) moved_note
    ∷ advances 1 70 71
    ∷ advances 1 70 71
    ∷ advances 1 70 71
    ∷ advances 1 70 71
    ∷ advances 1 70 71
    ∷ advances 1 70 71
    ∷ advances 0 80 81
    ∷ []

overlapping_test :
    let c = turn_all overlapping (resting busy old_rows) in
    (touched c.board "f" ≡ false)
    × (c.board.in_dirty ≡ false)
    × (get "f" c.rows ≡ get "f" (turn_all one_flush (resting busy old_rows)).rows)
unfolding turn flush_step begin clear_dirty apply_change_set get_sequence commit kept_upserts
    normalize_upserts keyed put_all delete_all add_all remove_all add remove has get put cascade
    peek_sequence push_change id_of stamped write plan_of plan_dirty plan_one to_element_row
overlapping_test = (refl, refl, refl)

flush_steps-IsSaved_example :
    ((flush_steps 40 41 6 idle_world).rows ≡ persist_board_incremental 40 busy old_rows)
    × ((flush_steps 40 41 6 idle_world).board.in_dirty ≡ false)
    × IsSaved busy (persist_board_incremental 40 busy old_rows)
flush_steps-IsSaved_example = flush_steps-IsSaved 40 41 busy old_rows busy-IsTracked busy-IsSynced

-- Another board has an element with an identifier that the flush upserts.
abbrev shared_table : List (String × Stored)
shared_table =
    (
      "g",
      record {
        on_board = "b1";
        stored_row = record { type = "note"; data_fields = []; updated_at = some 3 };
      },
    )
    ∷ (
      "f",
      record {
        on_board = "b2";
        stored_row = record { type = "note"; data_fields = []; updated_at = some 4 };
      },
    )
    ∷ []

-- Not a flush of `busy`: one element of its own.
abbrev taking : Plan
taking = record {
  upserts = ("f", record { type = "note"; data_fields = []; updated_at = some 9 }) ∷ [];
  deletes = "g" ∷ [];
}

shared_table-own : AreRowsOf "b1" old_rows shared_table
unfolding get
shared_table-own k = ground arith

write_table-rows_example :
    AreRowsOf "b1" (write taking old_rows) (write_table "b1" taking shared_table)
    × ((x k : String)
        → ("b1" == x) ≡ false
        → row_on x k (write_table "b1" taking shared_table)
          ≡ (if has k (keys taking.upserts) then none else row_on x k shared_table))
unfolding has
write_table-rows_example =
    write_table-rows "b1" taking old_rows shared_table (refl, (refl, tt)) shared_table-own

taken_test :
    (row_on "b2" "f" shared_table
      ≡ some (record { type = "note"; data_fields = []; updated_at = some 4 }))
    × (row_on "b2" "f" (write_table "b1" taking shared_table) ≡ none)
unfolding get put has delete_from upsert_into write_table
taken_test = (refl, refl)
