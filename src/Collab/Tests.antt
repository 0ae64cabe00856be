-- ===== src/Collab/Tests.antt =====
-- The collaboration modules at concrete boards.
pub mod Stores
pub mod Flush
mod Changes
mod Locking
pub mod Batches
use notebortt_backend.Collab.Cascade.Queue.{IsTaken}
use notebortt_backend.Collab.Processor.Outcomes.{
  process_mutation_with_context_once, process_mutation_with_context-rejected, process_all,
}
use notebortt_backend.Collab.Cascade.Contents.{is_child}
use notebortt_backend.Collab.Cascade.Closure.{collect_cascade_delete_ids_iff}
use notebortt_backend.Collab.Locks.Reconcile.{IsConsistent, validate_reconcile_month_range_iff}
use notebortt_backend.Collab.Processor.Unguarded.{create_or_delete_unguarded}
use notebortt_backend.Collab.Processor.{
  process_mutation_with_context, create_cached_board_context, repeated, unchanged,
}
use notebortt_backend.Common.Assoc.{get, values, put}
use notebortt_backend.Collab.Element.{BoardElement, str, num, obj, end, id_of}
use notebortt_backend.Collab.Mutation.{
  Operation, Mutation, move_elements, delete_elements, reconcile_month_range, update_element,
  collab, solo, create_element,
}
use notebortt_backend.Collab.Locks.{
  is_mutation_blocked_by_lock, validate_reconcile_month_range, is_held, creates_into_managed_meta,
  is_element_locked, is_inside_locked_container, is_inside_managed_meta,
}
use notebortt_backend.Common.Keys.{has, add, add_all}
use notebortt_backend.Collab.Cascade.{
  collect_cascade_delete_ids, drain, enqueue, children_of, children_index,
}
use notebortt_backend.Collab.Board.{Board, is_duplicate}
use notebortt_backend.Common.{
  String, List, ◌∷◌, some, ◌∷◌, [], none, ◌≡◌, false, ◌≡◌, true, ◌↔◌, ◌↔◌, refl, arith,
}

abbrev pub element : String → BoardElement
element id = ("id", str id) ∷ ("kind", str "note") ∷ ("x", num 1) ∷ []

abbrev pub inside : String → String → BoardElement
inside meta_id id = ("id", str id) ∷ ("kind", str "grid") ∷ ("metaContainerId", str meta_id) ∷ []

abbrev range : String → BoardElement
range id = ("id", str id) ∷ ("kind", str "meta") ∷ ("monthRange", obj end) ∷ []

-- A managed range with one month, which holds a note; and a free note.
abbrev pub note : BoardElement
note = ("id", str "n") ∷ ("kind", str "note") ∷ ("containerId", str "jan") ∷ []

abbrev pub stored : List (String × BoardElement)
stored =
    ("year", range "year") ∷ ("jan", inside "year" "jan") ∷ ("n", note) ∷ ("f", element "f") ∷ []

abbrev pub board : Board
board = record {
  elements = stored;
  seq = some 4;
  seen = [];
  changes = [];
  dirty_ids = "f" ∷ [];
  deleted_ids = "g" ∷ [];
  dirty_since = some 10;
  dirty_epoch = 2;
  last_active = some 10;
  last_flushed_seq = none;
  last_flushed_at = none;
  last_flush_duration = none;
  in_dirty = true;
  dirty_score = some 10;
  in_active = true;
}

-- A delete takes the month and the note in it.
cascade_test : collect_cascade_delete_ids (values stored) ("jan" ∷ []) ≡ "jan" ∷ "n" ∷ []
unfolding collect_cascade_delete_ids drain enqueue children_of children_index has add add_all get
    put id_of
cascade_test = refl

collect_cascade_delete_ids_iff_example :
    (has "n" (collect_cascade_delete_ids (values stored) ("year" ∷ [])) ≡ true)
    ↔ IsTaken (is_child (values stored)) ("year" ∷ []) "n"
collect_cascade_delete_ids_iff_example =
    collect_cascade_delete_ids_iff (values stored) ("year" ∷ []) "n"

validate_reconcile_month_range_iff_example :
    (validate_reconcile_month_range
        (reconcile_month_range "year" (range "year" ∷ inside "year" "feb" ∷ []) ("jan" ∷ []))
        stored
      ≡ none)
    ↔ IsConsistent stored "year" (range "year" ∷ inside "year" "feb" ∷ []) ("jan" ∷ [])
validate_reconcile_month_range_iff_example =
    validate_reconcile_month_range_iff stored "year" (range "year" ∷ inside "year" "feb" ∷ [])
      ("jan" ∷ [])

-- The guard on months works on a context that has them, and the processor does not load one.
blocked_test :
    (is_mutation_blocked_by_lock (delete_elements ("jan" ∷ [])) stored ≡ true)
    × (is_mutation_blocked_by_lock (create_element "feb" (inside "year" "feb")) stored ≡ true)
unfolding is_mutation_blocked_by_lock creates_into_managed_meta has get
blocked_test = (refl, refl)

abbrev pub mutation : Operation → Mutation
mutation operation = record { mutation_id = "m1"; board_id = "b1"; operation = operation }

create_or_delete_unguarded_test :
    is_mutation_blocked_by_lock
      (delete_elements ("jan" ∷ []))
      (create_cached_board_context true (mutation (delete_elements ("jan" ∷ [])) ∷ []) stored)
    ≡ false
create_or_delete_unguarded_test =
    create_or_delete_unguarded true (mutation (delete_elements ("jan" ∷ []))) stored refl

abbrev pub patch : Operation
patch = update_element "f" (("x", num 7) ∷ [])

-- Another mutation in between.
abbrev since_patch : Board
since_patch =
    process_all ((150, 151, record (mutation patch) { mutation_id = "m2" }, stored, collab) ∷ [])
      (process_mutation_with_context 100 101 (mutation patch) stored solo board).2

process_mutation_with_context_once_example :
    process_mutation_with_context 200 201 (mutation patch) stored collab since_patch
    ≡ (repeated (mutation patch), false, since_patch)
unfolding is_duplicate get
process_mutation_with_context_once_example =
    process_mutation_with_context_once 100 101 200 201 (mutation patch) (mutation patch) stored
      stored solo collab
      ((150, 151, record (mutation patch) { mutation_id = "m2" }, stored, collab) ∷ []) board refl
      refl refl refl (omega arith)

abbrev drag : Operation
drag = move_elements (record { element_id = "jan"; x = num 1; y = num 2 } ∷ []) false

process_mutation_with_context-rejected_test :
    process_mutation_with_context 100 101 (mutation drag) stored collab board
    ≡ (unchanged 100 (mutation drag) board, false, record board { seen = ("m1", 300100) ∷ [] })
unfolding is_duplicate is_mutation_blocked_by_lock is_held is_element_locked
    is_inside_locked_container is_inside_managed_meta get put
process_mutation_with_context-rejected_test =
    process_mutation_with_context-rejected 100 101 (mutation drag) stored collab board refl refl
      refl
