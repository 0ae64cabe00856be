-- ===== src/Collab/Processor.antt =====
-- mutations/processor.ts: one mutation under the board's lock, and a batch of them. The lock is
-- held throughout, so nothing else runs on the board meanwhile. The clock is read as `now` before
-- a mutation and as `server_now` when its sequence is drawn.
pub mod Outcomes
pub mod Footprint
pub mod Unguarded
use notebortt_backend.Common.Keys.{add, add_all, has}
use notebortt_backend.Collab.Board.Maps.{is_some}
use notebortt_backend.Collab.Board.{
  Board, ApplyOptions, apply_change_set, try_mark_seen, get_elements_by_ids, is_nil, peek_sequence,
  entry_of,
}
use notebortt_backend.Common.Assoc.{put_all, put, get, delete_all, values, keys}
use notebortt_backend.Collab.Element.{BoardElement, text_field}
use notebortt_backend.Collab.Mutation.{
  Operation, Mutation, WriteMode, Move, ChangeSet, Update, MutationResult, move_elements,
  create_element, applied, update_element, broadcast_only, already_applied, update_elements,
  delete_elements, solo, reorder_element, collab, reconcile_month_range,
}
use notebortt_backend.Collab.Locks.{
  LockContext, is_mutation_blocked_by_lock, validate_reconcile_month_range,
}
use notebortt_backend.Common.{
  Option, Bool, ℕ, List, String, false, ◌∷◌, true, if◌then◌else◌, ◌++◌, ◌||◌, ◌++◌, some, none,
  if◌then◌else◌, ◌||◌, [], map, not, filter_by,
}

-- `{ ...existing, ...fields }`.
abbrev pub spread : BoardElement → BoardElement → BoardElement
spread existing fields = put_all fields existing

unfoldable pub to_upsert_from_cache :
    LockContext → String → (BoardElement → BoardElement) → List BoardElement
to_upsert_from_cache context element_id transform = elim (get element_id context) [
  | none ↦ []
  | some existing ↦ transform existing ∷ []
]

abbrev pub moved : Move → BoardElement → BoardElement
moved move existing = put "y" move.y (put "x" move.x existing)

abbrev pub flat_map : {A B : Type 0} → (A → List B) → List A → List B
flat_map f [] = []
flat_map f (a ∷ rest) = f a ++ flat_map f rest

unfoldable pub to_change_set : LockContext → Operation → ChangeSet
to_change_set context (create_element id element) = record { upserts = element ∷ []; deletes = [] }
to_change_set context (update_element id fields) = record {
  upserts = to_upsert_from_cache context id (λ existing. spread existing fields);
  deletes = [];
}
to_change_set context (delete_elements ids) = record { upserts = []; deletes = ids }
to_change_set context (move_elements moves transient) = record {
  upserts = flat_map (λ (m : Move). to_upsert_from_cache context m.element_id (moved m)) moves;
  deletes = [];
}
to_change_set context (update_elements updates) = record {
  upserts =
      flat_map
        (λ (u : Update).
          to_upsert_from_cache context u.element_id (λ existing. spread existing u.fields))
        updates;
  deletes = [];
}
to_change_set context (reorder_element id z) = record {
  upserts = to_upsert_from_cache context id (put "zIndex" z);
  deletes = [];
}
to_change_set context (reconcile_month_range meta_id upserts deletes) = record {
  upserts = upserts;
  deletes = deletes;
}

abbrev pub touch : Operation → List String → List String
touch (update_element id fields) ids = add id ids
touch (reorder_element id z) ids = add id ids
touch (move_elements moves transient) ids = add_all (map (λ (m : Move). m.element_id) moves) ids
touch (update_elements updates) ids = add_all (map (λ (u : Update). u.element_id) updates) ids
touch (reconcile_month_range meta_id upserts deletes) ids = add_all deletes (add meta_id ids)
touch (create_element id element) ids = ids
touch (delete_elements deleted) ids = ids

unfoldable pub touch_all : List Mutation → List String → List String
touch_all [] ids = ids
touch_all (m ∷ ms) ids = touch_all ms (touch m.operation ids)

unfoldable pub collect_touched_element_ids : List Mutation → List String
collect_touched_element_ids mutations = touch_all mutations []

abbrev add_text : Option String → List String → List String
add_text none ids = ids
add_text (some id) ids = add id ids

abbrev consider : BoardElement → List String → List String
consider fields ids = add_text (text_field "metaContainerId" fields) ids

unfoldable pub consider_all : List Update → List String → List String
consider_all [] ids = ids
consider_all (u ∷ us) ids = consider_all us (consider u.fields ids)

abbrev refer : Operation → List String → List String
refer (create_element id element) ids = consider element ids
refer (update_element id fields) ids = consider fields ids
refer (update_elements updates) ids = consider_all updates ids
refer _ ids = ids

unfoldable pub refer_all : List Mutation → List String → List String
refer_all [] ids = ids
refer_all (m ∷ ms) ids = refer_all ms (refer m.operation ids)

unfoldable pub collect_referenced_meta_ids : List Mutation → List String
collect_referenced_meta_ids mutations = refer_all mutations []

-- Without targeted reads each identifier is read by itself, the empty one too.
unfoldable pub get_each : List String → List (String × BoardElement) → List (String × BoardElement)
get_each [] elements = []
get_each (id ∷ ids) elements =
    let rest = get_each ids elements in
    elim (get id elements) [ none ↦ rest | some e ↦ (id, e) ∷ rest ]

abbrev fetch_by_ids :
    Bool → List String → List (String × BoardElement) → List (String × BoardElement)
fetch_by_ids targeted ids elements =
    if targeted then get_elements_by_ids ids elements else get_each ids elements

unfoldable pub parents_of : List BoardElement → List String → List String
parents_of [] ids = ids
parents_of (e ∷ es) ids =
    parents_of es
      (add_text (text_field "metaContainerId" e) (add_text (text_field "containerId" e) ids))

-- The touched elements, their containers and the metas that the payloads name. With no touched
-- element nothing is read.
unfoldable pub create_cached_board_context :
    Bool → List Mutation → List (String × BoardElement) → LockContext
create_cached_board_context targeted mutations elements =
    let touched = collect_touched_element_ids mutations in
    if is_nil touched
    then []
    else let found = fetch_by_ids targeted touched elements in
      let parents =
        add_all (collect_referenced_meta_ids mutations) (parents_of (values found) []) in
      let missing = filter_by (λ id. not (has id (keys found))) parents in
      put_all (fetch_by_ids targeted missing elements) found

unfoldable pub apply_persisted_change_to_context : LockContext → MutationResult → LockContext
apply_persisted_change_to_context context result = elim result.change [
  | none ↦ context
  | some change ↦ delete_all change.deletes (put_all (map entry_of change.upserts) context)
]

abbrev pub is_transient : Operation → Bool
is_transient (move_elements moves transient) = transient
is_transient _ = false

-- A result with no change, at the board's current sequence.
abbrev pub unchanged : ℕ → Mutation → Board → MutationResult
unchanged now m b = record {
  mutation_id = m.mutation_id;
  status = applied;
  server_timestamp = some now;
  sequence = some (peek_sequence b);
  change = none;
}

abbrev pub repeated : Mutation → MutationResult
repeated m = record {
  mutation_id = m.mutation_id;
  status = already_applied;
  server_timestamp = none;
  sequence = none;
  change = none;
}

abbrev pub transient_result : ℕ → Mutation → MutationResult
transient_result now m = record {
  mutation_id = m.mutation_id;
  status = broadcast_only;
  server_timestamp = some now;
  sequence = none;
  change = none;
}

abbrev pub is_collab : WriteMode → Bool
is_collab solo = false
is_collab collab = true

abbrev pub options_for : WriteMode → ApplyOptions
options_for mode = record {
  track_change_log = some (is_collab mode);
  track_changes = none;
  base_elements_for_cascade_delete = none;
}

abbrev pub is_rejected : Operation → LockContext → Bool
is_rejected operation context =
    is_mutation_blocked_by_lock operation context
    || is_some (validate_reconcile_month_range operation context)

-- The last part of `processMutationWithContext`: the change set is applied.
unfoldable pub apply_operation :
    ℕ → ℕ → Mutation → LockContext → WriteMode → Board → MutationResult × Bool × Board
apply_operation now server_now m context mode b =
    let change_set = to_change_set context m.operation in
    let (outcome, b') = apply_change_set now server_now (options_for mode) change_set b in
    elim outcome [
      | none ↦ (unchanged now m b', false, b')
      | some change ↦ (
        record {
          mutation_id = m.mutation_id;
          status = applied;
          server_timestamp = some change.server_timestamp;
          sequence = some change.sequence;
          change = some change;
        },
        true,
        b',
      )
    ]

-- The result, `appliedCanonicalChange`, and the board.
unfoldable pub process_mutation_with_context :
    ℕ → ℕ → Mutation → LockContext → WriteMode → Board → MutationResult × Bool × Board
process_mutation_with_context now server_now m context mode b =
    if is_transient m.operation
    then (transient_result now m, false, b)
    else let (claimed, b') = try_mark_seen now m.mutation_id b in
      if not claimed
      then (repeated m, false, b')
      else if is_rejected m.operation context
      then (unchanged now m b', false, b')
      else apply_operation now server_now m context mode b'
