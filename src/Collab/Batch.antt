-- ===== src/Collab/Batch.antt =====
-- mutations/processor.ts: `processMutation` and `processBatch`, each board's part under its lock.
-- A board is its keys in Redis, its presence and its rows in Postgres. The boards exist, are loaded
-- and have UUIDs, and no statement fails. The clock is read as `now`, and as `server_now` where a
-- change or a flush draws its time stamp.
pub mod Aligned
pub mod Solo
use notebortt_backend.Collab.Locks.{LockContext}
use notebortt_backend.Collab.Presence.{
  Presence, extend_collab_mode, get_sync_write_mode, rearm_collab_mode_if_active,
}
use notebortt_backend.Collab.Persistence.{begin, persist_board_incremental, Row, clear_dirty}
use notebortt_backend.Collab.Board.{Board}
use notebortt_backend.Collab.Mutation.{WriteMode, Mutation, MutationResult, collab, solo}
use notebortt_backend.Common.{
  Bool, String, ℕ, List, Option, if◌then◌else◌, if◌then◌else◌, ◌==◌, ◌∷◌, none, ◌∷◌, ◌==◌, map,
  ◌++◌, eqb, suc, true, [], ◌++◌, not, some, ◌&&◌, ◌&&◌, false, ◌||◌, ◌||◌,
}
use notebortt_backend.Collab.Processor.{
  create_cached_board_context, process_mutation_with_context, apply_persisted_change_to_context,
  is_collab,
}
use mathlib.Core.Option

pub record Shared : Type 0 where
  pub board : Board
  pub presence : Presence
  pub rows : List (String × Row)

-- `persistBoard` with nothing in between: the flush, and the script that clears the marks.
unfoldable pub persist_loaded_board :
    ℕ → ℕ → Board → List (String × Row) → Board × List (String × Row)
unfolding begin persist_board_incremental clear_dirty
persist_loaded_board now ts b rows =
    ((clear_dirty true (begin now b) now b).1, persist_board_incremental ts b rows)

-- The loop over the mutations of one board; each sees what those before it have changed.
unfoldable pub process_entries :
    ℕ
    → ℕ
    → WriteMode
    → List (ℕ × Mutation)
    → LockContext
    → Board
    → List (ℕ × MutationResult) × Bool × Board
unfolding process_mutation_with_context apply_persisted_change_to_context
process_entries now server_now mode [] context b = ([], false, b)
process_entries now server_now mode ((index, m) ∷ entries) context b =
    let (result, applied_change, b') =
      process_mutation_with_context now server_now m context mode b in
    let (results, any_applied, b'') =
      process_entries now server_now mode entries (apply_persisted_change_to_context context result)
        b' in
    ((index, result) ∷ results, applied_change || any_applied, b'')

abbrev pub rearm : WriteMode → ℕ → Presence → Presence
rearm collab now p = extend_collab_mode now p
rearm solo now p = rearm_collab_mode_if_active now p

abbrev pub mutations_of : List (ℕ × Mutation) → List Mutation
mutations_of entries = map (λ e. e.1) entries

unfoldable pub process_group :
    Bool → ℕ → ℕ → List (ℕ × Mutation) → Shared → List (ℕ × MutationResult) × Shared
unfolding process_entries persist_loaded_board create_cached_board_context
process_group targeted now server_now entries s =
    let context = create_cached_board_context targeted (mutations_of entries) s.board.elements in
    let (mode, p) = get_sync_write_mode now s.presence in
    let (results, any_applied, b) = process_entries now server_now mode entries context s.board in
    let (b', rows') =
      (if not (is_collab mode) && any_applied
        then persist_loaded_board now server_now b s.rows
        else (b, s.rows)) in
    (results, record { board = b'; presence = rearm mode now p; rows = rows' })

-- `byBoard`: the boards in the order of their first mutation.
unfoldable pub add_to_group :
    ℕ → Mutation → List (String × List (ℕ × Mutation)) → List (String × List (ℕ × Mutation))
add_to_group index m [] = (m.board_id, (index, m) ∷ []) ∷ []
add_to_group index m ((board_id, entries) ∷ groups) =
    let rest = add_to_group index m groups in
    if board_id == m.board_id
    then (board_id, entries ++ (index, m) ∷ []) ∷ groups
    else (board_id, entries) ∷ rest

unfoldable pub group_from :
    ℕ → List Mutation → List (String × List (ℕ × Mutation)) → List (String × List (ℕ × Mutation))
unfolding add_to_group
group_from index [] groups = groups
group_from index (m ∷ mutations) groups =
    group_from (suc index) mutations (add_to_group index m groups)

abbrev pub set_board : String → Shared → (String → Shared) → String → Shared
set_board board_id s boards other = if other == board_id then s else boards other

unfoldable pub process_groups :
    Bool
    → ℕ
    → ℕ
    → List (String × List (ℕ × Mutation))
    → (String → Shared)
    → List (ℕ × MutationResult) × (String → Shared)
unfolding process_group
process_groups targeted now server_now [] boards = ([], boards)
process_groups targeted now server_now ((board_id, entries) ∷ groups) boards =
    let (results, s) = process_group targeted now server_now entries (boards board_id) in
    let (others, boards') =
      process_groups targeted now server_now groups (set_board board_id s boards) in
    (results ++ others, boards')

-- `results[index]`.
unfoldable pub lookup {ℓ} : {A : Type ℓ} → ℕ → List (ℕ × A) → Option A
lookup i [] = none
lookup i ((j, a) ∷ rest) = let later = lookup i rest in if eqb j i then some a else later

unfoldable pub results_from :
    ℕ → List Mutation → List (ℕ × MutationResult) → List (Option MutationResult)
unfolding lookup
results_from index [] results = []
results_from index (m ∷ mutations) results =
    lookup index results ∷ results_from (suc index) mutations results

-- The results by position, and the boards.
unfoldable pub process_batch :
    Bool
    → ℕ
    → ℕ
    → List Mutation
    → (String → Shared)
    → List (Option MutationResult) × (String → Shared)
unfolding group_from process_groups results_from
process_batch targeted now server_now mutations boards =
    let (results, boards') =
      process_groups targeted now server_now (group_from 0 mutations []) boards in
    (results_from 0 mutations results, boards')

-- `processMutation`, as the code writes it: the collab mode is set anew before the board is
-- persisted, which touches none of the same keys.
unfoldable pub process_mutation : Bool → ℕ → ℕ → Mutation → Shared → MutationResult × Shared
unfolding create_cached_board_context process_mutation_with_context persist_loaded_board
process_mutation targeted now server_now m s =
    let context = create_cached_board_context targeted (m ∷ []) s.board.elements in
    let (mode, p) = get_sync_write_mode now s.presence in
    let (result, applied_change, b) =
      process_mutation_with_context now server_now m context mode s.board in
    let (b', rows') =
      (if not (is_collab mode) && applied_change
        then persist_loaded_board now server_now b s.rows
        else (b, s.rows)) in
    (result, record { board = b'; presence = rearm mode now p; rows = rows' })
