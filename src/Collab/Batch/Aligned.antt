-- ===== src/Collab/Batch/Aligned.antt =====
-- The results of a batch stand where its mutations stand.
use mathlib.Core.Option
use notebortt_backend.Common.Assoc.{or_else}
use notebortt_backend.Collab.Presence.{get_sync_write_mode}
use notebortt_backend.Collab.Board.{Board}
use notebortt_backend.Collab.Locks.{LockContext}
use notebortt_backend.Collab.Mutation.{MutationResult, Mutation, WriteMode}
use notebortt_backend.Common.{
  List, ℕ, Bool, String, ◌++◌, ◌∷◌, ◌∷◌, map, [], ◌≡◌, ◌≡◌, arith, none, refl, if◌then◌else◌, eqb,
  some, ◌≤◌, ◌≤◌, Option, ap, sym, suc, false, true, ◌∙◌, ◌∙◌,
}
use notebortt_backend.Collab.Processor.{
  process_mutation_with_context, apply_operation, create_cached_board_context,
  apply_persisted_change_to_context,
}
use notebortt_backend.Collab.Batch.{
  lookup, process_entries, process_group, add_to_group, process_groups, Shared, mutations_of,
  results_from, process_batch, group_from, set_board,
}

id-process_mutation_with_context :
    (now server_now : ℕ) (m : Mutation) (context : LockContext) (mode : WriteMode) (b : Board)
    → (process_mutation_with_context now server_now m context mode b).0.mutation_id ≡ m.mutation_id
unfolding process_mutation_with_context apply_operation
id-process_mutation_with_context now server_now m context mode b = ground arith

abbrev result_ids : List (ℕ × MutationResult) → List (ℕ × String)
result_ids results = map (λ r. (r.0, r.1.mutation_id)) results

abbrev entry_ids : List (ℕ × Mutation) → List (ℕ × String)
entry_ids entries = map (λ e. (e.0, e.1.mutation_id)) entries

abbrev group_ids : List (String × List (ℕ × Mutation)) → List (ℕ × String)
group_ids [] = []
group_ids ((board_id, entries) ∷ groups) = entry_ids entries ++ group_ids groups

ids-process_entries :
    (now server_now : ℕ) (mode : WriteMode) (entries : List (ℕ × Mutation)) (context : LockContext)
    (b : Board)
    → result_ids (process_entries now server_now mode entries context b).0 ≡ entry_ids entries
unfolding process_entries
ids-process_entries now server_now mode [] context b = refl
ids-process_entries now server_now mode ((index, m) ∷ entries) context b =
    let step = process_mutation_with_context now server_now m context mode b in
    ground (
      arith,
      id-process_mutation_with_context now server_now m context mode b,
      ids-process_entries now server_now mode entries
          (apply_persisted_change_to_context context step.0) step.2,
    )

map-append :
    (xs ys : List (ℕ × MutationResult)) → result_ids (xs ++ ys) ≡ result_ids xs ++ result_ids ys
map-append [] ys = refl
map-append (x ∷ xs) ys = ground (arith, map-append xs ys)

ids-process_group :
    (targeted : Bool) (now server_now : ℕ) (entries : List (ℕ × Mutation)) (s : Shared)
    → result_ids (process_group targeted now server_now entries s).0 ≡ entry_ids entries
unfolding process_group
ids-process_group targeted now server_now entries s =
    ids-process_entries now server_now (get_sync_write_mode now s.presence).0 entries
      (create_cached_board_context targeted (mutations_of entries) s.board.elements) s.board

ids-process_groups :
    (targeted : Bool) (now server_now : ℕ) (groups : List (String × List (ℕ × Mutation)))
    (boards : String → Shared)
    → result_ids (process_groups targeted now server_now groups boards).0 ≡ group_ids groups
unfolding process_groups
ids-process_groups targeted now server_now [] boards = refl
ids-process_groups targeted now server_now ((board_id, entries) ∷ groups) boards =
    let run = process_group targeted now server_now entries (boards board_id) in
    ground (
      arith,
      ids-process_group targeted now server_now entries (boards board_id),
      ids-process_groups targeted now server_now groups (set_board board_id run.1 boards),
      map-append run.0
          (process_groups targeted now server_now groups (set_board board_id run.1 boards)).0,
    )

lookup-append :
    (i : ℕ) (xs ys : List (ℕ × String)) → lookup i (xs ++ ys) ≡ or_else (lookup i xs) (lookup i ys)
unfolding lookup
lookup-append i [] ys = ground arith
lookup-append i ((j, x) ∷ xs) ys = ground (arith, lookup-append i xs ys)

lookup-entry_ids-append :
    (i : ℕ) (entries : List (ℕ × Mutation)) (index : ℕ) (m : Mutation)
    → lookup i (entry_ids (entries ++ (index, m) ∷ []))
      ≡ or_else (lookup i (entry_ids entries)) (if eqb index i then some m.mutation_id else none)
unfolding lookup
lookup-entry_ids-append i [] index m = ground arith
lookup-entry_ids-append i ((j, n) ∷ entries) index m =
    ground (arith, lookup-entry_ids-append i entries index m)

lookup-add_to_group :
    (i index : ℕ) (m : Mutation) (groups : List (String × List (ℕ × Mutation)))
    → lookup index (group_ids groups) ≡ none
    → lookup i (group_ids (add_to_group index m groups))
      ≡ (if eqb index i then some m.mutation_id else lookup i (group_ids groups))
unfolding add_to_group lookup
lookup-add_to_group i index m [] fresh = ground arith
lookup-add_to_group i index m ((board_id, entries) ∷ groups) fresh = ground (
  arith,
  fresh,
  lookup-add_to_group i index m groups,
  lookup-append index (entry_ids entries) (group_ids groups),
  lookup-append i (entry_ids entries) (group_ids groups),
  lookup-append i (entry_ids (entries ++ (index, m) ∷ [])) (group_ids groups),
  lookup-append i (entry_ids entries) (group_ids (add_to_group index m groups)),
  lookup-entry_ids-append i entries index m,
)

-- No entry has this index or a later one.
abbrev IsBelow : ℕ → List (String × List (ℕ × Mutation)) → Type 0
IsBelow index groups = (i : ℕ) → index ≤ i → lookup i (group_ids groups) ≡ none

abbrev id_from : ℕ → ℕ → List Mutation → Option String
id_from i index [] = none
id_from i index (m ∷ mutations) =
    let later = id_from i (suc index) mutations in if eqb index i then some m.mutation_id else later

lookup-group_from :
    (i index : ℕ) (mutations : List Mutation) (groups : List (String × List (ℕ × Mutation)))
    → IsBelow index groups
    → lookup i (group_ids (group_from index mutations groups))
      ≡ or_else (lookup i (group_ids groups)) (id_from i index mutations)
unfolding group_from
lookup-group_from i index [] groups below = ground arith
lookup-group_from i index (m ∷ mutations) groups below = ground (
  arith,
  below index (omega arith),
  lookup-add_to_group i index m groups (below index (omega arith)),
  below i,
  lookup-group_from i (suc index) mutations (add_to_group index m groups) (λ j h.
      ground (arith, h, below j, lookup-add_to_group j index m groups (below index (omega arith)))),
)

lookup-result_ids :
    (i : ℕ) (results : List (ℕ × MutationResult))
    → lookup i (result_ids results) ≡ Option.map (λ r. r.mutation_id) (lookup i results)
unfolding lookup
lookup-result_ids i [] = refl
lookup-result_ids i ((j, r) ∷ results) = ground (arith, lookup-result_ids i results)

-- Each mutation with the result at its position.
abbrev pub IsAligned : List Mutation → List (Option MutationResult) → Type 0
IsAligned [] [] = Unit {0}
IsAligned [] (r ∷ results) = false ≡ true
IsAligned (m ∷ mutations) [] = false ≡ true
IsAligned (m ∷ mutations) (r ∷ results) =
    (Option.map (λ result. result.mutation_id) r ≡ some m.mutation_id) × IsAligned mutations results

id_from-index :
    (index : ℕ) (m : Mutation) (mutations : List Mutation)
    → id_from index index (m ∷ mutations) ≡ some m.mutation_id
id_from-index index m mutations = ground arith

results_from-IsAligned :
    (index : ℕ) (mutations : List Mutation) (results : List (ℕ × MutationResult))
    → ((i : ℕ) → index ≤ i → lookup i (result_ids results) ≡ id_from i index mutations)
    → IsAligned mutations (results_from index mutations results)
unfolding results_from
results_from-IsAligned index [] results law = tt
results_from-IsAligned index (m ∷ mutations) results law = (
  sym (lookup-result_ids index results) ∙ law index (omega arith) ∙ id_from-index index m mutations,
  results_from-IsAligned (suc index) mutations results (λ i h. ground (arith, h, law i)),
)

-- A batch is answered in its own order: there is a result for each mutation, at its position and
-- with its identifier, however the mutations are spread over boards, and whether they are applied,
-- refused, repeated or only broadcast.
pub process_batch-IsAligned :
    (targeted : Bool) (now server_now : ℕ) (mutations : List Mutation) (boards : String → Shared)
    → IsAligned mutations (process_batch targeted now server_now mutations boards).0
unfolding process_batch
process_batch-IsAligned targeted now server_now mutations boards =
    results_from-IsAligned 0 mutations _ (λ i h.
      ap (lookup i) (ids-process_groups targeted now server_now (group_from 0 mutations []) boards)
      ∙ lookup-group_from i 0 mutations [] (λ j g. ground arith))
