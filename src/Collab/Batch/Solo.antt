-- ===== src/Collab/Batch/Solo.antt =====
-- The contract of a solo board: after a batch the database has everything.
use notebortt_backend.Collab.Persistence.Interleaving.{flush_steps-IsSaved}
use notebortt_backend.Collab.Presence.{get_sync_write_mode}
use notebortt_backend.Collab.Persistence.Steps.{idle, IsSaved, IsSynced}
use notebortt_backend.Collab.Persistence.Kept.{change-Inv, clear_dirty-cases, cleaned-IsTracked}
use notebortt_backend.Collab.Board.Maps.{is_some}
use notebortt_backend.Collab.Board.Tracked.{IsTracked}
use notebortt_backend.Common.Assoc.{put}
use notebortt_backend.Collab.Locks.{LockContext}
use notebortt_backend.Collab.Persistence.{Row, begin, clear_dirty}
use notebortt_backend.Collab.Mutation.{Mutation, WriteMode, ChangeSet, Change, solo}
use notebortt_backend.Collab.Board.{
  apply_change_set, try_mark_seen, ApplyOptions, Board, seen_ttl_ms,
}
use notebortt_backend.Collab.Processor.{
  process_mutation_with_context, apply_operation, apply_persisted_change_to_context, options_for,
  to_change_set, create_cached_board_context,
}
use notebortt_backend.Collab.Batch.{
  process_entries, process_group, persist_loaded_board, Shared, mutations_of,
}
use notebortt_backend.Common.{
  ℕ, Bool, List, ◌||◌, String, ◌≡◌, ◌≡◌, Option, [], inl, ◌∷◌, false, ◌+◌, ◌⊎◌, arith, inr, ◌+◌,
  ◌⊎◌, ◌∙◌, ◌∙◌, refl, ap, sym, if◌then◌else◌, true,
}

abbrev marked : ℕ → Mutation → Board → Board
marked now m b = record b { seen = put m.mutation_id (now + seen_ttl_ms) b.seen }

abbrev applied_to : ℕ → ℕ → Mutation → LockContext → WriteMode → Board → Option Change × Board
applied_to now server_now m context mode b =
    apply_change_set now server_now (options_for mode) (to_change_set context m.operation)
      (marked now m b)

-- What a mutation leaves of the board, and whether it says so.
process-cases :
    (now server_now : ℕ) (m : Mutation) (context : LockContext) (mode : WriteMode) (b : Board)
    → let run = process_mutation_with_context now server_now m context mode b in
      ((run.1 ≡ false) × (run.2 ≡ b))
      ⊎ ((run.1 ≡ false) × (run.2 ≡ marked now m b))
      ⊎ ((run.1 ≡ is_some (applied_to now server_now m context mode b).0)
          × (run.2 ≡ (applied_to now server_now m context mode b).1))
unfolding process_mutation_with_context try_mark_seen apply_operation
process-cases now server_now m context mode b = ground arith

apply-unchanged :
    (now server_now : ℕ) (options : ApplyOptions) (change_set : ChangeSet) (b : Board)
    → is_some (apply_change_set now server_now options change_set b).0 ≡ false
    → (apply_change_set now server_now options change_set b).1 ≡ b
unfolding apply_change_set
apply-unchanged now server_now options change_set b h = ground (arith, h)

abbrev IsWarm : List (String × Row) → Board → Type 0
IsWarm rows b = IsTracked b × IsSynced b rows

apply-IsWarm :
    (now server_now : ℕ) (options : ApplyOptions) (change_set : ChangeSet) (b : Board)
    (rows : List (String × Row))
    → IsWarm rows b
    → IsWarm rows (apply_change_set now server_now options change_set b).1
apply-IsWarm now server_now options change_set b rows (t, s) =
    let j =
      change-Inv now server_now options change_set (record { board = b; rows = rows; flush = idle })
        (record { tracked = t; synced = s; knows = tt }) in
    (j.tracked, j.synced)

marked-IsWarm :
    (now : ℕ) (m : Mutation) (b : Board) (rows : List (String × Row))
    → IsWarm rows b
    → IsWarm rows (marked now m b)
marked-IsWarm now m b rows (t, s) = (
  record {
    own_key = t.own_key;
    apart = t.apart;
    dirty_present = t.dirty_present;
    deleted_absent = t.deleted_absent;
  },
  s,
)

-- Marks and rows stay in step, and without a change the elements stay.
abbrev IsKept : List (String × Row) → Board → Bool → Board → Type 0
IsKept rows b changed b' = IsWarm rows b' × (changed ≡ false → b'.elements ≡ b.elements)

process-IsKept :
    (now server_now : ℕ) (m : Mutation) (context : LockContext) (mode : WriteMode) (b : Board)
    (rows : List (String × Row))
    → IsWarm rows b
    → let run = process_mutation_with_context now server_now m context mode b in
      IsKept rows b run.1 run.2
process-IsKept now server_now m context mode b rows w =
    elim (process-cases now server_now m context mode b) [
      | inl (quiet, same) ↦ rw same (w, λ h. refl)
      | inr (inl (quiet, same)) ↦ rw same (marked-IsWarm now m b rows w, λ h. refl)
      | inr (inr (told, same)) ↦ rw same (
        apply-IsWarm now server_now (options_for mode) (to_change_set context m.operation)
            (marked now m b) rows (marked-IsWarm now m b rows w),
        λ h.
            ap (λ c. c.elements)
              (apply-unchanged now server_now (options_for mode) (to_change_set context m.operation)
                (marked now m b) (sym told ∙ h)),
      )
    ]

or-left : (a b : Bool) → (a || b) ≡ false → a ≡ false
or-left a b h = ground (arith, h)

or-right : (a b : Bool) → (a || b) ≡ false → b ≡ false
or-right a b h = ground (arith, h)

entries-IsKept :
    (now server_now : ℕ) (mode : WriteMode) (entries : List (ℕ × Mutation)) (context : LockContext)
    (b : Board) (rows : List (String × Row))
    → IsWarm rows b
    → let run = process_entries now server_now mode entries context b in IsKept rows b run.1 run.2
unfolding process_entries
entries-IsKept now server_now mode [] context b rows w = (w, λ h. refl)
entries-IsKept now server_now mode ((index, m) ∷ entries) context b rows w =
    let step = process_mutation_with_context now server_now m context mode b in
    let (warm, same) = process-IsKept now server_now m context mode b rows w in
    let (warm', same') =
      entries-IsKept now server_now mode entries (apply_persisted_change_to_context context step.0)
        step.2 rows warm in
    (warm', λ h. same' (or-right _ _ h) ∙ same (or-left _ _ h))

persist-IsSaved :
    (now ts : ℕ) (b : Board) (rows : List (String × Row))
    → IsWarm rows b
    → IsTracked (persist_loaded_board now ts b rows).0
      × IsSaved (persist_loaded_board now ts b rows).0 (persist_loaded_board now ts b rows).1
unfolding persist_loaded_board
persist-IsSaved now ts b rows (t, s) =
    let (_, _, all) = flush_steps-IsSaved ts now b rows t s in
    elim (clear_dirty-cases (begin now b) now b) [
      | inl moved ↦ rw moved (t, all)
      | inr (current, done, same, clean, gone) ↦ (
        cleaned-IsTracked b (clear_dirty true (begin now b) now b).1 same clean gone t,
        rw same all,
      )
    ]

settle-IsSaved :
    (now ts : ℕ) (changed : Bool) (b : Board) (rows : List (String × Row))
    → IsWarm rows b
    → (changed ≡ false → IsSaved b rows)
    → let settled = (if changed then persist_loaded_board now ts b rows else (b, rows)) in
      IsTracked settled.0 × IsSaved settled.0 settled.1
settle-IsSaved now ts true b rows w quiet = persist-IsSaved now ts b rows w
settle-IsSaved now ts false b rows w quiet = (w.0, quiet refl)

-- On a solo board the database holds exactly the elements once a batch has been processed, when it
-- did before; and the marks for the next flush stay in step with the elements.
pub process_group-IsSaved :
    (targeted : Bool) (now server_now : ℕ) (entries : List (ℕ × Mutation)) (s : Shared)
    → IsTracked s.board
    → IsSaved s.board s.rows
    → (get_sync_write_mode now s.presence).0 ≡ solo
    → let s' = (process_group targeted now server_now entries s).1 in
      IsTracked s'.board × IsSaved s'.board s'.rows
unfolding process_group persist_loaded_board
process_group-IsSaved targeted now server_now entries s t saved alone =
    let context = create_cached_board_context targeted (mutations_of entries) s.board.elements in
    let run = process_entries now server_now solo entries context s.board in
    let (warm, same) =
      entries-IsKept now server_now solo entries context s.board s.rows
        (t, λ x named h. saved x named) in
    rw alone
      (settle-IsSaved now server_now run.1 run.2 s.rows warm (λ quiet. rw (same quiet) saved))
