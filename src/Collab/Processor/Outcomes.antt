-- ===== src/Collab/Processor/Outcomes.antt =====
-- What a mutation does on each way through `processMutationWithContext`.
use notebortt_backend.Common.Assoc.{put, get-put}
use notebortt_backend.Collab.Locks.{LockContext}
use notebortt_backend.Collab.Board.{
  try_mark_seen, is_duplicate, Board, peek_sequence, apply_change_set, seen_ttl_ms, get_sequence,
  commit,
}
use notebortt_backend.Collab.Mutation.{Mutation, WriteMode, MutationResult}
use notebortt_backend.Common.{
  ℕ, ◌+◌, ◌≡◌, ◌≡◌, ◌+◌, Bool, true, false, ◌<◌, ◌<◌, arith, ==_self, String, List, ◌∷◌, eq_iff, [],
}
use notebortt_backend.Collab.Processor.{
  process_mutation_with_context, apply_operation, is_transient, transient_result, repeated,
  is_rejected, unchanged,
}

module _ (now server_now : ℕ) (m : Mutation) (context : LockContext) (mode : WriteMode)
    (b : Board) where
  abbrev outcome : MutationResult × Bool × Board
  outcome = process_mutation_with_context now server_now m context mode b

  abbrev marked : Board
  marked = record b { seen = put m.mutation_id (now + seen_ttl_ms) b.seen }

  -- A transient move is only broadcast: the board is the same, and the identifier is still free.
  process_mutation_with_context-transient :
      is_transient m.operation ≡ true → outcome ≡ (transient_result now m, false, b)
  unfolding process_mutation_with_context
  process_mutation_with_context-transient h = ground arith

  -- Any other mutation leaves its identifier marked until its time to live is over.
  process-is_duplicate :
      (later : ℕ)
      → is_transient m.operation ≡ false
      → is_duplicate now m.mutation_id b ≡ false
      → later < now + seen_ttl_ms
      → is_duplicate later m.mutation_id outcome.2 ≡ true
  unfolding process_mutation_with_context try_mark_seen is_duplicate apply_operation
      apply_change_set get_sequence commit
  process-is_duplicate later t new soon =
      ground (
        arith,
        get-put m.mutation_id m.mutation_id (now + seen_ttl_ms) b.seen,
        ==_self m.mutation_id,
      )

  -- A mutation that a lock blocks, or a reconcile that is not self-consistent, is reported as
  -- applied at the current sequence and changes nothing but the mark of its identifier.
  pub process_mutation_with_context-rejected :
      is_transient m.operation ≡ false
      → is_duplicate now m.mutation_id b ≡ false
      → is_rejected m.operation context ≡ true
      → outcome ≡ (unchanged now m b, false, marked)
  unfolding process_mutation_with_context try_mark_seen is_duplicate peek_sequence
  process_mutation_with_context-rejected t new r = ground arith

process_duplicate :
    (now server_now : ℕ) (m : Mutation) (context : LockContext) (mode : WriteMode) (b : Board)
    → is_transient m.operation ≡ false
    → is_duplicate now m.mutation_id b ≡ true
    → process_mutation_with_context now server_now m context mode b ≡ (repeated m, false, b)
unfolding process_mutation_with_context try_mark_seen is_duplicate
process_duplicate now server_now m context mode b t old = ground arith

-- A mutation that is processed in between: the clocks, the mutation, its context and the mode.
abbrev pub Attempt : Type 0
Attempt = ℕ × ℕ × Mutation × LockContext × WriteMode

abbrev pub process_all : List Attempt → Board → Board
process_all [] b = b
process_all ((now, server_now, m, context, mode) ∷ attempts) b =
    process_all attempts (process_mutation_with_context now server_now m context mode b).2

-- A mark that lives until a time lives until then whatever is processed.
still-duplicate :
    (now server_now later : ℕ) (id : String) (m : Mutation) (context : LockContext)
    (mode : WriteMode) (b : Board)
    → is_duplicate later id b ≡ true
    → is_duplicate later id (process_mutation_with_context now server_now m context mode b).2 ≡ true
unfolding process_mutation_with_context try_mark_seen is_duplicate apply_operation apply_change_set
    get_sequence commit
still-duplicate now server_now later id m context mode b old =
    ground
      (arith, old, get-put m.mutation_id id (now + seen_ttl_ms) b.seen, eq_iff m.mutation_id id)

still-duplicate_all :
    (attempts : List Attempt) (later : ℕ) (id : String) (b : Board)
    → is_duplicate later id b ≡ true
    → is_duplicate later id (process_all attempts b) ≡ true
still-duplicate_all [] later id b old = old
still-duplicate_all ((now, server_now, m, context, mode) ∷ attempts) later id b old =
    still-duplicate_all attempts later id
      (process_mutation_with_context now server_now m context mode b).2
      (still-duplicate now server_now later id m context mode b old)

-- Once a mutation that is no transient move and no repetition has been processed, whether it was applied, refused or
-- without effect, and whatever mutations are processed after it, every further mutation with its
-- identifier within 300 seconds that is no transient move is answered as already applied and leaves
-- the board as it is, where the board's keys are not evicted meanwhile.
pub process_mutation_with_context_once :
    (now server_now later server_later : ℕ) (m n : Mutation) (context context' : LockContext)
    (mode mode' : WriteMode) (attempts : List Attempt) (b : Board)
    → is_transient m.operation ≡ false
    → is_transient n.operation ≡ false
    → n.mutation_id ≡ m.mutation_id
    → is_duplicate now m.mutation_id b ≡ false
    → later < now + seen_ttl_ms
    → let since =
        process_all attempts (process_mutation_with_context now server_now m context mode b).2 in
      process_mutation_with_context later server_later n context' mode' since
      ≡ (repeated n, false, since)
process_mutation_with_context_once now server_now later server_later m n context context' mode mode'
      attempts b t u same new soon =
    process_duplicate later server_later n context' mode' _ u (
      rw same (
        still-duplicate_all attempts later m.mutation_id _
          (process-is_duplicate now server_now m context mode b later t new soon)))
