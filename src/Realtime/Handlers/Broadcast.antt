-- ===== src/Realtime/Handlers/Broadcast.antt =====
-- What the connections of the board get to see of a batch.
use notebortt_backend.Common.Assoc.{or_else}
use notebortt_backend.Collab.Locks.{LockContext}
use notebortt_backend.Collab.Board.{try_mark_seen, is_duplicate, Board}
use notebortt_backend.Collab.Mutation.{MutationResult, Mutation, WriteMode}
use notebortt_backend.Realtime.Session.{is_snapshot_active, Snapshot, Session}
use notebortt_backend.Common.{
  String, List, Option, map, ℕ, ◌∷◌, length, if◌then◌else◌, ◌≡◌, ◌≡◌, [], true, arith, ◌++◌, false,
  none,
}
use notebortt_backend.Collab.Processor.{process_mutation_with_context, is_transient, is_rejected}
use notebortt_backend.Realtime.Handlers.{
  finish_batch, acknowledge, Effect, is_broadcast, send_mutation, send_ack,
}

-- The mutations whose result is not "already applied", with the results in their order.
abbrev shown : String → List MutationResult → List Mutation → List Effect
shown board_id [] mutations = []
shown board_id (r ∷ results) [] = []
shown board_id (r ∷ results) (m ∷ mutations) =
    let rest = shown board_id results mutations in
    if is_broadcast r.status then send_mutation board_id m ∷ rest else rest

abbrev result_ids : List MutationResult → List String
result_ids results = map (λ r. r.mutation_id) results

abbrev last_sequence : List MutationResult → Option ℕ → Option ℕ
last_sequence [] latest = latest
last_sequence (r ∷ results) latest = last_sequence results (or_else r.sequence latest)

acknowledge_lem :
    (board_id : String) (results : List MutationResult) (mutations : List Mutation)
    (latest : Option ℕ)
    → length results ≡ length mutations
    → acknowledge board_id results mutations latest
      ≡ (shown board_id results mutations, result_ids results, last_sequence results latest)
unfolding acknowledge
acknowledge_lem board_id [] mutations latest same = ground arith
acknowledge_lem board_id (r ∷ results) [] latest same = absurd (omega (arith, same))
acknowledge_lem board_id (r ∷ results) (m ∷ mutations) latest same = ground (
  arith,
  acknowledge_lem board_id results mutations (or_else r.sequence latest) (omega (arith, same)),
)

-- After a batch with a result for each mutation, a connection whose snapshot is still active sends
-- the others every mutation that is not "already applied", in order, and itself one
-- acknowledgement, with the ids of all results and the last sequence among them.
pub finish_batch_lem :
    (board_id : String) (mutations : List Mutation) (results : List MutationResult)
    (snapshot : Snapshot) (s : Session)
    → length results ≡ length mutations
    → is_snapshot_active snapshot s ≡ true
    → finish_batch board_id mutations results snapshot s
      ≡ shown board_id results mutations
        ++ send_ack (result_ids results) (last_sequence results none) ∷ []
unfolding finish_batch is_snapshot_active
finish_batch_lem board_id mutations results snapshot s same active =
    ground (arith, active, acknowledge_lem board_id results mutations none same)

-- A mutation that is refused, by a lock or by the rules of a month range, is sent to the other
-- connections of the board all the same, when its id is new and the snapshot is still active.
pub rejected_broadcast :
    (now server_now : ℕ) (m : Mutation) (lock_context : LockContext) (mode : WriteMode) (b : Board)
    (board_id : String) (snapshot : Snapshot) (s : Session)
    → is_transient m.operation ≡ false
    → is_duplicate now m.mutation_id b ≡ false
    → is_rejected m.operation lock_context ≡ true
    → is_snapshot_active snapshot s ≡ true
    → let r = (process_mutation_with_context now server_now m lock_context mode b).0 in
      finish_batch board_id (m ∷ []) (r ∷ []) snapshot s
      ≡ send_mutation board_id m ∷ send_ack (r.mutation_id ∷ []) r.sequence ∷ []
unfolding process_mutation_with_context try_mark_seen is_duplicate finish_batch is_snapshot_active
    acknowledge
rejected_broadcast now server_now m lock_context mode b board_id snapshot s canonical new rejected
      active =
    ground (arith, canonical, new, rejected, active)
