-- ===== src/Realtime/Handlers.antt =====
-- handlers/*.handler.ts: the handlers of a connection's events, after the payload has been parsed.
-- Each is in two parts around its first wait, which refreshes the activity of the connection;
-- the second part runs on the session that the wait leaves.
pub mod Guards
pub mod Broadcast
use notebortt_backend.Common.Assoc.{or_else}
use notebortt_backend.Common.{
  Bool, String, List, ℕ, ltb, false, none, Option, ◌∷◌, true, all, if◌then◌else◌, if◌then◌else◌,
  some, length, ◌∷◌, ◌==◌, leb, ◌==◌, not, [], ◌++◌, ◌++◌, ◌&&◌, ◌&&◌,
}
use notebortt_backend.Collab.Mutation.{
  Status, Move, Mutation, MutationResult, already_applied, applied, broadcast_only,
}
use notebortt_backend.Realtime.Session.{
  is_snapshot_active, take_context_snapshot, Session, Snapshot, set_last_tick_id, Context, is_edit,
}

pub data Refusal : Type 0 where
  invalid_payload board_mismatch no_edit_access : Refusal

pub record Tick : Type 0 where
  pub tick_board : String
  pub tick_id : ℕ
  pub tick_moves : List Move

-- What a handler does to others than its session.
pub data Effect : Type 0 where
  sync_error : Refusal → Effect
  keep_moves : String → String → List Move → Effect
  send_tick : String → Context → Tick → Effect
  send_presence : String → Context → Effect
  apply_update : String → String → String → Effect
  send_update : String → String → Effect
  process : List Mutation → String → Effect
  send_mutation : String → Mutation → Effect
  send_ack : List String → Option ℕ → Effect

-- The first part ends with an answer, or waits and holds a snapshot.
pub data Started : Type 0 where
  answered : List Effect → Started
  waits : Snapshot → Started

unfoldable pub is_stale_tick : Tick → Session → Bool
is_stale_tick tick s = elim s.last_tick_id [ none ↦ false | some last ↦ leb tick.tick_id last ]

abbrev pub has_moves : Tick → Bool
has_moves tick = ltb 0 (length tick.tick_moves)

unfoldable pub start_tick : Option Tick → Session → Started × Session
unfolding is_stale_tick take_context_snapshot set_last_tick_id
start_tick none s = (answered (sync_error invalid_payload ∷ []), s)
start_tick (some tick) s = elim (take_context_snapshot tick.tick_board s) [
  | none ↦ (answered (sync_error invalid_payload ∷ []), s)
  | some snapshot ↦
      if is_stale_tick tick s
      then (answered [], s)
      else if has_moves tick && not (is_edit snapshot.snap_context.ctx_permission)
      then (answered (sync_error no_edit_access ∷ []), set_last_tick_id tick.tick_id s)
      else (waits snapshot, set_last_tick_id tick.tick_id s)
]

unfoldable resume_tick : Tick → Snapshot → Session → List Effect
unfolding is_snapshot_active
resume_tick tick snapshot s =
    let context = snapshot.snap_context in
    let sent = send_tick tick.tick_board context tick ∷ [] in
    if not (is_snapshot_active snapshot s)
    then []
    else if has_moves tick
    then keep_moves tick.tick_board context.ctx_user tick.tick_moves ∷ sent
    else sent

-- `hasConsistentBatchBoardId`.
unfoldable pub has_consistent_batch_board_id : String → List Mutation → Bool
has_consistent_batch_board_id board_id mutations = all (λ m. m.board_id == board_id) mutations

unfoldable pub start_batch : String → Option (List Mutation) → Session → Started
unfolding has_consistent_batch_board_id take_context_snapshot
start_batch board_id none s = answered (sync_error invalid_payload ∷ [])
start_batch board_id (some mutations) s = elim (take_context_snapshot board_id s) [
  | none ↦ answered (sync_error invalid_payload ∷ [])
  | some snapshot ↦
      if not (has_consistent_batch_board_id board_id mutations)
      then answered (sync_error board_mismatch ∷ [])
      else if not (is_edit snapshot.snap_context.ctx_permission)
      then answered (sync_error no_edit_access ∷ [])
      else waits snapshot
]

unfoldable resume_batch : List Mutation → Snapshot → Session → List Effect
unfolding is_snapshot_active
resume_batch mutations snapshot s =
    if is_snapshot_active snapshot s
    then process mutations snapshot.snap_context.ctx_user ∷ []
    else []

abbrev pub is_broadcast : Status → Bool
is_broadcast already_applied = false
is_broadcast applied = true
is_broadcast broadcast_only = true

-- The loop over the results: what it sends, the acknowledged ids and the last sequence.
unfoldable pub acknowledge :
    String → List MutationResult → List Mutation → Option ℕ → List Effect × List String × Option ℕ
acknowledge board_id [] mutations latest = ([], [], latest)
acknowledge board_id (r ∷ results) [] latest = ([], [], latest)
acknowledge board_id (r ∷ results) (m ∷ mutations) latest =
    let (sent, ids, last) = acknowledge board_id results mutations (or_else r.sequence latest) in
    (
      if is_broadcast r.status then send_mutation board_id m ∷ sent else sent,
      r.mutation_id ∷ ids,
      last,
    )

-- The last part of the handler, on the results of the batch.
unfoldable pub finish_batch :
    String → List Mutation → List MutationResult → Snapshot → Session → List Effect
unfolding is_snapshot_active acknowledge
finish_batch board_id mutations results snapshot s =
    if not (is_snapshot_active snapshot s)
    then []
    else (let (sent, ids, last) = acknowledge board_id results mutations none in
        if s.connected then sent ++ send_ack ids last ∷ [] else sent)

unfoldable start_crdt : String → Option String → Session → Started
unfolding take_context_snapshot
start_crdt board_id none s = answered (sync_error invalid_payload ∷ [])
start_crdt board_id (some update) s = elim (take_context_snapshot board_id s) [
  | none ↦ answered (sync_error invalid_payload ∷ [])
  | some snapshot ↦
      if not (is_edit snapshot.snap_context.ctx_permission)
      then answered (sync_error no_edit_access ∷ [])
      else waits snapshot
]

unfoldable resume_crdt : String → String → Snapshot → Session → List Effect
unfolding is_snapshot_active
resume_crdt board_id update snapshot s =
    if is_snapshot_active snapshot s
    then apply_update board_id snapshot.snap_context.ctx_user update
      ∷ send_update board_id update
      ∷ []
    else []

unfoldable start_presence : String → Bool → Session → Started
unfolding take_context_snapshot
start_presence board_id parsed s = elim (take_context_snapshot board_id s) [
  | none ↦ answered (sync_error invalid_payload ∷ [])
  | some snapshot ↦ if parsed then waits snapshot else answered (sync_error invalid_payload ∷ [])
]

unfoldable resume_presence : String → Snapshot → Session → List Effect
unfolding is_snapshot_active
resume_presence board_id snapshot s =
    if is_snapshot_active snapshot s then send_presence board_id snapshot.snap_context ∷ [] else []
