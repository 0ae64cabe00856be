-- ===== src/Realtime/Handlers/Guards.antt =====
-- Who may change a board over a connection.
use notebortt_backend.Boards.Rows.{edit, Permission, view}
use notebortt_backend.Collab.Mutation.{Mutation}
use notebortt_backend.Realtime.Session.{take_context_snapshot, Session, set_last_tick_id, Snapshot}
use notebortt_backend.Realtime.Handlers.{
  start_batch, start_tick, Tick, waits, has_moves, has_consistent_batch_board_id, is_stale_tick,
  Started, answered,
}
use notebortt_backend.Common.{
  String, List, ◌≡◌, ◌≡◌, some, true, ◌↔◌, ◌↔◌, false, Option-cases, inl, arith, inr, eq_iff, none,
  Bool, ◌⊎◌, ◌⊎◌, refl, ◌==◌,
}

-- The connection has joined this board, and with the right to edit it.
abbrev pub IsEditor : String → Session → Type 0
IsEditor board_id s = elim s.board_context [
  | none ↦ false ≡ true
  | some context ↦ (context.ctx_board ≡ board_id) × (context.ctx_permission ≡ edit)
]

abbrev pub is_waiting : Started → Bool
is_waiting (answered effects) = false
is_waiting (waits snapshot) = true

Permission-cases : (p : Permission) → (p ≡ view) ⊎ (p ≡ edit)
Permission-cases view = inl refl
Permission-cases edit = inr refl

-- A batch gets past its guards exactly when the payload is well formed, every mutation names the
-- board of the payload, and the connection has joined that board as an editor.
pub start_batch_iff :
    (board_id : String) (mutations : List Mutation) (s : Session)
    → (board_id == "") ≡ false
    → (is_waiting (start_batch board_id (some mutations) s) ≡ true)
      ↔ (IsEditor board_id s × (has_consistent_batch_board_id board_id mutations ≡ true))
unfolding start_batch take_context_snapshot
start_batch_iff board_id mutations s named = elim (Option-cases s.board_context) [
  | inl alone ↦ ground (arith, alone)
  | inr (context, joined) ↦ elim (Permission-cases context.ctx_permission) [
    | inl p ↦ ground (arith, joined, p, named, eq_iff context.ctx_board board_id)
    | inr p ↦ ground (arith, joined, p, named, eq_iff context.ctx_board board_id)
  ]
]

-- Moves are queued only by a tick that came in while the connection was an editor of its board,
-- with an id above every earlier one of that context.
pub start_tick-IsEditor :
    (tick : Tick) (snapshot : Snapshot) (s : Session)
    → (tick.tick_board == "") ≡ false
    → has_moves tick ≡ true
    → (start_tick (some tick) s).0 ≡ waits snapshot
    → IsEditor tick.tick_board s
      × (is_stale_tick tick s ≡ false)
      × ((start_tick (some tick) s).1.last_tick_id ≡ some tick.tick_id)
unfolding start_tick take_context_snapshot set_last_tick_id
start_tick-IsEditor tick snapshot s named moves started = elim (Option-cases s.board_context) [
  | inl alone ↦ ground (arith, alone, started)
  | inr (context, joined) ↦
      ground (arith, joined, started, moves, named, eq_iff context.ctx_board tick.tick_board)
]
