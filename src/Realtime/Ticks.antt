-- ===== src/Realtime/Ticks.antt =====
-- tick-persistence.ts: the moves of ticks, kept by board until a timer flushes them. The state is
-- that of one board; a flush hands over the mutation's moves and their user.
pub mod Latest
use notebortt_backend.Collab.Mutation.{Move}
use notebortt_backend.Collab.Element.{Value}
use notebortt_backend.Common.{
  ℕ, none, String, Option, some, List, ◌+◌, ◌+◌, [], ◌∷◌, map, Bool, if◌then◌else◌, if◌then◌else◌,
  true, false,
}
use notebortt_backend.Common.Assoc.{put, or_else}

abbrev system_tick : String
system_tick = "system:tick"

abbrev pub Position : Type 0
Position = Value × Value

pub record Pending : Type 0 where
  -- `pendingTickMovesByBoard`: `none` where the board has no map
  pub pending_moves : Option (List (String × Position))
  pub pending_user : Option String
  -- the two timers: the times at which they fire
  pub debounce_at : Option ℕ
  pub max_wait_at : Option ℕ

abbrev tick_persist_debounce_ms : ℕ
tick_persist_debounce_ms = 400

abbrev tick_persist_max_wait_ms : ℕ
tick_persist_max_wait_ms = 1_500

abbrev pub pending_of : Option (List (String × Position)) → List (String × Position)
pending_of none = []
pending_of (some moves) = moves

unfoldable pub set_moves : List Move → List (String × Position) → List (String × Position)
unfolding put
set_moves [] pending = pending
set_moves (move ∷ moves) pending = set_moves moves (put move.element_id (move.x, move.y) pending)

-- A pending debounce timer is replaced; a pending timer of the longest wait stays.
unfoldable pub schedule_tick_persist : ℕ → Pending → Pending
schedule_tick_persist now p = record p {
  debounce_at = some (now + tick_persist_debounce_ms);
  max_wait_at = or_else p.max_wait_at (some (now + tick_persist_max_wait_ms));
}

unfoldable pub queue_moves : ℕ → String → List Move → Pending → Pending
unfolding set_moves schedule_tick_persist
queue_moves now user_id [] p = p
queue_moves now user_id (move ∷ moves) p = schedule_tick_persist now (record p {
  pending_moves = some (set_moves (move ∷ moves) (pending_of p.pending_moves));
  pending_user = some user_id;
})

abbrev pub to_move : String × Position → Move
to_move (element_id, (x, y)) = record { element_id = element_id; x = x; y = y }

abbrev or_system : Option String → String
or_system none = system_tick
or_system (some user_id) = user_id

-- The moves and the user of the batch that a flush processes, up to its first wait.
abbrev pub is_idle : List (String × Position) → Bool
is_idle [] = true
is_idle (move ∷ moves) = false

unfoldable pub start_flush : Pending → Option (List Move × String) × Pending
start_flush p = if is_idle (pending_of p.pending_moves) then (none, p) else (
  some (map to_move (pending_of p.pending_moves), or_system p.pending_user),
  record p { pending_moves = none; debounce_at = none; max_wait_at = none },
)

-- After the batch: the board's user is forgotten, also one who has queued moves meanwhile.
unfoldable end_flush : Pending → Pending
end_flush p = record p { pending_user = none }

unfoldable clear_board : Pending → Pending
clear_board p = record {
  pending_moves = none;
  pending_user = none;
  debounce_at = none;
  max_wait_at = none;
}
