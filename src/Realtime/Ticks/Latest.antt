-- ===== src/Realtime/Ticks/Latest.antt =====
-- What a flush persists of the ticks before it.
use notebortt_backend.Collab.Mutation.{Move}
use notebortt_backend.Common.Assoc.{get, or_else, put, get-put}
use notebortt_backend.Realtime.Ticks.{
  set_moves, start_flush, Position, Pending, pending_of, to_move, queue_moves, is_idle,
  schedule_tick_persist,
}
use notebortt_backend.Common.{
  Option, String, List, ℕ, ◌++◌, ◌∷◌, none, map, ◌≡◌, ◌++◌, [], ◌≡◌, some, if◌then◌else◌, arith,
  ◌==◌, ◌==◌, true,
}

-- The last position of an element among the moves, if they have one.
abbrev last_position : String → List Move → Option Position
last_position k [] = none
last_position k (move ∷ moves) =
    or_else (last_position k moves) (if move.element_id == k then some (move.x, move.y) else none)

get-set_moves :
    (moves : List Move) (k : String) (pending : List (String × Position))
    → get k (set_moves moves pending) ≡ or_else (last_position k moves) (get k pending)
unfolding set_moves
get-set_moves [] k pending = ground arith
get-set_moves (move ∷ moves) k pending = ground (
  arith,
  get-set_moves moves k (put move.element_id (move.x, move.y) pending),
  get-put move.element_id k (move.x, move.y) pending,
)

abbrev pub queue_all : List (ℕ × String × List Move) → Pending → Pending
queue_all [] p = p
queue_all ((now, user_id, moves) ∷ ticks) p = queue_all ticks (queue_moves now user_id moves p)

abbrev all_moves : List (ℕ × String × List Move) → List Move
all_moves [] = []
all_moves ((now, user_id, moves) ∷ ticks) = moves ++ all_moves ticks

pending-queue_moves :
    (now : ℕ) (user_id : String) (moves : List Move) (p : Pending)
    → pending_of (queue_moves now user_id moves p).pending_moves
      ≡ set_moves moves (pending_of p.pending_moves)
unfolding queue_moves schedule_tick_persist set_moves
pending-queue_moves now user_id [] p = ground arith
pending-queue_moves now user_id (move ∷ moves) p = ground arith

last_position-append :
    (k : String) (xs ys : List Move)
    → last_position k (xs ++ ys) ≡ or_else (last_position k ys) (last_position k xs)
last_position-append k [] ys = ground arith
last_position-append k (move ∷ xs) ys = ground (arith, last_position-append k xs ys)

get-queue_all :
    (ticks : List (ℕ × String × List Move)) (k : String) (p : Pending)
    → get k (pending_of (queue_all ticks p).pending_moves)
      ≡ or_else (last_position k (all_moves ticks)) (get k (pending_of p.pending_moves))
get-queue_all [] k p = ground arith
get-queue_all ((now, user_id, moves) ∷ ticks) k p = ground (
  arith,
  get-queue_all ticks k (queue_moves now user_id moves p),
  pending-queue_moves now user_id moves p,
  get-set_moves moves k (pending_of p.pending_moves),
  last_position-append k moves (all_moves ticks),
)

abbrev pub flushed : Option (List Move × String) → List Move
flushed none = []
flushed (some (moves, user_id)) = moves

-- The position of an element among flushed moves, which have each element once.
abbrev pub position_in : String → List Move → Option Position
position_in k [] = none
position_in k (move ∷ moves) =
    if move.element_id == k then some (move.x, move.y) else position_in k moves

pub position_in-map :
    (k : String) (pending : List (String × Position))
    → position_in k (map to_move pending) ≡ get k pending
unfolding get
position_in-map k [] = ground arith
position_in-map k ((j, (x, y)) ∷ pending) = ground (arith, position_in-map k pending)

map-is_idle :
    (pending : List (String × Position)) → is_idle pending ≡ true → map to_move pending ≡ []
map-is_idle [] h = ground arith
map-is_idle (move ∷ moves) h = ground (arith, h)

flushed-start_flush :
    (p : Pending) → flushed (start_flush p).0 ≡ map to_move (pending_of p.pending_moves)
unfolding start_flush
flushed-start_flush p = ground (arith, map-is_idle (pending_of p.pending_moves))

-- A flush after any ticks, of any users, moves each element to the last position that the ticks
-- gave it, or to the one that was pending before where they do not move it, and no other element.
pub flush-queue_all :
    (ticks : List (ℕ × String × List Move)) (k : String) (p : Pending)
    → position_in k (flushed (start_flush (queue_all ticks p)).0)
      ≡ or_else (last_position k (all_moves ticks)) (get k (pending_of p.pending_moves))
flush-queue_all ticks k p = rw (flushed-start_flush (queue_all ticks p)) (
    rw (position_in-map k (pending_of (queue_all ticks p).pending_moves)) (get-queue_all ticks k p))
