-- ===== src/Realtime/Crdt/Newest.antt =====
-- crdt-room.ts: what becomes of the moves that updates bring.
use notebortt_backend.Collab.Board.{is_nil}
use notebortt_backend.Common.Assoc.{get, or_else, put, get-put}
use notebortt_backend.Realtime.Ticks.{Position}
use notebortt_backend.Realtime.Crdt.{
  observe, CrdtRoom, CrdtStep, crdt_step, apply_remote_update, updates, start_crdt_flush,
  debounce_fires, get_or_create_room, debounce_ends, max_wait_fires, max_wait_ends, clears,
  flushes_now,
}
use notebortt_backend.Common.{
  String, List, Option, ℕ, none, some, [], ◌++◌, ◌++◌, ◌≡◌, ◌≡◌, ◌∷◌, arith, if◌then◌else◌, ◌==◌,
  ◌==◌, Bool, true, Bool-cases, false, inl, refl, inr, any,
}
use notebortt_backend.Realtime.Ticks.Latest.{position_in, position_in-map}
use notebortt_backend.Collab.Mutation.{Move}

-- The position that the last of the changes of a key gives it.
abbrev pub newest_change : String → List (String × Option Position) → Option Position
newest_change k [] = none
newest_change k ((j, position) ∷ changes) =
    or_else (newest_change k changes) (if j == k then position else none)

get-observe :
    (changes : List (String × Option Position)) (k : String) (pending : List (String × Position))
    → get k (observe changes pending) ≡ or_else (newest_change k changes) (get k pending)
unfolding observe
get-observe [] k pending = ground arith
get-observe ((j, none) ∷ changes) k pending = ground (arith, get-observe changes k pending)
get-observe ((j, some p) ∷ changes) k pending =
    ground (arith, get-observe changes k (put j p pending), get-put j k p pending)

newest_change-append :
    (k : String) (xs ys : List (String × Option Position))
    → newest_change k (xs ++ ys) ≡ or_else (newest_change k ys) (newest_change k xs)
newest_change-append k [] ys = ground arith
newest_change-append k ((j, p) ∷ xs) ys = ground (arith, newest_change-append k xs ys)

abbrev pub moves_in : {D : Type 0} → Option (CrdtRoom D) → List (String × Position)
moves_in none = []
moves_in (some room) = room.crdt_moves

abbrev pub position_of : String → Option (List Move) → Option Position
position_of k none = none
position_of k (some moves) = position_in k moves

-- What the last of the flushes that move a key makes of it.
abbrev pub newest_flush : String → List (Option (List Move)) → Option Position
newest_flush k [] = none
newest_flush k (batch ∷ batches) = or_else (newest_flush k batches) (position_of k batch)

module _ {D : Type 0} (empty_doc : D)
    (merge : D → List ℕ → D × List (String × Option Position)) where
  abbrev pub crdt_steps :
      List (ℕ × CrdtStep) → Option (CrdtRoom D) → List (Option (List Move)) × Option (CrdtRoom D)
  crdt_steps [] room = ([], room)
  crdt_steps ((now, s) ∷ steps) room =
      let (batch, room1) = crdt_step empty_doc merge now s room in
      let (batches, room') = crdt_steps steps room1 in (batch ∷ batches, room')

  -- The changes that the document makes on a step.
  abbrev pub changes_of : CrdtStep → Option (CrdtRoom D) → List (String × Option Position)
  changes_of (updates user_id update) room =
      (merge (get_or_create_room empty_doc merge room).doc update).1
  changes_of debounce_ends room = []
  changes_of max_wait_ends room = []
  changes_of flushes_now room = []
  changes_of clears room = []

  abbrev pub observed : List (ℕ × CrdtStep) → Option (CrdtRoom D) → List (String × Option Position)
  observed [] room = []
  observed ((now, s) ∷ steps) room =
      changes_of s room ++ observed steps (crdt_step empty_doc merge now s room).1

  abbrev pub does_clear : CrdtStep → Bool
  does_clear clears = true
  does_clear (updates user_id update) = false
  does_clear debounce_ends = false
  does_clear max_wait_ends = false
  does_clear flushes_now = false

  flush-moves :
      (k : String) (room : CrdtRoom D)
      → let (batch, room') = start_crdt_flush empty_doc merge (some room) in
        or_else (get k (moves_in room')) (position_of k batch) ≡ get k room.crdt_moves
  unfolding start_crdt_flush get
  flush-moves k room = elim (Bool-cases (is_nil room.crdt_moves)) [
    | inl empty ↦ rw empty (ground arith)
    | inr full ↦ rw full (position_in-map k room.crdt_moves)
  ]

  step-moves :
      (now : ℕ) (s : CrdtStep) (room : Option (CrdtRoom D)) (k : String)
      → does_clear s ≡ false
      → let (batch, room') = crdt_step empty_doc merge now s room in
        or_else (get k (moves_in room')) (position_of k batch)
        ≡ or_else (newest_change k (changes_of s room)) (get k (moves_in room))
  unfolding crdt_step apply_remote_update debounce_fires max_wait_fires start_crdt_flush get
  step-moves now (updates user_id update) none k h =
      ground (arith, get-observe (merge empty_doc update).1 k [])
  step-moves now (updates user_id update) (some room) k h =
      ground (arith, get-observe (merge room.doc update).1 k room.crdt_moves)
  step-moves now debounce_ends none k h = refl
  step-moves now debounce_ends (some room) k h =
      flush-moves k (record room { crdt_debounce_at = none })
  step-moves now max_wait_ends none k h = refl
  step-moves now max_wait_ends (some room) k h =
      flush-moves k (record room { crdt_max_wait_at = none })
  step-moves now flushes_now none k h = refl
  step-moves now flushes_now (some room) k h = flush-moves k room
  step-moves now clears room k h = ground (arith, h)

  -- No move that an update brings is lost, in whatever order the updates, the ends of the timers
  -- and the flushes come, as long as the room is not cleared: of each element the newest position
  -- that the document had is the one that is pending or, where none is, the one that the last flush
  -- to move it has handed over; without a change of it, it is the one pending before.
  pub crdt_steps-newest :
      (steps : List (ℕ × CrdtStep)) (room : Option (CrdtRoom D)) (k : String)
      → any (λ e. does_clear e.1) steps ≡ false
      → let (batches, room') = crdt_steps steps room in
        or_else (get k (moves_in room')) (newest_flush k batches)
        ≡ or_else (newest_change k (observed steps room)) (get k (moves_in room))
  crdt_steps-newest [] room k h = ground arith
  crdt_steps-newest ((now, s) ∷ steps) room k h =
      let (batch, room1) = crdt_step empty_doc merge now s room in
      ground (
        arith,
        h,
        step-moves now s room k (ground (arith, h)),
        crdt_steps-newest steps room1 k (ground (arith, h)),
        newest_change-append k (changes_of s room) (observed steps room1),
      )
