-- ===== src/Realtime/Crdt.antt =====
-- crdt-room.ts: the moves that CRDT updates bring, kept by board until a timer flushes them. The
-- document and its merge are those of yjs: a merge gives the document and, for each changed key of
-- the moves, the position that the document then has, if any. The state is that of one board.
pub mod Newest
pub mod Deadline
use notebortt_backend.Collab.Board.Maps.{is_some}
use notebortt_backend.Collab.Board.{is_nil}
use notebortt_backend.Collab.Mutation.{Move}
use notebortt_backend.Common.{
  ℕ, String, List, Option, ◌∷◌, none, some, [], ◌+◌, if◌then◌else◌, ◌+◌, if◌then◌else◌, map,
}
use notebortt_backend.Common.Assoc.{put, or_else}
use notebortt_backend.Realtime.Ticks.{Position, to_move}

abbrev pub system_crdt : String
system_crdt = "system:socketio"

abbrev pub default_crdt_debounce_ms : ℕ
default_crdt_debounce_ms = 400

abbrev pub default_crdt_max_wait_ms : ℕ
default_crdt_max_wait_ms = 1_600

pub record CrdtRoom (D : Type 0) : Type 0 where
  pub doc : D
  pub crdt_moves : List (String × Position)
  -- the two timers: the times at which they fire
  pub crdt_debounce_at : Option ℕ
  pub crdt_max_wait_at : Option ℕ
  pub flush_started_at : Option ℕ
  pub last_editor : String

-- The observer of the document's moves.
unfoldable pub observe :
    List (String × Option Position) → List (String × Position) → List (String × Position)
unfolding put
observe [] pending = pending
observe ((element_id, none) ∷ changes) pending = observe changes pending
observe ((element_id, some position) ∷ changes) pending =
    observe changes (put element_id position pending)

-- What happens to the room of a board, each with its time.
pub data CrdtStep : Type 0 where
  updates : String → List ℕ → CrdtStep
  debounce_ends max_wait_ends flushes_now clears : CrdtStep

module _ {D : Type 0} (empty_doc : D)
    (merge : D → List ℕ → D × List (String × Option Position)) where
  abbrev pub get_or_create_room : Option (CrdtRoom D) → CrdtRoom D
  get_or_create_room (some room) = room
  get_or_create_room none = record {
    doc = empty_doc;
    crdt_moves = [];
    crdt_debounce_at = none;
    crdt_max_wait_at = none;
    flush_started_at = none;
    last_editor = system_crdt;
  }

  unfoldable pub clear_timers : CrdtRoom D → CrdtRoom D
  clear_timers room = record room {
    crdt_debounce_at = none;
    crdt_max_wait_at = none;
    flush_started_at = none;
  }

  -- `flush` up to its first wait: the moves that it hands over, and the room.
  unfoldable pub start_crdt_flush : Option (CrdtRoom D) → Option (List Move) × Option (CrdtRoom D)
  unfolding clear_timers
  start_crdt_flush none = (none, none)
  start_crdt_flush (some room) = if is_nil room.crdt_moves then (none, some room) else (
    some (map to_move room.crdt_moves),
    some (record (clear_timers room) { crdt_moves = [] }),
  )

  -- A pending debounce timer is replaced; a pending timer of the longest wait stays.
  unfoldable pub schedule_flush : ℕ → CrdtRoom D → CrdtRoom D
  schedule_flush now room = record room {
    crdt_debounce_at = some (now + default_crdt_debounce_ms);
    crdt_max_wait_at = or_else room.crdt_max_wait_at (some (now + default_crdt_max_wait_ms));
    flush_started_at = if is_some room.crdt_max_wait_at then room.flush_started_at else some now;
  }

  unfoldable pub apply_remote_update :
      ℕ → String → List ℕ → Option (CrdtRoom D) → Option (CrdtRoom D)
  unfolding observe schedule_flush
  apply_remote_update now user_id update room =
      let r = get_or_create_room room in
      let (doc, changes) = merge r.doc update in
      some (
        schedule_flush now (record r {
          doc = doc;
          crdt_moves = observe changes r.crdt_moves;
          last_editor = user_id;
        }))

  -- The callbacks of the two timers.
  unfoldable pub debounce_fires : Option (CrdtRoom D) → Option (List Move) × Option (CrdtRoom D)
  unfolding start_crdt_flush
  debounce_fires none = (none, none)
  debounce_fires (some room) = start_crdt_flush (some (record room { crdt_debounce_at = none }))

  unfoldable pub max_wait_fires : Option (CrdtRoom D) → Option (List Move) × Option (CrdtRoom D)
  unfolding start_crdt_flush
  max_wait_fires none = (none, none)
  max_wait_fires (some room) = start_crdt_flush (some (record room { crdt_max_wait_at = none }))

  abbrev pub clear_room : Option (CrdtRoom D) → Option (CrdtRoom D)
  clear_room room = none

  -- The moves that are flushed, and the room.
  unfoldable pub crdt_step :
      ℕ → CrdtStep → Option (CrdtRoom D) → Option (List Move) × Option (CrdtRoom D)
  unfolding apply_remote_update debounce_fires max_wait_fires start_crdt_flush
  crdt_step now (updates user_id update) room = (none, apply_remote_update now user_id update room)
  crdt_step now debounce_ends room = debounce_fires room
  crdt_step now max_wait_ends room = max_wait_fires room
  crdt_step now flushes_now room = start_crdt_flush room
  crdt_step now clears room = (none, clear_room room)
