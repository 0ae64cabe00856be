-- ===== src/Realtime/Join.antt =====
-- handlers/join.handler.ts, handlers/disconnect.handler.ts and `detachFromBoard` in server.ts: a
-- connection comes onto a board and leaves it. Whatever the others do while a join or a
-- detachment waits is an argument, one action for each wait.
pub mod Steps
pub mod Complete
pub mod Denied
pub mod Gone
pub mod Tests
use notebortt_backend.Common.Keys.{remove}
use notebortt_backend.Realtime.Identity.{SocketIdentity}
use notebortt_backend.Boards.Rows.{Permission, view, edit}
use notebortt_backend.Collab.Presence.{
  Presence, get_client_count, remove_client, remove_viewer_session, client_member,
}
use notebortt_backend.Common.{
  ◌++◌, String, if◌then◌else◌, ◌∷◌, ℕ, Option, ◌∷◌, if◌then◌else◌, ◌==◌, [], ◌==◌, Bool, leb, List,
  some, ltb, false, true, none,
}
use notebortt_backend.Realtime.Session.{Session, Context, set_board_context}
use notebortt_backend.Realtime.Participants.{Participant, Room, get_room_size, remove_participant}
use mathlib.Core.Option

pub data JoinError : Type 0 where
  invalid_join no_access room_full : JoinError

-- What a join does to others than its world.
pub data JoinEffect : Type 0 where
  fails : JoinError → JoinEffect
  -- USER_JOINED and BOARD_SNAPSHOT to the socket itself
  shows_user : Participant → JoinEffect
  shows_board : String → JoinEffect
  -- USER_JOINED and USER_LEFT to a board
  announces : String → Participant → JoinEffect
  withdraws : String → Participant → JoinEffect
  -- `loadBoard`, the flush of ticks and CRDT updates, `persistBoard`, BOARD_EDITORS_LEFT
  loads : String → JoinEffect
  flushes_room : String → JoinEffect
  persists : String → JoinEffect
  editors_left : String → JoinEffect

pub record World : Type 0 where
  pub session : Session
  pub identity : Option SocketIdentity
  pub presences : String → Presence
  pub rooms : String → Room
  pub socket_rooms : List String
  pub effects : List JoinEffect

abbrev pub at_board {ℓ} : {A : Type ℓ} → String → A → (String → A) → String → A
at_board board_id a f other = if other == board_id then a else f other

abbrev pub emitted : JoinEffect → World → World
emitted e w = record w { effects = w.effects ++ e ∷ [] }

abbrev pub presence_at : String → World → Presence
presence_at board_id w = w.presences board_id

abbrev pub with_presence : String → Presence → World → World
with_presence board_id p w = record w { presences = at_board board_id p w.presences }

abbrev pub with_room : String → Room → World → World
with_room board_id room w = record w { rooms = at_board board_id room w.rooms }

abbrev pub with_session : Session → World → World
with_session s w = record w { session = s }

-- Of a connection: the socket's identifier and the clock.
module _ (socket_id : String) (now : ℕ) where
  abbrev pub left_effects : Bool → String → Option Participant → World → World
  left_effects false board_id participant w = w
  left_effects true board_id none w = w
  left_effects true board_id (some p) w = emitted (withdraws board_id p) w

  -- `cleanupBoardRealtimeStateIfEmpty`.
  abbrev pub cleanup_if_empty : String → World → World
  cleanup_if_empty board_id w =
      let (size, room) = get_room_size now (w.rooms board_id) in
      let w' = with_room board_id room w in
      if ltb 0 size then w' else emitted (flushes_room board_id) w'

  -- `persistBoardOnGlobalDrain`.
  abbrev pub persist_on_drain : String → World → World
  persist_on_drain board_id w =
      let (clients, p) = get_client_count now (presence_at board_id w) in
      let w' = with_presence board_id p w in
      if leb clients 1 then emitted (persists board_id) w' else w'

  -- What is sent of the participant's removal, and the socket's leaving of the room.
  abbrev pub leave_room : Bool → String → Option Participant → World → World
  leave_room broadcast board_id participant w =
      let w' = left_effects broadcast board_id participant w in
      record w' { socket_rooms = remove board_id w'.socket_rooms }

  -- Whatever others do at a wait of a detachment is an action of theirs, before the access that the
  -- detachment waits for.
  unfoldable pub detach_from_board : (ℕ → World → World) → Context → Bool → World → World
  unfolding set_board_context remove_client remove_viewer_session remove_participant get_room_size
      get_client_count
  detach_from_board others c broadcast w =
      let w1 = others 10 (with_session (set_board_context none w.session) w) in
      let w2 =
        with_presence c.ctx_board
          (remove_client (client_member c.ctx_user socket_id) (presence_at c.ctx_board w1)) w1 in
      let w3 = others 11 w2 in
      let w4 =
        with_presence c.ctx_board (remove_viewer_session c.ctx_session (presence_at c.ctx_board w3))
          w3 in
      let w5 = others 12 w4 in
      let (participant, room) = remove_participant socket_id (w5.rooms c.ctx_board) in
      let w6 =
        leave_room broadcast c.ctx_board participant (others 13 (with_room c.ctx_board room w5)) in
      let w7 = cleanup_if_empty c.ctx_board (others 14 w6) in
      persist_on_drain c.ctx_board (others 15 w7)

  abbrev pub editors_left_if : Permission → String → World → World
  editors_left_if view board_id w = w
  editors_left_if edit board_id w = emitted (editors_left board_id) w

  abbrev pub disconnect_from : (ℕ → World → World) → Option Context → World → World
  disconnect_from others none w = w
  disconnect_from others (some c) w =
      editors_left_if c.ctx_permission c.ctx_board
        (detach_from_board others c true (with_session (set_board_context none w.session) w))

  -- The disconnect handler, without the timers that it clears.
  unfoldable pub disconnect : (ℕ → World → World) → World → World
  unfolding detach_from_board set_board_context
  disconnect others w = disconnect_from others w.session.board_context w
