-- ===== src/Realtime/Session.antt =====
-- server.ts, handlers/runtime.ts: the state of one connection. Its handlers wait for Redis and for
-- the database, and the state may change while they wait.
pub mod Snapshots
use notebortt_backend.Boards.Rows.{Permission, view, edit}
use notebortt_backend.Common.{
  String, Option, ℕ, Bool, false, ◌&&◌, none, ◌&&◌, suc, some, if◌then◌else◌, true, if◌then◌else◌,
  eqb, ◌==◌, ◌==◌, not,
}

abbrev pub is_edit : Permission → Bool
is_edit view = false
is_edit edit = true

-- `SocketBoardContext`.
pub record Context : Type 0 where
  pub ctx_board : String
  pub ctx_session : String
  pub ctx_permission : Permission
  pub ctx_user : String
  pub ctx_name : String
  pub ctx_avatar : Option String
  pub ctx_color : String

pub record Session : Type 0 where
  pub connected : Bool
  pub board_context : Option Context
  pub board_context_version : ℕ
  -- `lastTickId`, which starts at -1: `none`
  pub last_tick_id : Option ℕ
  pub latest_join_attempt : ℕ

pub record Snapshot : Type 0 where
  pub snap_context : Context
  pub snap_version : ℕ

unfoldable pub set_board_context : Option Context → Session → Session
set_board_context next s = record s {
  board_context = next;
  board_context_version = suc s.board_context_version;
  last_tick_id = none;
}

unfoldable pub take_context_snapshot : String → Session → Option Snapshot
take_context_snapshot expected s = elim s.board_context [
  | none ↦ none
  | some context ↦
      if not (expected == "") && not (context.ctx_board == expected)
      then none
      else some (record { snap_context = context; snap_version = s.board_context_version })
]

unfoldable pub is_snapshot_active : Snapshot → Session → Bool
is_snapshot_active snapshot s = elim s.board_context [
  | none ↦ false
  | some context ↦
      s.connected
      && eqb snapshot.snap_version s.board_context_version
      && snapshot.snap_context.ctx_board == context.ctx_board
      && snapshot.snap_context.ctx_session == context.ctx_session
]

unfoldable pub start_join_attempt : Session → ℕ × Session
start_join_attempt s =
    (suc s.latest_join_attempt, record s { latest_join_attempt = suc s.latest_join_attempt })

unfoldable pub is_join_active : ℕ → Session → Bool
is_join_active attempt s = s.connected && eqb attempt s.latest_join_attempt

unfoldable pub set_last_tick_id : ℕ → Session → Session
set_last_tick_id tick_id s = record s { last_tick_id = some tick_id }
