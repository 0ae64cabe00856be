-- ===== src/Boards/Sharing.antt =====
-- domain/sharing.ts: the share links of a board. The token that a call generates is an argument.
pub mod Revocation
use notebortt_backend.Boards.Rows.{Permission, BoardRow, Tables, view, is_board, edit}
use notebortt_backend.Common.{
  String, Option, Bool, if◌then◌else◌, update_where, some, if◌then◌else◌, none, find_by,
}

abbrev pub set_link : Permission → Bool → Option String → BoardRow → BoardRow
set_link view enabled token row = record row { view_enabled = enabled; view_token = token }
set_link edit enabled token row = record row { edit_enabled = enabled; edit_token = token }

abbrev pub set_token : Permission → Option String → BoardRow → BoardRow
set_token view token row = record row { view_token = token }
set_token edit token row = record row { edit_token = token }

abbrev link_enabled : Permission → BoardRow → Bool
link_enabled view row = row.view_enabled
link_enabled edit row = row.edit_enabled

abbrev link_token : Permission → BoardRow → Option String
link_token view row = row.view_token
link_token edit row = row.edit_token

-- Whether the link is enabled, and its token.
abbrev link_state : Permission → Option BoardRow → Option (Bool × Option String)
link_state p none = none
link_state p (some row) = some (link_enabled p row, link_token p row)

unfoldable pub update_board :
    String → (BoardRow → BoardRow) → Permission → Tables → Option (Bool × Option String) × Tables
update_board board_id patch p t =
    let rows = update_where (is_board board_id) patch t.boards in
    (link_state p (find_by (is_board board_id) rows), record t { boards = rows })

unfoldable pub set_board_link_share :
    String → Permission → Bool → String → Tables → Option (Bool × Option String) × Tables
unfolding update_board
set_board_link_share board_id p enabled generated t =
    update_board board_id (set_link p enabled (if enabled then some generated else none)) p t

unfoldable pub rotate_board_link_share_token :
    String → Permission → String → Tables → Option (Bool × Option String) × Tables
unfolding update_board
rotate_board_link_share_token board_id p generated t =
    update_board board_id (set_token p (some generated)) p t
