-- ===== src/Boards/Access.antt =====
-- domain/access.ts, domain/catalog.ts: the access to a board, and the boards of a user.
pub mod Listing
use mathlib.Core.Option
use notebortt_backend.Common.Keys.{has}
use notebortt_backend.Boards.Rows.{
  BoardRow, Tables, WorkspaceMemberRow, MemberRow, Permission, is_token, view, is_board, is_member,
  is_workspace_member, edit, workspace_role_to_board_permission,
}
use notebortt_backend.Common.Assoc.{put, or_else, keys}
use notebortt_backend.Common.{
  String, Option, Bool, List, ◌&&◌, ◌&&◌, some, [], ◌∷◌, find_by, ◌++◌, if◌then◌else◌, ◌++◌,
  if◌then◌else◌, ◌==◌, none, ◌==◌,
}

unfoldable pub get_board_member_permission : String → String → Tables → Option Permission
get_board_member_permission board_id user_id t =
    Option.map (λ row. row.mem_permission) (find_by (is_member board_id user_id) t.board_members)

unfoldable pub get_workspace_board_membership_permission :
    String → String → Tables → Option Permission
get_workspace_board_membership_permission workspace_id user_id t =
    Option.map (λ row. workspace_role_to_board_permission row.wm_role)
      (find_by (is_workspace_member workspace_id user_id) t.workspace_members)

-- The part of `checkBoardAccess` for a user that is signed in.
unfoldable pub check_user_access : BoardRow → String → Tables → Option Permission
unfolding get_board_member_permission get_workspace_board_membership_permission
check_user_access board user_id t =
    or_else (get_board_member_permission board.row_id user_id t)
      (get_workspace_board_membership_permission board.row_workspace user_id t)

abbrev pub is_view_link : String → BoardRow → Bool
is_view_link token board = board.view_enabled && is_token token board.view_token

abbrev pub is_edit_link : String → BoardRow → Bool
is_edit_link token board = board.edit_enabled && is_token token board.edit_token

-- The permission of the links; an empty token is none.
unfoldable pub check_link : BoardRow → Option String → Option Permission
check_link board none = none
check_link board (some token) =
    if token == ""
    then none
    else if is_view_link token board
    then some view
    else if is_edit_link token board
    then some edit
    else none

abbrev user_access : BoardRow → Option String → Tables → Option Permission
user_access board none t = none
user_access board (some user_id) t =
    if user_id == "" then none else check_user_access board user_id t

-- `hasAccess` is whether there is a permission.
unfoldable pub check_board_access :
    String → Option String → Option String → Tables → Option Permission
unfolding check_link check_user_access
check_board_access board_id user_id share_token t = elim (find_by (is_board board_id) t.boards) [
  | none ↦ none
  | some board ↦ or_else (check_link board share_token) (user_access board user_id t)
]

unfoldable pub get_share_by_token : String → Tables → Option (String × Permission)
get_share_by_token token t = elim (find_by (is_view_link token) t.boards) [
  | some board ↦ some (board.row_id, view)
  | none ↦ elim (find_by (is_edit_link token) t.boards) [
    | some board ↦ some (board.row_id, edit)
    | none ↦ none
  ]
]

-- The rows of the join of boards and workspace members of a user.
abbrev pub workspace_rows : String → List WorkspaceMemberRow → BoardRow → List (String × Permission)
workspace_rows user_id [] board = []
workspace_rows user_id (row ∷ rows) board =
    let rest = workspace_rows user_id rows board in
    if is_workspace_member board.row_workspace user_id row
    then (board.row_id, workspace_role_to_board_permission row.wm_role) ∷ rest
    else rest

abbrev pub member_rows : String → List MemberRow → BoardRow → List (String × Permission)
member_rows user_id [] board = []
member_rows user_id (row ∷ rows) board =
    let rest = member_rows user_id rows board in
    if is_member board.row_id user_id row then (board.row_id, row.mem_permission) ∷ rest else rest

abbrev pub join_all :
    (BoardRow → List (String × Permission)) → List BoardRow → List (String × Permission)
join_all rows [] = []
join_all rows (board ∷ boards) = rows board ++ join_all rows boards

-- `deduped.set` for the boards of workspaces.
unfoldable pub set_all :
    List (String × Permission) → List (String × Permission) → List (String × Permission)
unfolding put
set_all [] deduped = deduped
set_all ((board_id, p) ∷ rows) deduped = set_all rows (put board_id p deduped)

-- The direct memberships, for boards that are not there yet.
unfoldable pub add_new :
    List (String × Permission) → List (String × Permission) → List (String × Permission)
unfolding put has
add_new [] deduped = deduped
add_new ((board_id, p) ∷ rows) deduped =
    if has board_id (keys deduped)
    then add_new rows deduped
    else add_new rows (put board_id p deduped)

-- The boards of a user, each with its permission.
unfoldable pub list_accessible_boards : String → Tables → List (String × Permission)
unfolding set_all add_new
list_accessible_boards user_id t =
    add_new (join_all (member_rows user_id t.board_members) t.boards)
      (set_all (join_all (workspace_rows user_id t.workspace_members) t.boards) [])
