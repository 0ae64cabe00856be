-- ===== src/Boards/Members.antt =====
-- domain/members.ts, routes/members.routes.ts, routes/link-sharing.routes.ts, the leaving and the
-- deletion of a board in routes/management.routes.ts, and the roles of routes/shared.ts. The
-- parameters and the body of a request have passed their schemas.
pub mod Escalation
use notebortt_backend.Boards.Rows.{
  Role, Tables, Permission, view, is_board, is_member, owner, admin, editor, viewer,
}
use notebortt_backend.Workspaces.Members.{get_workspace_member_role}
use notebortt_backend.Boards.Sharing.{set_board_link_share, rotate_board_link_share_token}
use notebortt_backend.Common.{
  Option, Bool, String, List, if◌then◌else◌, [], filter_by, some, find_by, update_where,
  if◌then◌else◌, ◌∷◌, ◌==◌, any, ◌==◌, not, true, none, ◌&&◌, false, ◌&&◌, ◌++◌, ◌++◌,
}

-- INSERT of a member, or its new permission and inviter where there is one.
unfoldable pub upsert_board_member_row :
    String → String → String → Permission → Option String → Tables → Tables
upsert_board_member_row id board_id user_id p added_by t = record t {
  board_members =
      if any (is_member board_id user_id) t.board_members
      then update_where (is_member board_id user_id)
          (λ row. record row { mem_permission = p; mem_added_by = added_by }) t.board_members
      else t.board_members
        ++ record {
          mem_id = id;
          mem_board = board_id;
          mem_user = user_id;
          mem_permission = p;
          mem_added_by = added_by;
        }
          ∷ [];
}

unfoldable pub update_board_member_permission : String → String → Permission → Tables → Tables
update_board_member_permission board_id member_id permission t = record t {
  board_members =
      update_where (λ row. row.mem_id == member_id && row.mem_board == board_id)
        (λ row. record row { mem_permission = permission }) t.board_members;
}

unfoldable pub delete_board_member : String → String → Tables → Tables
delete_board_member board_id member_id t = record t {
  board_members =
      filter_by (λ row. not (row.mem_id == member_id && row.mem_board == board_id)) t.board_members;
}

unfoldable pub leave_board : String → String → Tables → Tables
leave_board board_id user_id t = record t {
  board_members = filter_by (λ row. not (is_member board_id user_id row)) t.board_members;
}

-- The board with what the database deletes along with it.
unfoldable pub delete_board : String → Tables → Tables
delete_board board_id t = record t {
  boards = filter_by (λ row. not (is_board board_id row)) t.boards;
  board_members = filter_by (λ row. not (row.mem_board == board_id)) t.board_members;
}

unfoldable pub get_workspace_role_for_board : String → String → Tables → Option Role
unfolding get_workspace_member_role
get_workspace_role_for_board board_id user_id t = elim (find_by (is_board board_id) t.boards) [
  | none ↦ none
  | some board ↦ get_workspace_member_role board.row_workspace user_id t.workspace_members
]

abbrev pub can_create_boards : Option Role → Bool
can_create_boards (some owner) = true
can_create_boards (some admin) = true
can_create_boards (some editor) = true
can_create_boards (some viewer) = false
can_create_boards none = false

abbrev pub can_manage_board_access : Option Role → Bool
can_manage_board_access (some owner) = true
can_manage_board_access (some admin) = true
can_manage_board_access (some editor) = false
can_manage_board_access (some viewer) = false
can_manage_board_access none = false

abbrev pub can_delete_boards : Option Role → Bool
can_delete_boards role = can_manage_board_access role

-- What a signed-in user asks for; `generated` is what the server draws.
pub data AccessRequest : Type 0 where
  list_members : AccessRequest
  post_member : (generated member_user : String) → Option Permission → AccessRequest
  patch_member : (member_id : String) → Permission → AccessRequest
  remove_member : (member_id : String) → AccessRequest
  patch_link : Permission → Bool → (generated : String) → AccessRequest
  rotate_link : Permission → (generated : String) → AccessRequest
  remove_board : AccessRequest
  leave : AccessRequest

-- The status of the answer.
pub data Reply : Type 0 where
  ok forbidden not_found bad_request : Reply

abbrev pub guarded : Bool → (Reply × Tables) → Tables → Reply × Tables
guarded allowed result t = if allowed then result else (forbidden, t)

abbrev pub link_reply : Option (Bool × Option String) × Tables → Reply × Tables
link_reply (none, t) = (not_found, t)
link_reply (some link, t) = (ok, t)

-- The permission of the body, where it has one.
abbrev pub permission_or_view : Option Permission → Permission
permission_or_view none = view
permission_or_view (some p) = p

-- A member of the workspace cannot leave one of its boards.
abbrev pub leave_reply : Option Role → Tables → Tables → Reply × Tables
leave_reply (some role) left t = (bad_request, t)
leave_reply none left t = (ok, left)

-- One request of a user about a board, by the handler of its route.
unfoldable pub handle_access : String → String → AccessRequest → Tables → Reply × Tables
unfolding get_workspace_role_for_board upsert_board_member_row update_board_member_permission
    delete_board_member set_board_link_share rotate_board_link_share_token delete_board leave_board
handle_access user_id board_id list_members t =
    guarded (can_manage_board_access (get_workspace_role_for_board board_id user_id t)) (ok, t) t
handle_access user_id board_id (post_member generated member_user p) t =
    guarded (can_manage_board_access (get_workspace_role_for_board board_id user_id t))
      (
        ok,
        upsert_board_member_row generated board_id member_user (permission_or_view p) (some user_id)
            t,
      )
      t
handle_access user_id board_id (patch_member member_id p) t =
    guarded (can_manage_board_access (get_workspace_role_for_board board_id user_id t))
      (ok, update_board_member_permission board_id member_id p t) t
handle_access user_id board_id (remove_member member_id) t =
    guarded (can_manage_board_access (get_workspace_role_for_board board_id user_id t))
      (ok, delete_board_member board_id member_id t) t
handle_access user_id board_id (patch_link p enabled generated) t =
    guarded (can_manage_board_access (get_workspace_role_for_board board_id user_id t))
      (link_reply (set_board_link_share board_id p enabled generated t)) t
handle_access user_id board_id (rotate_link p generated) t =
    guarded (can_manage_board_access (get_workspace_role_for_board board_id user_id t))
      (link_reply (rotate_board_link_share_token board_id p generated t)) t
handle_access user_id board_id remove_board t =
    guarded (can_delete_boards (get_workspace_role_for_board board_id user_id t))
      (ok, delete_board board_id t) t
handle_access user_id board_id leave t =
    leave_reply (get_workspace_role_for_board board_id user_id t) (leave_board board_id user_id t) t

unfoldable pub handle_all_access : List (String × String × AccessRequest) → Tables → Tables
unfolding handle_access
handle_all_access [] t = t
handle_all_access ((user_id, board_id, request) ∷ requests) t =
    handle_all_access requests (handle_access user_id board_id request t).1
