-- ===== src/Boards/Rows.antt =====
-- platform/db/schema/boards.ts, workspaces.ts: the rows that decide on the access to a board.
use notebortt_backend.Common.{String, List, Bool, Option, ◌==◌, false, ◌==◌, ◌&&◌, some, ◌&&◌, none}

pub data Permission : Type 0 where
  view edit : Permission

-- `workspace_members.role`, by the table's check.
pub data Role : Type 0 where
  owner admin editor viewer : Role

pub record BoardRow : Type 0 where
  pub row_id : String
  pub row_workspace : String
  pub view_enabled : Bool
  pub view_token : Option String
  pub edit_enabled : Bool
  pub edit_token : Option String

pub record MemberRow : Type 0 where
  pub mem_id : String
  pub mem_board : String
  pub mem_user : String
  pub mem_permission : Permission
  pub mem_added_by : Option String

pub record WorkspaceMemberRow : Type 0 where
  pub wm_id : String
  pub wm_workspace : String
  pub wm_user : String
  pub wm_role : Role

pub record Tables : Type 0 where
  pub boards : List BoardRow
  pub board_members : List MemberRow
  pub workspace_members : List WorkspaceMemberRow

abbrev pub is_board : String → BoardRow → Bool
is_board id row = row.row_id == id

abbrev pub is_member : String → String → MemberRow → Bool
is_member board_id user_id row = row.mem_board == board_id && row.mem_user == user_id

abbrev pub is_workspace_member : String → String → WorkspaceMemberRow → Bool
is_workspace_member workspace_id user_id row =
    row.wm_workspace == workspace_id && row.wm_user == user_id

-- `workspaceRoleToBoardPermission`.
abbrev pub workspace_role_to_board_permission : Role → Permission
workspace_role_to_board_permission viewer = view
workspace_role_to_board_permission owner = edit
workspace_role_to_board_permission admin = edit
workspace_role_to_board_permission editor = edit

-- `token === shareToken`, where the column may be null.
abbrev pub is_token : String → Option String → Bool
is_token token none = false
is_token token (some t) = t == token
