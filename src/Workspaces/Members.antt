-- ===== src/Workspaces/Members.antt =====
-- workspace/core.ts, workspace/invitations.ts: the members of workspaces. Identifiers that the
-- database generates are arguments; an insert whose key is there fails.
pub mod Owner
use notebortt_backend.Common.{
  Bool, ℕ, String, true, ◌==◌, List, ◌==◌, not, any, if◌then◌else◌, ◌&&◌, ◌⊎◌, false, ◌⊎◌, ◌&&◌,
  Option, find_by, if◌then◌else◌, ltb, none, inl, some, ◌||◌, ◌||◌, filter_by, ◌++◌, inr, ◌++◌, ◌∷◌,
  update_where, ◌∷◌, [],
}
use notebortt_backend.Boards.Invitations.{accepted, is_pending, InviteStatus, is_accepted}
use notebortt_backend.Boards.Rows.{Role, WorkspaceMemberRow, is_workspace_member, owner}
use mathlib.Core.Option

abbrev pub has_member_id : String → WorkspaceMemberRow → Bool
has_member_id id row = row.wm_id == id

abbrev is_owner_role : Role → Bool
is_owner_role owner = true
is_owner_role _ = false

-- A row of the workspace whose owner it is: `workspace_single_owner_idx`.
abbrev pub is_owner_of : String → WorkspaceMemberRow → Bool
is_owner_of workspace_id row = row.wm_workspace == workspace_id && is_owner_role row.wm_role

abbrev pub is_member_of : String → String → WorkspaceMemberRow → Bool
is_member_of workspace_id member_id row =
    row.wm_workspace == workspace_id && has_member_id member_id row

-- The transaction of `createWorkspace`, for a workspace that the database has just created.
unfoldable pub create_workspace :
    String → String → String → List WorkspaceMemberRow → Option (List WorkspaceMemberRow)
create_workspace workspace_id member_id owner_id rows =
    let row : WorkspaceMemberRow = record {
      wm_id = member_id;
      wm_workspace = workspace_id;
      wm_user = owner_id;
      wm_role = owner;
    } in
    if any (has_member_id member_id) rows
      || any (is_workspace_member workspace_id owner_id) rows
      || any (is_owner_of workspace_id) rows
    then none
    else some (rows ++ row ∷ [])

-- Whether a member is deleted, and the rows.
unfoldable pub delete_workspace_member :
    String → String → List WorkspaceMemberRow → Bool × List WorkspaceMemberRow
delete_workspace_member workspace_id member_id rows =
    elim (find_by (is_member_of workspace_id member_id) rows) [
      | none ↦ (false, rows)
      | some row ↦
          if is_owner_role row.wm_role
          then (false, rows)
          else (true, filter_by (λ other. not (has_member_id member_id other)) rows)
    ]

unfoldable pub get_workspace_member_role : String → String → List WorkspaceMemberRow → Option Role
get_workspace_member_role workspace_id user_id rows =
    Option.map (λ row. row.wm_role) (find_by (is_workspace_member workspace_id user_id) rows)

unfoldable is_workspace_user : String → String → List WorkspaceMemberRow → Bool
is_workspace_user workspace_id user_id rows = any (is_workspace_member workspace_id user_id) rows

pub record WorkspaceInvite : Type 0 where
  pub wi_id : String
  pub wi_workspace : String
  pub wi_email : String
  pub wi_role : Role
  pub wi_status : InviteStatus
  pub wi_token : String
  pub wi_expires_at : ℕ

-- `WorkspaceInvitationError`, and the violation of an index.
pub data JoinError : Type 0 where
  not_found wrong_user expired_or_used unique_violation : JoinError

abbrev has_invite_id : String → WorkspaceInvite → Bool
has_invite_id id inv = inv.wi_id == id

abbrev pub has_token : String → WorkspaceInvite → Bool
has_token token inv = inv.wi_token == token

abbrev is_open_invite : ℕ → WorkspaceInvite → Bool
is_open_invite now inv = is_pending inv.wi_status && ltb now inv.wi_expires_at

abbrev is_accepted_key : WorkspaceInvite → WorkspaceInvite → Bool
is_accepted_key inv other =
    not (has_invite_id inv.wi_id other)
    && other.wi_workspace == inv.wi_workspace
    && other.wi_email == inv.wi_email
    && is_accepted other.wi_status

abbrev accept_row : WorkspaceInvite → WorkspaceInvite
accept_row inv = record inv { wi_status = accepted }

-- ON CONFLICT DO NOTHING.
unfoldable pub add_workspace_member :
    String → String → String → Role → List WorkspaceMemberRow → List WorkspaceMemberRow
add_workspace_member member_id workspace_id user_id role rows =
    let row : WorkspaceMemberRow = record {
      wm_id = member_id;
      wm_workspace = workspace_id;
      wm_user = user_id;
      wm_role = role;
    } in
    if any (is_workspace_member workspace_id user_id) rows || any (has_member_id member_id) rows
    then rows
    else rows ++ row ∷ []

-- For a user with the address `email`; the transaction writes nothing where it fails.
unfoldable pub accept_invitation :
    ℕ
    → String
    → String
    → String
    → String
    → List WorkspaceInvite
    → List WorkspaceMemberRow
    → JoinError ⊎ (List WorkspaceInvite × List WorkspaceMemberRow)
unfolding add_workspace_member
accept_invitation now token email user_id member_id invites rows =
    elim (find_by (has_token token) invites) [
      | none ↦ inl not_found
      | some inv ↦
          if not (inv.wi_email == email)
          then inl wrong_user
          else if not (is_open_invite now inv)
          then inl expired_or_used
          else if any (is_accepted_key inv) invites
          then inl unique_violation
          else inr (
            update_where (λ other. has_invite_id inv.wi_id other && is_open_invite now other)
                accept_row invites,
            add_workspace_member member_id inv.wi_workspace user_id inv.wi_role rows,
          )
    ]
