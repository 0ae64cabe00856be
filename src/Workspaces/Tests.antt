-- ===== src/Workspaces/Tests.antt =====
-- Members of workspaces at concrete rows.
use notebortt_backend.Boards.Invitations.{pending}
use notebortt_backend.Boards.Rows.{WorkspaceMemberRow, Role, admin, owner, editor}
use notebortt_backend.Workspaces.Members.Owner.{
  IsOwned, MemberRequest, change_all, change_all-IsOwned, remove_member, join, create,
}
use notebortt_backend.Common.{List, String, ◌∷◌, ◌∷◌, [], refl, ◌≡◌, ◌≡◌, some}
use notebortt_backend.Workspaces.Members.{
  get_workspace_member_role, delete_workspace_member, WorkspaceInvite, accept_invitation,
  add_workspace_member, create_workspace,
}

abbrev member_row : String → String → Role → WorkspaceMemberRow
member_row id user role = record { wm_id = id; wm_workspace = "w1"; wm_user = user; wm_role = role }

abbrev members : List WorkspaceMemberRow
members = member_row "m1" "u1" owner ∷ member_row "m2" "u2" editor ∷ []

abbrev invite : WorkspaceInvite
invite = record {
  wi_id = "i1";
  wi_workspace = "w1";
  wi_email = "eva@x.org";
  wi_role = admin;
  wi_status = pending;
  wi_token = "t1";
  wi_expires_at = 700;
}

delete_test :
    change_all (remove_member "w1" "m1" ∷ remove_member "w1" "m2" ∷ []) members
    ≡ member_row "m1" "u1" owner ∷ []
unfolding delete_workspace_member
delete_test = refl

abbrev requests : List MemberRequest
requests =
    remove_member "w1" "m1"
    ∷ join 5 "t1" "eva@x.org" "u3" "m3" (invite ∷ [])
    ∷ create "w2" "m4" "u1"
    ∷ remove_member "w1" "m2"
    ∷ []

join_test : get_workspace_member_role "w1" "u3" (change_all requests members) ≡ some admin
unfolding get_workspace_member_role accept_invitation add_workspace_member delete_workspace_member
    create_workspace
join_test = refl

change_all-IsOwned_example : IsOwned "w1" (member_row "m1" "u1" owner) (change_all requests members)
change_all-IsOwned_example =
    change_all-IsOwned "w1" (member_row "m1" "u1" owner) requests members ((refl, (refl, tt)), refl)
