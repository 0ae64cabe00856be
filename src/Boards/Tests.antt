-- ===== src/Boards/Tests.antt =====
-- The access to boards, links and invitations at concrete rows.
use notebortt_backend.Boards.Sharing.Revocation.{link_revoked}
use notebortt_backend.Boards.Sharing.{set_board_link_share, rotate_board_link_share_token}
use notebortt_backend.Boards.Access.Listing.{is_found, list_accessible_boards_iff}
use notebortt_backend.Boards.Invitations.Reuse.{
  is_done, accepted_members, expired_blocks_invitation, accept_again_fails, accepted_rows,
  accept_board_invitation_by_token_once,
}
use notebortt_backend.Boards.Invitations.Lifecycle.{
  InviteRequest, perform_all, create, perform_all-closed, accept, revoke, decline,
}
use notebortt_backend.Common.Assoc.{keys, put}
use notebortt_backend.Common.Keys.{has}
use notebortt_backend.Boards.Access.{
  list_accessible_boards, get_share_by_token, check_board_access, set_all, check_link,
  check_user_access, add_new, get_board_member_permission,
}
use notebortt_backend.Boards.Invitations.{
  accept_board_invitation_by_token, create_board_invitation, Invitation, has_id, pending, move_to,
  InviteStatus, accepted, unique_violation, expired_or_used,
}
use notebortt_backend.Boards.Rows.{Tables, BoardRow, view, is_member, editor, edit, MemberRow}
use notebortt_backend.Common.{
  find_by, List, String, ◌≡◌, ◌∷◌, none, ◌≡◌, true, ◌∷◌, [], some, refl, false, arith,
}
use mathlib.Core.Option

abbrev plan_board : BoardRow
plan_board = record {
  row_id = "b1";
  row_workspace = "w1";
  view_enabled = true;
  view_token = some "v-old";
  edit_enabled = true;
  edit_token = some "e-old";
}

abbrev tables : Tables
tables = record {
  boards = plan_board ∷ [];
  board_members =
      record {
        mem_id = "m1";
        mem_board = "b1";
        mem_user = "u1";
        mem_permission = view;
        mem_added_by = none;
      }
      ∷ [];
  workspace_members =
      record { wm_id = "x1"; wm_workspace = "w1"; wm_user = "u1"; wm_role = editor } ∷ [];
}

-- The list shows the workspace's permission, and the check answers the board's own.
list_test : list_accessible_boards "u1" tables ≡ ("b1", edit) ∷ []
unfolding list_accessible_boards set_all add_new put has
list_test = refl

check_test : check_board_access "b1" (some "u1") none tables ≡ some view
unfolding check_board_access check_link check_user_access get_board_member_permission
check_test = refl

share_test : get_share_by_token "e-old" tables ≡ some ("b1", edit)
unfolding get_share_by_token
share_test = refl

list_accessible_boards_iff_example :
    has "b1" (keys (list_accessible_boards "u1" tables))
    ≡ is_found (check_board_access "b1" (some "u1") none tables)
list_accessible_boards_iff_example = list_accessible_boards_iff "u1" "b1" tables refl (refl, tt)

link_revoked_example :
    (check_board_access "b1" none
        (some "e-old")
        (set_board_link_share "b1" edit false "e-new" tables).1
      ≡ none)
    × (check_board_access "b1" none
          (some "e-old")
          (rotate_board_link_share_token "b1" edit "e-new" tables).1
        ≡ none)
link_revoked_example = link_revoked "b1" "e-new" "e-old" edit false plan_board tables refl refl refl

abbrev invited : String → String → InviteStatus → Invitation
invited id token status = record {
  inv_id = id;
  inv_target = "b1";
  inv_by = "u1";
  inv_email = "eva@x.org";
  inv_permission = edit;
  inv_status = status;
  inv_token = token;
  inv_expires_at = 700;
}

abbrev first_row : Invitation
first_row = invited "i1" "t1" pending

abbrev rows : List Invitation
rows = first_row ∷ []

accept_test : is_done (accept_board_invitation_by_token 5 "t1" "eva@x.org" "u2" "m2" rows []) ≡ true
unfolding accept_board_invitation_by_token move_to
accept_test = refl

accept_board_invitation_by_token_once_test :
    (Option.map
        (λ row. row.mem_permission)
        (find_by (is_member "b1" "u2") (
          accepted_members (accept_board_invitation_by_token 5 "t1" "eva@x.org" "u2" "m2" rows [])))
      ≡ some edit)
    × (accept_board_invitation_by_token 6 "t1" "eva@x.org" "u3" "m3"
          (accepted_rows (accept_board_invitation_by_token 5 "t1" "eva@x.org" "u2" "m2" rows []))
          []
        ≡ expired_or_used)
accept_board_invitation_by_token_once_test =
    accept_board_invitation_by_token_once 5 6 "t1" "eva@x.org" "u2" "m2" "u3" "m3" rows [] []
      first_row refl accept_test

abbrev again : List Invitation
again = invited "i1" "t1" accepted ∷ invited "i2" "t2" pending ∷ []

accept_again_fails_test :
    accept_board_invitation_by_token 5 "t2" "eva@x.org" "u2" "m2" again [] ≡ unique_violation
accept_again_fails_test =
    accept_again_fails 5 "t2" "eva@x.org" "u2" "m2" again [] (invited "i2" "t2" pending) refl refl
      refl

expired_blocks_invitation_test :
    (create_board_invitation 1_500 "i9" "t9" "b1" "u1" "eva@x.org" view rows ≡ (first_row, rows))
    × (accept_board_invitation_by_token 800 "t1" "eva@x.org" "u2" "m2" rows [] ≡ expired_or_used)
expired_blocks_invitation_test =
    expired_blocks_invitation 800 1_500 "i9" "t9" "b1" "u1" "eva@x.org" "u2" "m2" view rows []
      first_row refl refl (omega arith)

abbrev asked : List (InviteRequest × List MemberRow × List Invitation)
asked =
    (create 900 "i3" "t3" "b1" "u1" "tom@x.org" view, [], [])
    ∷ (accept 5 "t2" "eva@x.org" "u2" "m2", [], [])
    ∷ (revoke "b1" "i1", [], [])
    ∷ (decline "t3" "tom@x.org", [], [])
    ∷ []

perform_all-closed_example :
    find_by (has_id "i1") (perform_all asked again) ≡ some (invited "i1" "t1" accepted)
perform_all-closed_example =
    perform_all-closed asked again "i1" (invited "i1" "t1" accepted) refl refl
