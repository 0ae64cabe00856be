-- ===== src/Boards/Invitations/Reuse.antt =====
-- What becomes of an invitation that has been accepted or has run out, and of the next one for the
-- same address.
use mathlib.Core.Option
use notebortt_backend.Boards.Rows.{Permission, MemberRow, is_member}
use notebortt_backend.Common.{
  Bool, String, ℕ, List, find_by, ◌≡◌, ◌≡◌, Option, some, true, arith, ◌≤◌, ◌≤◌, any, ◌∷◌, [],
  ==_self, find_by-update_where, false, ◌&&◌, refl,
}
use notebortt_backend.Boards.Invitations.{
  upsert_board_member, accept_board_invitation_by_token, create_board_invitation, move_to,
  Invitation, is_addressed, is_keyed, pending, is_open, done, expired_or_used, is_clash, accepted,
  unique_violation, Reply, has_id, set_status,
}

find_by-holds {ℓ} :
    {A : Type ℓ} (q : A → Bool) (xs : List A) (x : A) → find_by q xs ≡ some x → q x ≡ true
find_by-holds q [] x h = ground (arith, h)
find_by-holds q (y ∷ ys) x h = ground (arith, h, find_by-holds q ys x)

get-upsert_board_member :
    (id board_id user_id : String) (p : Permission) (by : Option String) (rows : List MemberRow)
    → Option.map
        (λ row. row.mem_permission)
        (find_by (is_member board_id user_id) (upsert_board_member id board_id user_id p by rows))
      ≡ some p
unfolding upsert_board_member
get-upsert_board_member id board_id user_id p by [] =
    ground (arith, ==_self board_id, ==_self user_id)
get-upsert_board_member id board_id user_id p by (row ∷ rows) =
    ground (arith, get-upsert_board_member id board_id user_id p by rows)

abbrev pub accepted_rows : Reply (List Invitation × List MemberRow) → List Invitation
accepted_rows (done (rows', members')) = rows'
accepted_rows _ = []

abbrev pub accepted_members : Reply (List Invitation × List MemberRow) → List MemberRow
accepted_members (done (rows', members')) = members'
accepted_members _ = []

abbrev pub is_done : Reply (List Invitation × List MemberRow) → Bool
is_done (done (rows', members')) = true
is_done _ = false

-- Where an acceptance is done, the user is a member of the board with the invitation's permission,
-- and the token cannot be used again by anybody with the address, at any later time.
pub accept_board_invitation_by_token_once :
    (now later : ℕ) (token email user_id member_id other_user other_member : String)
    (rows : List Invitation) (members others : List MemberRow) (inv : Invitation)
    → let reply = accept_board_invitation_by_token now token email user_id member_id rows members in
      find_by (is_addressed token email) rows ≡ some inv
      → is_done reply ≡ true
      → (Option.map
            (λ row. row.mem_permission)
            (find_by (is_member inv.inv_target user_id) (accepted_members reply))
          ≡ some inv.inv_permission)
        × (accept_board_invitation_by_token later token email other_user other_member
              (accepted_rows reply)
              others
            ≡ expired_or_used)
unfolding accept_board_invitation_by_token move_to
accept_board_invitation_by_token_once now later token email user_id member_id other_user
      other_member rows members others inv found accepted_now =
    ground (
      arith,
      found,
      accepted_now,
      ==_self inv.inv_id,
      get-upsert_board_member member_id inv.inv_target user_id inv.inv_permission (some inv.inv_by)
          members,
      find_by-update_where (is_addressed token email)
          (λ row. has_id inv.inv_id row && is_open now row) (set_status accepted) rows
          (λ row. refl),
    )

-- Another open invitation of an address that has accepted one to the same board cannot be
-- accepted: the index of the pending invitations counts accepted rows too.
pub accept_again_fails :
    (now : ℕ) (token email user_id member_id : String) (rows : List Invitation)
    (members : List MemberRow) (inv : Invitation)
    → find_by (is_addressed token email) rows ≡ some inv
    → is_open now inv ≡ true
    → any (is_clash accepted inv) rows ≡ true
    → accept_board_invitation_by_token now token email user_id member_id rows members
      ≡ unique_violation
unfolding accept_board_invitation_by_token move_to
accept_again_fails now token email user_id member_id rows members inv found opened clash =
    ground (arith, found, opened, clash)

-- Once a pending invitation has run out, inviting the address again returns that invitation and
-- adds none, whatever permission and time are asked for, and its acceptance fails.
pub expired_blocks_invitation :
    (now expires_at : ℕ) (id token board_id invited_by email user_id member_id : String)
    (p : Permission) (rows : List Invitation) (members : List MemberRow) (inv : Invitation)
    → find_by (is_keyed board_id email pending) rows ≡ some inv
    → find_by (is_addressed inv.inv_token email) rows ≡ some inv
    → inv.inv_expires_at ≤ now
    → (create_board_invitation expires_at id token board_id invited_by email p rows ≡ (inv, rows))
      × (accept_board_invitation_by_token now inv.inv_token email user_id member_id rows members
          ≡ expired_or_used)
unfolding create_board_invitation accept_board_invitation_by_token
expired_blocks_invitation now expires_at id token board_id invited_by email user_id member_id p rows
      members inv found addressed over =
    ground (arith, found, addressed, over)
