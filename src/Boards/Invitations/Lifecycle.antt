-- ===== src/Boards/Invitations/Lifecycle.antt =====
-- The life of an invitation, whatever is asked for, in any order.
use notebortt_backend.Boards.Rows.{MemberRow, Permission}
use notebortt_backend.Common.{
  ℕ, List, Option, String, [], some, Bool, ◌∷◌, none, ◌≡◌, ◌≡◌, false, find_by, arith, Option-cases,
  find_by-update_where, inl, ◌&&◌, inr, refl, find_by-append,
}
use notebortt_backend.Boards.Invitations.{
  move_to, Reply, create_board_invitation, Invitation, accept_board_invitation_by_token,
  still_pending, decline_pending_invitation_by_token, done, InviteStatus, revoke_board_invitation,
  has_id, is_addressed, set_status, is_open, accepted, is_pending_for, revoked, is_revocable,
  is_keyed, pending,
}

pub data InviteRequest : Type 0 where
  create :
      (expires_at : ℕ) (id token board_id invited_by email : String) → Permission → InviteRequest
  accept : (now : ℕ) (token email user_id member_id : String) → InviteRequest
  decline : (token email : String) → InviteRequest
  revoke : (board_id id : String) → InviteRequest

abbrev first_of : Reply (List Invitation × List MemberRow) → List Invitation → List Invitation
first_of (done (rows', members')) rows = rows'
first_of _ rows = rows

abbrev declined_of : Reply (List Invitation × List Invitation) → List Invitation → List Invitation
declined_of (done (rows', others')) rows = rows'
declined_of _ rows = rows

abbrev or_rows : Option (List Invitation) → List Invitation → List Invitation
or_rows none rows = rows
or_rows (some rows') rows = rows'

-- The board invitations after a request; one that fails leaves them.
abbrev perform :
    InviteRequest → List MemberRow → List Invitation → List Invitation → List Invitation
perform (create expires_at id token board_id invited_by email p) members others rows =
    (create_board_invitation expires_at id token board_id invited_by email p rows).1
perform (accept now token email user_id member_id) members others rows =
    first_of (accept_board_invitation_by_token now token email user_id member_id rows members) rows
perform (decline token email) members others rows =
    declined_of (decline_pending_invitation_by_token token email rows others) rows
perform (revoke board_id id) members others rows =
    or_rows (revoke_board_invitation board_id id rows) rows

-- The requests, each with the members and the workspace invitations at its time.
abbrev pub perform_all :
    List (InviteRequest × List MemberRow × List Invitation) → List Invitation → List Invitation
perform_all [] rows = rows
perform_all ((request, members, others) ∷ requests) rows =
    perform_all requests (perform request members others rows)

move_to-closed :
    (guard : Invitation → Bool) (status : InviteStatus) (moved inv : Invitation) (id : String)
    (rows : List Invitation)
    → guard inv ≡ false
    → find_by (has_id id) rows ≡ some inv
    → find_by (has_id id) (or_rows (move_to guard status moved rows) rows) ≡ some inv
unfolding move_to
move_to-closed guard status moved inv id rows closed found = ground (
  arith,
  closed,
  found,
  find_by-update_where (has_id id) (λ row. has_id moved.inv_id row && guard row) (set_status status)
      rows (λ row. refl),
)

perform-closed :
    (request : InviteRequest) (members : List MemberRow) (others rows : List Invitation)
    (id : String) (inv : Invitation)
    → still_pending inv ≡ false
    → find_by (has_id id) rows ≡ some inv
    → find_by (has_id id) (perform request members others rows) ≡ some inv
unfolding create_board_invitation accept_board_invitation_by_token
    decline_pending_invitation_by_token revoke_board_invitation
perform-closed (create expires_at new token board_id invited_by email p) members others rows id inv
      closed found =
    elim (Option-cases (find_by (is_keyed board_id email pending) rows)) [
      | inl absent ↦ ground (
        arith,
        absent,
        found,
        find_by-append (has_id id) rows (
            record {
              inv_id = new;
              inv_target = board_id;
              inv_by = invited_by;
              inv_email = email;
              inv_permission = p;
              inv_status = pending;
              inv_token = token;
              inv_expires_at = expires_at;
            }
            ∷ []),
      )
      | inr (existing, there) ↦ ground (arith, there, found)
    ]
perform-closed (accept now token email user_id member_id) members others rows id inv closed found =
    elim (Option-cases (find_by (is_addressed token email) rows)) [
      | inl absent ↦ ground (arith, absent, found)
      | inr (moved, there) ↦
          ground
            (arith, there, closed, found, move_to-closed (is_open now) accepted moved inv id rows)
    ]
perform-closed (decline token email) members others rows id inv closed found =
    elim (Option-cases (find_by (is_pending_for token email) rows)) [
      | inl absent ↦ ground (arith, absent, found)
      | inr (moved, there) ↦
          ground
            (arith, there, closed, found, move_to-closed still_pending revoked moved inv id rows)
    ]
perform-closed (revoke board_id invite_id) members others rows id inv closed found =
    elim (Option-cases (find_by (is_revocable board_id invite_id) rows)) [
      | inl absent ↦ ground (arith, absent, found)
      | inr (moved, there) ↦
          ground
            (arith, there, closed, found, move_to-closed still_pending revoked moved inv id rows)
    ]

-- An invitation that has been accepted, revoked or expired stays exactly as it is, whatever
-- invitations are created, accepted, declined and revoked after, also when some of that fails.
pub perform_all-closed :
    (requests : List (InviteRequest × List MemberRow × List Invitation)) (rows : List Invitation)
    (id : String) (inv : Invitation)
    → still_pending inv ≡ false
    → find_by (has_id id) rows ≡ some inv
    → find_by (has_id id) (perform_all requests rows) ≡ some inv
perform_all-closed [] rows id inv closed found = found
perform_all-closed ((request, members, others) ∷ requests) rows id inv closed found =
    perform_all-closed requests (perform request members others rows) id inv closed
      (perform-closed request members others rows id inv closed found)
