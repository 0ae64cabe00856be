-- ===== src/Boards/Invitations.antt =====
-- domain/invitation-transitions.ts: the invitations to boards. Times, identifiers and tokens that a
-- call generates are arguments, and an address is given in its normal form.
pub mod Lifecycle
pub mod Reuse
use notebortt_backend.Common.Keys.{has}
use notebortt_backend.Boards.Rows.{Permission, MemberRow, is_member}
use notebortt_backend.Common.{
  ℕ, List, String, Option, Bool, if◌then◌else◌, find_by, ◌==◌, ◌&&◌, not, true, some, if◌then◌else◌,
  ◌&&◌, ◌==◌, none, ◌∷◌, false, any, ltb, ◌++◌, ◌∷◌, ◌++◌, update_where, [],
}

pub data InviteStatus : Type 0 where
  pending accepted revoked expired declined : InviteStatus

abbrev pub is_pending : InviteStatus → Bool
is_pending pending = true
is_pending _ = false

abbrev pub is_accepted : InviteStatus → Bool
is_accepted accepted = true
is_accepted _ = false

abbrev same_status : InviteStatus → InviteStatus → Bool
same_status pending s = is_pending s
same_status accepted s = is_accepted s
same_status revoked revoked = true
same_status revoked _ = false
same_status expired expired = true
same_status expired _ = false
same_status declined declined = true
same_status declined _ = false

pub record Invitation : Type 0 where
  pub inv_id : String
  -- the board, or the workspace
  pub inv_target : String
  pub inv_by : String
  pub inv_email : String
  pub inv_permission : Permission
  pub inv_status : InviteStatus
  pub inv_token : String
  pub inv_expires_at : ℕ

abbrev pub has_id : String → Invitation → Bool
has_id id inv = inv.inv_id == id

-- The columns of `board_invitation_pending_idx`, which is unique over all statuses.
abbrev pub is_keyed : String → String → InviteStatus → Invitation → Bool
is_keyed target email status inv =
    inv.inv_target == target && inv.inv_email == email && same_status status inv.inv_status

abbrev pub set_status : InviteStatus → Invitation → Invitation
set_status status inv = record inv { inv_status = status }

-- Another row with the key that the row would have.
abbrev pub is_clash : InviteStatus → Invitation → Invitation → Bool
is_clash status inv other =
    not (has_id inv.inv_id other) && is_keyed inv.inv_target inv.inv_email status other

abbrev pub is_open : ℕ → Invitation → Bool
is_open now inv = is_pending inv.inv_status && ltb now inv.inv_expires_at

-- UPDATE of one row's status, where the row still meets the guard: `none` is the violation of the
-- index.
unfoldable pub move_to :
    (Invitation → Bool) → InviteStatus → Invitation → List Invitation → Option (List Invitation)
move_to guard status inv rows =
    if any (is_clash status inv) rows
    then none
    else some (update_where (λ row. has_id inv.inv_id row && guard row) (set_status status) rows)

abbrev pub still_pending : Invitation → Bool
still_pending inv = is_pending inv.inv_status

pub data Reply {ℓ} (A : Type ℓ) : Type ℓ where
  done : A → Reply A
  invitation_not_found : Reply A
  expired_or_used : Reply A
  unique_violation : Reply A

abbrev pub is_addressed : String → String → Invitation → Bool
is_addressed token email inv = inv.inv_token == token && inv.inv_email == email

-- The invitation that the call returns, and the rows.
unfoldable pub create_board_invitation :
    ℕ
    → String
    → String
    → String
    → String
    → String
    → Permission
    → List Invitation
    → Invitation × List Invitation
create_board_invitation expires_at id token board_id invited_by email p rows =
    let invitation : Invitation = record {
      inv_id = id;
      inv_target = board_id;
      inv_by = invited_by;
      inv_email = email;
      inv_permission = p;
      inv_status = pending;
      inv_token = token;
      inv_expires_at = expires_at;
    } in
    elim (find_by (is_keyed board_id email pending) rows) [
      | some existing ↦ (existing, rows)
      | none ↦ (invitation, rows ++ invitation ∷ [])
    ]

-- INSERT of the member, or its new permission where there is one.
unfoldable pub upsert_board_member :
    String → String → String → Permission → Option String → List MemberRow → List MemberRow
upsert_board_member id board_id user_id p added_by [] =
    record {
      mem_id = id;
      mem_board = board_id;
      mem_user = user_id;
      mem_permission = p;
      mem_added_by = added_by;
    }
    ∷ []
upsert_board_member id board_id user_id p added_by (row ∷ rows) =
    let rest = upsert_board_member id board_id user_id p added_by rows in
    if is_member board_id user_id row then record row { mem_permission = p } ∷ rows else row ∷ rest

-- The transaction: nothing is written unless it is done.
unfoldable pub accept_board_invitation_by_token :
    ℕ
    → String
    → String
    → String
    → String
    → List Invitation
    → List MemberRow
    → Reply (List Invitation × List MemberRow)
unfolding move_to upsert_board_member
accept_board_invitation_by_token now token email user_id member_id rows members =
    elim (find_by (is_addressed token email) rows) [
      | none ↦ invitation_not_found
      | some inv ↦
          if not (is_open now inv)
          then expired_or_used
          else elim (move_to (is_open now) accepted inv rows) [
            | none ↦ unique_violation
            | some rows' ↦ done (
              rows',
              upsert_board_member member_id inv.inv_target user_id inv.inv_permission
                  (some inv.inv_by) members,
            )
          ]
    ]

abbrev replied :
    Option (List Invitation) → List Invitation → Reply (List Invitation × List Invitation)
replied none others = unique_violation
replied (some rows) others = done (rows, others)

abbrev replied_other :
    Option (List Invitation) → List Invitation → Reply (List Invitation × List Invitation)
replied_other none rows = unique_violation
replied_other (some others) rows = done (rows, others)

abbrev pub is_pending_for : String → String → Invitation → Bool
is_pending_for token email inv = is_addressed token email inv && is_pending inv.inv_status

-- The invitations to boards first, then those to workspaces.
unfoldable pub decline_pending_invitation_by_token :
    String → String → List Invitation → List Invitation → Reply (List Invitation × List Invitation)
unfolding move_to
decline_pending_invitation_by_token token email rows workspace_rows =
    elim (find_by (is_pending_for token email) rows) [
      | some inv ↦ replied (move_to still_pending revoked inv rows) workspace_rows
      | none ↦ elim (find_by (is_pending_for token email) workspace_rows) [
        | some inv ↦ replied_other (move_to still_pending declined inv workspace_rows) rows
        | none ↦ invitation_not_found
      ]
    ]

abbrev pub is_revocable : String → String → Invitation → Bool
is_revocable board_id id inv =
    has_id id inv && inv.inv_target == board_id && is_pending inv.inv_status

unfoldable pub revoke_board_invitation :
    String → String → List Invitation → Option (List Invitation)
unfolding move_to
revoke_board_invitation board_id id rows = elim (find_by (is_revocable board_id id) rows) [
  | none ↦ some rows
  | some inv ↦ move_to still_pending revoked inv rows
]

-- UPDATE to 'expired' of the given invitations that are not accepted.
unfoldable expire_invitations : List String → List Invitation → List Invitation
expire_invitations ids rows =
    update_where (λ row. has row.inv_id ids && not (is_accepted row.inv_status))
      (set_status expired) rows
