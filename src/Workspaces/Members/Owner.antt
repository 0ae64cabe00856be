-- ===== src/Workspaces/Members/Owner.antt =====
-- Every workspace keeps its owner.
use notebortt_backend.Workspaces.Members.{
  JoinError, create_workspace, has_member_id, WorkspaceInvite, delete_workspace_member,
  accept_invitation, is_owner_of, add_workspace_member, has_token, is_member_of,
}
use notebortt_backend.Common.{
  Option, List, String, some, any, ◌∷◌, ℕ, ◌⊎◌, Bool, filter_by, none, ◌≡◌, find_by, ◌≡◌, true, inl,
  arith, [], false, ◌++◌, refl, inr, eq_iff, find_by-append, ==_self, ◌||◌, Option-cases, not,
}
use notebortt_backend.Boards.Rows.{WorkspaceMemberRow, owner, Role}

abbrev IsUniqueIds : List WorkspaceMemberRow → Type 0
IsUniqueIds [] = Unit {0}
IsUniqueIds (row ∷ rows) = (any (has_member_id row.wm_id) rows ≡ false) × IsUniqueIds rows

-- What changes the members of workspaces.
pub data MemberRequest : Type 0 where
  create : (workspace_id member_id owner_id : String) → MemberRequest
  remove_member : (workspace_id member_id : String) → MemberRequest
  join : (now : ℕ) (token email user_id member_id : String) → List WorkspaceInvite → MemberRequest

abbrev rows_or :
    Option (List WorkspaceMemberRow) → List WorkspaceMemberRow → List WorkspaceMemberRow
rows_or none rows = rows
rows_or (some rows') rows = rows'

abbrev joined_or :
    (JoinError ⊎ (List WorkspaceInvite × List WorkspaceMemberRow))
    → List WorkspaceMemberRow
    → List WorkspaceMemberRow
joined_or (inl error) rows = rows
joined_or (inr (invites, rows')) rows = rows'

abbrev pub change : MemberRequest → List WorkspaceMemberRow → List WorkspaceMemberRow
change (create workspace_id member_id owner_id) rows =
    rows_or (create_workspace workspace_id member_id owner_id rows) rows
change (remove_member workspace_id member_id) rows =
    (delete_workspace_member workspace_id member_id rows).1
change (join now token email user_id member_id invites) rows =
    joined_or (accept_invitation now token email user_id member_id invites rows) rows

abbrev pub change_all : List MemberRequest → List WorkspaceMemberRow → List WorkspaceMemberRow
change_all [] rows = rows
change_all (request ∷ requests) rows = change_all requests (change request rows)

any-append :
    (q : WorkspaceMemberRow → Bool) (xs ys : List WorkspaceMemberRow)
    → any q (xs ++ ys) ≡ (any q xs || any q ys)
any-append q [] ys = ground arith
any-append q (x ∷ xs) ys = ground (arith, any-append q xs ys)

append-IsUniqueIds :
    (rows : List WorkspaceMemberRow) (new : WorkspaceMemberRow)
    → IsUniqueIds rows
    → any (has_member_id new.wm_id) rows ≡ false
    → IsUniqueIds (rows ++ new ∷ [])
append-IsUniqueIds [] new h fresh = (refl, tt)
append-IsUniqueIds (row ∷ rows) new (first, h) fresh = ground (
  arith,
  fresh,
  append-IsUniqueIds rows new h,
  any-append (has_member_id row.wm_id) rows (new ∷ []),
  eq_iff row.wm_id new.wm_id,
  eq_iff new.wm_id row.wm_id,
  first,
)

any-filter_by :
    (q p : WorkspaceMemberRow → Bool) (rows : List WorkspaceMemberRow)
    → any q rows ≡ false
    → any q (filter_by p rows) ≡ false
any-filter_by q p [] h = refl
any-filter_by q p (row ∷ rows) h = ground (arith, h, any-filter_by q p rows)

filter_by-IsUniqueIds :
    (p : WorkspaceMemberRow → Bool) (rows : List WorkspaceMemberRow)
    → IsUniqueIds rows
    → IsUniqueIds (filter_by p rows)
filter_by-IsUniqueIds p [] h = tt
filter_by-IsUniqueIds p (row ∷ rows) (first, h) =
    ground
      (arith, filter_by-IsUniqueIds p rows h, any-filter_by (has_member_id row.wm_id) p rows first)

find_by-filter_by :
    (q p : WorkspaceMemberRow → Bool) (rows : List WorkspaceMemberRow) (row : WorkspaceMemberRow)
    → find_by q rows ≡ some row
    → p row ≡ true
    → find_by q (filter_by p rows) ≡ some row
find_by-filter_by q p [] row h kept = ground (arith, h)
find_by-filter_by q p (other ∷ rows) row h kept =
    ground (arith, h, kept, find_by-filter_by q p rows row)

any-found :
    (q : WorkspaceMemberRow → Bool) (rows : List WorkspaceMemberRow) (row : WorkspaceMemberRow)
    → find_by q rows ≡ some row
    → any (has_member_id row.wm_id) rows ≡ true
any-found q [] row h = ground (arith, h)
any-found q (other ∷ rows) row h = ground (arith, h, any-found q rows row, ==_self row.wm_id)

-- Two rows with one identifier are the same.
same_role :
    (q r : WorkspaceMemberRow → Bool) (rows : List WorkspaceMemberRow) (a b : WorkspaceMemberRow)
    → IsUniqueIds rows
    → find_by q rows ≡ some a
    → find_by r rows ≡ some b
    → a.wm_id ≡ b.wm_id
    → a.wm_role ≡ b.wm_role
same_role q r [] a b h qa rb same = ground (arith, qa)
same_role q r (row ∷ rows) a b (first, h) qa rb same =
    ground
      (arith, first, qa, rb, same, same_role q r rows a b h, any-found q rows a, any-found r rows b)

find_by-holds :
    (q : WorkspaceMemberRow → Bool) (rows : List WorkspaceMemberRow) (row : WorkspaceMemberRow)
    → find_by q rows ≡ some row
    → q row ≡ true
find_by-holds q [] row h = ground (arith, h)
find_by-holds q (other ∷ rows) row h = ground (arith, h, find_by-holds q rows row)

-- What the requests keep: the identifiers, and the owner of a workspace.
abbrev pub IsOwned : String → WorkspaceMemberRow → List WorkspaceMemberRow → Type 0
IsOwned workspace_id row rows =
    IsUniqueIds rows × (find_by (is_owner_of workspace_id) rows ≡ some row)

add-IsOwned :
    (workspace_id : String) (row new : WorkspaceMemberRow) (rows : List WorkspaceMemberRow)
    → any (has_member_id new.wm_id) rows ≡ false
    → IsOwned workspace_id row rows
    → IsOwned workspace_id row (rows ++ new ∷ [])
add-IsOwned workspace_id row new rows fresh (unique, owned) = (
  append-IsUniqueIds rows new unique fresh,
  ground (arith, owned, find_by-append (is_owner_of workspace_id) rows (new ∷ [])),
)

filter-IsOwned :
    (workspace_id : String) (row : WorkspaceMemberRow) (p : WorkspaceMemberRow → Bool)
    (rows : List WorkspaceMemberRow)
    → p row ≡ true
    → IsOwned workspace_id row rows
    → IsOwned workspace_id row (filter_by p rows)
filter-IsOwned workspace_id row p rows kept (unique, owned) = (
  filter_by-IsUniqueIds p rows unique,
  find_by-filter_by (is_owner_of workspace_id) p rows row owned kept,
)

create-IsOwned :
    (workspace_id : String) (row : WorkspaceMemberRow) (other member_id owner_id : String)
    (rows : List WorkspaceMemberRow)
    → IsOwned workspace_id row rows
    → IsOwned workspace_id row (rows_or (create_workspace other member_id owner_id rows) rows)
unfolding create_workspace
create-IsOwned workspace_id row other member_id owner_id rows h = ground (
  arith,
  h,
  add-IsOwned workspace_id row
      (record { wm_id = member_id; wm_workspace = other; wm_user = owner_id; wm_role = owner })
      rows,
)

delete-IsOwned :
    (workspace_id : String) (row : WorkspaceMemberRow) (other member_id : String)
    (rows : List WorkspaceMemberRow)
    → IsOwned workspace_id row rows
    → IsOwned workspace_id row (delete_workspace_member other member_id rows).1
unfolding delete_workspace_member
delete-IsOwned workspace_id row other member_id rows (unique, owned) =
    elim (Option-cases (find_by (is_member_of other member_id) rows)) [
      | inl absent ↦ ground (arith, absent, unique, owned)
      | inr (found, there) ↦ ground (
        arith,
        there,
        unique,
        owned,
        find_by-holds (is_owner_of workspace_id) rows row owned,
        find_by-holds (is_member_of other member_id) rows found there,
        same_role (is_owner_of workspace_id) (is_member_of other member_id) rows row found unique
            owned there,
        eq_iff row.wm_id member_id,
        eq_iff found.wm_id member_id,
        filter-IsOwned workspace_id row (λ r. not (has_member_id member_id r)) rows,
      )
    ]

join-IsOwned :
    (workspace_id : String) (row : WorkspaceMemberRow) (other user_id member_id : String)
    (role : Role) (rows : List WorkspaceMemberRow)
    → IsOwned workspace_id row rows
    → IsOwned workspace_id row (add_workspace_member member_id other user_id role rows)
unfolding add_workspace_member
join-IsOwned workspace_id row other user_id member_id role rows h = ground (
  arith,
  h,
  add-IsOwned workspace_id row
      (record { wm_id = member_id; wm_workspace = other; wm_user = user_id; wm_role = role }) rows,
)

change-IsOwned :
    (workspace_id : String) (row : WorkspaceMemberRow) (request : MemberRequest)
    (rows : List WorkspaceMemberRow)
    → IsOwned workspace_id row rows
    → IsOwned workspace_id row (change request rows)
unfolding accept_invitation
change-IsOwned workspace_id row (create other member_id owner_id) rows h =
    create-IsOwned workspace_id row other member_id owner_id rows h
change-IsOwned workspace_id row (remove_member other member_id) rows h =
    delete-IsOwned workspace_id row other member_id rows h
change-IsOwned workspace_id row (join now token email user_id member_id invites) rows h =
    elim (Option-cases (find_by (has_token token) invites)) [
      | inl absent ↦ ground (arith, absent, h)
      | inr (inv, there) ↦ ground (
        arith,
        there,
        h,
        join-IsOwned workspace_id row inv.wi_workspace user_id member_id inv.wi_role rows,
      )
    ]

-- A workspace keeps its owner, the same member as before, whatever workspaces are created, members
-- deleted and invitations accepted, in any workspaces and any order; the identifiers of members
-- stay unique.
pub change_all-IsOwned :
    (workspace_id : String) (row : WorkspaceMemberRow) (requests : List MemberRequest)
    (rows : List WorkspaceMemberRow)
    → IsOwned workspace_id row rows
    → IsOwned workspace_id row (change_all requests rows)
change_all-IsOwned workspace_id row [] rows h = h
change_all-IsOwned workspace_id row (request ∷ requests) rows h =
    change_all-IsOwned workspace_id row requests (change request rows)
      (change-IsOwned workspace_id row request rows h)
