-- ===== src/Boards/Members/Escalation.antt =====
-- routes/members.routes.ts and the other routes that change the access to a board: what users without
-- the role for it can change.
use notebortt_backend.Collab.Board.Maps.{is_some}
use notebortt_backend.Boards.Rows.{Tables, MemberRow, is_member}
use notebortt_backend.Boards.Members.{
  leave_board, handle_access, get_workspace_role_for_board, AccessRequest, can_manage_board_access,
  post_member, patch_member, remove_member, patch_link, rotate_link, list_members, remove_board,
  leave, handle_all_access,
}
use notebortt_backend.Common.{
  String, Bool, List, [], ◌≡◌, ◌&&◌, ◌∷◌, ◌≡◌, not, arith, false, ap, filter_by, refl, any, true,
  sym, ◌||◌, ◌||◌, Option-cases, inl, ◌∙◌, ◌∙◌, inr, some,
}

-- Requests of users none of whom is an owner or an admin of the workspace of the board that it is
-- about.
abbrev pub AreUnmanaged : Tables → List (String × String × AccessRequest) → Type 0
AreUnmanaged t [] = Unit {0}
AreUnmanaged t ((u, b, request) ∷ requests) =
    (can_manage_board_access (get_workspace_role_for_board b u t) ≡ false) × AreUnmanaged t requests

-- Whether a request takes a membership away: its member asks to leave and has no role.
abbrev pub asks_to_leave : AccessRequest → Bool
asks_to_leave list_members = false
asks_to_leave (post_member generated m p) = false
asks_to_leave (patch_member m p) = false
asks_to_leave (remove_member m) = false
asks_to_leave (patch_link p enabled generated) = false
asks_to_leave (rotate_link p generated) = false
asks_to_leave remove_board = false
asks_to_leave leave = true

abbrev pub has_left_by : Tables → MemberRow → String × String × AccessRequest → Bool
has_left_by t row (u, b, request) =
    asks_to_leave request && not (is_some (get_workspace_role_for_board b u t)) && is_member b u row

abbrev pub has_left : Tables → List (String × String × AccessRequest) → MemberRow → Bool
has_left t requests row = any (has_left_by t row) requests

-- The tables without the memberships of those who have left.
abbrev pub without_left : List (String × String × AccessRequest) → Tables → Tables
without_left requests t = record t {
  board_members = filter_by (λ row. not (has_left t requests row)) t.board_members;
}

filter_by-all {ℓ} :
    {A : Type ℓ} (p : A → Bool) (xs : List A) → ((x : A) → p x ≡ true) → filter_by p xs ≡ xs
filter_by-all p [] h = refl
filter_by-all p (x ∷ xs) h = rw (h x) (ap (λ ys. x ∷ ys) (filter_by-all p xs h))

filter_by-filter_by {ℓ} :
    {A : Type ℓ} (p q r : A → Bool) (xs : List A)
    → ((x : A) → r x ≡ (p x && q x))
    → filter_by p (filter_by q xs) ≡ filter_by r xs
filter_by-filter_by p q r [] h = refl
filter_by-filter_by p q r (x ∷ xs) h = ground (arith, h x, filter_by-filter_by p q r xs h)

unchanged-left :
    (f : MemberRow → Bool) (t : Tables)
    → ((row : MemberRow) → f row ≡ true)
    → t ≡ record t { board_members = filter_by f t.board_members }
unchanged-left f t h =
    ap (λ rows. record t { board_members = rows }) (sym (filter_by-all f t.board_members h))

step-left :
    (u b : String) (request : AccessRequest) (t : Tables)
    → can_manage_board_access (get_workspace_role_for_board b u t) ≡ false
    → (handle_access u b request t).1 ≡ record t {
      board_members = filter_by (λ row. not (has_left_by t row (u, b, request))) t.board_members;
    }
unfolding handle_access leave_board
step-left u b list_members t low =
    rw low (unchanged-left (λ row. not (has_left_by t row (u, b, list_members))) t (λ row. refl))
step-left u b (post_member generated m p) t low = rw low (
    unchanged-left (λ row. not (has_left_by t row (u, b, (post_member generated m p)))) t
      (λ row. refl))
step-left u b (patch_member m p) t low =
    rw low
      (unchanged-left (λ row. not (has_left_by t row (u, b, (patch_member m p)))) t (λ row. refl))
step-left u b (remove_member m) t low =
    rw low
      (unchanged-left (λ row. not (has_left_by t row (u, b, (remove_member m)))) t (λ row. refl))
step-left u b (patch_link p enabled generated) t low = rw low (
    unchanged-left (λ row. not (has_left_by t row (u, b, (patch_link p enabled generated)))) t
      (λ row. refl))
step-left u b (rotate_link p generated) t low = rw low (
    unchanged-left (λ row. not (has_left_by t row (u, b, (rotate_link p generated)))) t
      (λ row. refl))
step-left u b remove_board t low =
    rw low (unchanged-left (λ row. not (has_left_by t row (u, b, remove_board))) t (λ row. refl))
step-left u b leave t low = elim (Option-cases (get_workspace_role_for_board b u t)) [
  | inl outsider ↦ rw outsider refl
  | inr (role, known) ↦
      rw known (
        unchanged-left (λ row. not (not (is_some (some role)) && is_member b u row)) t
          (λ row. refl))
]

-- The roles in a workspace do not depend on the members of boards.
AreUnmanaged-members :
    (t : Tables) (rows : List MemberRow) (requests : List (String × String × AccessRequest))
    → AreUnmanaged t requests
    → AreUnmanaged (record t { board_members = rows }) requests
unfolding get_workspace_role_for_board
AreUnmanaged-members t rows [] h = tt
AreUnmanaged-members t rows ((u, b, request) ∷ requests) (low, rest) =
    (low, AreUnmanaged-members t rows requests rest)

has_left-members :
    (t : Tables) (rows : List MemberRow) (requests : List (String × String × AccessRequest))
    (row : MemberRow)
    → has_left (record t { board_members = rows }) requests row ≡ has_left t requests row
unfolding get_workspace_role_for_board
has_left-members t rows [] row = refl
has_left-members t rows (r ∷ requests) row =
    ap (λ later. has_left_by t row r || later) (has_left-members t rows requests row)

-- Of any requests to list, add, change and remove members, to switch and rotate links, to delete
-- boards and to leave them, by users none of whom is an owner or an admin of the workspace of the
-- board that it is about, in any order: the only effect is that those who ask to leave a board and
-- have no role in its workspace are no longer its members. Every other membership is as it was,
-- none is added, also not of the users who ask, and no board and no link is changed.
pub handle_all_access-unmanaged :
    (requests : List (String × String × AccessRequest)) (t : Tables)
    → AreUnmanaged t requests
    → handle_all_access requests t ≡ without_left requests t
unfolding handle_all_access
handle_all_access-unmanaged [] t h = unchanged-left (λ row. true) t (λ row. refl)
handle_all_access-unmanaged ((u, b, request) ∷ requests) t (low, rest) =
    let keeps = λ (row : MemberRow). not (has_left_by t row (u, b, request)) in
    let rows = filter_by keeps t.board_members in
    let t' : Tables = record t { board_members = rows } in
    ap (handle_all_access requests) (step-left u b request t low)
    ∙ handle_all_access-unmanaged requests t' (AreUnmanaged-members t rows requests rest)
    ∙ ap (λ left. record t { board_members = left })
        (filter_by-filter_by (λ row. not (has_left t' requests row)) keeps
          (λ row. not (has_left t ((u, b, request) ∷ requests) row)) t.board_members
          (λ row. ground (arith, has_left-members t rows requests row)))
