-- ===== src/Boards/Access/Listing.antt =====
-- The list of a user's boards against the check of a single one.
use notebortt_backend.Common.Assoc.{keys, put, has-keys-put}
use notebortt_backend.Boards.Rows.{
  BoardRow, Permission, MemberRow, WorkspaceMemberRow, is_board, Tables, is_member,
  is_workspace_member,
}
use notebortt_backend.Common.Keys.{has}
use notebortt_backend.Boards.Access.{
  list_accessible_boards, add_new, set_all, check_board_access, check_link, check_user_access,
  get_board_member_permission, workspace_rows, member_rows,
  get_workspace_board_membership_permission, join_all,
}
use notebortt_backend.Common.{
  Option, List, String, Bool, false, ◌∷◌, any, some, ◌≡◌, true, ◌≡◌, ◌++◌, [], ◌||◌, ◌==◌, ◌||◌,
  none, ◌&&◌, arith, Bool-cases, find_by, String-cases, refl, inl, eq_iff, ==_self, inr, sym,
}

has-keys-append :
    (k : String) (xs ys : List (String × Permission))
    → has k (keys (xs ++ ys)) ≡ (has k (keys xs) || has k (keys ys))
unfolding has
has-keys-append k [] ys = ground arith
has-keys-append k (x ∷ xs) ys = ground (arith, has-keys-append k xs ys)

has-set_all :
    (k : String) (rows deduped : List (String × Permission))
    → has k (keys (set_all rows deduped)) ≡ (has k (keys rows) || has k (keys deduped))
unfolding set_all has
has-set_all k [] deduped = ground arith
has-set_all k ((j, p) ∷ rows) deduped =
    ground (arith, has-set_all k rows (put j p deduped), has-keys-put j k p deduped)

has-add_new :
    (k : String) (rows deduped : List (String × Permission))
    → has k (keys (add_new rows deduped)) ≡ (has k (keys rows) || has k (keys deduped))
unfolding add_new has
has-add_new k [] deduped = ground arith
has-add_new k ((j, p) ∷ rows) deduped = elim (Bool-cases (has j (keys deduped))) [
  | inl old ↦ ground (arith, old, has-add_new k rows deduped, eq_iff j k)
  | inr new ↦ ground (arith, new, has-add_new k rows (put j p deduped), has-keys-put j k p deduped)
]

abbrev pub is_found {ℓ} : {A : Type ℓ} → Option A → Bool
is_found none = false
is_found (some a) = true

has-workspace_rows :
    (k user_id : String) (rows : List WorkspaceMemberRow) (board : BoardRow)
    → has k (keys (workspace_rows user_id rows board)) ≡ (
        board.row_id == k
        && is_found (find_by (is_workspace_member board.row_workspace user_id) rows))
unfolding has
has-workspace_rows k user_id [] board = ground arith
has-workspace_rows k user_id (row ∷ rows) board =
    ground (arith, has-workspace_rows k user_id rows board)

has-member_rows :
    (k user_id : String) (rows : List MemberRow) (board : BoardRow)
    → has k (keys (member_rows user_id rows board))
      ≡ (board.row_id == k && is_found (find_by (is_member board.row_id user_id) rows))
unfolding has
has-member_rows k user_id [] board = ground arith
has-member_rows k user_id (row ∷ rows) board = ground (arith, has-member_rows k user_id rows board)

-- `boards.id` is the primary key.
abbrev HasUniqueIds : List BoardRow → Type 0
HasUniqueIds [] = Unit {0}
HasUniqueIds (board ∷ boards) = (any (is_board board.row_id) boards ≡ false) × HasUniqueIds boards

-- The rows of a board that is not there.
has-join_all_none :
    (rows : BoardRow → List (String × Permission)) (found : BoardRow → Bool) (k : String)
    (boards : List BoardRow)
    → ((board : BoardRow) → has k (keys (rows board)) ≡ (board.row_id == k && found board))
    → any (is_board k) boards ≡ false
    → has k (keys (join_all rows boards)) ≡ false
unfolding has
has-join_all_none rows found k [] law h = refl
has-join_all_none rows found k (board ∷ boards) law h = ground (
  arith,
  h,
  law board,
  has-join_all_none rows found k boards law,
  has-keys-append k (rows board) (join_all rows boards),
)

has-join_all :
    (rows : BoardRow → List (String × Permission)) (found : BoardRow → Bool) (k : String)
    (boards : List BoardRow)
    → ((board : BoardRow) → has k (keys (rows board)) ≡ (board.row_id == k && found board))
    → HasUniqueIds boards
    → has k (keys (join_all rows boards))
      ≡ (elim (find_by (is_board k) boards) [ none ↦ false | some board ↦ found board ])
unfolding has
has-join_all rows found k [] law h = refl
has-join_all rows found k (board ∷ boards) law (new, h) = elim (String-cases board.row_id k) [
  | inl same ↦ ground (
    arith,
    law board,
    ==_self k,
    same,
    has-join_all_none rows found k boards law (rw (sym same) new),
    has-keys-append k (rows board) (join_all rows boards),
  )
  | inr other ↦ ground (
    arith,
    law board,
    other,
    has-join_all rows found k boards law h,
    has-keys-append k (rows board) (join_all rows boards),
  )
]

-- A user's list has exactly the boards that the check of a single board grants the user without a
-- link.
pub list_accessible_boards_iff :
    (user_id board_id : String) (t : Tables)
    → (user_id == "") ≡ false
    → HasUniqueIds t.boards
    → has board_id (keys (list_accessible_boards user_id t))
      ≡ is_found (check_board_access board_id (some user_id) none t)
unfolding list_accessible_boards check_board_access check_link check_user_access
    get_board_member_permission get_workspace_board_membership_permission
list_accessible_boards_iff user_id board_id t named unique =
    let of_workspace = join_all (workspace_rows user_id t.workspace_members) t.boards in
    let of_members = join_all (member_rows user_id t.board_members) t.boards in
    ground (
      arith,
      named,
      has-add_new board_id of_members (set_all of_workspace []),
      has-set_all board_id of_workspace [],
      has-join_all (workspace_rows user_id t.workspace_members)
          (λ board.
            is_found
              (find_by (is_workspace_member board.row_workspace user_id) t.workspace_members))
          board_id t.boards (has-workspace_rows board_id user_id t.workspace_members) unique,
      has-join_all (member_rows user_id t.board_members)
          (λ board. is_found (find_by (is_member board.row_id user_id) t.board_members)) board_id
          t.boards (has-member_rows board_id user_id t.board_members) unique,
    )
