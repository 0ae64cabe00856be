-- ===== src/Boards/Sharing/Revocation.antt =====
-- What a change of a share link gives and takes away.
use notebortt_backend.Boards.Access.{is_view_link, is_edit_link, check_board_access, check_link}
use notebortt_backend.Boards.Rows.{Permission, BoardRow, edit, is_board, view, Tables}
use notebortt_backend.Boards.Sharing.{
  set_board_link_share, rotate_board_link_share_token, update_board, set_token, set_link,
}
use notebortt_backend.Common.{
  String, List, Option, Bool, find_by, ◌≡◌, ◌≡◌, refl, some, true, ◌==◌, arith, ◌==◌, false, ◌∷◌,
  none, [], find_by-update_where, if◌then◌else◌,
}

abbrev opens_link : Permission → String → BoardRow → Bool
opens_link view token board = is_view_link token board
opens_link edit token board = is_edit_link token board

abbrev other_link : Permission → Permission
other_link view = edit
other_link edit = view

is_board-set_link :
    (id : String) (p : Permission) (enabled : Bool) (token : Option String) (row : BoardRow)
    → is_board id (set_link p enabled token row) ≡ is_board id row
is_board-set_link id view enabled token row = refl
is_board-set_link id edit enabled token row = refl

is_board-set_token :
    (id : String) (p : Permission) (token : Option String) (row : BoardRow)
    → is_board id (set_token p token row) ≡ is_board id row
is_board-set_token id view token row = refl
is_board-set_token id edit token row = refl

find_by-is :
    (id : String) (boards : List BoardRow) (board : BoardRow)
    → find_by (is_board id) boards ≡ some board
    → is_board id board ≡ true
find_by-is id [] board h = ground (arith, h)
find_by-is id (row ∷ boards) board h = ground (arith, h, find_by-is id boards board)

-- After a share link of a board has been switched off, switched on anew or given a new token, an
-- old token opens the board for somebody who is not signed in only if it is the new token, or if
-- it opens the board's other link.
pub link_revoked :
    (board_id generated old : String) (p : Permission) (enabled : Bool) (board : BoardRow)
    (t : Tables)
    → find_by (is_board board_id) t.boards ≡ some board
    → (generated == old) ≡ false
    → opens_link (other_link p) old board ≡ false
    → (check_board_access board_id none
          (some old)
          (set_board_link_share board_id p enabled generated t).1
        ≡ none)
      × (check_board_access board_id none
            (some old)
            (rotate_board_link_share_token board_id p generated t).1
          ≡ none)
unfolding set_board_link_share rotate_board_link_share_token update_board check_board_access
    check_link
link_revoked board_id generated old view enabled board t found new closed = ground (
  arith,
  found,
  new,
  closed,
  find_by-is board_id t.boards board found,
  find_by-update_where (is_board board_id) (is_board board_id)
      (set_link view enabled (if enabled then some generated else none)) t.boards
      (is_board-set_link board_id view enabled (if enabled then some generated else none)),
  find_by-update_where (is_board board_id) (is_board board_id) (set_token view (some generated))
      t.boards (is_board-set_token board_id view (some generated)),
)
link_revoked board_id generated old edit enabled board t found new closed = ground (
  arith,
  found,
  new,
  closed,
  find_by-is board_id t.boards board found,
  find_by-update_where (is_board board_id) (is_board board_id)
      (set_link edit enabled (if enabled then some generated else none)) t.boards
      (is_board-set_link board_id edit enabled (if enabled then some generated else none)),
  find_by-update_where (is_board board_id) (is_board board_id) (set_token edit (some generated))
      t.boards (is_board-set_token board_id edit (some generated)),
)
