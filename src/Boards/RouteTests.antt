-- ===== src/Boards/RouteTests.antt =====
-- The members, the copies and the routes of boards at concrete rows.
use notebortt_backend.Collab.Mutation.{Mutation}
use notebortt_backend.Boards.Routes.Scope.{patch_elements-other}
use notebortt_backend.Boards.Members.Escalation.{without_left, handle_all_access-unmanaged}
use notebortt_backend.Common.Texts.{code_units, includes_lower}
use notebortt_backend.Collab.Element.{field, str, end, arr, cons, obj, nil}
use notebortt_backend.Common.Assoc.{put_all, put, get}
use notebortt_backend.Collab.Tests.Batches.{request, shared, drag}
use notebortt_backend.Boards.Copies.References.{
  IsDetached, ids_of, build_duplicated_elements-IsDetached,
}
use notebortt_backend.Workspaces.Members.{get_workspace_member_role}
use notebortt_backend.Collab.Batch.{Shared}
use notebortt_backend.Boards.Copies.{
  build_duplicated_elements, create_element_id_map, SourceRow, remap_element_data, is_id_key,
}
use notebortt_backend.Common.{
  List, String, ◌∷◌, All, true, ◌∷◌, some, none, false, [], ◌≡◌, ◌≡◌, refl, arith,
}
use notebortt_backend.Boards.Members.{
  handle_access, get_workspace_role_for_board, AccessRequest, post_member, handle_all_access,
  patch_member, ok, leave, remove_board,
}
use notebortt_backend.Boards.Access.{check_board_access}
use notebortt_backend.Boards.Routes.{Caller, patch_elements, sort_texts, insert_text}
use notebortt_backend.Common.Keys.{has}
use notebortt_backend.Boards.Rows.{
  Tables, Permission, BoardRow, MemberRow, view, edit, owner, editor,
}

abbrev board_row : String → BoardRow
board_row id = record {
  row_id = id;
  row_workspace = "w1";
  view_enabled = false;
  view_token = none;
  edit_enabled = false;
  edit_token = none;
}

abbrev member_row : String → String → Permission → MemberRow
member_row board_id user_id p = record {
  mem_id = user_id;
  mem_board = board_id;
  mem_user = user_id;
  mem_permission = p;
  mem_added_by = none;
}

abbrev rows : Tables
rows = record {
  boards = board_row "b1" ∷ [];
  board_members = member_row "b1" "ann" view ∷ (member_row "b1" "bob" edit ∷ []);
  workspace_members =
      record { wm_id = "x1"; wm_workspace = "w1"; wm_user = "eve"; wm_role = editor } ∷ [];
}

abbrev attempts : List (String × String × AccessRequest)
attempts =
    ("eve", "b1", post_member "m9" "mallory" (some edit))
    ∷ (("bob", "b1", patch_member "ann" edit)
        ∷ (("bob", "b1", leave) ∷ (("eve", "b1", remove_board) ∷ [])))

handle_all_access-unmanaged_example : handle_all_access attempts rows ≡ without_left attempts rows
unfolding get_workspace_role_for_board get_workspace_member_role
handle_all_access-unmanaged_example =
    handle_all_access-unmanaged attempts rows (refl, (refl, (refl, (refl, tt))))

-- Only the one who leaves is gone.
left_test : (without_left attempts rows).board_members ≡ member_row "b1" "ann" view ∷ []
unfolding get_workspace_role_for_board get_workspace_member_role
left_test = refl

owner_test :
    (handle_access "eve" "b1" (post_member "m9" "mallory" (some edit)) (record rows {
      workspace_members =
          record { wm_id = "x1"; wm_workspace = "w1"; wm_user = "eve"; wm_role = owner } ∷ [];
    })).0
    ≡ ok
unfolding handle_access get_workspace_role_for_board get_workspace_member_role
owner_test = refl

-- An arrow in a column, and the column; the title has the column's identifier as its text.
abbrev sources : List SourceRow
sources =
    record {
      source_id = "col";
      source_type = "column";
      source_data = field "title" (str "col") end;
    }
    ∷ (record {
      source_id = "arr";
      source_type = "arrow";
      source_data = field "containerId" (str "col") (
          field "ends" (arr (cons (obj (field "noteIds" (arr (cons (str "col") nil)) end)) nil))
            end);
    }
        ∷ [])

copies_test :
    build_duplicated_elements sources ("n1" ∷ ("n2" ∷ []))
    ≡ record {
      source_id = "n1";
      source_type = "column";
      source_data = field "title" (str "col") end;
    }
      ∷ (record {
        source_id = "n2";
        source_type = "arrow";
        source_data = field "containerId" (str "n1") (
            field "ends"
              (arr (cons (obj (field "noteIds" (arr (cons (str "n1") nil)) end)) nil))
              end);
      }
          ∷ [])
unfolding build_duplicated_elements create_element_id_map put_all put get remap_element_data
    is_id_key has includes_lower code_units
copies_test = refl

build_duplicated_elements-IsDetached_example :
    All (IsDetached (ids_of sources)) (build_duplicated_elements sources ("n1" ∷ ("n2" ∷ [])))
unfolding has
build_duplicated_elements-IsDetached_example =
    build_duplicated_elements-IsDetached sources ("n1" ∷ ("n2" ∷ [])) (omega arith)
      ((refl, refl), ((refl, refl), tt))

abbrev bob : Caller
bob = record { caller_user = some "bob"; caller_board = "b1"; caller_token = none }

abbrev both : String → Shared
both _ = shared

patch_elements-other_example :
    let s = (patch_elements bob rows true 100 101 (λ n. "m") [] ("c" ∷ []) both).1 "b2" in
    (s.board ≡ (both "b2").board) × (s.presence ≡ (both "b2").presence)
patch_elements-other_example =
    patch_elements-other bob rows true 100 101 (λ n. "m") [] ("c" ∷ []) both "b2" refl

-- Two mutations of the board "b2", around one of "b1".
abbrev across : List Mutation
across = request "m1" "b2" drag ∷ (request "m2" "b1" drag ∷ (request "m3" "b2" drag ∷ []))

b2_test : check_board_access "b2" (some "bob") none rows ≡ none
unfolding check_board_access
b2_test = refl

sort_test : sort_texts ("b" ∷ ("B" ∷ ("a" ∷ []))) ≡ "B" ∷ ("a" ∷ ("b" ∷ []))
unfolding sort_texts insert_text code_units
sort_test = refl
