-- ===== src/Boards/Routes.antt =====
-- routes/mutations.routes.ts: a batch of mutations over HTTP, and the elements of a PATCH
-- (boards/utils.ts). The board is loaded, and the event is queued whatever the batch has done.
pub mod Scope
pub mod Anywhere
use notebortt_backend.Collab.Board.{is_nil}
use notebortt_backend.Common.Assoc.{values}
use notebortt_backend.Collab.Cascade.{collect_cascade_delete_ids}
use notebortt_backend.Collab.Element.{BoardElement, id_of}
use notebortt_backend.Collab.Batch.{process_batch, Shared}
use notebortt_backend.Collab.Mutation.{
  Operation, MutationResult, Mutation, create_element, delete_elements,
}
use notebortt_backend.Common.Keys.{has}
use notebortt_backend.Common.Texts.{code_units}
use notebortt_backend.Boards.Access.{check_board_access}
use notebortt_backend.Boards.Rows.{Tables, Permission, edit, view}
use notebortt_backend.Common.{
  String, List, Option, ◌∷◌, ℕ, ◌∷◌, if◌then◌else◌, [], if◌then◌else◌, Bool, true, suc, some, none,
  false, ltb, ◌||◌, ◌||◌, eqb, ◌&&◌, ◌&&◌,
}

-- Text in the order of its code units, as `sort()` has it.
abbrev pub precedes : List ℕ → List ℕ → Bool
precedes [] ys = true
precedes (x ∷ xs) [] = false
precedes (x ∷ xs) (y ∷ ys) = ltb x y || (eqb x y && precedes xs ys)

unfoldable pub insert_text : String → List String → List String
unfolding code_units
insert_text s [] = s ∷ []
insert_text s (t ∷ ts) =
    let rest = insert_text s ts in
    if precedes (code_units s) (code_units t) then s ∷ (t ∷ ts) else t ∷ rest

unfoldable pub sort_texts : List String → List String
unfolding insert_text
sort_texts [] = []
sort_texts (s ∷ ss) = insert_text s (sort_texts ss)

abbrev pub mutation_for : String → String → Operation → Mutation
mutation_for id board_id operation = record {
  mutation_id = id;
  board_id = board_id;
  operation = operation;
}

-- A creation for each upsert that is not deleted, with the identifiers that the server draws.
unfoldable pub creations :
    String → (ℕ → String) → ℕ → List String → List BoardElement → List Mutation
unfolding has
creations board_id draw n deletes [] = []
creations board_id draw n deletes (e ∷ es) =
    let skipped = has (id_of e) deletes in
    let rest = creations board_id draw (if skipped then n else suc n) deletes es in
    if skipped then rest else mutation_for (draw n) board_id (create_element (id_of e) e) ∷ rest

-- `buildElementMutationBatch`, for upserts that are objects.
unfoldable pub build_element_mutation_batch :
    String
    → (ℕ → String)
    → List (String × BoardElement)
    → List BoardElement
    → List String
    → List Mutation
unfolding sort_texts creations
build_element_mutation_batch board_id draw elements upserts deletes =
    let ids = sort_texts (collect_cascade_delete_ids (values elements) deletes) in
    if is_nil ids
    then creations board_id draw 0 ids upserts
    else mutation_for (draw 0) board_id (delete_elements ids)
      ∷ creations board_id draw 1 ids upserts

-- The answer of a route: 403, or the results of the batch.
pub data BatchReply : Type 0 where
  no_edit_access : BatchReply
  answered : List (Option MutationResult) → BatchReply

abbrev pub answer_batch :
    List (Option MutationResult) × (String → Shared) → BatchReply × (String → Shared)
answer_batch (results, boards) = (answered results, boards)

abbrev pub if_editor :
    Option Permission
    → BatchReply × (String → Shared)
    → (String → Shared)
    → BatchReply × (String → Shared)
if_editor (some edit) result boards = result
if_editor (some view) result boards = (no_edit_access, boards)
if_editor none result boards = (no_edit_access, boards)

-- Who asks, of which board, with which share token.
pub record Caller : Type 0 where
  pub caller_user : Option String
  pub caller_board : String
  pub caller_token : Option String

abbrev pub access_of : Caller → Tables → Option Permission
access_of c t = check_board_access c.caller_board c.caller_user c.caller_token t

-- `POST /boards/:id/mutations`.
unfoldable pub post_mutations :
    Caller
    → Tables
    → Bool
    → ℕ
    → ℕ
    → List Mutation
    → (String → Shared)
    → BatchReply × (String → Shared)
unfolding check_board_access process_batch
post_mutations c t targeted now server_now mutations boards =
    if_editor (access_of c t)
      (answer_batch (process_batch targeted now server_now mutations boards)) boards

-- `PATCH /boards/:id/elements`.
unfoldable pub patch_elements :
    Caller
    → Tables
    → Bool
    → ℕ
    → ℕ
    → (ℕ → String)
    → List BoardElement
    → List String
    → (String → Shared)
    → BatchReply × (String → Shared)
unfolding check_board_access process_batch build_element_mutation_batch
patch_elements c t targeted now server_now draw upserts deletes boards =
    let elements = (boards c.caller_board).board.elements in
    let mutations = build_element_mutation_batch c.caller_board draw elements upserts deletes in
    if_editor (access_of c t)
      (answer_batch (process_batch targeted now server_now mutations boards)) boards
