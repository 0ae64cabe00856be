-- ===== src/Boards/Routes/Scope.antt =====
-- Which boards a batch over HTTP reaches.
use notebortt_backend.Collab.Board.{is_nil}
use notebortt_backend.Collab.Cascade.{collect_cascade_delete_ids}
use notebortt_backend.Boards.Rows.{Permission, Tables, edit, view}
use notebortt_backend.Collab.Element.{BoardElement, id_of}
use notebortt_backend.Boards.Routes.{
  build_element_mutation_batch, patch_elements, creations, Caller, sort_texts, access_of, if_editor,
  answered,
}
use notebortt_backend.Common.Assoc.{keys, values}
use notebortt_backend.Collab.Mutation.{Mutation, MutationResult}
use notebortt_backend.Common.Keys.{has}
use notebortt_backend.Common.{
  String, Bool, List, ℕ, any, ◌==◌, ◌≡◌, ◌≡◌, ◌==◌, ◌||◌, ◌||◌, false, [], ◌∷◌, ◌∙◌, ◌∙◌, arith,
  eq_iff, refl, suc, Option, Bool-cases, some, inl, inr, none, ap,
}
use notebortt_backend.Collab.Batch.{
  process_groups, group_from, add_to_group, process_batch, Shared, process_group, set_board,
}

abbrev pub names : String → List Mutation → Bool
names x mutations = any (λ m. m.board_id == x) mutations

pub has-add_to_group :
    (x : String) (index : ℕ) (m : Mutation) (groups : List (String × List (ℕ × Mutation)))
    → has x (keys (add_to_group index m groups)) ≡ (m.board_id == x || has x (keys groups))
unfolding add_to_group has
has-add_to_group x index m [] = refl
has-add_to_group x index m ((b, entries) ∷ groups) =
    ground (
      arith,
      has-add_to_group x index m groups,
      eq_iff b m.board_id,
      eq_iff b x,
      eq_iff m.board_id x,
    )

pub has-group_from :
    (x : String) (index : ℕ) (mutations : List Mutation)
    (groups : List (String × List (ℕ × Mutation)))
    → has x (keys (group_from index mutations groups)) ≡ (names x mutations || has x (keys groups))
unfolding group_from
has-group_from x index [] groups = refl
has-group_from x index (m ∷ mutations) groups = ground (
  arith,
  has-group_from x (suc index) mutations (add_to_group index m groups),
  has-add_to_group x index m groups,
)

pub groups-other :
    (x : String) (targeted : Bool) (now server_now : ℕ)
    (groups : List (String × List (ℕ × Mutation))) (boards : String → Shared)
    → has x (keys groups) ≡ false
    → (process_groups targeted now server_now groups boards).1 x ≡ boards x
unfolding process_groups has
groups-other x targeted now server_now [] boards h = refl
groups-other x targeted now server_now ((b, entries) ∷ groups) boards h =
    let s = (process_group targeted now server_now entries (boards b)).1 in
    groups-other x targeted now server_now groups (set_board b s boards) (ground arith)
    ∙ ground (arith, eq_iff b x, eq_iff x b)

-- A batch leaves every board as it is that none of its mutations names.
pub batch-other :
    (x : String) (targeted : Bool) (now server_now : ℕ) (mutations : List Mutation)
    (boards : String → Shared)
    → names x mutations ≡ false
    → (process_batch targeted now server_now mutations boards).1 x ≡ boards x
unfolding process_batch has
batch-other x targeted now server_now mutations boards h =
    groups-other x targeted now server_now (group_from 0 mutations []) boards
      (has-group_from x 0 mutations [] ∙ rw h refl)

names-creations :
    (x b : String) (draw : ℕ → String) (n : ℕ) (deletes : List String) (es : List BoardElement)
    → (b == x) ≡ false
    → names x (creations b draw n deletes es) ≡ false
unfolding creations
names-creations x b draw n deletes [] h = refl
names-creations x b draw n deletes (e ∷ es) h = elim (Bool-cases (has (id_of e) deletes)) [
  | inl skipped ↦ rw skipped (names-creations x b draw n deletes es h)
  | inr kept ↦ rw (kept, h) (names-creations x b draw (suc n) deletes es h)
]

names-batch :
    (x b : String) (draw : ℕ → String) (elements : List (String × BoardElement))
    (upserts : List BoardElement) (deletes : List String)
    → (b == x) ≡ false
    → names x (build_element_mutation_batch b draw elements upserts deletes) ≡ false
unfolding build_element_mutation_batch
names-batch x b draw elements upserts deletes h =
    let ids = sort_texts (collect_cascade_delete_ids (values elements) deletes) in
    elim (Bool-cases (is_nil ids)) [
      | inl empty ↦ rw empty (names-creations x b draw 0 ids upserts h)
      | inr full ↦ rw (full, h) (names-creations x b draw 1 ids upserts h)
    ]

if_editor-other :
    (x : String) (access : Option Permission) (results : List (Option MutationResult))
    (after boards : String → Shared)
    → after x ≡ boards x
    → (if_editor access (answered results, after) boards).1 x ≡ boards x
if_editor-other x none results after boards same = refl
if_editor-other x (some view) results after boards same = refl
if_editor-other x (some edit) results after boards same = same

-- A change of a board's elements over PATCH leaves everything that Redis holds of every other board
-- as it is, its elements, marks and presence, whatever upserts and deletes the body has and whoever
-- asks. (What a flush takes of other boards' rows is another matter: Collab/Persistence/Table.)
pub patch_elements-other :
    (c : Caller) (t : Tables) (targeted : Bool) (now server_now : ℕ) (draw : ℕ → String)
    (upserts : List BoardElement) (deletes : List String) (boards : String → Shared) (x : String)
    → (c.caller_board == x) ≡ false
    → let s = (patch_elements c t targeted now server_now draw upserts deletes boards).1 x in
      (s.board ≡ (boards x).board) × (s.presence ≡ (boards x).presence)
unfolding patch_elements
patch_elements-other c t targeted now server_now draw upserts deletes boards x other =
    let mutations =
      build_element_mutation_batch c.caller_board draw (boards c.caller_board).board.elements
        upserts deletes in
    let run = process_batch targeted now server_now mutations boards in
    let same = if_editor-other x (access_of c t) run.0 run.1 boards (
      batch-other x targeted now server_now mutations boards (
        names-batch x c.caller_board draw (boards c.caller_board).board.elements upserts deletes
          other)) in
    (ap (λ s. s.board) same, ap (λ s. s.presence) same)
