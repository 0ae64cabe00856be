-- ===== src/Collab/Locks.antt =====
-- mutations/lock-enforcement.ts: which operations a lock or a managed month range refuses.
pub mod Reconcile
use notebortt_backend.Common.{
  ℕ, ◌+◌, String, Bool, true, false, not, ◌&&◌, ◌||◌, Option, none, some, List, [], ◌∷◌, ◌==◌, eqb,
  any, if◌then◌else◌,
}
use notebortt_backend.Common.Keys.{has, add}
use notebortt_backend.Common.Assoc.{get, keys}
use notebortt_backend.Collab.Element.{Value, BoardElement, text_field, is_object, is_true}
use notebortt_backend.Collab.Mutation.{
  Move, Operation, create_element, update_element, delete_elements, move_elements, update_elements,
  reorder_element, reconcile_month_range,
}

-- `LockContext.elementsById`.
abbrev pub LockContext : Type 0
LockContext = List (String × BoardElement)

abbrev position_fields : List String
position_fields =
    "x" ∷ "y" ∷ "containerId" ∷ "containerColumnId" ∷ "containerOrder" ∷ "metaContainerId"
    ∷ "metaContainerOrder" ∷ "metaGridCol" ∷ "metaGridRow" ∷ "metaGridColSpan" ∷ "metaGridRowSpan"
    ∷ []

unfoldable pub is_element_locked : BoardElement → Bool
is_element_locked element = is_true (get "locked" element)

-- `value !== undefined`.
abbrev is_defined : Option Value → Bool
is_defined none = false
is_defined (some v) = true

-- `p(map.get(id))`, false where the id is no text or the map has no such entry.
abbrev lookup_and : (BoardElement → Bool) → LockContext → Option String → Bool
lookup_and p context none = false
lookup_and p context (some id) = elim (get id context) [ none ↦ false | some e ↦ p e ]

unfoldable pub is_inside_locked_container : LockContext → BoardElement → Bool
is_inside_locked_container context element =
    lookup_and is_element_locked context (text_field "containerId" element)
    || lookup_and is_element_locked context (text_field "metaContainerId" element)

unfoldable pub is_position_patch : BoardElement → Bool
is_position_patch fields = any (λ key. has key position_fields) (keys fields)

abbrev has_month_range : BoardElement → Bool
has_month_range meta = is_defined (get "monthRange" meta)

unfoldable pub is_inside_managed_meta : LockContext → BoardElement → Bool
is_inside_managed_meta context element =
    lookup_and has_month_range context (text_field "metaContainerId" element)

-- `field !== target`, for a text target.
abbrev is_text : String → Option String → Bool
is_text target none = false
is_text target (some s) = s == target

unfoldable pub patches_into_managed_meta : LockContext → BoardElement → BoardElement → Bool
patches_into_managed_meta context element fields = elim (text_field "metaContainerId" fields) [
  | none ↦ false
  | some target ↦
      lookup_and has_month_range context (some target)
      && not (is_text target (text_field "metaContainerId" element))
]

unfoldable pub creates_into_managed_meta : LockContext → BoardElement → Bool
creates_into_managed_meta context element =
    lookup_and has_month_range context (text_field "metaContainerId" element)

-- The three tests that moves and position patches share.
unfoldable pub is_held : LockContext → BoardElement → Bool
is_held context element =
    is_element_locked element
    || is_inside_locked_container context element
    || is_inside_managed_meta context element

abbrev move_blocked : LockContext → Move → Bool
move_blocked context move = lookup_and (is_held context) context (some move.element_id)

unfoldable pub patch_blocked : LockContext → String → BoardElement → Bool
patch_blocked context element_id fields =
    if not (is_position_patch fields)
    then false
    else lookup_and
        (λ element. is_held context element || patches_into_managed_meta context element fields)
        context (some element_id)

-- A month of a managed range whose meta is not deleted with it.
abbrev orphans_month : LockContext → List String → BoardElement → Bool
orphans_month context deleted element = elim (text_field "metaContainerId" element) [
  | none ↦ false
  | some meta_id ↦
      if has meta_id deleted then false else lookup_and has_month_range context (some meta_id)
]

abbrev pub delete_blocked : LockContext → List String → String → Bool
delete_blocked context deleted element_id =
    lookup_and (orphans_month context deleted) context (some element_id)

unfoldable pub is_mutation_blocked_by_lock : Operation → LockContext → Bool
is_mutation_blocked_by_lock (move_elements moves transient) context =
    any (move_blocked context) moves
is_mutation_blocked_by_lock (update_element element_id fields) context =
    patch_blocked context element_id fields
is_mutation_blocked_by_lock (update_elements updates) context =
    any (λ update. patch_blocked context update.element_id update.fields) updates
is_mutation_blocked_by_lock (create_element element_id element) context =
    creates_into_managed_meta context element
is_mutation_blocked_by_lock (delete_elements ids) context = any (delete_blocked context ids) ids
is_mutation_blocked_by_lock (reorder_element element_id z) context = false
is_mutation_blocked_by_lock (reconcile_month_range meta_id upserts deletes) context = false

-- The outcome of a check: the reason of a refusal, or what it computed.
pub data Checked {ℓ} (A : Type ℓ) : Type ℓ where
  refused : String → Checked A
  passed : A → Checked A

infixl 5 ◌>>=◌
abbrev ◌>>=◌ {ℓ κ} : {A : Type ℓ} {B : Type κ} → Checked A → (A → Checked B) → Checked B
refused reason >>= f = refused reason
passed a >>= f = f a

abbrev require : Bool → String → Checked (Unit {0})
require true reason = passed tt
require false reason = refused reason

infixl 5 ◌>>◌
abbrev ◌>>◌ {ℓ} : {B : Type ℓ} → Checked (Unit {0}) → Checked B → Checked B
m >> k = m >>= λ _. k

abbrev pub is_managed : BoardElement → Bool
is_managed element = is_object (get "monthRange" element)

abbrev pub in_meta : String → BoardElement → Bool
in_meta meta_id element = is_text meta_id (text_field "metaContainerId" element)

-- One round of the loop over `upserts`; `upsert_ids` and `metaUpsertCount` are its state.
unfoldable pub check_upsert : String → BoardElement → List String × ℕ → Checked (List String × ℕ)
check_upsert meta_id element (ids, count) = elim (text_field "id" element) [
  | none ↦ refused "reconcile upsert missing id"
  | some id ↦ do
    require (not (has id ids)) "reconcile upserts contain duplicate ids"
    if id == meta_id
        then (do
          require (is_managed element) "reconcile meta upsert is not a managed month-range"
          passed (add id ids, count + 1))
        else (do
          require (in_meta meta_id element) "reconcile upsert not contained in meta"
          passed (add id ids, count))
]

unfoldable pub check_upserts :
    String → List BoardElement → List String × ℕ → Checked (List String × ℕ)
check_upserts meta_id [] state = passed state
check_upserts meta_id (element ∷ elements) state = do
  next ← check_upsert meta_id element state
  check_upserts meta_id elements next

-- An existing element outside the meta may not be deleted; an unknown one may.
abbrev pub strays : LockContext → String → String → Bool
strays context meta_id element_id = elim (get element_id context) [
  | none ↦ false
  | some element ↦ not (in_meta meta_id element)
]

-- One round of the loop over `deletes`.
unfoldable pub check_delete :
    LockContext → String → List String → String → List String → Checked (List String)
check_delete context meta_id upsert_ids element_id ids = do
  require (not (element_id == meta_id)) "reconcile may not delete its meta"
  require (not (has element_id ids)) "reconcile deletes contain duplicate ids"
  require (not (has element_id upsert_ids)) "reconcile upserts and deletes overlap"
  require (not (strays context meta_id element_id)) "reconcile delete not contained in meta"
  passed (add element_id ids)

unfoldable pub check_deletes :
    LockContext → String → List String → List String → List String → Checked (List String)
check_deletes context meta_id upsert_ids [] ids = passed ids
check_deletes context meta_id upsert_ids (element_id ∷ rest) ids = do
  next ← check_delete context meta_id upsert_ids element_id ids
  check_deletes context meta_id upsert_ids rest next

-- The meta, where it exists already, is a managed range.
abbrev pub meta_ok : LockContext → String → Bool
meta_ok context meta_id = elim (get meta_id context) [ none ↦ true | some meta ↦ is_managed meta ]

abbrev pub is_empty : List BoardElement → Bool
is_empty [] = true
is_empty (e ∷ es) = false

abbrev pub reason : Checked (List String) → Option String
reason (refused r) = some r
reason (passed _) = none

-- The body of `validateReconcileMonthRange` past its first test.
unfoldable pub check_reconcile :
    LockContext → String → List BoardElement → List String → Checked (List String)
check_reconcile context meta_id upserts deletes = do
  require (meta_ok context meta_id) "reconcile meta is not a managed month-range"
  require (not (is_empty upserts)) "reconcile upserts must not be empty"
  counted ← check_upserts meta_id upserts ([], 0)
  require (eqb counted.1 1) "reconcile upserts must include exactly one managed meta"
  check_deletes context meta_id counted.0 deletes []

-- `null` is `none`.
unfoldable pub validate_reconcile_month_range : Operation → LockContext → Option String
validate_reconcile_month_range (reconcile_month_range meta_id upserts deletes) context =
    reason (check_reconcile context meta_id upserts deletes)
validate_reconcile_month_range _ context = none
