-- ===== src/Collab/Processor/Unguarded.antt =====
-- Mutations that reach the lock test with nothing loaded.
use notebortt_backend.Collab.Element.{BoardElement}
use notebortt_backend.Common.{
  Bool, List, true, ◌≡◌, String, ◌≡◌, [], any, All, ◌∷◌, ◌∷◌, false, arith, refl,
}
use notebortt_backend.Collab.Locks.{
  is_mutation_blocked_by_lock, creates_into_managed_meta, delete_blocked,
}
use notebortt_backend.Common.Assoc.{get}
use notebortt_backend.Collab.Mutation.{
  Operation, create_element, Mutation, delete_elements, update_element, move_elements,
  update_elements, reorder_element, reconcile_month_range,
}
use notebortt_backend.Collab.Processor.{
  touch_all, create_cached_board_context, collect_touched_element_ids, touch,
}

abbrev only_creates_or_deletes : Operation → Bool
only_creates_or_deletes (create_element id element) = true
only_creates_or_deletes (delete_elements ids) = true
only_creates_or_deletes _ = false

touch-only :
    (operation : Operation) (ids : List String)
    → only_creates_or_deletes operation ≡ true
    → touch operation ids ≡ ids
touch-only (create_element id element) ids h = refl
touch-only (delete_elements deleted) ids h = refl
touch-only (update_element id fields) ids h = cc
touch-only (move_elements moves transient) ids h = cc
touch-only (update_elements updates) ids h = cc
touch-only (reorder_element id z) ids h = cc
touch-only (reconcile_month_range meta_id upserts deletes) ids h = cc

touch_all-only :
    (ms : List Mutation) (ids : List String)
    → All (λ m. only_creates_or_deletes m.operation ≡ true) ms
    → touch_all ms ids ≡ ids
unfolding touch_all
touch_all-only [] ids h = refl
touch_all-only (m ∷ ms) ids h = rw (touch-only m.operation ids h.0) (touch_all-only ms ids h.1)

-- A batch of creations and deletions alone is judged against no elements at all, whatever the board
-- holds.
create_cached_board_context-only :
    (targeted : Bool) (ms : List Mutation) (elements : List (String × BoardElement))
    → All (λ m. only_creates_or_deletes m.operation ≡ true) ms
    → create_cached_board_context targeted ms elements ≡ []
unfolding create_cached_board_context collect_touched_element_ids
create_cached_board_context-only targeted ms elements h = rw (touch_all-only ms [] h)

any-delete_blocked : (ids deleted : List String) → any (delete_blocked [] deleted) ids ≡ false
unfolding get
any-delete_blocked [] deleted = refl
any-delete_blocked (id ∷ ids) deleted = any-delete_blocked ids deleted

blocked_nothing :
    (operation : Operation)
    → only_creates_or_deletes operation ≡ true
    → is_mutation_blocked_by_lock operation [] ≡ false
unfolding is_mutation_blocked_by_lock creates_into_managed_meta get
blocked_nothing (create_element id element) h = ground arith
blocked_nothing (delete_elements ids) h = any-delete_blocked ids ids
blocked_nothing (update_element id fields) h = cc
blocked_nothing (move_elements moves transient) h = cc
blocked_nothing (update_elements updates) h = cc
blocked_nothing (reorder_element id z) h = cc
blocked_nothing (reconcile_month_range meta_id upserts deletes) h = cc

-- A creation or a deletion that is processed by itself is never blocked, whatever the board holds:
-- also where it puts an element into a managed month range or takes a month out of it.
pub create_or_delete_unguarded :
    (targeted : Bool) (m : Mutation) (elements : List (String × BoardElement))
    → only_creates_or_deletes m.operation ≡ true
    → is_mutation_blocked_by_lock m.operation
        (create_cached_board_context targeted (m ∷ []) elements)
      ≡ false
create_or_delete_unguarded targeted m elements h =
    rw (create_cached_board_context-only targeted (m ∷ []) elements (h, tt))
      (blocked_nothing m.operation h)
