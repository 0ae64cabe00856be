-- ===== src/Collab/Processor/Footprint.antt =====
-- The elements that a mutation may change.
use notebortt_backend.Collab.Cascade.Queue.{IsTaken}
use notebortt_backend.Collab.Cascade.Contents.{is_child}
use notebortt_backend.Collab.Cascade.Closure.{collect_cascade_delete_ids_iff}
use notebortt_backend.Collab.Board.Apply.{apply_change_set-cases, get-apply_change_set}
use notebortt_backend.Collab.Board.{
  cascade, try_mark_seen, ApplyOptions, Board, apply_change_set, seen_ttl_ms,
}
use notebortt_backend.Collab.Board.Maps.{find_last, has-find_last}
use notebortt_backend.Common.Keys.{has}
use notebortt_backend.Collab.Processor.{
  moved, to_change_set, to_upsert_from_cache, spread, flat_map, process_mutation_with_context,
  apply_operation, options_for,
}
use notebortt_backend.Common.Assoc.{get, put, keys, get-put, get-put_all_other, values}
use notebortt_backend.Collab.Locks.{LockContext}
use notebortt_backend.Collab.Element.{id_of, Value, BoardElement}
use notebortt_backend.Common.{
  List, String, ◌≡◌, ◌∷◌, map, ◌≡◌, arith, false, [], some, none, ◌==◌, ◌==◌, All, Option-cases,
  inl, inr, refl, ℕ, ◌∙◌, ◌∙◌, ◌++◌, ◌||◌, ◌+◌, ◌+◌, Bool-cases,
}
use notebortt_backend.Collab.Mutation.{
  Operation, update_element, Move, create_element, update_elements, Update, delete_elements,
  move_elements, reorder_element, reconcile_month_range, ChangeSet, Mutation, WriteMode,
}

-- The identifiers that an operation names, deletes and their consequences apart.
abbrev pub named : Operation → List String
named (create_element id element) = id_of element ∷ []
named (update_element id fields) = id ∷ []
named (delete_elements ids) = []
named (move_elements moves transient) = map (λ (m : Move). m.element_id) moves
named (update_elements updates) = map (λ (u : Update). u.element_id) updates
named (reorder_element id z) = id ∷ []
named (reconcile_month_range meta_id upserts deletes) = map id_of upserts

-- The patches do not set the identifier itself.
abbrev KeepsIds : Operation → Type 0
KeepsIds (update_element id fields) = has "id" (keys fields) ≡ false
KeepsIds (update_elements updates) = All (λ (u : Update). has "id" (keys u.fields) ≡ false) updates
KeepsIds _ = Unit {0}

id_of-spread :
    (e fields : BoardElement) → has "id" (keys fields) ≡ false → id_of (spread e fields) ≡ id_of e
unfolding id_of
id_of-spread e fields h = rw (get-put_all_other fields e "id" h)

id_of-moved : (m : Move) (e : BoardElement) → id_of (moved m e) ≡ id_of e
unfolding id_of
id_of-moved m e = ground (arith, get-put "y" "id" m.y (put "x" m.x e), get-put "x" "id" m.x e)

id_of-put_z : (z : Value) (e : BoardElement) → id_of (put "zIndex" z e) ≡ id_of e
unfolding id_of
id_of-put_z z e = ground (arith, get-put "zIndex" "id" z e)

find_last-none :
    (es : List BoardElement) (x : String) → has x (map id_of es) ≡ false → find_last x es ≡ none
find_last-none es x h = ground (arith, has-find_last es x)

has-map_append :
    (xs ys : List BoardElement) (x : String)
    → has x (map id_of (xs ++ ys)) ≡ (has x (map id_of xs) || has x (map id_of ys))
unfolding has
has-map_append [] ys x = refl
has-map_append (e ∷ xs) ys x = ground (arith, has-map_append xs ys x)

module _ (context : LockContext)
    (own : (x : String) (e : BoardElement) → get x context ≡ some e → id_of e ≡ x) where
  upsert_from-id :
      (id x : String) (transform : BoardElement → BoardElement)
      → ((e : BoardElement) → id_of (transform e) ≡ id_of e)
      → (id == x) ≡ false
      → has x (map id_of (to_upsert_from_cache context id transform)) ≡ false
  unfolding to_upsert_from_cache has
  upsert_from-id id x transform keeps other = elim (Option-cases (get id context)) [
    | inl gone ↦ ground arith
    | inr (e, found) ↦ ground (arith, keeps e, own id e found)
  ]

  moves-ids :
      (ms : List Move) (x : String)
      → has x (map (λ (m : Move). m.element_id) ms) ≡ false
      → has x (
          map id_of
            (flat_map (λ (m : Move). to_upsert_from_cache context m.element_id (moved m)) ms))
        ≡ false
  unfolding has
  moves-ids [] x h = refl
  moves-ids (m ∷ ms) x h =
      let here = upsert_from-id m.element_id x (moved m) (id_of-moved m) (ground arith) in
      let there = moves-ids ms x (ground arith) in
      has-map_append (to_upsert_from_cache context m.element_id (moved m)) _ x ∙ ground arith

  updates-ids :
      (us : List Update) (x : String)
      → All (λ (u : Update). has "id" (keys u.fields) ≡ false) us
      → has x (map (λ (u : Update). u.element_id) us) ≡ false
      → has x (
          map id_of (
            flat_map
              (λ (u : Update).
                to_upsert_from_cache context u.element_id (λ existing. spread existing u.fields))
              us))
        ≡ false
  unfolding has
  updates-ids [] x k h = refl
  updates-ids (u ∷ us) x k h =
      let here =
        upsert_from-id u.element_id x (λ e. spread e u.fields) (λ e. id_of-spread e u.fields k.0)
          (ground arith) in
      let there = updates-ids us x k.1 (ground arith) in
      has-map_append (to_upsert_from_cache context u.element_id (λ e. spread e u.fields)) _ x
      ∙ ground arith

  -- An identifier that the operation does not name is not among the upserts.
  to_change_set-named :
      (operation : Operation) (x : String)
      → KeepsIds operation
      → has x (named operation) ≡ false
      → has x (map id_of (to_change_set context operation).upserts) ≡ false
  unfolding to_change_set has
  to_change_set-named (create_element id element) x k h = h
  to_change_set-named (update_element id fields) x k h =
      upsert_from-id id x _ (λ e. id_of-spread e fields k) (ground arith)
  to_change_set-named (delete_elements ids) x k h = refl
  to_change_set-named (move_elements moves transient) x k h = moves-ids moves x h
  to_change_set-named (update_elements updates) x k h = updates-ids updates x k h
  to_change_set-named (reorder_element id z) x k h =
      upsert_from-id id x _ (id_of-put_z z) (ground arith)
  to_change_set-named (reconcile_month_range meta_id upserts deletes) x k h = h

cascade-other :
    (options : ApplyOptions) (deletes : List String) (b : Board) (x : String)
    → options.base_elements_for_cascade_delete ≡ none
    → ¬ IsTaken (is_child (values b.elements)) deletes x
    → has x (cascade options deletes b) ≡ false
unfolding cascade has
cascade-other options [] b x base apart = refl
cascade-other options (d ∷ ds) b x base apart =
    elim (Bool-cases (has x (cascade options (d ∷ ds) b))) [
      | inr out ↦ out
      | inl in_it ↦
          absurd (
            apart
              ((collect_cascade_delete_ids_iff (values b.elements) (d ∷ ds) x).0 (ground arith)))
    ]

apply-other :
    (now server_now : ℕ) (options : ApplyOptions) (change_set : ChangeSet) (b : Board) (x : String)
    → has x (map id_of change_set.upserts) ≡ false
    → has x (cascade options change_set.deletes b) ≡ false
    → get x (apply_change_set now server_now options change_set b).1.elements ≡ get x b.elements
apply-other now server_now options change_set b x new kept =
    elim (apply_change_set-cases now server_now options change_set b) [
      | inl e ↦ rw e refl
      | inr e ↦ rw e (
          get-apply_change_set now server_now options change_set b _ _ x e
          ∙ ground (arith, find_last-none change_set.upserts x new))
    ]

-- A mutation, whatever becomes of it, leaves alone every element that its operation does not name
-- and that is not deleted with one it deletes, provided that its patches do not set identifiers.
pub process_mutation_with_context-other :
    (now server_now : ℕ) (m : Mutation) (context : LockContext) (mode : WriteMode) (b : Board)
    (x : String)
    → ((y : String) (e : BoardElement) → get y context ≡ some e → id_of e ≡ y)
    → KeepsIds m.operation
    → has x (named m.operation) ≡ false
    → ¬ IsTaken (is_child (values b.elements)) (to_change_set context m.operation).deletes x
    → get x (process_mutation_with_context now server_now m context mode b).2.elements
      ≡ get x b.elements
unfolding process_mutation_with_context try_mark_seen apply_operation
process_mutation_with_context-other now server_now m context mode b x own keeps apart free =
    let marked = record b { seen = put m.mutation_id (now + seen_ttl_ms) b.seen } in
    let change_set = to_change_set context m.operation in
    ground (
      arith,
      apply-other now server_now (options_for mode) change_set marked x
          (to_change_set-named context own m.operation x keeps apart)
          (cascade-other (options_for mode) change_set.deletes marked x refl free),
    )
