-- ===== src/Collab/Cascade/Closure.antt =====
-- `collectCascadeDeleteIds` takes exactly the requested elements and what they hold, at any depth.
use notebortt_backend.Collab.Cascade.Search.{drain_sound, Closed-IsTaken, drain_keeps, drain-Closed}
use notebortt_backend.Collab.Cascade.Queue.{IsTaken, unseen, IsTaken-mono, root}
use notebortt_backend.Collab.Cascade.Contents.{has-children_of, has-ids, is_child}
use notebortt_backend.Collab.Element.{BoardElement, id_of}
use notebortt_backend.Collab.Cascade.{collect_cascade_delete_ids, children_of}
use notebortt_backend.Common.Keys.{has, has-add_all, add_all}
use notebortt_backend.Common.{
  List, String, All, ◌≡◌, ◌≡◌, ◌≤◌, true, ◌≤◌, ◌∷◌, length, arith, ◌+◌, inl, [], ap, refl, suc,
  ==_self, ◌↔◌, map, ◌↔◌,
}

unseen-le : (us ds : List String) → unseen us ds ≤ length us
unseen-le [] ds = omega arith
unseen-le (u ∷ us) ds = ground (arith, unseen-le us ds)

length-map_id : (es : List BoardElement) → length (map id_of es) ≡ length es
length-map_id [] = refl
length-map_id (e ∷ es) = ap suc (length-map_id es)

All-of-has :
    (universe xs : List String)
    → ((x : String) → has x xs ≡ true → has x universe ≡ true)
    → All (λ x. has x universe ≡ true) xs
unfolding has
All-of-has universe [] h = tt
All-of-has universe (x ∷ xs) h =
    (h x (ground (arith, ==_self x)), All-of-has universe xs (λ y k. h y (ground arith)))

children_inside :
    (elements : List BoardElement) (y x : String)
    → has x (children_of elements y) ≡ true
    → has x (map id_of elements) ≡ true
children_inside elements y x h = ground (
  arith,
  has-children_of elements y x,
  has-ids "containerId" y x elements,
  has-ids "metaContainerId" y x elements,
)

module _ (elements : List BoardElement) (requested : List String) where
  start : List String
  start = add_all requested []

  start-has : (x : String) → has x start ≡ has x requested
  unfolding start has
  start-has x = ground (arith, has-add_all requested x [])

  result_sound :
      (x : String)
      → has x (collect_cascade_delete_ids elements requested) ≡ true
      → IsTaken (λ y x. has x (children_of elements y)) start x
  unfolding collect_cascade_delete_ids start
  result_sound =
      drain_sound (children_of elements) start _ start start (λ x h. root h) (λ x h. root h)

  result_complete :
      (x : String)
      → IsTaken (λ y x. has x (children_of elements y)) start x
      → has x (collect_cascade_delete_ids elements requested) ≡ true
  unfolding collect_cascade_delete_ids start
  result_complete x =
      let fuel = length start + length elements + 1 in
      Closed-IsTaken (children_of elements) start _
        (drain_keeps (children_of elements) start fuel start start)
        (drain-Closed (children_of elements) start (map id_of elements)
          (λ y.
            All-of-has (map id_of elements) (children_of elements y) (children_inside elements y))
          fuel start start
          (omega (arith, unseen-le (map id_of elements) start, length-map_id elements))
          (λ y h. inl h))

-- A delete takes exactly the requested elements and, through any depth of containers, the elements
-- that name a deleted one as their column or their meta container.
pub collect_cascade_delete_ids_iff :
    (elements : List BoardElement) (requested : List String) (x : String)
    → (has x (collect_cascade_delete_ids elements requested) ≡ true)
      ↔ IsTaken (is_child elements) requested x
collect_cascade_delete_ids_iff elements requested x = (
  λ h.
      IsTaken-mono _ _ _ requested (λ y x k. rw (has-children_of elements y x) at k)
        (λ x k. rw (start-has elements requested x) at k) (result_sound elements requested x h),
  λ r. result_complete elements requested x (
      IsTaken-mono (is_child elements) _ requested _ (λ y x k. rw (has-children_of elements y x) k)
        (λ x k. rw (start-has elements requested x) k) r),
)
