-- ===== src/Collab/Cascade/Search.antt =====
-- The search through the queue: it finds only what is inside the roots, and leaves nothing out.
use notebortt_backend.Collab.Cascade.Queue.{
  IsTaken, enqueue-has_deletes, enqueue-queued, unseen, enqueue_measure, root, step, enqueue_keeps,
  enqueue-has_pending,
}
use notebortt_backend.Collab.Cascade.{enqueue, drain}
use notebortt_backend.Common.Keys.{has}
use notebortt_backend.Common.{
  List, String, All, ◌≡◌, ◌≡◌, ℕ, true, ◌∷◌, length, arith, ◌+◌, Bool-cases, inl, inr, [], suc,
  ==_self, zero, ◌⊎◌, String-cases, ◌<◌, ◌<◌, ◌⊎◌,
}

module _ (children : String → List String) (roots : List String) where
  abbrev AreTaken : List String → Type 0
  AreTaken xs = (x : String) → has x xs ≡ true → IsTaken (λ y x. has x (children y)) roots x

  -- Only what is reached is deleted.
  pub drain_sound :
      (fuel : ℕ) (pending ds : List String)
      → AreTaken pending
      → AreTaken ds
      → AreTaken (drain children fuel (pending, ds))
  unfolding drain has
  drain_sound zero pending ds hp hd x h = hd x h
  drain_sound (suc fuel) [] ds hp hd x h = hd x h
  drain_sound (suc fuel) (c ∷ pending) ds hp hd x h =
      drain_sound fuel (enqueue (children c) (pending, ds)).0 (enqueue (children c) (pending, ds)).1
        queued deleted x h
    where
      from_c :
          (y : String) → has y (children c) ≡ true → IsTaken (λ y x. has x (children y)) roots y
      from_c y k = step (hp c (ground (arith, ==_self c))) k

      queued : AreTaken (enqueue (children c) (pending, ds)).0
      queued y k = elim (Bool-cases (has y (children c))) [
        | inl child ↦ from_c y child
        | inr other ↦ hp y (ground (arith, enqueue-has_pending (children c) pending ds y k))
      ]

      deleted : AreTaken (enqueue (children c) (pending, ds)).1
      deleted y k = elim (Bool-cases (has y (children c))) [
        | inl child ↦ from_c y child
        | inr other ↦ hd y (ground (arith, enqueue-has_deletes (children c) pending ds y))
      ]

  -- Each deleted element is still queued, or its children are deleted too.
  abbrev Covered : List String × List String → Type 0
  Covered (pending, ds) =
      (y : String)
      → has y ds ≡ true
      → (has y pending ≡ true) ⊎ ((x : String) → has x (children y) ≡ true → has x ds ≡ true)

  abbrev Closed : List String → Type 0
  Closed ds = (y x : String) → has y ds ≡ true → has x (children y) ≡ true → has x ds ≡ true

  round-Covered :
      (c : String) (pending ds : List String)
      → Covered (c ∷ pending, ds)
      → Covered (enqueue (children c) (pending, ds))
  unfolding has
  round-Covered c pending ds cov y h = elim (Bool-cases (has y ds)) [
    | inr new ↦ inl (ground (arith, enqueue-queued (children c) pending ds y h))
    | inl old ↦ elim (String-cases c y) [
      | inl same ↦
          inr λ x k. ground (arith, enqueue-has_deletes (children c) pending ds x, rw (← same) at k)
      | inr other ↦ elim (cov y old) [
        | inl queued ↦ inl (enqueue_keeps (children c) pending ds y (ground arith))
        | inr closed ↦
            inr λ x k. ground (arith, enqueue-has_deletes (children c) pending ds x, closed x k)
      ]
    ]
  ]

  module _ (universe : List String)
      (inside : (y : String) → All (λ x. has x universe ≡ true) (children y)) where
    -- With fuel above the measure the queue is emptied, and the result is closed.
    pub drain-Closed :
        (fuel : ℕ) (pending ds : List String)
        → length pending + unseen universe ds < fuel
        → Covered (pending, ds)
        → Closed (drain children fuel (pending, ds))
    unfolding drain has
    drain-Closed zero pending ds m cov y x h k = absurd (omega arith)
    drain-Closed (suc fuel) [] ds m cov y x h k = elim (cov y h) [
      | inl queued ↦ cc
      | inr closed ↦ closed x k
    ]
    drain-Closed (suc fuel) (c ∷ pending) ds m cov y x h k =
        drain-Closed fuel (enqueue (children c) (pending, ds)).0
          (enqueue (children c) (pending, ds)).1
          (omega (arith, enqueue_measure universe (children c) pending ds (inside c)))
          (round-Covered c pending ds cov) y x h k

  -- Nothing that is deleted is taken back.
  pub drain_keeps :
      (fuel : ℕ) (pending ds : List String) (x : String)
      → has x ds ≡ true
      → has x (drain children fuel (pending, ds)) ≡ true
  unfolding drain
  drain_keeps zero pending ds x h = h
  drain_keeps (suc fuel) [] ds x h = h
  drain_keeps (suc fuel) (c ∷ pending) ds x h =
      drain_keeps fuel _ _ x (ground (arith, enqueue-has_deletes (children c) pending ds x))

  pub Closed-IsTaken :
      (ds : List String)
      → ((x : String) → has x roots ≡ true → has x ds ≡ true)
      → Closed ds
      → {x : String} → IsTaken (λ y x. has x (children y)) roots x
      → has x ds ≡ true
  Closed-IsTaken ds start closed (root h) = start _ h
  Closed-IsTaken ds start closed (step {x = x} {y = y} r h) =
      closed y x (Closed-IsTaken ds start closed r) h
