-- ===== src/Collab/Cascade/Queue.antt =====
-- The queue of a cascade: what one round of the search adds, and why the rounds end.
use notebortt_backend.Collab.Cascade.{enqueue}
use notebortt_backend.Common.Keys.{has, add, has-add, has-append, has-append_self}
use notebortt_backend.Common.{
  List, String, All, ◌≡◌, ◌≡◌, ℕ, ◌≤◌, ◌||◌, true, ◌≤◌, ◌∷◌, ◌||◌, length, false, arith,
  if◌then◌else◌, ◌+◌, Bool-cases, eq_iff, inl, inr, [], ◌++◌, length-append, ap, refl, Bool,
}

-- AreTaken from the requested elements by steps from a container to a child.
pub data IsTaken (child : String → String → Bool) (roots : List String) : String → Type 0 where
  root : {x : String} → has x roots ≡ true → IsTaken child roots x
  step : {x y : String} → IsTaken child roots y → child y x ≡ true → IsTaken child roots x

pub IsTaken-mono :
    (c d : String → String → Bool) (roots roots' : List String)
    → ((y x : String) → c y x ≡ true → d y x ≡ true)
    → ((x : String) → has x roots ≡ true → has x roots' ≡ true)
    → {x : String} → IsTaken c roots x
    → IsTaken d roots' x
IsTaken-mono c d roots roots' h k (root r) = root (k _ r)
IsTaken-mono c d roots roots' h k (step r s) = step (IsTaken-mono c d roots roots' h k r) (h _ _ s)

-- Of a list, the entries that are not yet in the set.
abbrev pub unseen : List String → List String → ℕ
unseen [] deletes = 0
unseen (u ∷ us) deletes = (if has u deletes then 0 else 1) + unseen us deletes

unseen-add-le :
    (us : List String) (k : String) (ds : List String) → unseen us (add k ds) ≤ unseen us ds
unseen-add-le [] k ds = omega arith
unseen-add-le (u ∷ us) k ds = ground (arith, unseen-add-le us k ds, has-add k u ds)

-- A new entry of the list takes one off.
unseen-add-lt :
    (us : List String) (k : String) (ds : List String)
    → has k us ≡ true
    → has k ds ≡ false
    → unseen us (add k ds) + 1 ≤ unseen us ds
unfolding has
unseen-add-lt [] k ds h n = cc
unseen-add-lt (u ∷ us) k ds h n =
    ground
      (arith, unseen-add-lt us k ds, unseen-add-le us k ds, has-add k u ds, eq_iff u k, eq_iff k u)

enqueue_old :
    (c : String) (cs pending ds : List String)
    → has c ds ≡ true
    → enqueue (c ∷ cs) (pending, ds) ≡ enqueue cs (pending, ds)
unfolding enqueue
enqueue_old c cs pending ds h =
    ap (λ b. enqueue cs (if b then (pending, ds) else (pending ++ c ∷ [], add c ds))) h

enqueue_new :
    (c : String) (cs pending ds : List String)
    → has c ds ≡ false
    → enqueue (c ∷ cs) (pending, ds) ≡ enqueue cs (pending ++ c ∷ [], add c ds)
unfolding enqueue
enqueue_new c cs pending ds h =
    ap (λ b. enqueue cs (if b then (pending, ds) else (pending ++ c ∷ [], add c ds))) h

-- Queueing children from the universe does not raise the measure of the loop.
pub enqueue_measure :
    (universe cs pending ds : List String)
    → All (λ c. has c universe ≡ true) cs
    → length (enqueue cs (pending, ds)).0 + unseen universe (enqueue cs (pending, ds)).1
      ≤ length pending + unseen universe ds
enqueue_measure universe [] pending ds h = unfold enqueue in omega arith
enqueue_measure universe (c ∷ cs) pending ds h = elim (Bool-cases (has c ds)) [
  | inl old ↦ rw (enqueue_old c cs pending ds old) (enqueue_measure universe cs pending ds h.1)
  | inr new ↦ rw (enqueue_new c cs pending ds new) (
      omega (
        arith,
        enqueue_measure universe cs (pending ++ c ∷ []) (add c ds) h.1,
        length-append pending (c ∷ []),
        unseen-add-lt universe c ds h.0 new,
      ))
]

-- What the inner loop does to the two sets: it adds the children to the deletes, and queues only
-- children, those that were not deleted before.
pub enqueue-has_deletes :
    (cs pending ds : List String) (x : String)
    → has x (enqueue cs (pending, ds)).1 ≡ (has x cs || has x ds)
unfolding has
enqueue-has_deletes [] pending ds x = unfold enqueue in refl
enqueue-has_deletes (c ∷ cs) pending ds x = elim (Bool-cases (has c ds)) [
  | inl old ↦
      rw (enqueue_old c cs pending ds old)
        (ground (arith, enqueue-has_deletes cs pending ds x, eq_iff c x))
  | inr new ↦
      rw (enqueue_new c cs pending ds new)
        (ground (arith, enqueue-has_deletes cs (pending ++ c ∷ []) (add c ds) x, has-add c x ds))
]

pub enqueue-has_pending :
    (cs pending ds : List String) (x : String)
    → has x (enqueue cs (pending, ds)).0 ≡ true
    → (has x pending || has x cs) ≡ true
unfolding has
enqueue-has_pending [] pending ds x h = unfold enqueue in ground arith
enqueue-has_pending (c ∷ cs) pending ds x h = elim (Bool-cases (has c ds)) [
  | inl old ↦
      ground
        (arith, enqueue-has_pending cs pending ds x (rw (enqueue_old c cs pending ds old) at h))
  | inr new ↦ ground (
    arith,
    enqueue-has_pending cs (pending ++ c ∷ []) (add c ds) x
        (rw (enqueue_new c cs pending ds new) at h),
    has-append x pending (c ∷ []),
  )
]

pub enqueue_keeps :
    (cs pending ds : List String) (x : String)
    → has x pending ≡ true
    → has x (enqueue cs (pending, ds)).0 ≡ true
unfolding has
enqueue_keeps [] pending ds x h = unfold enqueue in h
enqueue_keeps (c ∷ cs) pending ds x h = elim (Bool-cases (has c ds)) [
  | inl old ↦ rw (enqueue_old c cs pending ds old) (enqueue_keeps cs pending ds x h)
  | inr new ↦ rw (enqueue_new c cs pending ds new) (
      enqueue_keeps cs (pending ++ c ∷ []) (add c ds) x
        (ground (arith, has-append x pending (c ∷ []))))
]

-- A delete that the loop makes is queued.
pub enqueue-queued :
    (cs pending ds : List String) (x : String)
    → has x (enqueue cs (pending, ds)).1 ≡ true
    → (has x ds || has x (enqueue cs (pending, ds)).0) ≡ true
unfolding has
enqueue-queued [] pending ds x h = unfold enqueue in ground arith
enqueue-queued (c ∷ cs) pending ds x h = elim (Bool-cases (has c ds)) [
  | inl old ↦
      rw (enqueue_old c cs pending ds old)
        (enqueue-queued cs pending ds x (rw (enqueue_old c cs pending ds old) at h))
  | inr new ↦ rw (enqueue_new c cs pending ds new) (
      ground (
        arith,
        enqueue-queued cs (pending ++ c ∷ []) (add c ds) x
            (rw (enqueue_new c cs pending ds new) at h),
        has-add c x ds,
        eq_iff c x,
        has-append_self c pending [],
        enqueue_keeps cs (pending ++ c ∷ []) (add c ds) c,
      ))
]
