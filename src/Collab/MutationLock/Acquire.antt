-- ===== src/Collab/MutationLock/Acquire.antt =====
-- The wait for the lock ends, however long its polls take.
use notebortt_backend.Common.{
  ℕ, Bool, Option, ◌≡◌, ◌+◌, ◌<◌, ◌≡◌, ◌<◌, false, ◌*◌, ◌*◌, arith, true, some, suc, none, zero,
  ◌≤◌, ◌≤◌, leb, if◌then◌else◌, refl,
}
use notebortt_backend.Collab.MutationLock.{
  poll_lock, acquire_mutation_lock, acquire_timeout_ms, poll_ms, Wait, later_waits, runs_at,
  reads_at, next_at,
}

-- As many polls as can start before the deadline, and one.
abbrev pub enough : ℕ
enough = 81

-- When the loop starts its poll after `k` others.
abbrev pub poll_at : (ℕ → Wait) → ℕ → ℕ → ℕ
poll_at waits now zero = now
poll_at waits now (suc k) = poll_at (later_waits waits) (next_at now (waits 0)) k

-- When Redis runs the SET of that poll, and when the clock is read after it.
abbrev pub set_at : (ℕ → Wait) → ℕ → ℕ → ℕ
set_at waits now k = runs_at (poll_at waits now k) (waits k)

abbrev pub read_at : (ℕ → Wait) → ℕ → ℕ → ℕ
read_at waits now k = reads_at (poll_at waits now k) (waits k)

module _ (free : ℕ → Bool) (deadline : ℕ) where
  -- The first `k` polls find the lock taken, and the clock before the deadline.
  abbrev pub HaveFailed : (ℕ → Wait) → ℕ → ℕ → Type 0
  HaveFailed waits now k =
      (j : ℕ) → j < k → (free (set_at waits now j) ≡ false) × (read_at waits now j < deadline)

  -- The wait ends with the poll `k`: the lock, or the error.
  abbrev pub IsTaken : (ℕ → Wait) → ℕ → ℕ → ℕ → Type 0
  IsTaken waits now t k = (t ≡ set_at waits now k) × (free t ≡ true) × HaveFailed waits now k

  abbrev pub IsGivenUp : (ℕ → Wait) → ℕ → ℕ → Type 0
  IsGivenUp waits now k =
      (free (set_at waits now k) ≡ false)
      × (deadline ≤ read_at waits now k)
      × HaveFailed waits now k

  abbrev pub IsAnswered : ℕ → (ℕ → Wait) → ℕ → Option (Option ℕ) → Type 0
  IsAnswered polls waits now none = false ≡ true
  IsAnswered polls waits now (some (some t)) = (k : ℕ) × ((k < polls) × IsTaken waits now t k)
  IsAnswered polls waits now (some none) = (k : ℕ) × ((k < polls) × IsGivenUp waits now k)

  HaveFailed-none : (waits : ℕ → Wait) (now : ℕ) → HaveFailed waits now 0
  HaveFailed-none waits now j h = absurd (omega (arith, h))

  HaveFailed-next :
      (waits : ℕ → Wait) (now k : ℕ)
      → free (runs_at now (waits 0)) ≡ false
      → reads_at now (waits 0) < deadline
      → HaveFailed (later_waits waits) (next_at now (waits 0)) k
      → HaveFailed waits now (suc k)
  HaveFailed-next waits now k taken before failed zero h = (taken, before)
  HaveFailed-next waits now k taken before failed (suc j) h = failed j (omega (arith, h))

  IsAnswered-next :
      (polls : ℕ) (waits : ℕ → Wait) (now : ℕ) (answer : Option (Option ℕ))
      → free (runs_at now (waits 0)) ≡ false
      → reads_at now (waits 0) < deadline
      → IsAnswered polls (later_waits waits) (next_at now (waits 0)) answer
      → IsAnswered (suc polls) waits now answer
  IsAnswered-next polls waits now none taken before later = later
  IsAnswered-next polls waits now (some (some t)) taken before
        (k, (small, (at, open_then, failed))) =
      (
        suc k,
        (omega (arith, small), (at, open_then, HaveFailed-next waits now k taken before failed)),
      )
  IsAnswered-next polls waits now (some none) taken before (k, (small, (refused, over, failed))) = (
    suc k,
    (omega (arith, small), (refused, over, HaveFailed-next waits now k taken before failed)),
  )

-- A predicate on what two tests choose among.
choose {ℓ κ} :
    {A : Type ℓ} (P : A → Type κ) (b c : Bool) (x y z : A)
    → (b ≡ true → P x)
    → (b ≡ false → c ≡ true → P y)
    → (b ≡ false → c ≡ false → P z)
    → P (if b then x else if c then y else z)
choose P true c x y z hx hy hz = hx refl
choose P false true x y z hx hy hz = hy refl refl
choose P false false x y z hx hy hz = hz refl refl

poll_lock-IsAnswered :
    (fuel : ℕ) (free : ℕ → Bool) (waits : ℕ → Wait) (deadline now : ℕ)
    → deadline ≤ now + fuel * poll_ms
    → IsAnswered free deadline (suc fuel) waits now (poll_lock (suc fuel) free waits deadline now)
unfolding poll_lock
poll_lock-IsAnswered zero free waits deadline now h =
    let w = waits 0 in
    choose (IsAnswered free deadline (suc zero) waits now) (free (runs_at now w))
      (leb deadline (reads_at now w)) _ _ _
      (λ open_now. (0, (omega arith, (refl, open_now, HaveFailed-none free deadline waits now))))
      (λ taken over.
        (0, (omega arith, (taken, ground (arith, over), HaveFailed-none free deadline waits now))))
      (λ taken before. absurd (ground (arith, h, before)))
poll_lock-IsAnswered (suc fuel) free waits deadline now h =
    let w = waits 0 in
    choose (IsAnswered free deadline (suc (suc fuel)) waits now) (free (runs_at now w))
      (leb deadline (reads_at now w)) _ _ _
      (λ open_now. (0, (omega arith, (refl, open_now, HaveFailed-none free deadline waits now))))
      (λ taken over.
        (0, (omega arith, (taken, ground (arith, over), HaveFailed-none free deadline waits now))))
      (λ taken before.
        IsAnswered-next free deadline (suc fuel) waits now _ taken (ground (arith, before)) (
          poll_lock-IsAnswered fuel free (later_waits waits) deadline (next_at now w)
            (omega (arith, h))))

-- Whatever each SET, each answer and each sleep takes, a process that waits for the lock of a board
-- gets an answer in at most 81 polls: the lock, at the first poll whose SET finds it free, where
-- after every poll before the clock was still before the deadline of two seconds; or the error 503,
-- at the first poll after which the clock has reached the deadline, where this poll and every one
-- before found the lock taken.
pub acquire_mutation_lock-IsAnswered :
    (free : ℕ → Bool) (waits : ℕ → Wait) (started_at : ℕ)
    → IsAnswered free
        (started_at + acquire_timeout_ms)
        enough
        waits
        started_at
        (acquire_mutation_lock enough free waits started_at)
unfolding acquire_mutation_lock
acquire_mutation_lock-IsAnswered free waits started_at =
    poll_lock-IsAnswered 80 free waits (started_at + acquire_timeout_ms) started_at (omega arith)
