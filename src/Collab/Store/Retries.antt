-- ===== src/Collab/Store/Retries.antt =====
-- How many boards and attempts a run of the flush makes, and which boards it reports.
use notebortt_backend.Common.Assoc.{keys}
use notebortt_backend.Collab.Store.DirtyBoards.{
  attempt_all, pause, persist_each, PersistOptions, persist_dirty_boards, due_boards, is_young,
  min_dirty_age_of, limit_of, retry_attempts_of, just_limit, retry_delay_of, is_old, options,
}
use notebortt_backend.Common.{
  ℕ, List, String, Bool, length, ◌≤◌, Option, ◌≤◌, ◌≡◌, suc, ◌≡◌, arith, ◌∷◌, true, ◌⊎◌, Bool-cases,
  ◌⊎◌, ap, [], zero, inr, refl, inl, if◌then◌else◌, if◌then◌else◌, eqb, ltb, ◌&&◌, ◌<◌, ◌<◌, ◌&&◌,
  ◌∙◌, ◌∙◌, filter_by, false, take_first, length-take_first-le,
}

length-keys : (m : List (String × ℕ)) → length (keys m) ≡ length m
length-keys [] = refl
length-keys (e ∷ m) = ap suc (length-keys m)

retry_attempts-pos : (o : PersistOptions) → 0 < retry_attempts_of o
retry_attempts-pos (just_limit n) = omega arith
retry_attempts-pos (options limit min_age attempts delay) = omega arith

length-due_boards-le :
    (now : ℕ) (o : PersistOptions) (entries : List (String × ℕ))
    → length (due_boards now o entries) ≤ limit_of o
length-due_boards-le now o entries = omega (
  arith,
  length-keys (take_first (limit_of o) (filter_by (is_old now (min_dirty_age_of o)) entries)),
  length-take_first-le (limit_of o) (filter_by (is_old now (min_dirty_age_of o)) entries),
)

module _ {W : Type 0} (persist : String → W → Bool × W) (sleep : ℕ → W → W)
    (dirty_since : String → W → Option ℕ) (clock : W → ℕ) where
  -- One of the attempts has resolved, or all of them are used up.
  attempt_all-le :
      (attempts delay : ℕ) (board_id : String) (w : W)
      → let (resolved, n, w') =
          attempt_all persist sleep dirty_since clock attempts delay board_id w in
        (n ≤ attempts) × ((resolved ≡ true) ⊎ (n ≡ attempts))
  unfolding attempt_all
  attempt_all-le zero delay board_id w = (omega arith, inr refl)
  attempt_all-le (suc attempts) delay board_id w =
      let w' = (persist board_id w).1 in
      let (low, ends) =
        attempt_all-le attempts delay board_id
          (if eqb attempts 0 then w' else pause persist sleep dirty_since clock delay w') in
      elim (Bool-cases (persist board_id w).0) [
        | inl resolved ↦ rw resolved (omega arith, inl refl)
        | inr rejected ↦ rw rejected (
          omega (arith, low),
          elim ends [ inl later ↦ inl later | inr all_used ↦ inr (ap suc all_used) ],
        )
      ]

  module _ (works : String → Bool)
      (persist-works : (board_id : String) (w : W) → (persist board_id w).0 ≡ works board_id) where
    attempt_all-works :
        (attempts delay : ℕ) (board_id : String) (w : W)
        → (attempt_all persist sleep dirty_since clock attempts delay board_id w).0
          ≡ (ltb 0 attempts && works board_id)
    unfolding attempt_all
    attempt_all-works zero delay board_id w = refl
    attempt_all-works (suc attempts) delay board_id w =
        let w' = (persist board_id w).1 in
        elim (Bool-cases (works board_id)) [
          | inl good ↦ rw (persist-works board_id w ∙ good, good) (ground arith)
          | inr bad ↦
              rw (persist-works board_id w ∙ bad, bad)
                (attempt_all-works attempts delay board_id
                    (if eqb attempts 0 then w' else pause persist sleep dirty_since clock delay w')
                  ∙ (rw bad (ground arith)))
        ]

    persist_each-works :
        (o : PersistOptions) (ids : List String) (w : W)
        → ((board_id : String) (v : W)
            → is_young (clock v) (min_dirty_age_of o) (dirty_since board_id v) ≡ false)
        → 0 < retry_attempts_of o
        → (persist_each persist sleep dirty_since clock o ids w).0 ≡ filter_by works ids
    unfolding persist_each
    persist_each-works o [] w old some_attempt = refl
    persist_each-works o (x ∷ ids) w old some_attempt = ground (
      arith,
      old x w,
      attempt_all-works (retry_attempts_of o) (retry_delay_of o) x w,
      persist_each-works o ids
          (attempt_all persist sleep dirty_since clock (retry_attempts_of o) (retry_delay_of o) x
            w).2
          old some_attempt,
    )

    -- A run of the flush reports exactly those of the due boards whose flush works, in the order of
    -- their age, and goes on after one that fails; it takes at most as many boards as its limit and
    -- makes at most as many attempts for a board as its options say, all of them before it gives a
    -- board up. Here the flush of a board is any function by which each board's flush works always
    -- or never, and no board is too young at any time by its own time stamp.
    pub persist_dirty_boards_lem :
        (o : PersistOptions) (entries : List (String × ℕ)) (w : W)
        → ((board_id : String) (v : W)
            → is_young (clock v) (min_dirty_age_of o) (dirty_since board_id v) ≡ false)
        → let due = due_boards (clock w) o entries in
          ((persist_dirty_boards persist sleep dirty_since clock o entries w).0
            ≡ filter_by works due)
          × (length due ≤ limit_of o)
          × ((board_id : String) (v : W)
              → let (resolved, n, v') =
                  attempt_all persist sleep dirty_since clock
                    (retry_attempts_of o)
                    (retry_delay_of o)
                    board_id
                    v in
                (n ≤ retry_attempts_of o) × ((resolved ≡ true) ⊎ (n ≡ retry_attempts_of o)))
    unfolding persist_dirty_boards
    persist_dirty_boards_lem o entries w old = (
      persist_each-works o (due_boards (clock w) o entries) w old (retry_attempts-pos o),
      length-due_boards-le (clock w) o entries,
      λ board_id v. attempt_all-le (retry_attempts_of o) (retry_delay_of o) board_id v,
    )
