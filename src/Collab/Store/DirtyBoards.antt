-- ===== src/Collab/Store/DirtyBoards.antt =====
-- persistence-domain.ts: `persistDirtyBoards` with its retries, and the policy of
-- board-persistence.service.ts. The world is that of all boards, and `persist` is a call of
-- `persistBoard` on it: whether it resolves, and the world after it.
use notebortt_backend.Common.Assoc.{keys}
use notebortt_backend.Collab.Board.{get_or}
use notebortt_backend.Common.{
  ℕ, String, Bool, max, Option, List, false, none, if◌then◌else◌, if◌then◌else◌, ◌∷◌, [], some, suc,
  eqb, ltb, filter_by, not, zero, true, leb, ◌&&◌, ◌&&◌, ◌-◌, ◌+◌, ◌-◌, ◌+◌, take_first,
}

-- `PersistDirtyBoardsOptions`, or a number.
pub data PersistOptions : Type 0 where
  just_limit : ℕ → PersistOptions
  options : (limit min_dirty_age_ms retry_attempts retry_delay_ms : Option ℕ) → PersistOptions

abbrev pub limit_of : PersistOptions → ℕ
limit_of (just_limit n) = n
limit_of (options limit min_age attempts delay) = get_or limit 25

abbrev pub min_dirty_age_of : PersistOptions → ℕ
min_dirty_age_of (just_limit n) = 0
min_dirty_age_of (options limit min_age attempts delay) = get_or min_age 0

abbrev pub retry_attempts_of : PersistOptions → ℕ
retry_attempts_of (just_limit n) = 1
retry_attempts_of (options limit min_age attempts delay) = max 1 (get_or attempts 3)

abbrev pub retry_delay_of : PersistOptions → ℕ
retry_delay_of (just_limit n) = 0
retry_delay_of (options limit min_age attempts delay) = get_or delay 250

-- The entries of `boards:dirty_by_age` in the order of their scores, up to the highest score that
-- is old enough: ZRANGEBYSCORE -inf max LIMIT 0 limit.
abbrev pub is_old : ℕ → ℕ → String × ℕ → Bool
is_old now min_age (board_id, score) = if eqb min_age 0 then true else leb (score + min_age) now

abbrev pub due_boards : ℕ → PersistOptions → List (String × ℕ) → List String
due_boards now o entries =
    keys (take_first (limit_of o) (filter_by (is_old now (min_dirty_age_of o)) entries))

-- A board whose own time stamp is younger than its score is left for the next run.
abbrev pub is_young : ℕ → ℕ → Option ℕ → Bool
is_young now min_age none = false
is_young now min_age (some since) = not (eqb since 0) && ltb (now - since) min_age

module _ {W : Type 0} (persist : String → W → Bool × W) (sleep : ℕ → W → W)
    (dirty_since : String → W → Option ℕ) (clock : W → ℕ) where
  abbrev pub pause : ℕ → W → W
  pause delay w = if ltb 0 delay then sleep delay w else w

  -- The `while` loop over the attempts: whether one has resolved, and how many were made.
  unfoldable pub attempt_all : ℕ → ℕ → String → W → Bool × ℕ × W
  attempt_all zero delay board_id w = (false, 0, w)
  attempt_all (suc attempts) delay board_id w =
      let (resolved, w') = persist board_id w in
      let (later, n, w'') =
        attempt_all attempts delay board_id (if eqb attempts 0 then w' else pause delay w') in
      if resolved then (true, 1, w') else (later, suc n, w'')

  unfoldable pub persist_each : PersistOptions → List String → W → List String × W
  unfolding attempt_all
  persist_each o [] w = ([], w)
  persist_each o (board_id ∷ ids) w =
      if is_young (clock w) (min_dirty_age_of o) (dirty_since board_id w)
      then persist_each o ids w
      else let (resolved, n, w') =
          attempt_all (retry_attempts_of o) (retry_delay_of o) board_id w in
        let (persisted, w'') = persist_each o ids w' in
        (if resolved then board_id ∷ persisted else persisted, w'')

  unfoldable pub persist_dirty_boards : PersistOptions → List (String × ℕ) → W → List String × W
  unfolding persist_each
  persist_dirty_boards o entries w = persist_each o (due_boards (clock w) o entries) w

  -- `flushDirtyBoards`: boards that have been dirty for 30 s, three attempts 250 ms apart.
  unfoldable pub flush_dirty_boards : List (String × ℕ) → W → List String × W
  unfolding persist_dirty_boards
  flush_dirty_boards = persist_dirty_boards (options none (some 30_000) (some 3) (some 250))
