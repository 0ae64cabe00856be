-- ===== src/Collab/Store.antt =====
-- board-state/persistence-domain.ts and load-domain.ts around the flush: everything that Redis and
-- Postgres hold of one board, the lock of an eviction, the eviction itself and the loading.
pub mod Errors
pub mod Persist
pub mod DirtyBoards
pub mod Cleanup
pub mod Eviction
pub mod Safety
pub mod Marks
pub mod Return
pub mod Retries
pub mod Candidates
use notebortt_backend.Common.Assoc.{put_all}
use notebortt_backend.Collab.Board.Maps.{is_some}
use notebortt_backend.Collab.MutationLock.{LockKey, is_taken, is_owner}
use notebortt_backend.Collab.Board.{Board, is_nil}
use notebortt_backend.Collab.Persistence.{load_board, Row}
use notebortt_backend.Collab.Presence.{Presence, prune_viewers}
use notebortt_backend.Common.{
  Bool, none, ℕ, String, List, if◌then◌else◌, [], if◌then◌else◌, not, ◌&&◌, ◌&&◌, false, length,
  some, true, ◌||◌, ◌||◌, ◌+◌, ◌+◌,
}

abbrev pub eviction_lock_ttl_ms : ℕ
eviction_lock_ttl_ms = 30_000

-- The keys `board:<id>:*`, and the rows of the board's elements.
pub record Store : Type 0 where
  pub state : Board
  pub presence : Presence
  pub mutation_lock : LockKey
  pub load_lock : LockKey
  pub eviction_lock : LockKey
  pub table : List (String × Row)

-- No key of the board, and no entry in the global sets.
abbrev pub no_board : Board
no_board = record {
  elements = [];
  seq = none;
  seen = [];
  changes = [];
  dirty_ids = [];
  deleted_ids = [];
  dirty_since = none;
  dirty_epoch = 0;
  last_active = none;
  last_flushed_seq = none;
  last_flushed_at = none;
  last_flush_duration = none;
  in_dirty = false;
  dirty_score = none;
  in_active = false;
}

abbrev pub no_presence : Presence
no_presence = record {
  collab_until = none;
  clients = [];
  leases = [];
  viewers = [];
  last_active = none;
  in_active = false;
}

-- SET key token PX 30000 NX.
unfoldable pub acquire_eviction_lock : ℕ → String → Store → Bool × Store
acquire_eviction_lock now token s =
    if is_taken now s.eviction_lock
    then (false, s)
    else (true, record s { eviction_lock = some (token, now + eviction_lock_ttl_ms) })

unfoldable pub release_eviction_lock : ℕ → String → Store → Store
release_eviction_lock now token s =
    if is_owner now token s.eviction_lock then record s { eviction_lock = none } else s

-- The viewers are pruned; the clients are counted as they are.
unfoldable pub is_board_idle_for_flush : ℕ → Store → Bool × Store
unfolding prune_viewers
is_board_idle_for_flush now s =
    let p = prune_viewers now s.presence in
    (is_nil p.clients && is_nil p.viewers, record s { presence = p })

-- SCAN with `board:<id>:*` and DEL, which take the three locks along, and the global sets.
unfoldable pub wipe : Store → Store
wipe s = record s {
  state = no_board;
  presence = no_presence;
  mutation_lock = none;
  load_lock = none;
  eviction_lock = none;
}

abbrev pub wipe_if_idle : Bool × Store → Store
wipe_if_idle (idle, s) = if idle then wipe s else s

unfoldable pub flush_board : ℕ → String → Bool → Store → Store
unfolding acquire_eviction_lock is_board_idle_for_flush release_eviction_lock wipe
flush_board now token require_idle s =
    let (acquired, s') = acquire_eviction_lock now token s in
    if not acquired
    then s'
    else release_eviction_lock now token
        (if require_idle then wipe_if_idle (is_board_idle_for_flush now s') else wipe s')

-- The condition on which `waitForBoardLoad` returns.
unfoldable pub is_settled : ℕ → Store → Bool
is_settled now s =
    not (is_taken now s.eviction_lock) && (is_some s.state.seq || not (is_taken now s.load_lock))

-- One round of the loop of `loadBoard`: it returns a number of rows, or goes on after a wait.
pub data LoadEnd : Type 0 where
  returns : ℕ → LoadEnd
  evicting : LoadEnd
  other_loads : LoadEnd

-- HSET of each element and SET of the sequence, in one pipeline.
unfoldable pub fill : ℕ → List (String × Row) → Store → Store
unfolding load_board
fill now rows s = record s {
  state = record s.state {
    elements = put_all (load_board now rows) s.state.elements;
    seq = some 0;
  };
}

abbrev pub release_load_lock : ℕ → String → LoadEnd × Store → LoadEnd × Store
release_load_lock now token (end, s) =
    (end, record s { load_lock = if is_owner now token s.load_lock then none else s.load_lock })

-- With the lock: `during` is what the others do while the rows are read.
abbrev pub load_locked : ℕ → (Store → Store) → Store → LoadEnd × Store
load_locked now during s =
    if is_some s.state.seq
    then (returns 0, s)
    else if is_some (during s).state.seq
    then (returns 0, during s)
    else (returns (length s.table), fill now s.table (during s))

-- `before` is what the others do until the lock is there.
unfoldable pub load_round : ℕ → String → (Store → Store) → (Store → Store) → Store → LoadEnd × Store
unfolding fill
load_round now token before during s =
    if is_taken now s.eviction_lock
    then (evicting, s)
    else if is_some s.state.seq
    then (returns 0, s)
    else if is_taken now s.load_lock
    then (other_loads, s)
    else release_load_lock now token (
        load_locked now during
          (before (record s { load_lock = some (token, now + eviction_lock_ttl_ms) })))
