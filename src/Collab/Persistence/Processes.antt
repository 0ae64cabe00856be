-- ===== src/Collab/Persistence/Processes.antt =====
-- Flushes of one board by several processes, and changes between their accesses. `persistLocks` of
-- persistence-domain.ts orders the flushes of one process only.
use notebortt_backend.Collab.Persistence.Kept.{change-Inv, clear_dirty-cases}
use notebortt_backend.Collab.Mutation.{ChangeSet}
use notebortt_backend.Collab.Persistence.{Row, Begun, clear_dirty}
use notebortt_backend.Collab.Board.Tracked.{IsTracked}
use notebortt_backend.Common.{
  ℕ, List, ◌∷◌, String, eqb, ◌≡◌, ◌≡◌, if◌then◌else◌, if◌then◌else◌, [], false, Bool-cases, inl,
  inr, true, ap,
}
use notebortt_backend.Collab.Board.{Board, apply_change_set, ApplyOptions}
use notebortt_backend.Collab.Persistence.Interleaving.{flush-Inv}
use notebortt_backend.Collab.Persistence.Steps.{
  World, flush_step, Flush, Inv, IsSynced, Knows, idle, written, IsSaved,
}

pub record Cluster : Type 0 where
  pub board : Board
  pub rows : List (String × Row)
  -- where each process stands with its flush of the board
  pub flushes : ℕ → Flush

pub data Turn : Type 0 where
  changes : (now server_now : ℕ) → ApplyOptions → ChangeSet → Turn
  advances : (process ts now : ℕ) → Turn

abbrev pub set_flush : ℕ → Flush → (ℕ → Flush) → ℕ → Flush
set_flush p f flushes q = if eqb q p then f else flushes q

-- What a process sees.
abbrev pub view_of : ℕ → Cluster → World
view_of p c = record { board = c.board; rows = c.rows; flush = c.flushes p }

unfoldable pub turn : Turn → Cluster → Cluster
unfolding flush_step
turn (changes now server_now options change_set) c = record c {
  board = (apply_change_set now server_now options change_set c.board).1;
}
turn (advances p ts now) c =
    let w = flush_step ts now (view_of p c) (c.flushes p) in
    record { board = w.board; rows = w.rows; flushes = set_flush p w.flush c.flushes }

abbrev pub turn_all : List Turn → Cluster → Cluster
turn_all [] c = c
turn_all (t ∷ ts) c = turn_all ts (turn t c)

-- A process goes on with its flush only while no other one is flushing the board.
abbrev pub AreSerial : List Turn → Cluster → Type 0
AreSerial [] c = Unit {0}
AreSerial (changes now server_now options change_set ∷ ts) c =
    AreSerial ts (turn (changes now server_now options change_set) c)
AreSerial (advances p stamp now ∷ ts) c =
    ((q : ℕ) → eqb q p ≡ false → c.flushes q ≡ idle) × AreSerial ts (turn (advances p stamp now) c)

abbrev pub resting : Board → List (String × Row) → Cluster
resting b rows = record { board = b; rows = rows; flushes = λ q. idle }

record AllInv (c : Cluster) : Type 0 where
  tracked : IsTracked c.board
  synced : IsSynced c.board c.rows
  knows : (q : ℕ) → Knows c.board c.rows (c.flushes q)

view-Inv : (c : Cluster) → AllInv c → (q : ℕ) → Inv (view_of q c)
view-Inv c i q = record { tracked = i.tracked; synced = i.synced; knows = i.knows q }

changes-AllInv :
    (now server_now : ℕ) (options : ApplyOptions) (change_set : ChangeSet) (c : Cluster)
    → AllInv c
    → AllInv (turn (changes now server_now options change_set) c)
unfolding turn
changes-AllInv now server_now options change_set c i =
    let j =
      λ (q : ℕ). change-Inv now server_now options change_set (view_of q c) (view-Inv c i q) in
    record { tracked = (j 0).tracked; synced = (j 0).synced; knows = λ q. (j q).knows }

advances-AllInv :
    (p ts now : ℕ) (c : Cluster)
    → AllInv c
    → ((q : ℕ) → eqb q p ≡ false → c.flushes q ≡ idle)
    → AllInv (turn (advances p ts now) c)
unfolding turn
advances-AllInv p ts now c i alone =
    let j = flush-Inv ts now c.board c.rows (c.flushes p) i.tracked i.synced (i.knows p) in
    record {
      tracked = j.tracked;
      synced = j.synced;
      knows = λ q. elim (Bool-cases (eqb q p)) [
        | inl same ↦ rw same j.knows
        | inr other ↦ rw (other, alone q other) tt
      ];
    }

turns-AllInv : (ts : List Turn) (c : Cluster) → AllInv c → AreSerial ts c → AllInv (turn_all ts c)
turns-AllInv [] c i serial = i
turns-AllInv (changes now server_now options change_set ∷ ts) c i serial =
    turns-AllInv ts (turn (changes now server_now options change_set) c)
      (changes-AllInv now server_now options change_set c i) serial
turns-AllInv (advances p stamp now ∷ ts) c i (alone, serial) =
    turns-AllInv ts (turn (advances p stamp now) c) (advances-AllInv p stamp now c i alone) serial

-- However changes fall between the accesses of flushes, none is lost, whichever processes flush the
-- board, as long as no two of them do at a time: from a board whose unmarked elements are up to date
-- in its rows and whose marks are in step with its elements, with no flush under way, the unmarked
-- elements are up to date after any such turns, so a change that a flush has missed is still marked
-- for the next one. No flush of another board takes a row of this one meanwhile.
pub turns-IsSynced :
    (ts : List Turn) (b : Board) (rows : List (String × Row))
    → IsTracked b
    → IsSynced b rows
    → AreSerial ts (resting b rows)
    → let c = turn_all ts (resting b rows) in IsSynced c.board c.rows
turns-IsSynced ts b rows t s serial =
    let i =
      turns-AllInv ts (resting b rows) (record { tracked = t; synced = s; knows = λ q. tt })
        serial in
    i.synced

-- When the last script of a process's flush marks the board as clean, after any changes and flushes
-- of any processes of which no two were under way at a time, the board's rows are exactly its
-- elements (the one without an identifier aside), if they were up to date for its unmarked elements
-- and its marks in step at first. No flush of another board takes a row of this one meanwhile.
pub turns-clear_dirty-IsSaved :
    (ts : List Turn) (b : Board) (rows : List (String × Row)) (p now : ℕ) (f : Begun)
    → IsTracked b
    → IsSynced b rows
    → AreSerial ts (resting b rows)
    → let c = turn_all ts (resting b rows) in
      c.flushes p ≡ written f
      → (clear_dirty true f now c.board).0 ≡ true
      → IsSaved (clear_dirty true f now c.board).1 c.rows
turns-clear_dirty-IsSaved ts b rows p now f t s serial at_end done =
    let c = turn_all ts (resting b rows) in
    let i =
      turns-AllInv ts (resting b rows) (record { tracked = t; synced = s; knows = λ q. tt })
        serial in
    let (le, saved) = rw at_end at (i.knows p) in
    elim (clear_dirty-cases f now c.board) [
      | inl moved ↦ absurd (cc (ap (λ r. r.0) moved))
      | inr (current, _, same, _, _) ↦ rw same (saved current)
    ]
