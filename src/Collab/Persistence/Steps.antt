-- ===== src/Collab/Persistence/Steps.antt =====
-- A flush in its separate accesses to Redis and Postgres, between which changes may come, and what
-- holds at each of them.
use notebortt_backend.Common.Assoc.{get}
use notebortt_backend.Collab.Persistence.Write.{Matches}
use notebortt_backend.Common.Keys.{has}
use notebortt_backend.Collab.Mutation.{ChangeSet}
use notebortt_backend.Collab.Board.{Board, ApplyOptions, apply_change_set}
use notebortt_backend.Collab.Persistence.{Begun, begin, plan_of, write, Row, Plan, clear_dirty}
use notebortt_backend.Collab.Board.Tracked.{IsTracked, touched}
use notebortt_backend.Common.{ℕ, List, String, ◌≤◌, ◌≤◌, ◌==◌, ◌≡◌, ◌≡◌, false, true}

-- Where the flush stands, with what it has read so far.
pub data Flush : Type 0 where
  idle : Flush
  begun : Begun → Flush
  dirty_read : Begun → (dirty : List String) → Flush
  sets_read : Begun → (dirty deleted : List String) → Flush
  planned : Begun → Plan → Flush
  written : Begun → Flush

pub record World : Type 0 where
  pub board : Board
  pub rows : List (String × Row)
  pub flush : Flush

abbrev pub change_step : ℕ → ℕ → ApplyOptions → ChangeSet → World → World
change_step now server_now options change_set w = record w {
  board = (apply_change_set now server_now options change_set w.board).1;
}

-- The next step of the flush; `ts` is its time stamp, `now` the clock.
unfoldable pub flush_step : ℕ → ℕ → World → Flush → World
flush_step ts now w idle = record w { flush = begun (begin now w.board) }
flush_step ts now w (begun f) = record w { flush = dirty_read f w.board.dirty_ids }
flush_step ts now w (dirty_read f dirty) = record w {
  flush = sets_read f dirty w.board.deleted_ids;
}
flush_step ts now w (sets_read f dirty deleted) = record w {
  flush = planned f (plan_of ts w.board.elements dirty deleted);
}
flush_step ts now w (planned f plan) = record w { rows = write plan w.rows; flush = written f }
flush_step ts now w (written f) = record w {
  board = (clear_dirty true f now w.board).1;
  flush = idle;
}

-- Of an element that is not marked, the row is up to date. (A flush skips the empty identifier.)
abbrev pub IsSynced : Board → List (String × Row) → Type 0
IsSynced b rows =
    (x : String) → (x == "") ≡ false → touched b x ≡ false → Matches (get x b.elements) (get x rows)

abbrev pub IsSaved : Board → List (String × Row) → Type 0
IsSaved b rows = (x : String) → (x == "") ≡ false → Matches (get x b.elements) (get x rows)

-- All of them are marked.
abbrev pub AllTouched : Board → List String → Type 0
AllTouched b xs = (x : String) → has x xs ≡ true → touched b x ≡ true

-- Writing the plan brings the board's table up to date.
abbrev pub Saves : Board → List (String × Row) → Plan → Type 0
Saves b rows plan = IsSaved b (write plan rows)

-- Of an element that is not marked, writing the plan leaves the row as it is.
abbrev pub Spares : Board → List (String × Row) → Plan → Type 0
Spares b rows plan =
    (x : String) → (x == "") ≡ false → touched b x ≡ false → get x (write plan rows) ≡ get x rows

-- What a flush knows at each point: as long as no change has moved the epoch, what it has read is
-- current; and whatever it is going to write is marked.
abbrev pub Knows : Board → List (String × Row) → Flush → Type 0
Knows b rows idle = Unit {0}
Knows b rows (begun f) = f.epoch ≤ b.dirty_epoch
Knows b rows (dirty_read f dirty) =
    (f.epoch ≤ b.dirty_epoch) × (b.dirty_epoch ≡ f.epoch → dirty ≡ b.dirty_ids) × AllTouched b dirty
Knows b rows (sets_read f dirty deleted) =
    (f.epoch ≤ b.dirty_epoch)
    × (b.dirty_epoch ≡ f.epoch → (dirty ≡ b.dirty_ids) × (deleted ≡ b.deleted_ids))
    × AllTouched b dirty
    × AllTouched b deleted
Knows b rows (planned f plan) =
    (f.epoch ≤ b.dirty_epoch) × (b.dirty_epoch ≡ f.epoch → Saves b rows plan) × Spares b rows plan
Knows b rows (written f) = (f.epoch ≤ b.dirty_epoch) × (b.dirty_epoch ≡ f.epoch → IsSaved b rows)

pub record Inv (w : World) : Type 0 where
  pub tracked : IsTracked w.board
  pub synced : IsSynced w.board w.rows
  pub knows : Knows w.board w.rows w.flush
