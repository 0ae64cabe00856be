-- ===== src/Collab/Persistence/Interleaving.antt =====
-- What each step of a flush knows, and a flush that nothing interrupts.
use notebortt_backend.Collab.Persistence.Kept.{
  plan-Saves, clear_dirty-cases, plan-Spares, cleaned-IsTracked,
}
use notebortt_backend.Collab.Persistence.Steps.{
  World, IsSynced, flush_step, Flush, Inv, idle, written, IsSaved, Knows, begun, dirty_read,
  sets_read, planned,
}
use notebortt_backend.Collab.Element.{BoardElement}
use notebortt_backend.Common.Assoc.{put_all, delete_all}
use notebortt_backend.Common.Keys.{add_all}
use notebortt_backend.Collab.Board.{Board, is_nil}
use notebortt_backend.Collab.Persistence.{
  begin, plan_of, write, Row, clear_dirty, persist_board_incremental, plan_dirty,
}
use notebortt_backend.Collab.Board.Tracked.{IsTracked}
use notebortt_backend.Common.{
  ℕ, List, String, inl, ◌≡◌, ◌≡◌, false, inr, true, arith, refl, suc, [], zero, ◌&&◌, ◌∷◌,
}

pub flush-Inv :
    (ts now : ℕ) (b : Board) (rows : List (String × Row)) (fl : Flush)
    → IsTracked b
    → IsSynced b rows
    → Knows b rows fl
    → Inv (flush_step ts now (record { board = b; rows = rows; flush = fl }) fl)
unfolding flush_step begin
flush-Inv ts now b rows idle t s k = record { tracked = t; synced = s; knows = omega arith }
flush-Inv ts now b rows (begun f) t s k = record {
  tracked = t;
  synced = s;
  knows = (k, λ _. refl, λ x h. ground arith);
}
flush-Inv ts now b rows (dirty_read f dirty) t s (le, same, all) = record {
  tracked = t;
  synced = s;
  knows = (le, λ e. (same e, refl), all, λ x h. ground arith);
}
flush-Inv ts now b rows (sets_read f dirty deleted) t s (le, same, all, all') = record {
  tracked = t;
  synced = s;
  knows = (
    le,
    λ e. let (p, q) = same e in rw (p, q) (plan-Saves ts b rows t s),
    plan-Spares ts b rows t dirty deleted all all',
  );
}
flush-Inv ts now b rows (planned f plan) t s (le, same, spares) = record {
  tracked = t;
  synced = λ x named h. rw (spares x named h) (s x named h);
  knows = (le, same);
}
flush-Inv ts now b rows (written f) t s (le, same) = elim (clear_dirty-cases f now b) [
  | inl moved ↦ rw moved (record { tracked = t; synced = s; knows = tt })
  | inr (current, _, kept, clean, gone) ↦ record {
    tracked = cleaned-IsTracked b _ kept clean gone t;
    synced = λ x named _. rw kept (same current x named);
    knows = tt;
  }
]

write-nothing :
    (ts : ℕ) (elements : List (String × BoardElement)) (dirty deleted : List String)
    (rows : List (String × Row))
    → (is_nil dirty && is_nil deleted) ≡ true
    → write (plan_of ts elements dirty deleted) rows ≡ rows
unfolding write plan_of plan_dirty add_all put_all delete_all
write-nothing ts elements [] [] rows h = refl
write-nothing ts elements [] (d ∷ ds) rows h = cc
write-nothing ts elements (d ∷ ds) deleted rows h = cc

persist_board_incremental_lem :
    (ts : ℕ) (b : Board) (rows : List (String × Row))
    → write (plan_of ts b.elements b.dirty_ids b.deleted_ids) rows
      ≡ persist_board_incremental ts b rows
unfolding persist_board_incremental
persist_board_incremental_lem ts b rows =
    ground (arith, write-nothing ts b.elements b.dirty_ids b.deleted_ids rows)

abbrev pub flush_steps : ℕ → ℕ → ℕ → World → World
flush_steps ts now zero w = w
flush_steps ts now (suc n) w = let v = flush_steps ts now n w in flush_step ts now v v.flush

-- From a board whose unmarked elements are up to date in the table, and whose marks are in step
-- with its elements, a flush that no change and no other flush interrupts writes what
-- `persistBoardIncremental` computes from the board as it was, leaves the board marked as clean,
-- and the board's rows are then exactly its elements (the one without an identifier aside).
pub flush_steps-IsSaved :
    (ts now : ℕ) (b : Board) (rows : List (String × Row))
    → IsTracked b
    → IsSynced b rows
    → (((flush_steps ts now 6 (record { board = b; rows = rows; flush = idle })).rows
          ≡ persist_board_incremental ts b rows)
        × ((flush_steps ts now 6 (record { board = b; rows = rows; flush = idle })).board.in_dirty
            ≡ false)
        × IsSaved b (persist_board_incremental ts b rows))
unfolding flush_step begin clear_dirty
flush_steps-IsSaved ts now b rows t s = (
  persist_board_incremental_lem ts b rows,
  ground arith,
  rw (← persist_board_incremental_lem ts b rows) (plan-Saves ts b rows t s),
)
