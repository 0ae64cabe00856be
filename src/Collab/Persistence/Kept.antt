-- ===== src/Collab/Persistence/Kept.antt =====
-- What a change, the plan of a flush and the script that clears the marks keep.
use notebortt_backend.Collab.Persistence.Steps.{
  World, Flush, IsSynced, Inv, change_step, AllTouched, Saves, Knows, begun, Spares, dirty_read,
  sets_read, planned, written, idle,
}
use notebortt_backend.Common.Assoc.{get}
use notebortt_backend.Collab.Persistence.Write.{get-write-plan_of}
use notebortt_backend.Common.Keys.{has}
use notebortt_backend.Collab.Mutation.{ChangeSet}
use notebortt_backend.Collab.Board.{Board, ApplyOptions, apply_change_set}
use notebortt_backend.Collab.Persistence.{Begun, plan_of, Row, clear_dirty, to_element_row}
use notebortt_backend.Collab.Board.Tracked.{
  IsTracked, apply_change_set-epoch, apply_change_set-IsTracked, touched,
  apply_change_set-untouched, apply_change_set-touched,
}
use notebortt_backend.Common.{
  ℕ, List, String, inl, ◌≡◌, ◌≡◌, ◌+◌, false, inr, ◌+◌, true, arith, Bool-cases, Option-cases, ◌⊎◌,
  ◌⊎◌, ap, [],
}

-- A change keeps what the flush knows.
module _ (b b' : Board) (rows : List (String × Row)) (moved : b'.dirty_epoch ≡ b.dirty_epoch + 1)
    (grows : (x : String) → touched b x ≡ true → touched b' x ≡ true) where
  touched-false : (x : String) → touched b' x ≡ false → touched b x ≡ false
  touched-false x h = elim (Bool-cases (touched b x)) [
    | inl t ↦ absurd (cc (grows x t))
    | inr f ↦ f
  ]

  Knows-change : (fl : Flush) → Knows b rows fl → Knows b' rows fl
  Knows-change idle k = tt
  Knows-change (begun f) k = omega arith
  Knows-change (dirty_read f dirty) (le, same, all) =
      (omega arith, λ e. absurd (omega arith), λ x h. grows x (all x h))
  Knows-change (sets_read f dirty deleted) (le, same, all, all') =
      (omega arith, λ e. absurd (omega arith), λ x h. grows x (all x h), λ x h. grows x (all' x h))
  Knows-change (planned f plan) (le, same, spares) =
      (omega arith, λ e. absurd (omega arith), λ x named h. spares x named (touched-false x h))
  Knows-change (written f) (le, same) = (omega arith, λ e. absurd (omega arith))

pub change-Inv :
    (now server_now : ℕ) (options : ApplyOptions) (change_set : ChangeSet) (w : World)
    → Inv w
    → Inv (change_step now server_now options change_set w)
change-Inv now server_now options change_set w v =
    elim (apply_change_set-epoch now server_now options change_set w.board) [
      | inl e ↦ rw e v
      | inr moved ↦ record {
        tracked = apply_change_set-IsTracked now server_now options change_set w.board v.tracked;
        synced = λ x named h.
            let (before, same) =
              apply_change_set-untouched now server_now options change_set w.board x h in
            rw same (v.synced x named before);
        knows =
            Knows-change w.board (apply_change_set now server_now options change_set w.board).1
              w.rows moved (apply_change_set-touched now server_now options change_set w.board)
              w.flush v.knows;
      }
    ]

module _ (ts : ℕ) (b : Board) (rows : List (String × Row)) (tracked : IsTracked b) where
  pub plan-Saves : IsSynced b rows → Saves b rows (plan_of ts b.elements b.dirty_ids b.deleted_ids)
  unfolding to_element_row
  plan-Saves synced x named =
      rw (get-write-plan_of ts b.elements tracked.own_key b.dirty_ids b.deleted_ids rows x named)
        (elim (Option-cases (get x b.elements)) [
          | inl gone ↦ ground (arith, tracked.dirty_present x, synced x named)
          | inr (e, found) ↦ ground (arith, tracked.deleted_absent x, synced x named)
        ])

  pub plan-Spares :
      (dirty deleted : List String)
      → AllTouched b dirty
      → AllTouched b deleted
      → Spares b rows (plan_of ts b.elements dirty deleted)
  plan-Spares dirty deleted all all' x named h = ground (
    arith,
    get-write-plan_of ts b.elements tracked.own_key dirty deleted rows x named,
    all x,
    all' x,
  )

pub cleaned-IsTracked :
    (b c : Board)
    → c.elements ≡ b.elements
    → c.dirty_ids ≡ []
    → c.deleted_ids ≡ []
    → IsTracked b
    → IsTracked c
unfolding has
cleaned-IsTracked b c same clean gone t = record {
  own_key = λ x e h. t.own_key x e (rw same at h);
  apart = λ x h. absurd (cc (ap (has x) clean));
  dirty_present = λ x h. absurd (cc (ap (has x) clean));
  deleted_absent = λ x h. absurd (cc (ap (has x) gone));
}

-- The script at the end either finds the epoch moved and does nothing, or empties both sets.
pub clear_dirty-cases :
    (f : Begun) (now : ℕ) (b : Board)
    → (clear_dirty true f now b ≡ (false, b))
      ⊎ ((b.dirty_epoch ≡ f.epoch)
          × ((clear_dirty true f now b).0 ≡ true)
          × ((clear_dirty true f now b).1.elements ≡ b.elements)
          × ((clear_dirty true f now b).1.dirty_ids ≡ [])
          × ((clear_dirty true f now b).1.deleted_ids ≡ []))
unfolding clear_dirty
clear_dirty-cases f now b = ground arith
