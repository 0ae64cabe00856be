-- ===== src/Realtime/Crdt/Deadline.antt =====
-- crdt-room.ts: how long the moves that updates bring wait for a flush.
use notebortt_backend.Realtime.Crdt.Newest.{crdt_steps, moves_in}
use notebortt_backend.Collab.Board.Maps.{is_some}
use notebortt_backend.Realtime.Ticks.{Position}
use notebortt_backend.Common.Assoc.{put}
use notebortt_backend.Realtime.Crdt.{
  observe, CrdtRoom, CrdtStep, start_crdt_flush, crdt_step, clear_timers, apply_remote_update,
  debounce_fires, default_crdt_max_wait_ms, max_wait_fires, schedule_flush, updates, debounce_ends,
  max_wait_ends, flushes_now, clears,
}
use notebortt_backend.Common.{
  ℕ, Option, List, Bool, String, ◌≤◌, ◌≤◌, true, some, ◌∷◌, [], ◌≡◌, ◌≡◌, leb, false, ◌&&◌, none,
  arith, ◌&&◌, ◌+◌, ◌||◌, refl, ◌||◌, Option-cases, inl, inr,
}
use notebortt_backend.Collab.Board.{is_nil}

abbrev pub is_due_by : ℕ → Option ℕ → Bool
is_due_by now none = true
is_due_by now (some due) = leb due (now + default_crdt_max_wait_ms)

-- While moves are pending both timers run, and the longest wait ends soon.
abbrev pub is_timed : {D : Type 0} → ℕ → Option (CrdtRoom D) → Bool
is_timed now none = true
is_timed now (some room) =
    is_due_by now room.crdt_max_wait_at
    && (is_nil room.crdt_moves || (is_some room.crdt_debounce_at && is_some room.crdt_max_wait_at))

is_due_by-later :
    (t now : ℕ) (at : Option ℕ) → t ≤ now → is_due_by t at ≡ true → is_due_by now at ≡ true
is_due_by-later t now none le h = refl
is_due_by-later t now (some due) le h = ground (arith, h, le)

-- The steps come in order of their times, from one time to another.
abbrev pub AreOrdered : ℕ → List (ℕ × CrdtStep) → ℕ → Type 0
AreOrdered from [] to = from ≤ to
AreOrdered from ((now, s) ∷ steps) to = (from ≤ now) × AreOrdered now steps to

abbrev pub max_wait_of : {D : Type 0} → Option (CrdtRoom D) → Option ℕ
max_wait_of none = none
max_wait_of (some room) = room.crdt_max_wait_at

observe-full :
    (changes : List (String × Option Position)) (pending : List (String × Position))
    → is_nil pending ≡ false
    → is_nil (observe changes pending) ≡ false
unfolding observe put
observe-full [] pending h = h
observe-full ((j, none) ∷ changes) pending h = observe-full changes pending h
observe-full ((j, some p) ∷ changes) [] h = cc h
observe-full ((j, some p) ∷ changes) ((i, q) ∷ pending) h =
    observe-full changes (put j p ((i, q) ∷ pending)) (ground arith)

later_timed :
    {D : Type 0}
    → (t to : ℕ) (room : Option (CrdtRoom D)) → t ≤ to
    → is_timed t room ≡ true
    → is_timed to room ≡ true
later_timed t to none le h = refl
later_timed t to (some room) le h =
    ground (arith, h, is_due_by-later t to room.crdt_max_wait_at le (ground (arith, h)))

timed-due :
    {D : Type 0}
    → (now : ℕ) (room : Option (CrdtRoom D)) → is_timed now room ≡ true
    → is_nil (moves_in room) ≡ false
    → (due : ℕ) × (max_wait_of room ≡ some due) × (due ≤ now + default_crdt_max_wait_ms)
timed-due now none h full = cc full
timed-due now (some room) h full = elim (Option-cases room.crdt_max_wait_at) [
  | inl unset ↦ ground (arith, h, unset, full)
  | inr (due, set) ↦ (due, set, ground (arith, h, set))
]

module _ {D : Type 0} (empty_doc : D)
    (merge : D → List ℕ → D × List (String × Option Position)) where
  flush-is_timed :
      (t now : ℕ) (room : CrdtRoom D)
      → t ≤ now
      → is_due_by t room.crdt_max_wait_at ≡ true
      → is_timed now (start_crdt_flush empty_doc merge (some room)).1 ≡ true
  unfolding start_crdt_flush clear_timers
  flush-is_timed t now room le h =
      ground (arith, h, le, is_due_by-later t now room.crdt_max_wait_at le h)

  step-is_timed :
      (t now : ℕ) (s : CrdtStep) (room : Option (CrdtRoom D))
      → t ≤ now
      → is_timed t room ≡ true
      → is_timed now (crdt_step empty_doc merge now s room).1 ≡ true
  unfolding crdt_step apply_remote_update debounce_fires max_wait_fires schedule_flush
      start_crdt_flush
  step-is_timed t now (updates user_id update) none le h = ground arith
  step-is_timed t now (updates user_id update) (some room) le h =
      elim (Option-cases room.crdt_max_wait_at) [
        | inl unset ↦ rw unset (ground arith)
        | inr (due, set) ↦
            let early = is_due_by-later t now (some due) le (ground (arith, h, set)) in
            rw set (ground (arith, early))
      ]
  step-is_timed t now debounce_ends none le h = refl
  step-is_timed t now debounce_ends (some room) le h =
      flush-is_timed t now (record room { crdt_debounce_at = none }) le (ground (arith, h))
  step-is_timed t now max_wait_ends none le h = refl
  step-is_timed t now max_wait_ends (some room) le h =
      flush-is_timed t now (record room { crdt_max_wait_at = none }) le refl
  step-is_timed t now flushes_now none le h = refl
  step-is_timed t now flushes_now (some room) le h =
      flush-is_timed t now room le (ground (arith, h))
  step-is_timed t now clears room le h = refl

  steps-is_timed :
      (t to : ℕ) (steps : List (ℕ × CrdtStep)) (room : Option (CrdtRoom D))
      → AreOrdered t steps to
      → is_timed t room ≡ true
      → is_timed to (crdt_steps empty_doc merge steps room).1 ≡ true
  steps-is_timed t to [] room order h = later_timed t to room order h
  steps-is_timed t to ((now, s) ∷ steps) room (le, order) h =
      steps-is_timed now to steps (crdt_step empty_doc merge now s room).1 order
        (step-is_timed t now s room le h)

  abbrev pub update_all : List (ℕ × String × List ℕ) → Option (CrdtRoom D) → Option (CrdtRoom D)
  update_all [] room = room
  update_all ((now, user_id, update) ∷ ups) room =
      update_all ups (apply_remote_update empty_doc merge now user_id update room)

  -- More updates neither move a deadline nor take moves away.
  update_all-keeps :
      (ups : List (ℕ × String × List ℕ)) (room : Option (CrdtRoom D)) (due : ℕ)
      → is_nil (moves_in room) ≡ false
      → max_wait_of room ≡ some due
      → (max_wait_of (update_all ups room) ≡ some due)
        × (is_nil (moves_in (update_all ups room)) ≡ false)
  unfolding apply_remote_update schedule_flush
  update_all-keeps [] room due full h = (h, full)
  update_all-keeps (up ∷ ups) none due full h = cc h
  update_all-keeps ((now, user_id, update) ∷ ups) (some room) due full h =
      update_all-keeps ups (apply_remote_update empty_doc merge now user_id update (some room)) due
        (observe-full (merge room.doc update).1 room.crdt_moves full) (rw h refl)

  flush-full :
      (room : Option (CrdtRoom D))
      → is_nil (moves_in room) ≡ false
      → is_some (max_wait_fires empty_doc merge room).0 ≡ true
  unfolding max_wait_fires start_crdt_flush
  flush-full none full = cc full
  flush-full (some room) full = rw full refl

  -- Whatever has happened to a board's room in order of time, a move that is pending has a deadline
  -- at most 1600 ms from now. No further update moves it, at whatever times they come, and when it
  -- is reached the pending moves are flushed.
  pub crdt_steps-deadline :
      (steps : List (ℕ × CrdtStep)) (now : ℕ) (ups : List (ℕ × String × List ℕ))
      → AreOrdered 0 steps now
      → let room = (crdt_steps empty_doc merge steps none).1 in
        is_nil (moves_in room) ≡ false
        → (due : ℕ) × (due ≤ now + default_crdt_max_wait_ms)
          × (max_wait_of (update_all ups room) ≡ some due)
          × (is_some (max_wait_fires empty_doc merge (update_all ups room)).0 ≡ true)
  crdt_steps-deadline steps now ups order full =
      let room = (crdt_steps empty_doc merge steps none).1 in
      let (due, set, early) =
        timed-due now room (steps-is_timed 0 now steps none order refl) full in
      let (kept, still) = update_all-keeps ups room due full set in
      (due, early, kept, flush-full (update_all ups room) still)
