-- ===== src/Realtime/CrdtTests.antt =====
-- What the updates, timers and flushes of a CRDT room make of concrete runs.
use notebortt_backend.Collab.Board.Maps.{is_some}
use notebortt_backend.Collab.Element.{num}
use notebortt_backend.Realtime.Ticks.{Position}
use notebortt_backend.Common.Assoc.{get, or_else, put}
use notebortt_backend.Common.{
  ℕ, List, String, Option, none, ◌∷◌, ◌∷◌, suc, [], some, ◌≡◌, ◌≡◌, ◌≤◌, ◌≤◌, ◌+◌, ◌+◌, refl, true,
  arith,
}
use notebortt_backend.Realtime.Crdt.{
  crdt_step, apply_remote_update, CrdtStep, debounce_fires, updates, max_wait_fires,
  start_crdt_flush, observe, clear_timers, debounce_ends, schedule_flush, default_crdt_max_wait_ms,
}
use notebortt_backend.Realtime.Crdt.Newest.{
  crdt_steps-newest, crdt_steps, moves_in, newest_flush, newest_change, observed,
}
use notebortt_backend.Realtime.Crdt.Deadline.{crdt_steps-deadline, max_wait_of, update_all}

-- A document that counts the bytes it has merged and moves one element to the count; an empty
-- update deletes it.
abbrev counting : ℕ → List ℕ → ℕ × List (String × Option Position)
counting doc [] = (doc, ("a", none) ∷ [])
counting doc (byte ∷ update) = (suc doc, ("a", some (num (suc doc), num 0)) ∷ [])

abbrev run : List (ℕ × CrdtStep)
run =
    (10, updates "ann" (7 ∷ []))
    ∷ ((410, debounce_ends) ∷ ((500, updates "bob" (8 ∷ [])) ∷ ((510, updates "ann" []) ∷ [])))

crdt_steps-newest_example :
    let (batches, room) = crdt_steps 0 counting run none in
    or_else (get "a" (moves_in room)) (newest_flush "a" batches)
    ≡ or_else (newest_change "a" (observed 0 counting run none)) none
unfolding get
crdt_steps-newest_example = crdt_steps-newest 0 counting run none "a" refl

crdt_steps-deadline_example :
    (due : ℕ) × (due ≤ 510 + default_crdt_max_wait_ms)
    × (max_wait_of
          (update_all 0 counting ((2000, "eve", 1 ∷ []) ∷ []) (crdt_steps 0 counting run none).1)
        ≡ some due)
    × (is_some
          (max_wait_fires 0 counting (
            update_all 0 counting
              ((2000, "eve", 1 ∷ []) ∷ [])
              (crdt_steps 0 counting run none).1)).0
        ≡ true)
unfolding crdt_step apply_remote_update debounce_fires max_wait_fires start_crdt_flush observe put
    schedule_flush
crdt_steps-deadline_example =
    crdt_steps-deadline 0 counting run 510 ((2000, "eve", 1 ∷ []) ∷ [])
      (omega arith, (omega arith, (omega arith, (omega arith, omega arith)))) refl

moves_test :
    (moves_in (crdt_steps 0 counting run none).1 ≡ ("a", (num 2, num 0)) ∷ [])
    × (max_wait_of (crdt_steps 0 counting run none).1 ≡ some 2_100)
unfolding crdt_step apply_remote_update debounce_fires start_crdt_flush clear_timers observe put
    schedule_flush
moves_test = (refl, refl)
