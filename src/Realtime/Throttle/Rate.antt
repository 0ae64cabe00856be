-- ===== src/Realtime/Throttle/Rate.antt =====
-- How many events a connection gets through, and how often it hears of the throttle.
use notebortt_backend.Common.{
  List, ℕ, Bool, ◌∷◌, [], ◌≤◌, if◌then◌else◌, ◌*◌, ◌≤◌, false, suc, true, ◌+◌, arith,
}
use notebortt_backend.Realtime.Throttle.{
  on_event, Verdict, consume_event_token, dropped, Gate, token, error_spacing_ms, too_large,
  handled, refill_per_ms,
}

abbrev Ordered : ℕ → List (ℕ × Bool) → Type 0
Ordered from [] = Unit {0}
Ordered from ((now, exceeds) ∷ events) = (from ≤ now) × Ordered now events

abbrev pub run : List (ℕ × Bool) → Gate → Gate
run [] gate = gate
run ((now, exceeds) ∷ events) gate = run events (on_event now exceeds gate).1

abbrev pub is_passed : Verdict → Bool
is_passed (dropped notice) = false
is_passed too_large = true
is_passed handled = true

abbrev pub is_notice : Verdict → Bool
is_notice (dropped notice) = notice
is_notice too_large = false
is_notice handled = false

abbrev pub tally : (Verdict → Bool) → List (ℕ × Bool) → Gate → ℕ
tally counts [] gate = 0
tally counts ((now, exceeds) ∷ events) gate =
    let (verdict, gate') = on_event now exceeds gate in
    let rest = tally counts events gate' in if counts verdict then suc rest else rest

-- Over any events in order of time, the tokens used and left are at most those at the start and
-- the refill of the time that has passed: no more than 120 events a second get through beyond
-- the tokens in the bucket.
pub tally-passed-le :
    (events : List (ℕ × Bool)) (gate : Gate)
    → Ordered gate.bucket.bucket_updated_at events
    → tally is_passed events gate * token
        + (run events gate).bucket.bucket_tokens
        + refill_per_ms * gate.bucket.bucket_updated_at
      ≤ gate.bucket.bucket_tokens + refill_per_ms * (run events gate).bucket.bucket_updated_at
unfolding on_event consume_event_token
tally-passed-le [] gate h = omega arith
tally-passed-le ((now, exceeds) ∷ events) gate (later, h) =
    ground (arith, later, tally-passed-le events (on_event now exceeds gate).1)

-- Each notice of the throttle is at least a second after the one before: over any events in order
-- of time, the notices times the spacing fit in the time between the last notice before and the
-- last one of the run.
pub tally-notice-le :
    (events : List (ℕ × Bool)) (gate : Gate)
    → tally is_notice events gate * error_spacing_ms + gate.last_throttle_notice_at
      ≤ (run events gate).last_throttle_notice_at
unfolding on_event consume_event_token
tally-notice-le [] gate = omega arith
tally-notice-le ((now, exceeds) ∷ events) gate =
    ground (arith, tally-notice-le events (on_event now exceeds gate).1)
