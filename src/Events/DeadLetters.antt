-- ===== src/Events/DeadLetters.antt =====
-- The count of the dead letters of a bus, over any sequence of its steps.
use notebortt_backend.Collab.Board.{get_or}
use notebortt_backend.Common.{
  List, ℕ, Bool, arith, String, ◌≡◌, ◌≡◌, ◌+◌, ◌++◌, ◌∷◌, [], ◌+◌, ◌++◌, ◌<◌, ◌<◌, true, refl,
  Option, ◌⊎◌, ◌⊎◌, Bool-cases, eqb, inl, inr,
}
use notebortt_backend.Common.Assoc.{put, get}
use notebortt_backend.Events.{
  AppEvent, Decoded, to_park, Job, to_dispatch, DeadLetterReason, decode_job, reason_text,
}
use notebortt_backend.Events.Consumer.{
  park_dead_letter, Bus, flush_dlq_summary, Summary, BusStep, CallEnd, bus_step, job_arrives,
  handle_domain_event_job, on, subscribes, unsubscribe, leaves, close, summary_due, closes,
  bus_steps, start_consumers, handle_decoded, DeadLetter, new_bus,
}

abbrev sum_of : List (String × ℕ) → ℕ
sum_of [] = 0
sum_of ((k, n) ∷ m) = n + sum_of m

abbrev pub reported : List Summary → ℕ
reported [] = 0
reported (s ∷ ss) = s.summary_total + reported ss

abbrev is_parked : Decoded → ℕ
is_parked (to_park reason) = 1
is_parked (to_dispatch event board_id) = 0

-- The jobs of a sequence of steps that cannot be decoded.
abbrev pub parked : List BusStep → ℕ
parked [] = 0
parked (job_arrives accepted job ∷ ss) = is_parked (decode_job job) + parked ss
parked (summary_due ∷ ss) = parked ss
parked (subscribes event handler ∷ ss) = parked ss
parked (leaves event handler ∷ ss) = parked ss
parked (closes ∷ ss) = parked ss

record IsCounted (bus : Bus) : Type 0 where
  pub counted : bus.since_boot ≡ reported bus.summaries + bus.window_total
  pub by_reason : sum_of bus.window_by_reason ≡ bus.window_total
  pub announced : 0 < bus.window_total → bus.timer_runs ≡ true

sum_of-put :
    (k : String) (m : List (String × ℕ)) → sum_of (put k (get_or (get k m) 0 + 1) m) ≡ sum_of m + 1
unfolding put get
sum_of-put k [] = omega arith
sum_of-put k ((j, n) ∷ m) = ground (arith, sum_of-put k m)

reported-append :
    (ss : List Summary) (s : Summary) → reported (ss ++ s ∷ []) ≡ reported ss + s.summary_total
reported-append [] s = omega arith
reported-append (x ∷ ss) s = omega (arith, reported-append ss s)

flush_dlq_summary-IsCounted : (bus : Bus) → IsCounted bus → IsCounted (flush_dlq_summary bus)
unfolding flush_dlq_summary
flush_dlq_summary-IsCounted bus h = ground (
  arith,
  h.counted,
  h.by_reason,
  reported-append bus.summaries (record {
    summary_total = bus.window_total;
    summary_since_boot = bus.since_boot;
    summary_by_reason = bus.window_by_reason;
  }),
)

park_dead_letter-IsCounted :
    (accepted : Bool) (job : Job) (reason : DeadLetterReason) (bus : Bus)
    → IsCounted bus
    → IsCounted (park_dead_letter accepted job reason bus).1
unfolding park_dead_letter
park_dead_letter-IsCounted accepted job reason bus h =
    ground (arith, h.counted, h.by_reason, sum_of-put (reason_text reason) bus.window_by_reason)

flushed_since_boot : (bus : Bus) → (flush_dlq_summary bus).since_boot ≡ bus.since_boot
unfolding flush_dlq_summary
flushed_since_boot bus = ground arith

timer_or_empty : (bus : Bus) → IsCounted bus → (bus.window_total ≡ 0) ⊎ (bus.timer_runs ≡ true)
timer_or_empty bus h = elim (Bool-cases (eqb bus.window_total 0)) [
  | inl empty ↦ inl (ground arith)
  | inr some_left ↦ inr (h.announced (ground arith))
]

parked_step : (s : BusStep) (ss : List BusStep) → parked (s ∷ ss) ≡ parked (s ∷ []) + parked ss
parked_step (job_arrives accepted job) ss = omega arith
parked_step summary_due ss = omega arith
parked_step (subscribes event handler) ss = omega arith
parked_step (leaves event handler) ss = omega arith
parked_step closes ss = omega arith

module _ (run : AppEvent → String → String → CallEnd) where
  handle_decoded-IsCounted :
      (accepted : Bool) (job : Job) (d : Decoded) (bus : Bus)
      → IsCounted bus
      → IsCounted (handle_decoded run accepted job d bus).2
        × ((handle_decoded run accepted job d bus).2.since_boot ≡ bus.since_boot + is_parked d)
  unfolding handle_decoded
  handle_decoded-IsCounted accepted job (to_park reason) bus h =
      (park_dead_letter-IsCounted accepted job reason bus h, unfold park_dead_letter in refl)
  handle_decoded-IsCounted accepted job (to_dispatch event board_id) bus h = (h, omega arith)

  bus_step-IsCounted :
      (s : BusStep) (bus : Bus)
      → IsCounted bus
      → IsCounted (bus_step run s bus)
        × ((bus_step run s bus).since_boot ≡ bus.since_boot + parked (s ∷ []))
  unfolding bus_step handle_domain_event_job on unsubscribe close start_consumers
  bus_step-IsCounted (job_arrives accepted job) bus h =
      ground (arith, handle_decoded-IsCounted accepted job (decode_job job) bus h)
  bus_step-IsCounted summary_due bus h =
      ground (arith, flush_dlq_summary-IsCounted bus h, flushed_since_boot bus)
  bus_step-IsCounted (subscribes event handler) bus h =
      ground (arith, h.counted, h.by_reason, h.announced)
  bus_step-IsCounted (leaves event handler) bus h = ground (arith, h.counted, h.by_reason)
  bus_step-IsCounted closes bus h =
      ground (arith, flush_dlq_summary-IsCounted bus h, flushed_since_boot bus)

  bus_steps-IsCounted :
      (ss : List BusStep) (bus : Bus)
      → IsCounted bus
      → IsCounted (bus_steps run ss bus)
        × ((bus_steps run ss bus).since_boot ≡ bus.since_boot + parked ss)
  unfolding bus_steps
  bus_steps-IsCounted [] bus h = (h, omega arith)
  bus_steps-IsCounted (s ∷ ss) bus h = ground (
    arith,
    bus_step-IsCounted s bus h,
    bus_steps-IsCounted ss (bus_step run s bus),
    parked_step s ss,
  )

  -- Over any events, jobs, summaries and restarts of the consumers of a new bus, the dead letters
  -- that the logged summaries report and those of the open window add up to the jobs that could not
  -- be decoded. While the window is not empty the timer of the next summary runs, and after the
  -- bus is closed the summaries have reported every dead letter.
  pub bus_steps-reported :
      (dlq : Option (List DeadLetter)) (ss : List BusStep)
      → let bus = bus_steps run ss (new_bus dlq) in
        (reported bus.summaries + bus.window_total ≡ parked ss)
        × ((bus.window_total ≡ 0) ⊎ (bus.timer_runs ≡ true))
        × (reported (close bus).summaries ≡ parked ss)
  unfolding close flush_dlq_summary
  bus_steps-reported dlq ss =
      let bus = bus_steps run ss (new_bus dlq) in
      let (h, total) = bus_steps-IsCounted ss (new_bus dlq) (ground arith) in
      (
        omega (arith, h.counted, total),
        timer_or_empty bus h,
        ground (
          arith,
          h.counted,
          total,
          reported-append bus.summaries (record {
            summary_total = bus.window_total;
            summary_since_boot = bus.since_boot;
            summary_by_reason = bus.window_by_reason;
          }),
        ),
      )
