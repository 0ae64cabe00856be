-- ===== src/Events/Consumer.antt =====
-- shared/events.ts, the consumer's side of the BullMQ bus: the handlers, the dead letters and their
-- summaries, the workers. A handler is named, and what it does with a board is an argument; the
-- texts of zod's errors are an argument too.
use notebortt_backend.Common.Keys.{add, remove}
use notebortt_backend.Collab.Element.{Value, str}
use notebortt_backend.Common.Assoc.{put, get}
use notebortt_backend.Collab.Board.{get_or}
use notebortt_backend.Events.{
  AppEvent, Job, DeadLetterReason, decode_job, event_name, to_park, reason_text, to_dispatch,
  Decoded,
}
use notebortt_backend.Common.{
  List, String, [], ℕ, if◌then◌else◌, Option, Bool, eqb, some, true, none, ◌∷◌, false, ◌++◌, ◌+◌,
  ◌+◌, ◌++◌,
}

-- What a call of a handler comes to: the promise resolves, rejects, or there is none since the
-- handler throws before its first wait.
pub data CallEnd : Type 0 where
  resolves : CallEnd
  rejects : String → CallEnd
  throws : String → CallEnd

pub record DeadLetter : Type 0 where
  pub original_queue : String
  pub original_job_id : Option String
  pub dead_event : String
  pub dead_reason : DeadLetterReason
  pub dead_envelope : Option Value

-- A line `domain_events.dlq_summary` of the log.
pub record Summary : Type 0 where
  pub summary_total : ℕ
  pub summary_since_boot : ℕ
  pub summary_by_reason : List (String × ℕ)

pub record Bus : Type 0 where
  -- `handlersByEvent`
  pub handlers : List (String × List String)
  pub workers : List String
  pub consumers_started : Bool
  -- `dlqWindow`
  pub window_total : ℕ
  pub window_by_reason : List (String × ℕ)
  pub since_boot : ℕ
  -- whether `dlqSummaryTimer` runs
  pub timer_runs : Bool
  -- the queue of dead letters, where one is wired
  pub dlq : Option (List DeadLetter)
  -- the summaries that have been logged
  pub summaries : List Summary

abbrev pub handlers_of : AppEvent → Bus → List String
handlers_of event bus = get_or (get (event_name event) bus.handlers) []

abbrev pub summary_of : Bus → Summary
summary_of bus = record {
  summary_total = bus.window_total;
  summary_since_boot = bus.since_boot;
  summary_by_reason = bus.window_by_reason;
}

-- `flushDlqSummary`, and what the timer of `scheduleDlqSummary` does when it fires.
unfoldable pub flush_dlq_summary : Bus → Bus
flush_dlq_summary bus =
    if eqb bus.window_total 0 then record bus { timer_runs = false } else record bus {
      timer_runs = false;
      summaries = bus.summaries ++ summary_of bus ∷ [];
      window_total = 0;
      window_by_reason = [];
    }

abbrev pub text_or_unknown : Option Value → String
text_or_unknown (some (str s)) = s
text_or_unknown _ = "unknown"

abbrev pub dead_letter : Job → DeadLetterReason → DeadLetter
dead_letter job reason = record {
  original_queue = job.queue_name;
  original_job_id = job.job_id;
  dead_event = text_or_unknown job.job_event;
  dead_reason = reason;
  dead_envelope = job.job_envelope;
}

-- `dlq.add`, which may fail; without a queue the record is only logged.
abbrev pub add_record :
    Bool → DeadLetter → Option (List DeadLetter) → Bool × Option (List DeadLetter)
add_record accepted letter none = (true, none)
add_record accepted letter (some records) =
    if accepted then (true, some (records ++ letter ∷ [])) else (false, some records)

-- Whether the job ends well, and the bus.
unfoldable pub park_dead_letter : Bool → Job → DeadLetterReason → Bus → Bool × Bus
park_dead_letter accepted job reason bus =
    let (added, dlq') = add_record accepted (dead_letter job reason) bus.dlq in
    (
      added,
      record bus {
        window_total = bus.window_total + 1;
        since_boot = bus.since_boot + 1;
        window_by_reason =
            put (reason_text reason) (get_or (get (reason_text reason) bus.window_by_reason) 0 + 1)
              bus.window_by_reason;
        timer_runs = true;
        dlq = dlq';
      },
    )

-- The calls of a fan-out: the handlers called, in order, and the failures in the same order, and
-- what a handler threw.
pub record Fanout : Type 0 where
  pub called : List String
  pub failures : List String
  pub thrown : Option String

-- `[...handlers].map((handler) => Promise.resolve(handler(payload)))`, and the failures among the
-- settled promises. A handler that throws ends the map, and nobody waits for the promises so far.
unfoldable pub fan_out : (String → CallEnd) → List String → Fanout
fan_out run [] = record { called = []; failures = []; thrown = none }
fan_out run (h ∷ hs) =
    let rest = fan_out run hs in
    elim (run h) [
      | resolves ↦ record rest { called = h ∷ rest.called }
      | rejects e ↦ record rest { called = h ∷ rest.called; failures = e ∷ rest.failures }
      | throws e ↦ record { called = h ∷ []; failures = []; thrown = some e }
    ]

-- How a job ends: completed, or failed, which BullMQ tries again.
pub data JobEnd : Type 0 where
  completed : JobEnd
  failed_dispatch : List String → JobEnd
  failed_call : String → JobEnd
  failed_parking : JobEnd

-- `dispatch`: an error where a handler has thrown or some have failed.
abbrev pub end_of : Option String → List String → JobEnd
end_of (some e) fs = failed_call e
end_of none [] = completed
end_of none (f ∷ fs) = failed_dispatch (f ∷ fs)

-- The two ends of `handleDomainEventJob`.
unfoldable pub handle_decoded :
    (AppEvent → String → String → CallEnd) → Bool → Job → Decoded → Bus → JobEnd × List String × Bus
unfolding park_dead_letter fan_out
handle_decoded run accepted job (to_park reason) bus =
    let (added, bus') = park_dead_letter accepted job reason bus in
    (if added then completed else failed_parking, [], bus')
handle_decoded run accepted job (to_dispatch event board_id) bus =
    let fanout = fan_out (run event board_id) (handlers_of event bus) in
    (end_of fanout.thrown fanout.failures, fanout.called, bus)

-- How the job ends, the handlers called, and the bus.
unfoldable pub handle_domain_event_job :
    (AppEvent → String → String → CallEnd) → Bool → Job → Bus → JobEnd × List String × Bus
unfolding handle_decoded
handle_domain_event_job run accepted job bus = handle_decoded run accepted job (decode_job job) bus

abbrev pub dlq_workers : Option (List DeadLetter) → List String
dlq_workers none = []
dlq_workers (some records) = "domain-events-dlq" ∷ []

-- `startConsumers`: a worker for each queue, and the recorder of the dead letters.
unfoldable pub start_consumers : Bus → Bus
start_consumers bus = if bus.consumers_started then bus else record bus {
  consumers_started = true;
  workers = bus.workers ++ "board-mutations" ∷ ("board-control-events" ∷ dlq_workers bus.dlq);
}

unfoldable pub on : AppEvent → String → Bus → Bus
unfolding start_consumers
on event handler bus = start_consumers (record bus {
  handlers = put (event_name event) (add handler (handlers_of event bus)) bus.handlers;
})

-- The function that `on` returns.
unfoldable pub unsubscribe : AppEvent → String → Bus → Bus
unsubscribe event handler bus = record bus {
  handlers = put (event_name event) (remove handler (handlers_of event bus)) bus.handlers;
}

unfoldable pub close : Bus → Bus
unfolding flush_dlq_summary
close bus = record (flush_dlq_summary bus) { workers = []; consumers_started = false }

abbrev pub new_bus : Option (List DeadLetter) → Bus
new_bus dlq = record {
  handlers = [];
  workers = [];
  consumers_started = false;
  window_total = 0;
  window_by_reason = [];
  since_boot = 0;
  timer_runs = false;
  dlq = dlq;
  summaries = [];
}

-- What happens to a bus; the timer fires only where it runs.
pub data BusStep : Type 0 where
  job_arrives : Bool → Job → BusStep
  summary_due : BusStep
  subscribes : AppEvent → String → BusStep
  leaves : AppEvent → String → BusStep
  closes : BusStep

unfoldable pub bus_step : (AppEvent → String → String → CallEnd) → BusStep → Bus → Bus
unfolding handle_domain_event_job flush_dlq_summary on unsubscribe close
bus_step run (job_arrives accepted job) bus = (handle_domain_event_job run accepted job bus).2
bus_step run summary_due bus = if bus.timer_runs then flush_dlq_summary bus else bus
bus_step run (subscribes event handler) bus = on event handler bus
bus_step run (leaves event handler) bus = unsubscribe event handler bus
bus_step run closes bus = close bus

unfoldable pub bus_steps : (AppEvent → String → String → CallEnd) → List BusStep → Bus → Bus
unfolding bus_step
bus_steps run [] bus = bus
bus_steps run (s ∷ ss) bus = bus_steps run ss (bus_step run s bus)
