-- ===== src/Events/Tests.antt =====
-- Runs of the bus at concrete events.
use notebortt_backend.Common.Assoc.{put, get}
use notebortt_backend.Events.DeadLetters.{reported, bus_steps-reported}
use notebortt_backend.Events.Decoding.{IsEventJob, decode_job_iff, emit-decode_job}
use notebortt_backend.Common.Keys.{add, has}
use notebortt_backend.Events.Fanout.{fan_out-throws, reasons, fan_out-settle_all}
use notebortt_backend.Collab.Element.{str}
use notebortt_backend.Events.Local.{emit_local, on_local, settle_all}
use notebortt_backend.Events.Producer.{emit, job_of, times_out, enqueued}
use notebortt_backend.Events.{
  Job, decode_job, AppEvent, parse_envelope, board_mutated, app_event_of, to_dispatch,
  board_editors_left, parse_board_ref, to_park, unknown_event,
}
use notebortt_backend.Events.Consumer.{
  fan_out, on, BusStep, subscribes, CallEnd, new_bus, handlers_of, job_arrives, end_of, summary_due,
  completed, handle_domain_event_job, bus_steps, resolves, rejects, throws, close,
}
use notebortt_backend.Common.{
  ◌∷◌, List, some, ◌≡◌, [], none, String, ◌≡◌, true, if◌then◌else◌, ◌↔◌, ◌↔◌, refl, ◌==◌, false,
  ◌+◌, arith, ◌+◌, ◌⊎◌, ◌⊎◌,
}

-- The preview's handler works, the flush's is refused, and the counter's throws.
abbrev run : AppEvent → String → String → CallEnd
run event board handler =
    if handler == "preview"
    then resolves
    else if handler == "flush"
    then rejects "no redis"
    else throws "bug"

abbrev good_job : Job
good_job = job_of "board-mutations" (some "1") (enqueued "api-1" 5 board_mutated "b1")

abbrev odd_job : Job
odd_job = record good_job { job_event = some (str "board.deleted") }

abbrev bad_job : Job
bad_job = record good_job { job_envelope = none }

abbrev steps : List BusStep
steps =
    subscribes board_mutated "preview"
    ∷ job_arrives true odd_job
    ∷ summary_due
    ∷ job_arrives true bad_job
    ∷ job_arrives false good_job
    ∷ []

bus_steps-reported_example :
    let bus = bus_steps run steps (new_bus (some [])) in
    (reported bus.summaries + bus.window_total ≡ 2)
    × ((bus.window_total ≡ 0) ⊎ (bus.timer_runs ≡ true))
    × (reported (close bus).summaries ≡ 2)
unfolding decode_job parse_envelope app_event_of parse_board_ref enqueued
bus_steps-reported_example = bus_steps-reported run (some []) steps

fan_out-throws_test :
    ((fan_out (run board_mutated "b1") ("preview" ∷ "counter" ∷ "flush" ∷ [])).called
      ≡ "preview" ∷ "counter" ∷ [])
    × ((fan_out (run board_mutated "b1") ("preview" ∷ "counter" ∷ "flush" ∷ [])).thrown
        ≡ some "bug")
fan_out-throws_test =
    fan_out-throws (run board_mutated "b1") ("preview" ∷ []) "counter" "bug" ("flush" ∷ []) refl
      refl

fan_out-settle_all_test :
    let hs : List String = "preview" ∷ "flush" ∷ [] in
    (fan_out (run board_mutated "b1") hs ≡ settle_all (run board_mutated "b1") hs)
    × ((fan_out (run board_mutated "b1") hs).called ≡ hs)
    × ((fan_out (run board_mutated "b1") hs).failures ≡ "no redis" ∷ [])
    × ((end_of
            (fan_out (run board_mutated "b1") hs).thrown
            (fan_out (run board_mutated "b1") hs).failures
          ≡ completed)
        ↔ (reasons (run board_mutated "b1") hs ≡ []))
fan_out-settle_all_test =
    fan_out-settle_all (run board_mutated "b1") ("preview" ∷ "flush" ∷ []) refl

decode_job_iff_example :
    (decode_job odd_job ≡ to_dispatch board_mutated "b1") ↔ IsEventJob odd_job board_mutated "b1"
decode_job_iff_example = decode_job_iff odd_job board_mutated "b1"

emit-decode_job_example :
    let bus = on board_mutated "preview" (new_bus none) in
    let fanout = fan_out (run board_mutated "b1") (handlers_of board_mutated bus) in
    (decode_job good_job ≡ to_dispatch board_mutated "b1")
    × (handle_domain_event_job run true good_job bus
        ≡ (end_of fanout.thrown fanout.failures, fanout.called, bus))
emit-decode_job_example =
    emit-decode_job run (on board_mutated "preview" (new_bus none)) "api-1" 5 board_mutated "b1"
      "board-mutations" (some "1") refl refl (omega arith) (omega arith)

good_job_test : decode_job good_job ≡ to_dispatch board_mutated "b1"
unfolding decode_job parse_envelope app_event_of parse_board_ref enqueued
good_job_test = refl

odd_job_test : decode_job odd_job ≡ to_park unknown_event
unfolding decode_job parse_envelope app_event_of parse_board_ref enqueued
odd_job_test = refl

emit_test :
    emit times_out "api-1" 5 board_editors_left "b1"
      (record { mutations = []; control_events = [] })
    ≡ (true, record { mutations = []; control_events = [] })
unfolding emit
emit_test = refl

local_test :
    let bus =
      on_local board_mutated "flush" (record { local_handlers = []; warned_no_listeners = [] }) in
    (emit_local (run board_mutated "b1") board_mutated bus).0
    ≡ record { called = "flush" ∷ []; failures = "no redis" ∷ []; thrown = none }
unfolding emit_local on_local settle_all add has put get
local_test = refl
