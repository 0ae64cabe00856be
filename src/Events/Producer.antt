-- ===== src/Events/Producer.antt =====
-- shared/events.ts, `emit` of the BullMQ bus: the queue, the envelope and the deduplication of an
-- event. Where the queue fails or is too slow, the caller still goes on.
use notebortt_backend.Collab.Element.{Value, obj, field, num, str, end}
use Prim.Native.String.{◌++◌ as join}
use notebortt_backend.Events.{
  AppEvent, event_name, Job, board_mutated, board_editors_left, app_event_schema_version,
}
use notebortt_backend.Common.{
  List, String, Option, ◌++◌, ◌++◌, ℕ, ◌∷◌, ◌∷◌, Bool, some, [], false, true,
}

pub data QueueEnd : Type 0 where
  accepts : QueueEnd
  refuses : QueueEnd
  -- no answer within `emitTimeoutMs`
  times_out : QueueEnd

-- `DEDUP_TTL_MS`.
abbrev pub dedup_ttl_ms : AppEvent → ℕ
dedup_ttl_ms board_mutated = 2_000
dedup_ttl_ms board_editors_left = 1_000

pub record Enqueued : Type 0 where
  pub enqueued_event : String
  pub enqueued_envelope : Value
  -- `deduplicationId` with its colons, before `replaceAll(':', '-')`
  pub dedup_text : String
  pub dedup_ttl : ℕ

pub record Queues : Type 0 where
  pub mutations : List Enqueued
  pub control_events : List Enqueued

-- The text that is made the identifier of a deduplication.
abbrev pub dedup_text_of : AppEvent → String → String
dedup_text_of event board_id = join (join (event_name event) "-") board_id

abbrev pub envelope_json : String → ℕ → String → Value
envelope_json producer now board_id = obj (
    field "schemaVersion" (num app_event_schema_version) (
      field "producerId" (str producer) (
        field "timestamp" (num now) (field "data" (obj (field "boardId" (str board_id) end)) end))))

unfoldable pub enqueued : String → ℕ → AppEvent → String → Enqueued
enqueued producer now event board_id = record {
  enqueued_event = event_name event;
  enqueued_envelope = envelope_json producer now board_id;
  dedup_text = dedup_text_of event board_id;
  dedup_ttl = dedup_ttl_ms event;
}

abbrev pub add_to : AppEvent → Enqueued → Queues → Queues
add_to board_editors_left entry queues = record queues {
  control_events = queues.control_events ++ entry ∷ [];
}
add_to board_mutated entry queues = record queues { mutations = queues.mutations ++ entry ∷ [] }

-- Whether `onEnqueueFailed` is called, and the queues. An enqueue that times out may still reach
-- its queue later.
unfoldable pub emit : QueueEnd → String → ℕ → AppEvent → String → Queues → Bool × Queues
unfolding enqueued
emit accepts producer now event board_id queues =
    (false, add_to event (enqueued producer now event board_id) queues)
emit refuses producer now event board_id queues = (true, queues)
emit times_out producer now event board_id queues = (true, queues)

-- The job that BullMQ makes of an entry, at the consumer.
abbrev pub job_of : String → Option String → Enqueued → Job
job_of queue id entry = record {
  queue_name = queue;
  job_id = id;
  job_event = some (str entry.enqueued_event);
  job_envelope = some entry.enqueued_envelope;
}
