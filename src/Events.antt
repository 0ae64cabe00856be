-- ===== src/Events.antt =====
-- shared/events.ts: the domain events, and how a queued job is decoded. A job comes from Redis as
-- JSON, so its parts may be absent or of any shape.
pub mod Consumer
pub mod Producer
pub mod Local
pub mod DeadLetters
pub mod Decoding
pub mod Fanout
pub mod Tests
use notebortt_backend.Collab.Element.{Fields, Value, num, str, obj, field, end}
use notebortt_backend.Common.{
  Option, String, ℕ, some, none, if◌then◌else◌, if◌then◌else◌, not, leb, ◌==◌, ◌==◌, eqb, ◌&&◌,
  ◌&&◌,
}

pub data AppEvent : Type 0 where
  board_mutated board_editors_left : AppEvent

-- `APP_EVENTS`.
abbrev pub event_name : AppEvent → String
event_name board_mutated = "board.mutated"
event_name board_editors_left = "board.editorsLeft"

abbrev pub app_event_schema_version : ℕ
app_event_schema_version = 1

-- The largest integer that zod's `int()` lets through.
abbrev pub max_safe_integer : ℕ
max_safe_integer = 9_007_199_254_740_991

-- `DOMAIN_EVENT_DLQ_REASONS`.
pub data DeadLetterReason : Type 0 where
  invalid_envelope unknown_schema_version unknown_event invalid_payload : DeadLetterReason

abbrev pub reason_text : DeadLetterReason → String
reason_text invalid_envelope = "invalid_envelope"
reason_text unknown_schema_version = "unknown_schema_version"
reason_text unknown_event = "unknown_event"
reason_text invalid_payload = "invalid_payload"

-- `DomainEventJobData`, with the queue and the identifier of the job.
pub record Job : Type 0 where
  pub queue_name : String
  pub job_id : Option String
  pub job_event : Option Value
  pub job_envelope : Option Value

pub record Envelope : Type 0 where
  pub schema_version : ℕ
  pub producer_id : String
  pub timestamp : ℕ
  pub payload : Option Value

abbrev pub field_of : String → Fields → Option Value
field_of name end = none
field_of name (field key v fields) =
    let rest = field_of name fields in if key == name then some v else rest

-- `z.number().int().min(1)`, and `positive()` of an integer.
abbrev pub positive_int : Option Value → Option ℕ
positive_int (some (num n)) = if leb 1 n && leb n max_safe_integer then some n else none
positive_int _ = none

-- `z.string().min(1)`.
abbrev pub nonempty_text : Option Value → Option String
nonempty_text (some (str s)) = if s == "" then none else some s
nonempty_text _ = none

abbrev pub envelope_of : Option ℕ → Option String → Option ℕ → Option Value → Option Envelope
envelope_of (some version) (some producer) (some time) v =
    some record { schema_version = version; producer_id = producer; timestamp = time; payload = v }
envelope_of _ _ _ _ = none

-- `appEventEnvelopeSchema.safeParse`.
unfoldable pub parse_envelope : Option Value → Option Envelope
parse_envelope (some (obj fields)) =
    envelope_of (positive_int (field_of "schemaVersion" fields))
      (nonempty_text (field_of "producerId" fields)) (positive_int (field_of "timestamp" fields))
      (field_of "data" fields)
parse_envelope _ = none

-- `boardRefPayloadSchema.safeParse`, which is the schema of both events.
unfoldable pub parse_board_ref : Option Value → Option String
parse_board_ref (some (obj fields)) = nonempty_text (field_of "boardId" fields)
parse_board_ref _ = none

-- `isAppEventName`.
unfoldable pub app_event_of : Option Value → Option AppEvent
app_event_of (some (str s)) =
    if s == "board.mutated"
    then some board_mutated
    else if s == "board.editorsLeft"
    then some board_editors_left
    else none
app_event_of _ = none

-- What a job is: the board and the event to dispatch, or the reason to park it.
pub data Decoded : Type 0 where
  to_dispatch : AppEvent → String → Decoded
  to_park : DeadLetterReason → Decoded

abbrev pub decode_payload : AppEvent → Option String → Decoded
decode_payload event none = to_park invalid_payload
decode_payload event (some board_id) = to_dispatch event board_id

abbrev pub decode_event : Option AppEvent → Option Value → Decoded
decode_event none v = to_park unknown_event
decode_event (some event) v = decode_payload event (parse_board_ref v)

abbrev pub decode_envelope : Option Envelope → Option Value → Decoded
decode_envelope none event = to_park invalid_envelope
decode_envelope (some envelope) event =
    if not (eqb envelope.schema_version app_event_schema_version)
    then to_park unknown_schema_version
    else decode_event (app_event_of event) envelope.payload

-- The early returns of `handleDomainEventJob`, in their order.
unfoldable pub decode_job : Job → Decoded
unfolding parse_envelope parse_board_ref app_event_of
decode_job job = decode_envelope (parse_envelope job.job_envelope) job.job_event
