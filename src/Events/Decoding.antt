-- ===== src/Events/Decoding.antt =====
-- Which jobs are dispatched, and that what `emit` sends is.
use notebortt_backend.Events.Consumer.{
  handle_domain_event_job, handle_decoded, CallEnd, Bus, fan_out, handlers_of, end_of,
}
use notebortt_backend.Events.Producer.{enqueued, job_of}
use notebortt_backend.Collab.Element.{Value, Fields, obj, bool, str, num, dec, arr, null}
use notebortt_backend.Common.{
  Option, String, ℕ, ◌≡◌, ◌≡◌, some, ◌==◌, ◌≤◌, ◌≤◌, false, arith, eq_iff, none, refl, ◌↔◌,
  Bool-cases, ap, ◌↔◌, eqb, inl, inr, true,
}
use notebortt_backend.Events.{
  parse_envelope, app_event_of, AppEvent, Job, parse_board_ref, Envelope, nonempty_text,
  positive_int, event_name, field_of, board_mutated, board_editors_left, envelope_of,
  decode_payload, decode_event, decode_envelope, decode_job, max_safe_integer, to_dispatch,
}

positive_int-some :
    (v : Option Value) (n : ℕ)
    → positive_int v ≡ some n
    → (v ≡ some (num n)) × (1 ≤ n) × (n ≤ max_safe_integer)
positive_int-some none n h = cc
positive_int-some (some null) n h = cc
positive_int-some (some (bool b)) n h = cc
positive_int-some (some (num m)) n h = ground arith
positive_int-some (some (dec t)) n h = cc
positive_int-some (some (str s)) n h = cc
positive_int-some (some (arr vs)) n h = cc
positive_int-some (some (obj fs)) n h = cc

nonempty_text-some :
    (v : Option Value) (s : String)
    → nonempty_text v ≡ some s
    → (v ≡ some (str s)) × ((s == "") ≡ false)
nonempty_text-some none s h = cc
nonempty_text-some (some null) s h = cc
nonempty_text-some (some (bool b)) s h = cc
nonempty_text-some (some (num m)) s h = cc
nonempty_text-some (some (dec t)) s h = cc
nonempty_text-some (some (str t)) s h = ground arith
nonempty_text-some (some (arr vs)) s h = cc
nonempty_text-some (some (obj fs)) s h = cc

-- The envelope that the schema asks for, field by field.
abbrev IsEnvelope : Option Value → Envelope → Type 0
IsEnvelope v envelope =
    (fields : Fields) × (v ≡ some (obj fields))
    × (field_of "schemaVersion" fields ≡ some (num envelope.schema_version))
    × (1 ≤ envelope.schema_version)
    × (field_of "producerId" fields ≡ some (str envelope.producer_id))
    × ((envelope.producer_id == "") ≡ false)
    × (field_of "timestamp" fields ≡ some (num envelope.timestamp))
    × (1 ≤ envelope.timestamp)
    × (envelope.timestamp ≤ max_safe_integer)
    × (field_of "data" fields ≡ envelope.payload)

envelope_of-some :
    (version : Option ℕ) (producer : Option String) (time : Option ℕ) (v : Option Value)
    (envelope : Envelope)
    → envelope_of version producer time v ≡ some envelope
    → (version ≡ some envelope.schema_version)
      × (producer ≡ some envelope.producer_id)
      × (time ≡ some envelope.timestamp)
      × (v ≡ envelope.payload)
envelope_of-some (some version) (some producer) (some time) v envelope h = ground arith
envelope_of-some none producer time v envelope h = ground arith
envelope_of-some (some version) none time v envelope h = ground arith
envelope_of-some (some version) (some producer) none v envelope h = ground arith

parse_envelope-some :
    (v : Option Value) (envelope : Envelope)
    → parse_envelope v ≡ some envelope
    → IsEnvelope v envelope
unfolding parse_envelope
parse_envelope-some none envelope h = cc
parse_envelope-some (some null) envelope h = cc
parse_envelope-some (some (bool b)) envelope h = cc
parse_envelope-some (some (num m)) envelope h = cc
parse_envelope-some (some (dec t)) envelope h = cc
parse_envelope-some (some (str t)) envelope h = cc
parse_envelope-some (some (arr vs)) envelope h = cc
parse_envelope-some (some (obj fs)) envelope h =
    let (version, producer, time, data_field) = envelope_of-some _ _ _ _ envelope h in
    let (v1, v2, v3) = positive_int-some _ _ version in
    let (p1, p2) = nonempty_text-some _ _ producer in
    let (t1, t2, t3) = positive_int-some _ _ time in
    (fs, refl, v1, v2, p1, p2, t1, t2, t3, data_field)

app_event_of-some :
    (v : Option Value) (event : AppEvent)
    → app_event_of v ≡ some event
    → v ≡ some (str (event_name event))
unfolding app_event_of
app_event_of-some none event h = cc
app_event_of-some (some null) event h = cc
app_event_of-some (some (bool b)) event h = cc
app_event_of-some (some (num m)) event h = cc
app_event_of-some (some (dec t)) event h = cc
app_event_of-some (some (str t)) board_mutated h =
    ground (arith, eq_iff t "board.mutated", eq_iff t "board.editorsLeft")
app_event_of-some (some (str t)) board_editors_left h =
    ground (arith, eq_iff t "board.mutated", eq_iff t "board.editorsLeft")
app_event_of-some (some (arr vs)) event h = cc
app_event_of-some (some (obj fs)) event h = cc

-- A payload of either event.
abbrev IsBoardRef : Option Value → String → Type 0
IsBoardRef v board_id =
    (fields : Fields) × (v ≡ some (obj fields))
    × (field_of "boardId" fields ≡ some (str board_id))
    × ((board_id == "") ≡ false)

parse_board_ref-some :
    (v : Option Value) (board_id : String)
    → parse_board_ref v ≡ some board_id
    → IsBoardRef v board_id
unfolding parse_board_ref
parse_board_ref-some none b h = cc
parse_board_ref-some (some null) b h = cc
parse_board_ref-some (some (bool x)) b h = cc
parse_board_ref-some (some (num m)) b h = cc
parse_board_ref-some (some (dec t)) b h = cc
parse_board_ref-some (some (str t)) b h = cc
parse_board_ref-some (some (arr vs)) b h = cc
parse_board_ref-some (some (obj fs)) b h =
    let (v1, v2) = nonempty_text-some _ _ h in (fs, refl, v1, v2)

decode_payload-dispatch :
    (e : AppEvent) (o : Option String) (event : AppEvent) (b : String)
    → decode_payload e o ≡ to_dispatch event b
    → (e ≡ event) × (o ≡ some b)
decode_payload-dispatch e none event b h = cc
decode_payload-dispatch e (some s) event b h = ground arith

decode_event-dispatch :
    (o : Option AppEvent) (v : Option Value) (event : AppEvent) (b : String)
    → decode_event o v ≡ to_dispatch event b
    → (o ≡ some event) × (parse_board_ref v ≡ some b)
decode_event-dispatch none v event b h = cc
decode_event-dispatch (some e) v event b h =
    let (same, ref) = decode_payload-dispatch e (parse_board_ref v) event b h in (ap some same, ref)

decode_envelope-dispatch :
    (o : Option Envelope) (v : Option Value) (event : AppEvent) (b : String)
    → decode_envelope o v ≡ to_dispatch event b
    → (envelope : Envelope) × (o ≡ some envelope)
      × (envelope.schema_version ≡ 1)
      × (app_event_of v ≡ some event)
      × (parse_board_ref envelope.payload ≡ some b)
decode_envelope-dispatch none v event b h = cc
decode_envelope-dispatch (some envelope) v event b h =
    elim (Bool-cases (eqb envelope.schema_version 1)) [
      | inl one ↦
          let (e1, e2) =
            decode_event-dispatch (app_event_of v) envelope.payload event b (ground arith) in
          (envelope, refl, ground arith, e1, e2)
      | inr other ↦ absurd (ground arith)
    ]

-- What a job has to be, to be dispatched as an event of a board.
abbrev pub IsEventJob : Job → AppEvent → String → Type 0
IsEventJob job event board_id =
    (envelope : Envelope) × IsEnvelope job.job_envelope envelope
    × (envelope.schema_version ≡ 1)
    × (job.job_event ≡ some (str (event_name event)))
    × IsBoardRef envelope.payload board_id

positive_int-num : (n : ℕ) → 1 ≤ n → n ≤ max_safe_integer → positive_int (some (num n)) ≡ some n
positive_int-num n low high = ground arith

decode_job_of :
    (job : Job) (event : AppEvent) (board_id : String)
    → IsEventJob job event board_id
    → decode_job job ≡ to_dispatch event board_id
unfolding decode_job parse_envelope app_event_of parse_board_ref
decode_job_of job board_mutated b
      (envelope, (fs, e1, e2, e3, e4, e5, e6, e7, e8, e9), one, named, (ref, r1, r2, r3)) =
    ground (arith, positive_int-num envelope.timestamp e7 e8)
decode_job_of job board_editors_left b
      (envelope, (fs, e1, e2, e3, e4, e5, e6, e7, e8, e9), one, named, (ref, r1, r2, r3)) =
    ground (arith, positive_int-num envelope.timestamp e7 e8)

-- A job is dispatched, as an event of a board, if and only if its envelope has a version, a
-- producer and a time that the schema accepts, the version is 1, the name is the event's and the
-- payload has the board's identifier. Every other job is parked.
pub decode_job_iff :
    (job : Job) (event : AppEvent) (board_id : String)
    → (decode_job job ≡ to_dispatch event board_id) ↔ IsEventJob job event board_id
unfolding decode_job
decode_job_iff job event board_id = (
  λ h.
      let (envelope, parsed, one, named, ref) = decode_envelope-dispatch _ _ event board_id h in
      (
        envelope,
        parse_envelope-some _ envelope parsed,
        one,
        app_event_of-some _ event named,
        parse_board_ref-some _ board_id ref,
      ),
  decode_job_of job event board_id,
)

enqueued-decode :
    (producer : String) (now : ℕ) (event : AppEvent) (board_id queue : String) (id : Option String)
    → (producer == "") ≡ false
    → (board_id == "") ≡ false
    → 1 ≤ now
    → now ≤ max_safe_integer
    → decode_job (job_of queue id (enqueued producer now event board_id))
      ≡ to_dispatch event board_id
unfolding decode_job parse_envelope app_event_of parse_board_ref enqueued
enqueued-decode producer now board_mutated b queue id named board low high = ground arith
enqueued-decode producer now board_editors_left b queue id named board low high = ground arith

-- A job that `emit` has enqueued for a board is dispatched as the same event of the same board,
-- whatever queue and identifier it has, for a producer and a board that are named and a clock
-- that is past 0: the consumer calls the handlers of that event with that board, and parks nothing.
pub emit-decode_job :
    (run : AppEvent → String → String → CallEnd) (bus : Bus) (producer : String) (now : ℕ)
    (event : AppEvent) (board_id queue : String) (id : Option String)
    → (producer == "") ≡ false
    → (board_id == "") ≡ false
    → 1 ≤ now
    → now ≤ max_safe_integer
    → let job = job_of queue id (enqueued producer now event board_id) in
      let fanout = fan_out (run event board_id) (handlers_of event bus) in
      (decode_job job ≡ to_dispatch event board_id)
      × (handle_domain_event_job run true job bus
          ≡ (end_of fanout.thrown fanout.failures, fanout.called, bus))
unfolding handle_domain_event_job handle_decoded
emit-decode_job run bus producer now event b queue id named board low high =
    let decoded = enqueued-decode producer now event b queue id named board low high in
    (decoded, rw decoded refl)
