-- ===== src/Realtime/Tests.antt =====
-- The Socket.IO service at concrete rooms, connections and events.
use notebortt_backend.Boards.Rows.{edit}
use notebortt_backend.Realtime.Ticks.Latest.{position_in, flushed, queue_all, flush-queue_all}
use notebortt_backend.Realtime.Ticks.{
  Pending, start_flush, queue_moves, set_moves, schedule_tick_persist,
}
use notebortt_backend.Collab.Board.{Board, try_mark_seen, is_duplicate, peek_sequence}
use notebortt_backend.Realtime.Handlers.Broadcast.{finish_batch_lem, rejected_broadcast}
use notebortt_backend.Common.Assoc.{delete_all, get, keys, delete, put}
use notebortt_backend.Realtime.Session.Snapshots.{
  set_board_context-inactive, start_join_attempt-inactive, step_then, done, context_set,
  join_started, step_then,
}
use notebortt_backend.Realtime.Participants.Admission.{
  serve_all, Request, admit, heartbeat, serve_all-le, leave, expire, admit_participant_lem,
}
use notebortt_backend.Realtime.Participants.Expiry.{IsExpiring, prune_expired-empty}
use notebortt_backend.Collab.Processor.{is_rejected, process_mutation_with_context}
use notebortt_backend.Common.Keys.{has}
use notebortt_backend.Collab.Locks.{is_mutation_blocked_by_lock, is_held, is_element_locked}
use notebortt_backend.Realtime.Payload.{
  payload_exceeds_cap, Items, measure_payload_bytes, item, mutation_batch, nested, text,
  measure_items, no_items, array, dict, entry, no_entries, nested-passes,
}
use notebortt_backend.Realtime.Session.{
  take_context_snapshot, Snapshot, Context, Session, is_snapshot_active, is_join_active,
  start_join_attempt, set_board_context,
}
use notebortt_backend.Collab.Element.{BoardElement, str, num, bool}
use notebortt_backend.Realtime.Throttle.Rate.{
  tally, is_passed, is_notice, run, tally-notice-le, tally-passed-le,
}
use notebortt_backend.Realtime.Handlers.{
  start_tick, finish_batch, Tick, start_batch, is_stale_tick, waits, has_consistent_batch_board_id,
  send_mutation, send_ack,
}
use notebortt_backend.Collab.Mutation.{
  Mutation, move_elements, Status, MutationResult, applied, already_applied, Move, collab,
}
use notebortt_backend.Realtime.Throttle.{
  Gate, on_event, consume_event_token, error_spacing_ms, token, refill_per_ms,
}
use notebortt_backend.Common.{
  String, length, List, ℕ, none, arith, true, ◌∷◌, ◌≡◌, ◌∷◌, ◌≡◌, [], ◌*◌, ◌*◌, Bool, some, refl,
  false, ◌≤◌, ◌≤◌, ◌↔◌, ◌↔◌, ◌+◌, ◌+◌, if◌then◌else◌, if◌then◌else◌, ◌==◌, ◌==◌,
}
use notebortt_backend.Realtime.Participants.{
  admit_participant, get_room_size, Room, Participant, touch_participant, prune_expired, zadd_gt,
  first_expired, zadd, insert_score, room_connection_cap,
}
use notebortt_backend.Realtime.Handlers.Guards.{
  is_waiting, IsEditor, start_tick-IsEditor, start_batch_iff,
}

abbrev ana : Participant
ana = record {
  session_id = "s1";
  user_id = "u1";
  user_name = "Ana";
  avatar_url = none;
  color = "#8B5CF6";
}

abbrev room : Room
room = record { participants = ("a", ana) ∷ []; expiry = ("a", 90_000) ∷ [] }

abbrev requests : List (ℕ × Request)
requests = (10, admit "b" ana) ∷ (20, heartbeat "a") ∷ (30, leave "b") ∷ (40, expire) ∷ []

admit_test : (admit_participant 5 "b" ana 1 room).0 ≡ false
unfolding admit_participant has
admit_test = refl

prune_test : (get_room_size 90_000 room).0 ≡ 0
unfolding get_room_size prune_expired first_expired delete_all delete
prune_test = refl

serve_all-le_example : length (serve_all requests room).participants ≤ room_connection_cap
serve_all-le_example = serve_all-le requests room (omega arith)

admit_participant_lem_test :
    ((admit_participant 5 "b" ana 1 room).0 ≡ false
      ↔ ((has "b" (keys room.participants) ≡ false) × (1 ≤ length room.participants)))
    × ((admit_participant 5 "b" ana 1 room).0 ≡ false
        → (admit_participant 5 "b" ana 1 room).1 ≡ room)
    × ((admit_participant 5 "b" ana 1 room).0 ≡ true
        → get "a" (admit_participant 5 "b" ana 1 room).1.participants
          ≡ (if "b" == "a" then some ana else get "a" room.participants))
admit_participant_lem_test = admit_participant_lem 5 "b" "a" ana 1 room

room-IsExpiring : IsExpiring room
unfolding has
room-IsExpiring k member = ground (arith, member)

prune_expired-empty_test :
    has "a" (keys (prune_expired 90_005 (serve_all ((5, heartbeat "a") ∷ []) room)).participants)
    ≡ false
unfolding touch_participant zadd_gt zadd insert_score get delete
prune_expired-empty_test =
    prune_expired-empty ((5, heartbeat "a") ∷ []) room 90_005 "a" room-IsExpiring (omega arith)
      (omega arith, tt)

abbrev gate : Gate
gate = record {
  bucket = record { bucket_tokens = 1_500; bucket_updated_at = 100 };
  last_throttle_notice_at = 0;
}

abbrev events : List (ℕ × Bool)
events = (1_101, false) ∷ (1_102, false) ∷ (1_103, true) ∷ []

tally_test : tally is_passed ((100, false) ∷ (101, false) ∷ (102, true) ∷ []) gate ≡ 1
unfolding on_event consume_event_token
tally_test = refl

tally-passed-le_example :
    tally is_passed events gate * token
      + (run events gate).bucket.bucket_tokens
      + refill_per_ms * 100
    ≤ 1_500 + refill_per_ms * (run events gate).bucket.bucket_updated_at
tally-passed-le_example =
    tally-passed-le events gate (omega arith, (omega arith, (omega arith, tt)))

tally-notice-le_test :
    tally is_notice events gate * error_spacing_ms + 0 ≤ (run events gate).last_throttle_notice_at
tally-notice-le_test = tally-notice-le events gate

abbrev large : Items
large = item (text 300_000) no_items

large_test : payload_exceeds_cap mutation_batch (array large) ≡ true
unfolding payload_exceeds_cap measure_payload_bytes measure_items
large_test = refl

nested-passes_test :
    (payload_exceeds_cap mutation_batch (nested 8 (array large)) ≡ false)
    × (payload_exceeds_cap mutation_batch (nested 8 (dict (entry 3 (array large) no_entries)))
        ≡ false)
nested-passes_test = nested-passes mutation_batch large (entry 3 (array large) no_entries)

abbrev editor : Context
editor = record {
  ctx_board = "b1";
  ctx_session = "s1";
  ctx_permission = edit;
  ctx_user = "u1";
  ctx_name = "Ana";
  ctx_avatar = none;
  ctx_color = "#8B5CF6";
}

abbrev session : Session
session = record {
  connected = true;
  board_context = some editor;
  board_context_version = 3;
  last_tick_id = some 7;
  latest_join_attempt = 1;
}

abbrev snapshot : Snapshot
snapshot = record { snap_context = editor; snap_version = 3 }

take_test : take_context_snapshot "b1" session ≡ some snapshot
unfolding take_context_snapshot
take_test = refl

set_board_context-inactive_example :
    is_snapshot_active snapshot (start_join_attempt (set_board_context (some editor) session)).1
    ≡ false
set_board_context-inactive_example =
    set_board_context-inactive {s = session} {t = session} "b1" snapshot (some editor) take_test
      done (step_then join_started done)

start_join_attempt-inactive_test :
    is_join_active
      (start_join_attempt session).0
      (start_join_attempt (set_board_context none (start_join_attempt session).1)).1
    ≡ false
start_join_attempt-inactive_test =
    start_join_attempt-inactive session (set_board_context none (start_join_attempt session).1)
      (step_then (context_set none) done) done

abbrev moved : Mutation
moved = record {
  mutation_id = "m1";
  board_id = "b1";
  operation = move_elements (record { element_id = "l"; x = num 1; y = num 2 } ∷ []) false;
}

start_batch_iff_test :
    (is_waiting (start_batch "b1" (some (moved ∷ [])) session) ≡ true)
    ↔ (IsEditor "b1" session × (has_consistent_batch_board_id "b1" (moved ∷ []) ≡ true))
start_batch_iff_test = start_batch_iff "b1" (moved ∷ []) session refl

abbrev tick : Tick
tick = record {
  tick_board = "b1";
  tick_id = 8;
  tick_moves = record { element_id = "l"; x = num 1; y = num 2 } ∷ [];
}

start_tick_test : (start_tick (some tick) session).0 ≡ waits snapshot
unfolding start_tick take_context_snapshot is_stale_tick
start_tick_test = refl

start_tick-IsEditor_test :
    IsEditor "b1" session
    × (is_stale_tick tick session ≡ false)
    × ((start_tick (some tick) session).1.last_tick_id ≡ some 8)
start_tick-IsEditor_test = start_tick-IsEditor tick snapshot session refl refl start_tick_test

abbrev result : String → Status → MutationResult
result id status = record {
  mutation_id = id;
  status = status;
  server_timestamp = none;
  sequence = some 4;
  change = none;
}

active_test : is_snapshot_active snapshot session ≡ true
unfolding is_snapshot_active
active_test = refl

finish_batch_lem_test :
    finish_batch "b1"
      (moved ∷ moved ∷ [])
      (result "m1" applied ∷ result "m1" already_applied ∷ [])
      snapshot
      session
    ≡ send_mutation "b1" moved ∷ send_ack ("m1" ∷ "m1" ∷ []) (some 4) ∷ []
finish_batch_lem_test =
    finish_batch_lem "b1" (moved ∷ moved ∷ [])
      (result "m1" applied ∷ result "m1" already_applied ∷ []) snapshot session refl active_test

abbrev locked : BoardElement
locked = ("id", str "l") ∷ ("locked", bool true) ∷ []

abbrev empty : Board
empty = record {
  elements = ("l", locked) ∷ [];
  seq = some 4;
  seen = [];
  changes = [];
  dirty_ids = [];
  deleted_ids = [];
  dirty_since = none;
  dirty_epoch = 0;
  last_active = none;
  last_flushed_seq = none;
  last_flushed_at = none;
  last_flush_duration = none;
  in_dirty = false;
  dirty_score = none;
  in_active = true;
}

locked_test : is_rejected moved.operation (("l", locked) ∷ []) ≡ true
unfolding is_mutation_blocked_by_lock get is_held is_element_locked
locked_test = refl

rejected_broadcast_test :
    finish_batch "b1"
      (moved ∷ [])
      ((process_mutation_with_context 100 101 moved (("l", locked) ∷ []) collab empty).0 ∷ [])
      snapshot
      session
    ≡ send_mutation "b1" moved ∷ send_ack ("m1" ∷ []) (some 4) ∷ []
unfolding process_mutation_with_context try_mark_seen is_duplicate is_mutation_blocked_by_lock get
    is_held is_element_locked peek_sequence
rejected_broadcast_test =
    rejected_broadcast 100 101 moved (("l", locked) ∷ []) collab empty "b1" snapshot session refl
      refl locked_test active_test

abbrev pending : Pending
pending = record {
  pending_moves = some (("m", (num 0, num 0)) ∷ []);
  pending_user = none;
  debounce_at = none;
  max_wait_at = none;
}

abbrev ticks : List (ℕ × String × List Move)
ticks =
    (10, "u1", record { element_id = "l"; x = num 1; y = num 2 } ∷ [])
    ∷ (20, "u2", record { element_id = "l"; x = num 3; y = num 4 } ∷ [])
    ∷ []

flush_test :
    flushed (start_flush (queue_all ticks pending)).0
    ≡ record { element_id = "m"; x = num 0; y = num 0 }
      ∷ record { element_id = "l"; x = num 3; y = num 4 }
      ∷ []
unfolding start_flush queue_moves set_moves schedule_tick_persist put
flush_test = refl

flush-queue_all_test :
    position_in "l" (flushed (start_flush (queue_all ticks pending)).0) ≡ some (num 3, num 4)
unfolding get
flush-queue_all_test = flush-queue_all ticks "l" pending
