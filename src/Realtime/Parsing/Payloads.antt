-- ===== src/Realtime/Parsing/Payloads.antt =====
-- payloads.ts: the five parsers of the client's events.
use notebortt_backend.Collab.Board.{is_nil}
use notebortt_backend.Common.Assoc.{get}
use notebortt_backend.Common.Texts.{code_units, text_length}
use notebortt_backend.Collab.Element.{Value, obj, null}
use notebortt_backend.Realtime.Parsing.{
  board_id_of, normalize_sequence, Sent, parse_moves, Received, normalize_update, parse_id_list,
  Move, as_text, json, is_blank, trim_start, bounded_text, object, items_of, max_id_length,
  no_object, number_of, max_presence_message_length, max_mutation_batch, field_in,
}
use notebortt_backend.Common.{
  List, ℕ, String, Option, if◌then◌else◌, some, [], ◌∷◌, leb, ◌==◌, suc, none, ◌&&◌, zero, length,
}

-- `{ x, y }` or null; `none` is a cursor that is neither.
pub data Cursor : Type 0 where
  no_cursor : Cursor
  cursor_at : (x y : Value) → Cursor

abbrev pub cursor_of : Option Value → Option Value → Option Cursor
cursor_of (some x) (some y) = some (cursor_at x y)
cursor_of _ _ = none

unfoldable pub parse_cursor : Option Sent → Option Cursor
parse_cursor none = some no_cursor
parse_cursor (some (json null)) = some no_cursor
parse_cursor (some (json (obj fields))) =
    cursor_of (number_of (field_in "x" fields)) (number_of (field_in "y" fields))
parse_cursor (some _) = none

pub data TypingField : Type 0 where
  title body : TypingField

abbrev pub typing_field_named : Option String → Option TypingField
typing_field_named none = none
typing_field_named (some s) =
    if s == "title" then some title else if s == "body" then some body else none

pub data PresenceState : Type 0 where
  active away interacting : PresenceState

abbrev pub presence_state_named : Option String → PresenceState
presence_state_named none = active
presence_state_named (some s) =
    if s == "away" then away else if s == "interacting" then interacting else active

pub record BoardJoinPayload : Type 0 where
  pub join_board : String
  pub join_session : String
  pub join_share_token : Option String
  -- by its code units
  pub join_user_name : Option (List ℕ)
  pub join_last_sequence : Value

abbrev pub take_units : ℕ → List ℕ → List ℕ
take_units zero cs = []
take_units (suc n) [] = []
take_units (suc n) (c ∷ cs) = c ∷ take_units n cs

abbrev pub trim_end : List ℕ → List ℕ
trim_end [] = []
trim_end (c ∷ cs) = let rest = trim_end cs in if is_blank c && is_nil rest then [] else c ∷ rest

-- `trim().slice(0, 64)` of a name that is not blank.
unfoldable pub user_name_of : Option String → Option (List ℕ)
unfolding code_units
user_name_of none = none
user_name_of (some s) =
    let trimmed = trim_end (trim_start (code_units s)) in
    if is_nil trimmed then none else some (take_units 64 trimmed)

abbrev pub join_payload :
    Option String → Option String → List (String × Sent) → Option BoardJoinPayload
join_payload (some board_id) (some session_id) fields = some record {
  join_board = board_id;
  join_session = session_id;
  join_share_token = as_text (get "shareToken" fields);
  join_user_name = user_name_of (as_text (get "userName" fields));
  join_last_sequence = normalize_sequence (get "lastSequence" fields);
}
join_payload _ _ fields = none

unfoldable pub parse_board_join_payload : Received → Option BoardJoinPayload
unfolding board_id_of text_length normalize_sequence user_name_of
parse_board_join_payload no_object = none
parse_board_join_payload (object fields) =
    join_payload (board_id_of fields)
      (bounded_text max_id_length (as_text (get "sessionId" fields))) fields

-- `isMutationBatch`.
abbrev pub batch_of : List Value → Option (List Value)
batch_of vs = if leb 1 (length vs) && leb (length vs) max_mutation_batch then some vs else none

abbrev pub batch_payload : Option String → Option (List Value) → Option (String × List Value)
batch_payload (some board_id) (some mutations) = some (board_id, mutations)
batch_payload _ _ = none

unfoldable pub parse_mutation_batch_payload : Received → Option (String × List Value)
unfolding board_id_of
parse_mutation_batch_payload no_object = none
parse_mutation_batch_payload (object fields) =
    batch_payload (board_id_of fields) (batch_of (items_of (get "mutations" fields)))

abbrev pub update_payload : Option String → Option (List ℕ) → Option (String × List ℕ)
update_payload (some board_id) (some (b ∷ bytes)) = some (board_id, b ∷ bytes)
update_payload _ _ = none

unfoldable pub parse_crdt_update_payload : Received → Option (String × List ℕ)
unfolding board_id_of normalize_update
parse_crdt_update_payload no_object = none
parse_crdt_update_payload (object fields) =
    update_payload (board_id_of fields) (normalize_update (get "update" fields))

-- `PresenceUpdatePayload`, and what a tick has of it.
pub record PresencePayload : Type 0 where
  pub pr_board : String
  pub pr_cursor : Cursor
  pub pr_selected : List String
  pub pr_dragged : List String
  pub pr_focused : Option String
  pub pr_typing : Option TypingField

abbrev pub presence_payload :
    Option String → Option Cursor → List (String × Sent) → Option PresencePayload
presence_payload (some board_id) (some cursor) fields = some record {
  pr_board = board_id;
  pr_cursor = cursor;
  pr_selected = parse_id_list (get "selectedIds" fields);
  pr_dragged = parse_id_list (get "draggedIds" fields);
  pr_focused = bounded_text max_id_length (as_text (get "focusedElementId" fields));
  pr_typing = typing_field_named (as_text (get "typingField" fields));
}
presence_payload _ _ fields = none

unfoldable pub parse_presence_update_payload : Received → Option PresencePayload
unfolding board_id_of parse_cursor parse_id_list text_length
parse_presence_update_payload no_object = none
parse_presence_update_payload (object fields) =
    presence_payload (board_id_of fields) (parse_cursor (get "cursor" fields)) fields

pub record TickPayload : Type 0 where
  pub tick_presence : PresencePayload
  pub tick_number : Value
  pub tick_state : PresenceState
  pub tick_message : Option String
  pub tick_moves : List Move

abbrev pub tick_payload : Option PresencePayload → List (String × Sent) → Option TickPayload
tick_payload none fields = none
tick_payload (some presence) fields = some record {
  tick_presence = presence;
  tick_number = normalize_sequence (get "tickId" fields);
  tick_state = presence_state_named (as_text (get "presenceState" fields));
  tick_message = bounded_text max_presence_message_length (as_text (get "presenceMessage" fields));
  tick_moves = parse_moves (get "moves" fields);
}

unfoldable pub parse_realtime_tick_payload : Received → Option TickPayload
unfolding parse_presence_update_payload normalize_sequence parse_moves text_length
parse_realtime_tick_payload no_object = none
parse_realtime_tick_payload (object fields) =
    tick_payload (parse_presence_update_payload (object fields)) fields
