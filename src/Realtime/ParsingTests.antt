-- ===== src/Realtime/ParsingTests.antt =====
-- What the parsers, the handshake and the colours make of concrete values.
use notebortt_backend.Realtime.Parsing.Lists.{parse_id_list_lem}
use notebortt_backend.Realtime.Identity.Gate.{resolve_socket_identity-admits}
use notebortt_backend.Common.Keys.{has}
use notebortt_backend.Common.Assoc.{get}
use notebortt_backend.Common.Texts.{code_units, text_length}
use notebortt_backend.Realtime.Identity.Colour.{
  hash_from, horner, word, get_user_color, user_colors, get_user_color-has,
}
use notebortt_backend.Realtime.Parsing.{
  Received, parse_id_list, object, board_id_of, normalize_sequence, json, normalize_update,
  parse_ids, parsed_value, parse_moves, parse_natural, parse_moves_from, max_id_list_length,
  valid_id, values_of, max_moves, valid_move,
}
use notebortt_backend.Realtime.Identity.{
  Handshake, resolve_socket_identity, token_sources, User, first_user, read_cookie_token,
  admits_handshake, strip_prefix, anonymous,
}
use notebortt_backend.Realtime.Parsing.Payloads.{
  parse_realtime_tick_payload, parse_mutation_batch_payload, TickPayload, parse_board_join_payload,
  no_cursor, parse_presence_update_payload, parse_crdt_update_payload, parse_cursor, active,
  user_name_of,
}
use notebortt_backend.Realtime.Parsing.Bounds.{
  IsTickBounded, parse_realtime_tick_payload-IsTickBounded,
}
use notebortt_backend.Common.{
  String, Option, ◌≡◌, ◌≡◌, ◌∷◌, ◌∷◌, some, if◌then◌else◌, [], true, if◌then◌else◌, ◌==◌, ◌==◌, ◌%◌,
  none, ◌%◌, ◌⊎◌, ◌⊎◌, take_first, refl, filter_map,
}
use notebortt_backend.Collab.Element.{Values, cons, obj, arr, field, str, null, num, dec, nil, end}
use notebortt_backend.Collab.Board.Maps.{is_some}

abbrev long_moves : Values
long_moves =
    cons (obj (field "id" (str "a") (field "x" (num 1) (field "y" (dec "-2.5") end))))
      (cons (obj (field "id" (str "") (field "x" (num 1) (field "y" (num 2) end)))) (cons null nil))

abbrev sent_tick : Received
sent_tick = object (
    ("boardId", json (str "b1"))
    ∷ (("tickId", json (str " 12px"))
        ∷ (("cursor", json null)
            ∷ (("selectedIds", json (arr (cons (str "a") (cons (num 3) nil))))
                ∷ (("moves", json (arr long_moves)) ∷ [])))))

abbrev parsed_tick : TickPayload
parsed_tick = record {
  tick_presence = record {
    pr_board = "b1";
    pr_cursor = no_cursor;
    pr_selected = "a" ∷ [];
    pr_dragged = [];
    pr_focused = none;
    pr_typing = none;
  };
  tick_number = num 12;
  tick_state = active;
  tick_message = none;
  tick_moves = record { move_id = "a"; move_x = num 1; move_y = dec "-2.5" } ∷ [];
}

sent_tick_test : parse_realtime_tick_payload sent_tick ≡ some parsed_tick
unfolding parse_realtime_tick_payload parse_presence_update_payload board_id_of parse_cursor
    parse_id_list parse_ids parse_moves parse_moves_from normalize_sequence parse_natural
    text_length code_units get
sent_tick_test = refl

parse_realtime_tick_payload-IsTickBounded_example : IsTickBounded parsed_tick
parse_realtime_tick_payload-IsTickBounded_example =
    parse_realtime_tick_payload-IsTickBounded sent_tick parsed_tick sent_tick_test

parse_id_list_lem_test :
    (parse_id_list (some (json (arr long_moves)))
      ≡ take_first max_id_list_length (filter_map valid_id (values_of long_moves)))
    × (parse_moves (some (json (arr long_moves)))
        ≡ take_first max_moves (filter_map valid_move (values_of long_moves)))
parse_id_list_lem_test = parse_id_list_lem (some (json (arr long_moves)))

join_test :
    parse_board_join_payload (
      object (
        ("boardId", json (str "b1"))
        ∷ (("sessionId", json (str "s1"))
            ∷ (("userName", json (str "  Fox "))
                ∷ (("lastSequence", json (arr (cons (dec "7.5") nil))) ∷ [])))))
    ≡ some (record {
      join_board = "b1";
      join_session = "s1";
      join_share_token = none;
      join_user_name = some (70 ∷ (111 ∷ (120 ∷ [])));
      join_last_sequence = num 7;
    })
unfolding parse_board_join_payload board_id_of normalize_sequence parsed_value parse_natural
    user_name_of text_length code_units get
join_test = refl

batch_test :
    (parse_mutation_batch_payload
        (object (("boardId", json (str "b1")) ∷ (("mutations", json (arr nil)) ∷ [])))
      ≡ none)
    × (parse_crdt_update_payload (
          object (
            ("boardId", json (str "b1"))
            ∷ (("update", json (arr (cons (num 7) (cons (num 255) nil)))) ∷ [])))
        ≡ some ("b1", 7 ∷ (255 ∷ [])))
unfolding parse_mutation_batch_payload parse_crdt_update_payload board_id_of normalize_update
    text_length code_units get
batch_test = (refl, refl)

abbrev handshake : Handshake
handshake = record {
  socket_id = "s9";
  cookies = ("accessToken", "good") ∷ [];
  authorization = some "Bearer stale";
  auth_token = none;
  query_share_token = none;
  auth_share_token = none;
}

abbrev verify : String → Option String
verify token = if token == "good" then some "u1" else none

abbrev users : String → Option User
users id = some (record { user_id = id; user_name = "Ann"; user_avatar = none })

identity_test : (resolve_socket_identity verify users handshake).auth_user_id ≡ some "u1"
unfolding resolve_socket_identity token_sources first_user read_cookie_token strip_prefix get
identity_test = refl

resolve_socket_identity-admits_example :
    ((is_some (resolve_socket_identity verify users handshake).auth_user_id ≡ true)
      × (admits_handshake verify handshake ≡ true))
    ⊎ (resolve_socket_identity verify users handshake ≡ anonymous "s9")
resolve_socket_identity-admits_example = resolve_socket_identity-admits verify users handshake

get_user_color-has_test :
    (hash_from 0 (code_units "user-1") ≡ horner 0 (code_units "user-1") % word)
    × ((color : String) × (get_user_color "user-1" ≡ some color) × (has color user_colors ≡ true))
get_user_color-has_test = get_user_color-has "user-1"
