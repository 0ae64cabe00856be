-- ===== src/Realtime/Join/Complete.antt =====
-- handlers/join.handler.ts from the access on: the room's places, the previous board, the presence,
-- the room's others, the admission and the snapshot.
use notebortt_backend.Collab.Board.{get_or}
use notebortt_backend.Common.Keys.{add}
use notebortt_backend.Collab.Presence.{touch_viewer_session, track_client, client_member}
use notebortt_backend.Realtime.Participants.{
  get_admission_state, Participant, get_room_participants, admit_participant,
}
use notebortt_backend.Realtime.Identity.Colour.{get_user_color}
use notebortt_backend.Realtime.Parsing.{Received}
use notebortt_backend.Realtime.Session.{is_join_active, set_board_context, Context}
use notebortt_backend.Realtime.Join.{
  World, with_presence, detach_from_board, presence_at, emitted, with_room, shows_user, announces,
  fails, room_full, shows_board, loads,
}
use notebortt_backend.Common.{
  ℕ, String, some, Option, Bool, List, ◌∷◌, false, if◌then◌else◌, ◌||◌, ◌||◌, not, ◌==◌, ltb, true,
  none, [],
}
use notebortt_backend.Realtime.Join.Steps.{
  ◌>>=◌, ◌>>◌, Setting, Entrant, authorize, Part, name_for, change, wait,
  socket_room_connection_cap, still_active, refuse,
}

module _ (g : Setting) (others : ℕ → World → World) where
  abbrev pub board_of : Entrant → String
  board_of e = e.entrant_payload.join_board

  abbrev pub participant_of : Entrant → Participant
  participant_of e = record {
    session_id = e.entrant_payload.join_session;
    user_id = e.entrant_identity.runtime_user_id;
    user_name = name_for g.text_of_units e.entrant_identity e.entrant_payload.join_user_name;
    avatar_url = e.entrant_identity.identity_avatar;
    color = get_or (get_user_color e.entrant_identity.runtime_user_id) "";
  }

  abbrev pub context_of : Entrant → Context
  context_of e =
      let p = participant_of e in
      record {
        ctx_board = board_of e;
        ctx_session = p.session_id;
        ctx_permission = e.entrant_permission;
        ctx_user = p.user_id;
        ctx_name = p.user_name;
        ctx_avatar = p.avatar_url;
        ctx_color = p.color;
      }

  -- `getAdmissionState`, which prunes the room.
  abbrev pub room_for : Entrant → World → Bool × World
  room_for e w =
      let (member, size, room) =
        get_admission_state g.clock g.socket.socket_id (w.rooms (board_of e)) in
      (member || ltb size socket_room_connection_cap, with_room (board_of e) room w)

  abbrev pub is_other_context : Entrant → Context → Bool
  is_other_context e c =
      not (c.ctx_board == board_of e) || not (c.ctx_session == e.entrant_payload.join_session)

  abbrev pub detach_previous : Entrant → Option Context → World → World
  detach_previous e none w = w
  detach_previous e (some c) w =
      if is_other_context e c
      then detach_from_board g.socket.socket_id g.clock others c true w
      else w

  abbrev pub track : Entrant → World → World
  track e w =
      with_presence (board_of e)
        (track_client g.clock (client_member e.entrant_identity.runtime_user_id g.socket.socket_id)
          (presence_at (board_of e) w))
        w

  abbrev pub touch : Entrant → World → World
  touch e w =
      with_presence (board_of e)
        (touch_viewer_session g.clock e.entrant_payload.join_session (presence_at (board_of e) w)) w

  -- The room's places, the previous board, the board's loading and the presence.
  unfoldable pub prepare : Entrant → Part (Unit {0})
  unfolding is_join_active get_admission_state detach_from_board track_client touch_viewer_session
  prepare e = do
    wait g others 3
    has_place ← λ w. let (ok, w') = room_for e w in (some ok, w')
    still_active e.entrant_attempt
    if has_place then change (λ w. w) else refuse room_full
    change (λ w. detach_previous e w.session.board_context w)
    change (emitted (loads (board_of e)))
    wait g others 4
    still_active e.entrant_attempt
    change (track e)
    wait g others 5
    still_active e.entrant_attempt
    change (touch e)
    wait g others 6
    still_active e.entrant_attempt

  -- USER_JOINED of each of the others to the socket itself.
  abbrev pub shown : String → List Participant → World → World
  shown session_id [] w = w
  shown session_id (p ∷ ps) w =
      shown session_id ps (if p.session_id == session_id then w else emitted (shows_user p) w)

  abbrev pub enter : Entrant → World → World
  enter e w = record w {
    session = set_board_context (some (context_of e)) w.session;
    socket_rooms = add (board_of e) w.socket_rooms;
  }

  abbrev pub admit : Entrant → World → Bool × World
  admit e w =
      let (admitted, room) =
        admit_participant g.clock g.socket.socket_id (participant_of e) socket_room_connection_cap
          (w.rooms (board_of e)) in
      (admitted, with_room (board_of e) room w)

  abbrev pub leave_full : Entrant → Option Context → World → World
  leave_full e none w = w
  leave_full e (some c) w =
      if c.ctx_board == board_of e
      then detach_from_board g.socket.socket_id g.clock others c false w
      else w

  -- A join that is not admitted leaves the board it is on.
  abbrev pub admitted_or_leave : Entrant → Bool → Part (Unit {0})
  admitted_or_leave e true = change (λ w. w)
  admitted_or_leave e false = do
    change (emitted (fails room_full))
    change (λ w. leave_full e w.session.board_context w)
    λ w. (none, w)

  abbrev pub is_in_session : Entrant → Option Context → Bool
  is_in_session e none = false
  is_in_session e (some c) = c.ctx_session == e.entrant_payload.join_session

  -- From the room to the snapshot.
  unfoldable pub complete : Entrant → Part (Unit {0})
  unfolding set_board_context get_user_color get_room_participants admit_participant
      detach_from_board is_join_active
  complete e = do
    change (enter e)
    present ← λ w.
        let (ps, room) = get_room_participants g.clock (w.rooms (board_of e)) in
        (some ps, with_room (board_of e) room w)
    wait g others 7
    change (shown e.entrant_payload.join_session present)
    admitted ← λ w. let (ok, w') = admit e w in (some ok, w')
    wait g others 8
    admitted_or_leave e admitted
    still_active e.entrant_attempt
    change (emitted (announces (board_of e) (participant_of e)))
    wait g others 9
    in_session ← λ w. (some (is_in_session e w.session.board_context), w)
    still_active e.entrant_attempt
    if in_session then change (emitted (shows_board (board_of e))) else λ w. (none, w)

  unfoldable pub join_board_run : Received → Part (Unit {0})
  unfolding authorize prepare complete
  join_board_run received = do e ← authorize g others received; prepare e; complete e
