-- ===== src/Realtime/Join/Tests.antt =====
-- What a join and a disconnect make of concrete connections.
use notebortt_backend.Realtime.Session.{Context}
use notebortt_backend.Realtime.Join.Gone.{IsGone, disconnect-IsGone}
use notebortt_backend.Collab.Presence.{prune_stale_clients}
use notebortt_backend.Common.Assoc.{delete_all, get}
use notebortt_backend.Common.Keys.{has, remove, add}
use notebortt_backend.Realtime.Participants.{Participant}
use notebortt_backend.Collab.Element.{str}
use notebortt_backend.Common.{
  ℕ, String, ◌∷◌, [], Option, true, none, refl, ◌≡◌, some, ◌≡◌, false, ◌++◌,
}
use notebortt_backend.Realtime.Join.Steps.{authorize, Setting}
use notebortt_backend.Realtime.Join.Complete.{join_board_run, prepare, complete}
use notebortt_backend.Boards.Rows.{Tables, edit}
use notebortt_backend.Boards.Access.{check_board_access}
use notebortt_backend.Realtime.Join.{
  World, fails, no_access, disconnect, loads, announces, shows_board, withdraws, flushes_room,
  persists, editors_left, shows_user,
}
use notebortt_backend.Realtime.Identity.{Handshake, User}
use notebortt_backend.Realtime.Parsing.{Received, object, json}
use notebortt_backend.Realtime.Join.Denied.{join_board_run-OnlyRefused, OnlyRefused}

abbrev handshake : Handshake
handshake = record {
  socket_id = "s";
  cookies = ("accessToken", "t") ∷ [];
  authorization = none;
  auth_token = none;
  query_share_token = none;
  auth_share_token = none;
}

abbrev users : String → Option User
users id = some (record { user_id = "u"; user_name = "Ada"; user_avatar = none })

abbrev nothing_there : Tables
nothing_there = record { boards = []; board_members = []; workspace_members = [] }

abbrev setting_of : Tables → Setting
setting_of tables = record {
  socket = handshake;
  clock = 100;
  text_of_units = λ units. "name";
  verify_token = λ t. some "u";
  find_user = users;
  tables = tables;
}

abbrev idle : ℕ → World → World
idle k w = w

abbrev fresh : World
fresh = record {
  session = record {
    connected = true;
    board_context = none;
    board_context_version = 0;
    last_tick_id = none;
    latest_join_attempt = 0;
  };
  identity = none;
  presences = λ b. record {
    collab_until = none;
    clients = [];
    leases = [];
    viewers = [];
    last_active = none;
    in_active = false;
  };
  rooms = λ b. record { participants = []; expiry = [] };
  socket_rooms = [];
  effects = [];
}

abbrev request_to_join : Received
request_to_join = object (("boardId", json (str "b1")) ∷ (("sessionId", json (str "s1")) ∷ []))

join_board_run-OnlyRefused_example :
    OnlyRefused fresh (join_board_run (setting_of nothing_there) idle request_to_join fresh).1
unfolding check_board_access
join_board_run-OnlyRefused_example =
    join_board_run-OnlyRefused (setting_of nothing_there) idle (λ k w. refl) request_to_join fresh
      (λ payload parsed. refl)

refused_test :
    (join_board_run (setting_of nothing_there) idle request_to_join fresh).1.effects
    ≡ fails no_access ∷ []
unfolding join_board_run authorize
refused_test = refl

abbrev shared_board : Tables
shared_board = record {
  boards =
      record {
        row_id = "b1";
        row_workspace = "w1";
        view_enabled = false;
        view_token = none;
        edit_enabled = false;
        edit_token = none;
      }
      ∷ [];
  board_members =
      record {
        mem_id = "m1";
        mem_board = "b1";
        mem_user = "u";
        mem_permission = edit;
        mem_added_by = none;
      }
      ∷ [];
  workspace_members = [];
}

abbrev joined : World
joined = (join_board_run (setting_of shared_board) idle request_to_join fresh).1

abbrev member : Participant
member = record {
  session_id = "s1";
  user_id = "u";
  user_name = "Ada";
  avatar_url = none;
  color = "#EF4444";
}

joined_test :
    (joined.effects ≡ loads "b1" ∷ (announces "b1" member ∷ (shows_board "b1" ∷ [])))
    × (joined.socket_rooms ≡ "b1" ∷ [])
unfolding join_board_run authorize prepare complete has delete_all add
joined_test = (refl, refl)

abbrev on_b1 : Context
on_b1 = record {
  ctx_board = "b1";
  ctx_session = "s1";
  ctx_permission = edit;
  ctx_user = "u";
  ctx_name = "Ada";
  ctx_avatar = none;
  ctx_color = "#EF4444";
}

abbrev alone : World
alone = record fresh {
  session = record {
    connected = true;
    board_context = some on_b1;
    board_context_version = 1;
    last_tick_id = none;
    latest_join_attempt = 1;
  };
  rooms = λ b. record { participants = ("s", member) ∷ []; expiry = ("s", 900) ∷ [] };
  socket_rooms = "b1" ∷ [];
}

-- The last participant leaves: the ticks are flushed, the board is persisted.
left_test :
    (disconnect "s" 200 idle alone).effects
    ≡ withdraws "b1" member ∷ (flushes_room "b1" ∷ (persists "b1" ∷ (editors_left "b1" ∷ [])))
unfolding disconnect has delete_all prune_stale_clients get remove
left_test = refl

-- Others join, of whom the socket hears meanwhile.
abbrev another_joins : ℕ → World → World
another_joins k w = record w { effects = w.effects ++ shows_user member ∷ [] }

disconnect-IsGone_example : IsGone "s" on_b1 (disconnect "s" 200 another_joins alone)
disconnect-IsGone_example =
    disconnect-IsGone "s" 200 on_b1 another_joins alone
      (λ k w. ((λ h. h), (λ h. h), (λ h. h), (λ h. h), λ h. h)) refl
