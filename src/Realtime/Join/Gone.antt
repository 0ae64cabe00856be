-- ===== src/Realtime/Join/Gone.antt =====
-- handlers/disconnect.handler.ts: what is left of a connection that has ended.
use notebortt_backend.Boards.Rows.{Permission, view, edit}
use notebortt_backend.Collab.Presence.{
  client_member, get_client_count, prune_stale_clients, is_current, remove_client,
  remove_viewer_session,
}
use notebortt_backend.Realtime.Participants.{
  get_room_size, prune_expired, Room, first_expired, prune_batch, remove_participant, Participant,
}
use notebortt_backend.Realtime.Join.{
  World, cleanup_if_empty, with_room, JoinEffect, emitted, persist_on_drain, with_presence,
  flushes_room, persists, detach_from_board, left_effects, withdraws, with_session, presence_at,
  disconnect, editors_left_if, disconnect_from, editors_left,
}
use notebortt_backend.Realtime.Session.{Context, set_board_context}
use notebortt_backend.Common.{
  String, Bool, ℕ, List, ◌≡◌, ◌≡◌, false, filter_by, none, ltb, ◌∷◌, arith, [], refl, if◌then◌else◌,
  ==_self, true, leb, Option, Option-cases, inl, some, inr, sym,
}
use mathlib.Core.Path.{subst}
use notebortt_backend.Common.Assoc.{get, get-delete_all, get-delete}
use notebortt_backend.Common.Keys.{has, remove, has-remove}

-- Nothing of a connection is left on its board: not its client or its viewer's session, not its
-- participant, nor does it hear of the board.
pub record IsGone (socket_id : String) (c : Context) (w : World) : Type 0 where
  pub no_client : has (client_member c.ctx_user socket_id) (w.presences c.ctx_board).clients ≡ false
  pub no_viewer : get c.ctx_session (w.presences c.ctx_board).viewers ≡ none
  pub no_participant : get socket_id (w.rooms c.ctx_board).participants ≡ none
  pub no_room : has c.ctx_board w.socket_rooms ≡ false
  pub no_context : w.session.board_context ≡ none

has-filter_by :
    (k : String) (f : String → Bool) (xs : List String)
    → has k xs ≡ false
    → has k (filter_by f xs) ≡ false
unfolding has
has-filter_by k f [] h = refl
has-filter_by k f (x ∷ xs) h = ground (arith, h, has-filter_by k f xs (ground (arith, h)))

module _ (socket_id : String) (now : ℕ) (c : Context) where
  either-IsGone :
      (b : Bool) (w w' : World)
      → IsGone socket_id c w
      → IsGone socket_id c w'
      → IsGone socket_id c (if b then w else w')
  either-IsGone true w w' h h' = h
  either-IsGone false w w' h h' = h'

  emitted-IsGone :
      (e : JoinEffect) (w : World) → IsGone socket_id c w → IsGone socket_id c (emitted e w)
  emitted-IsGone e w h = record {
    no_client = h.no_client;
    no_viewer = h.no_viewer;
    no_participant = h.no_participant;
    no_room = h.no_room;
    no_context = h.no_context;
  }

  with_room-IsGone :
      (room : Room) (w : World)
      → IsGone socket_id c w
      → get socket_id room.participants ≡ none
      → IsGone socket_id c (with_room c.ctx_board room w)
  with_room-IsGone room w h out = record {
    no_client = h.no_client;
    no_viewer = h.no_viewer;
    no_participant = ground (arith, out, ==_self c.ctx_board);
    no_room = h.no_room;
    no_context = h.no_context;
  }

  cleanup_if_empty-IsGone :
      (w : World)
      → IsGone socket_id c w
      → IsGone socket_id c (cleanup_if_empty socket_id now c.ctx_board w)
  unfolding get_room_size prune_expired
  cleanup_if_empty-IsGone w h =
      let room = w.rooms c.ctx_board in
      let pruned = prune_expired now room in
      let w' = with_room c.ctx_board pruned w in
      let gone = with_room-IsGone pruned w h (
        ground (
          arith,
          h.no_participant,
          get-delete_all (first_expired prune_batch now room.expiry) socket_id room.participants,
        )) in
      either-IsGone (ltb 0 (get_room_size now room).0) w' (emitted (flushes_room c.ctx_board) w')
        gone (emitted-IsGone (flushes_room c.ctx_board) w' gone)

  prune-IsGone :
      (w : World)
      → IsGone socket_id c w
      → IsGone socket_id c
          (with_presence c.ctx_board (prune_stale_clients now (w.presences c.ctx_board)) w)
  unfolding prune_stale_clients
  prune-IsGone w h =
      let p = w.presences c.ctx_board in
      record {
        no_client = ground (
          arith,
          ==_self c.ctx_board,
          has-filter_by (client_member c.ctx_user socket_id) (is_current now p.leases) p.clients
              h.no_client,
        );
        no_viewer = ground (arith, ==_self c.ctx_board, h.no_viewer);
        no_participant = h.no_participant;
        no_room = h.no_room;
        no_context = h.no_context;
      }

  persist_on_drain-IsGone :
      (w : World)
      → IsGone socket_id c w
      → IsGone socket_id c (persist_on_drain socket_id now c.ctx_board w)
  unfolding get_client_count
  persist_on_drain-IsGone w h =
      let p = w.presences c.ctx_board in
      let w' = with_presence c.ctx_board (prune_stale_clients now p) w in
      either-IsGone (leb (get_client_count now p).0 1) (emitted (persists c.ctx_board) w') w'
        (emitted-IsGone (persists c.ctx_board) w' (prune-IsGone w h)) (prune-IsGone w h)

  -- All but the room, which the connection leaves last.
  abbrev IsAlmostGone : World → Type 0
  IsAlmostGone w =
      (has (client_member c.ctx_user socket_id) (w.presences c.ctx_board).clients ≡ false)
      × (get c.ctx_session (w.presences c.ctx_board).viewers ≡ none)
      × (get socket_id (w.rooms c.ctx_board).participants ≡ none)
      × (w.session.board_context ≡ none)

  leave-IsGone :
      (w : World)
      → IsAlmostGone w
      → IsGone socket_id c (record w { socket_rooms = remove c.ctx_board w.socket_rooms })
  leave-IsGone w (client, viewer, participant, context) = record {
    no_client = client;
    no_viewer = viewer;
    no_participant = participant;
    no_room =
        ground (arith, ==_self c.ctx_board, has-remove c.ctx_board c.ctx_board w.socket_rooms);
    no_context = context;
  }

  left_effects-IsGone :
      (broadcast : Bool) (p : Option Participant) (w : World)
      → IsAlmostGone w
      → let w' = left_effects socket_id now broadcast c.ctx_board p w in
        IsGone socket_id c (record w' { socket_rooms = remove c.ctx_board w'.socket_rooms })
  left_effects-IsGone false p w h = leave-IsGone w h
  left_effects-IsGone true none w h = leave-IsGone w h
  left_effects-IsGone true (some p) w h = leave-IsGone (emitted (withdraws c.ctx_board p) w) h

  removed-participant :
      (room : Room) → get socket_id (remove_participant socket_id room).1.participants ≡ none
  unfolding remove_participant
  removed-participant room = elim (Option-cases (get socket_id room.participants)) [
    | inl nobody ↦ ground (arith, nobody)
    | inr (p, found) ↦
        ground (arith, found, get-delete socket_id socket_id room.participants, ==_self socket_id)
  ]

  at_board-participant :
      (room : Room) (w : World)
      → get socket_id room.participants ≡ none
      → get socket_id ((with_room c.ctx_board room w).rooms c.ctx_board).participants ≡ none
  at_board-participant room w out = ground (arith, out, ==_self c.ctx_board)

  removed-client :
      (w : World)
      → let member = client_member c.ctx_user socket_id in
        let p = remove_client member (presence_at c.ctx_board w) in
        has member ((with_presence c.ctx_board p w).presences c.ctx_board).clients ≡ false
  unfolding remove_client
  removed-client w =
      let member = client_member c.ctx_user socket_id in
      rw (==_self c.ctx_board)
        (ground (arith, has-remove member member (w.presences c.ctx_board).clients, ==_self member))

  removed-viewer :
      (w : World)
      → has (client_member c.ctx_user socket_id) (w.presences c.ctx_board).clients ≡ false
      → let p = remove_viewer_session c.ctx_session (presence_at c.ctx_board w) in
        let w' = with_presence c.ctx_board p w in
        (has (client_member c.ctx_user socket_id) (w'.presences c.ctx_board).clients ≡ false)
        × (get c.ctx_session (w'.presences c.ctx_board).viewers ≡ none)
  unfolding remove_viewer_session
  removed-viewer w client = rw (==_self c.ctx_board) (
    client,
    ground (
      arith,
      get-delete c.ctx_session c.ctx_session (w.presences c.ctx_board).viewers,
      ==_self c.ctx_session,
    ),
  )

  -- What others do puts nothing back that the detachment has removed.
  abbrev pub PutsNothingBack : (ℕ → World → World) → Type 0
  PutsNothingBack others =
      (k : ℕ) (w : World)
      → (has (client_member c.ctx_user socket_id) (w.presences c.ctx_board).clients ≡ false
          → has (client_member c.ctx_user socket_id) ((others k w).presences c.ctx_board).clients
            ≡ false)
        × (get c.ctx_session (w.presences c.ctx_board).viewers ≡ none
            → get c.ctx_session ((others k w).presences c.ctx_board).viewers ≡ none)
        × (get socket_id (w.rooms c.ctx_board).participants ≡ none
            → get socket_id ((others k w).rooms c.ctx_board).participants ≡ none)
        × (has c.ctx_board w.socket_rooms ≡ false
            → has c.ctx_board (others k w).socket_rooms ≡ false)
        × (w.session.board_context ≡ none → (others k w).session.board_context ≡ none)

  module _ (others : ℕ → World → World) (keep : PutsNothingBack others) where
    others-IsGone : (k : ℕ) (w : World) → IsGone socket_id c w → IsGone socket_id c (others k w)
    others-IsGone k w h =
        let (client, viewer, participant, room, context) = keep k w in
        record {
          no_client = client h.no_client;
          no_viewer = viewer h.no_viewer;
          no_participant = participant h.no_participant;
          no_room = room h.no_room;
          no_context = context h.no_context;
        }

    detach_from_board-IsGone :
        (broadcast : Bool) (w : World)
        → IsGone socket_id c (detach_from_board socket_id now others c broadcast w)
    unfolding detach_from_board set_board_context
    detach_from_board-IsGone broadcast w =
        let w0 = with_session (set_board_context none w.session) w in
        let w1 = others 10 w0 in
        let w2 =
          with_presence c.ctx_board
            (remove_client (client_member c.ctx_user socket_id) (presence_at c.ctx_board w1)) w1 in
        let w3 = others 11 w2 in
        let w4 =
          with_presence c.ctx_board
            (remove_viewer_session c.ctx_session (presence_at c.ctx_board w3)) w3 in
        let (client3, _, _, _, context3) = keep 11 w2 in
        let (client4, viewer4) = removed-viewer w3 (client3 (removed-client w1)) in
        let (client, viewer, _, _, context) = keep 12 w4 in
        let (_, _, _, _, context1) = keep 10 w0 in
        let w5 = others 12 w4 in
        let (participant, room) = remove_participant socket_id (w5.rooms c.ctx_board) in
        let w6 = with_room c.ctx_board room w5 in
        let out = at_board-participant room w5 (removed-participant (w5.rooms c.ctx_board)) in
        let (client6, viewer6, participant6, _, context6) = keep 13 w6 in
        persist_on_drain-IsGone _ (
          others-IsGone 15 _ (
            cleanup_if_empty-IsGone _ (
              others-IsGone 14 _ (
                left_effects-IsGone broadcast participant (others 13 w6) (
                  client6 (client client4),
                  viewer6 (viewer viewer4),
                  participant6 out,
                  context6 (context (context3 (context1 refl))),
                )))))

  editors_left_if-IsGone :
      (permission : Permission) (w : World)
      → IsGone socket_id c w
      → IsGone socket_id c (editors_left_if socket_id now permission c.ctx_board w)
  editors_left_if-IsGone view w h = h
  editors_left_if-IsGone edit w h = emitted-IsGone (editors_left c.ctx_board) w h

  -- The end of a connection leaves nothing of it on its board: the board counts neither its client
  -- nor its viewer's session and has no participant for it, whichever entries have expired; the
  -- socket is out of the room, and its context is cleared. Others may do anything at the waits but
  -- put one of these back, as would a join of this connection that is still in flight.
  pub disconnect-IsGone :
      (others : ℕ → World → World) (w : World)
      → PutsNothingBack others
      → w.session.board_context ≡ some c
      → IsGone socket_id c (disconnect socket_id now others w)
  unfolding disconnect set_board_context
  disconnect-IsGone others w keep on_board =
      subst (λ o. IsGone socket_id c (disconnect_from socket_id now others o w)) (sym on_board)
        (editors_left_if-IsGone c.ctx_permission _ (
          detach_from_board-IsGone others keep true
            (with_session (set_board_context none w.session) w)))
