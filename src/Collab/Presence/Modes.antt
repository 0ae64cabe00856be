-- ===== src/Collab/Presence/Modes.antt =====
-- When a board is in collab mode, and how long it stays so.
use notebortt_backend.Collab.Mutation.{solo, collab}
use notebortt_backend.Common.Keys.{add}
use notebortt_backend.Common.{
  ℕ, List, String, filter_by, ◌≤◌, ◌≤◌, length, ◌≡◌, ◌≡◌, ◌<◌, ◌<◌, ◌+◌, ◌↔◌, some, ◌↔◌, arith,
  false,
}
use notebortt_backend.Collab.Presence.{
  track_client, get_sync_write_mode, rearm_collab_mode_if_active, count_participants, Presence,
  extend_collab_mode_if_needed, get_client_count, extend_collab_mode, get_active_viewer_count,
  prune_stale_clients, prune_viewers, is_recent, is_current, collab_mode_cooldown_ms, is_marked,
}

-- The clients with a live lease, and the viewers seen within the last 90 seconds.
abbrev pub live_clients : ℕ → Presence → List String
live_clients now p = filter_by (is_current now p.leases) p.clients

abbrev pub live_viewers : ℕ → Presence → List (String × ℕ)
live_viewers now p = filter_by (is_recent now) p.viewers

-- A board is written as solo exactly when the marker has expired and fewer than two clients and
-- fewer than two viewers are live.
pub get_sync_write_mode_iff :
    (now : ℕ) (p : Presence)
    → ((get_sync_write_mode now p).0 ≡ solo) ↔ (
        (is_marked now p ≡ false)
        × (length (live_clients now p) < 2)
        × (length (live_viewers now p) < 2))
unfolding get_sync_write_mode count_participants get_client_count get_active_viewer_count
    prune_stale_clients prune_viewers
get_sync_write_mode_iff now p = ground arith

-- The re-arming after a mutation starts the cooldown anew on a board in collab mode, and leaves
-- the marker of a solo board as it was.
pub rearm_collab_mode_if_active_lem :
    (now : ℕ) (p : Presence)
    → (rearm_collab_mode_if_active now p).collab_until ≡ (elim (get_sync_write_mode now p).0 [
      | solo ↦ p.collab_until
      | collab ↦ some (now + collab_mode_cooldown_ms)
    ])
unfolding get_sync_write_mode rearm_collab_mode_if_active count_participants get_client_count
    get_active_viewer_count prune_stale_clients prune_viewers extend_collab_mode
rearm_collab_mode_if_active_lem now p = ground arith

-- Once a second client has joined, the board is written as collab for the next 90 seconds, however
-- clients and viewers leave or expire meanwhile.
pub track_client-collab :
    (now later : ℕ) (member : String) (p q : Presence)
    → 2 ≤ length (add member p.clients)
    → later < now + collab_mode_cooldown_ms
    → q.collab_until ≡ (track_client now member p).collab_until
    → (get_sync_write_mode later q).0 ≡ collab
unfolding track_client extend_collab_mode_if_needed extend_collab_mode get_sync_write_mode
track_client-collab now later member p q two soon same = ground arith
