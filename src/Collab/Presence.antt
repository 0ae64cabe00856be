-- ===== src/Collab/Presence.antt =====
-- board-state/presence-domain.ts: who is on a board, and whether its mutations are persisted at
-- once (solo) or by the flush (collab). Time is an argument, in milliseconds.
pub mod Modes
use notebortt_backend.Collab.Board.{is_live}
use notebortt_backend.Collab.Mutation.{WriteMode, collab, solo}
use notebortt_backend.Common.Assoc.{delete, put, get}
use notebortt_backend.Common.Keys.{add, remove}
use notebortt_backend.Common.{
  Option, ℕ, String, some, if◌then◌else◌, filter_by, length, Bool, List, if◌then◌else◌, ◌==◌, ◌==◌,
  true, ◌+◌, leb, ◌+◌, ltb, ◌||◌, ◌||◌,
}
use Prim.Native.String.{◌++◌ as join}

abbrev pub viewer_session_ttl_ms : ℕ
viewer_session_ttl_ms = 90_000

abbrev pub client_lease_ttl_ms : ℕ
client_lease_ttl_ms = 90_000

abbrev pub collab_mode_cooldown_ms : ℕ
collab_mode_cooldown_ms = 90_000

pub record Presence : Type 0 where
  -- `board:<id>:collab_mode_until`: the key expires at the time that it holds
  pub collab_until : Option ℕ
  -- `board:<id>:clients`, and `board:<id>:client_lease:<member>` with the time of expiry
  pub clients : List String
  pub leases : List (String × ℕ)
  -- `board:<id>:viewer_sessions`, with the time of the last touch
  pub viewers : List (String × ℕ)
  pub last_active : Option ℕ
  pub in_active : Bool

-- `${userId}:${connectionId}`.
abbrev pub client_member : String → String → String
client_member user_id connection_id = join user_id (join ":" connection_id)

unfoldable pub extend_collab_mode : ℕ → Presence → Presence
extend_collab_mode now p = record p { collab_until = some (now + collab_mode_cooldown_ms) }

unfoldable pub extend_collab_mode_if_needed : ℕ → ℕ → Presence → Presence
extend_collab_mode_if_needed now participant_count p =
    if leb 2 participant_count then extend_collab_mode now p else p

-- A live marker: the key is there, and the time that it holds is not past.
abbrev pub is_marked : ℕ → Presence → Bool
is_marked now p = is_live now p.collab_until

-- `if (!member) continue` keeps an empty member.
abbrev pub is_current : ℕ → List (String × ℕ) → String → Bool
is_current now leases member = member == "" || is_live now (get member leases)

unfoldable pub prune_stale_clients : ℕ → Presence → Presence
prune_stale_clients now p = record p { clients = filter_by (is_current now p.leases) p.clients }

-- ZREMRANGEBYSCORE from 0 to `now - VIEWER_SESSION_TTL_MS`.
abbrev pub is_recent : ℕ → String × ℕ → Bool
is_recent now (session, touched_at) = ltb now (touched_at + viewer_session_ttl_ms)

unfoldable pub prune_viewers : ℕ → Presence → Presence
prune_viewers now p = record p { viewers = filter_by (is_recent now) p.viewers }

unfoldable pub track_client : ℕ → String → Presence → Presence
track_client now member p =
    let joined = record p {
      clients = add member p.clients;
      leases = put member (now + client_lease_ttl_ms) p.leases;
      in_active = true;
    } in
    extend_collab_mode_if_needed now (length joined.clients) joined

unfoldable pub remove_client : String → Presence → Presence
remove_client member p = record p {
  clients = remove member p.clients;
  leases = delete member p.leases;
}

unfoldable pub get_client_count : ℕ → Presence → ℕ × Presence
get_client_count now p = let pruned = prune_stale_clients now p in (length pruned.clients, pruned)

unfoldable pub touch_viewer_session : ℕ → String → Presence → Presence
touch_viewer_session now session_id p =
    let touched = record p {
      viewers = filter_by (is_recent now) (put session_id now p.viewers);
      last_active = some now;
      in_active = true;
    } in
    extend_collab_mode_if_needed now (length touched.viewers) touched

unfoldable pub remove_viewer_session : String → Presence → Presence
remove_viewer_session session_id p = record p { viewers = delete session_id p.viewers }

unfoldable pub get_active_viewer_count : ℕ → Presence → ℕ × Presence
get_active_viewer_count now p = let pruned = prune_viewers now p in (length pruned.viewers, pruned)

unfoldable pub touch_last_active : ℕ → Presence → Presence
touch_last_active now p = record p { last_active = some now; in_active = true }

-- The two counts, and the board with what they have pruned.
unfoldable pub count_participants : ℕ → Presence → ℕ × ℕ × Presence
count_participants now p =
    let (clients, p') = get_client_count now p in
    let (viewers, p'') = get_active_viewer_count now p' in (clients, viewers, p'')

unfoldable pub rearm_collab_mode_if_active : ℕ → Presence → Presence
rearm_collab_mode_if_active now p =
    if is_marked now p
    then extend_collab_mode now p
    else (let (clients, viewers, p') = count_participants now p in
        if leb 2 clients || leb 2 viewers then extend_collab_mode now p' else p')

unfoldable pub get_sync_write_mode : ℕ → Presence → WriteMode × Presence
get_sync_write_mode now p =
    if is_marked now p
    then (collab, p)
    else (let (clients, viewers, p') = count_participants now p in
        if leb 2 clients || leb 2 viewers then (collab, extend_collab_mode now p') else (solo, p'))
