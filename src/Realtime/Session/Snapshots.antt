-- ===== src/Realtime/Session/Snapshots.antt =====
-- What may happen to a connection while a handler waits, and which snapshots outlive it.
use notebortt_backend.Common.{◌≤◌, Option, arith, ◌≡◌, String, ◌≡◌, ℕ, false, some}
use notebortt_backend.Realtime.Session.{
  start_join_attempt, take_context_snapshot, set_board_context, Session, is_snapshot_active,
  is_join_active, set_last_tick_id, Context, Snapshot,
}

pub data Step : Session → Session → Type 0 where
  context_set : {s : Session} (next : Option Context) → Step s (set_board_context next s)
  join_started : {s : Session} → Step s (start_join_attempt s).1
  ticked : {s : Session} (tick_id : ℕ) → Step s (set_last_tick_id tick_id s)
  disconnected : {s : Session} → Step s (record s { connected = false })

pub data Steps : Session → Session → Type 0 where
  done : {s : Session} → Steps s s
  step_then : {s t u : Session} → Step s t → Steps t u → Steps s u

version-Step-le : {s t : Session} → Step s t → s.board_context_version ≤ t.board_context_version
unfolding set_board_context start_join_attempt set_last_tick_id
version-Step-le (context_set {s = s} next) = omega arith
version-Step-le (join_started {s = s}) = omega arith
version-Step-le (ticked {s = s} tick_id) = omega arith
version-Step-le (disconnected {s = s}) = omega arith

version-Steps-le : {s t : Session} → Steps s t → s.board_context_version ≤ t.board_context_version
version-Steps-le done = omega arith
version-Steps-le (step_then step steps) =
    omega (arith, version-Step-le step, version-Steps-le steps)

-- A snapshot that a handler took is never active again once the connection's context has been set,
-- to a board (also the same one) or to none, whatever else happens before and after.
pub set_board_context-inactive :
    {s t u : Session} (expected : String) (snapshot : Snapshot) (next : Option Context)
    → take_context_snapshot expected s ≡ some snapshot
    → Steps s t
    → Steps (set_board_context next t) u
    → is_snapshot_active snapshot u ≡ false
unfolding take_context_snapshot is_snapshot_active set_board_context
set_board_context-inactive {s = s} {t = t} {u = u} expected snapshot next taken before after =
    ground (arith, taken, version-Steps-le before, version-Steps-le after)

-- A join attempt is superseded by the next one, and stays so.
attempt-Step-le : {s t : Session} → Step s t → s.latest_join_attempt ≤ t.latest_join_attempt
unfolding set_board_context start_join_attempt set_last_tick_id
attempt-Step-le (context_set {s = s} next) = omega arith
attempt-Step-le (join_started {s = s}) = omega arith
attempt-Step-le (ticked {s = s} tick_id) = omega arith
attempt-Step-le (disconnected {s = s}) = omega arith

attempt-Steps-le : {s t : Session} → Steps s t → s.latest_join_attempt ≤ t.latest_join_attempt
attempt-Steps-le done = omega arith
attempt-Steps-le (step_then step steps) =
    omega (arith, attempt-Step-le step, attempt-Steps-le steps)

-- Of two join requests of a connection, the earlier one never goes on after the later one has
-- started, whatever else happens.
pub start_join_attempt-inactive :
    (s t : Session) {u : Session}
    → Steps (start_join_attempt s).1 t
    → Steps (start_join_attempt t).1 u
    → is_join_active (start_join_attempt s).0 u ≡ false
unfolding start_join_attempt is_join_active
start_join_attempt-inactive s t {u = u} before after =
    ground (arith, attempt-Steps-le before, attempt-Steps-le after)
