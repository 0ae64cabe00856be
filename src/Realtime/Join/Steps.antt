-- ===== src/Realtime/Join/Steps.antt =====
-- handlers/join.handler.ts up to the access: who comes, to which board, with which permission. The
-- clock stands still during a join; the texts of names are read by an argument.
use notebortt_backend.Common.Assoc.{or_else}
use notebortt_backend.Boards.Access.{check_board_access}
use notebortt_backend.Boards.Rows.{Permission, Tables}
use notebortt_backend.Realtime.Parsing.Payloads.{BoardJoinPayload, parse_board_join_payload}
use notebortt_backend.Realtime.Parsing.{Received}
use notebortt_backend.Realtime.Session.{is_join_active, start_join_attempt}
use notebortt_backend.Realtime.Join.{
  JoinError, World, emitted, fails, with_session, invalid_join, no_access,
}
use notebortt_backend.Realtime.Identity.{SocketIdentity, Handshake, resolve_socket_identity, User}
use notebortt_backend.Common.{ℕ, Option, List, none, String, some, if◌then◌else◌}

-- A part of the join: it goes on with a value or has returned.
abbrev pub Part : Type 0 → Type 0
Part A = World → Option A × World

abbrev pub go_on : {A B : Type 0} → Option A → (A → Part B) → Part B
go_on none f w = (none, w)
go_on (some a) f w = f a w

infixl 5 ◌>>=◌ ◌>>◌
abbrev pub ◌>>=◌ : {A B : Type 0} → Part A → (A → Part B) → Part B
◌>>=◌ m f w = let (o, w') = m w in go_on o f w'

abbrev pub ◌>>◌ : {B : Type 0} → Part (Unit {0}) → Part B → Part B
m >> k = m >>= λ _. k

abbrev pub refuse : {A : Type 0} → JoinError → Part A
refuse e w = (none, emitted (fails e) w)

abbrev pub or_refuse : {A : Type 0} → Option A → JoinError → Part A
or_refuse none e w = refuse e w
or_refuse (some a) e w = (some a, w)

abbrev pub change : (World → World) → Part (Unit {0})
change f w = (some tt, f w)

-- `if (!runtime.isJoinActive(joinAttempt)) return`.
abbrev pub still_active : ℕ → Part (Unit {0})
still_active attempt w = (if is_join_active attempt w.session then some tt else none, w)

-- What a connection that has been let onto a board is known by.
pub record Entrant : Type 0 where
  pub entrant_attempt : ℕ
  pub entrant_payload : BoardJoinPayload
  pub entrant_identity : SocketIdentity
  pub entrant_permission : Permission

abbrev pub name_for : (List ℕ → String) → SocketIdentity → Option (List ℕ) → String
name_for text identity none = identity.identity_name
name_for text identity (some units) = elim identity.auth_user_id [
  | none ↦ text units
  | some user ↦ identity.identity_name
]

abbrev pub socket_room_connection_cap : ℕ
socket_room_connection_cap = 50

-- What the program around a connection gives it.
pub record Setting : Type 0 where
  pub socket : Handshake
  pub clock : ℕ
  pub text_of_units : List ℕ → String
  pub verify_token : String → Option String
  pub find_user : String → Option User
  pub tables : Tables

abbrev pub start_join : Part ℕ
start_join w = let (attempt, s) = start_join_attempt w.session in (some attempt, with_session s w)

abbrev pub set_identity : SocketIdentity → World → World
set_identity identity w = record w { identity = some identity }

module _ (g : Setting) (others : ℕ → World → World) where
  abbrev pub wait : ℕ → Part (Unit {0})
  wait k = change (others k)

  -- `getIdentity() ?? await resolveIdentity(...)`.
  abbrev pub known_identity : ℕ → Option SocketIdentity → Part SocketIdentity
  known_identity attempt (some identity) = λ w. (some identity, w)
  known_identity attempt none = do
    wait 1
    still_active attempt
    change (set_identity (resolve_socket_identity g.verify_token g.find_user g.socket))
    λ w. (some (resolve_socket_identity g.verify_token g.find_user g.socket), w)

  abbrev pub access_for : BoardJoinPayload → SocketIdentity → Option Permission
  access_for payload identity =
      check_board_access payload.join_board identity.auth_user_id
        (or_else payload.join_share_token g.socket.query_share_token) g.tables

  unfoldable pub identify : ℕ → Part SocketIdentity
  unfolding is_join_active resolve_socket_identity
  identify attempt = do
    known ← λ w. (some w.identity, w)
    identity ← known_identity attempt known
    still_active attempt
    λ w. (some identity, w)

  unfoldable pub check_access : ℕ → BoardJoinPayload → SocketIdentity → Part Entrant
  unfolding is_join_active check_board_access
  check_access attempt payload identity = do
    wait 2
    still_active attempt
    permission ← or_refuse (access_for payload identity) no_access
    λ w. (
      some (record {
        entrant_attempt = attempt;
        entrant_payload = payload;
        entrant_identity = identity;
        entrant_permission = permission;
      }),
      w,
    )

  -- From the payload to the access: who comes, and with which permission.
  unfoldable pub authorize : Received → Part Entrant
  unfolding parse_board_join_payload start_join_attempt identify check_access
  authorize received = do
    payload ← or_refuse (parse_board_join_payload received) invalid_join
    attempt ← start_join
    identity ← identify attempt
    check_access attempt payload identity
