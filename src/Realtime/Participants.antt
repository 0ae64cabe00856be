-- ===== src/Realtime/Participants.antt =====
-- participants.ts: the participants of one board's room, as its Redis hash and the sorted set of
-- expiry times. Times are in milliseconds and are arguments.
pub mod Admission
pub mod Expiry
use notebortt_backend.Common.Keys.{has}
use notebortt_backend.Common.Assoc.{delete, put, get, values, delete_all, keys}
use notebortt_backend.Common.{
  String, ℕ, List, [], ◌∷◌, Bool, length, Option, ◌+◌, ◌+◌, ◌∷◌, if◌then◌else◌, suc, none,
  if◌then◌else◌, leb, ltb, some, zero, true, false,
}

abbrev pub room_connection_cap : ℕ
room_connection_cap = 50

abbrev pub participant_ttl_ms : ℕ
participant_ttl_ms = 90_000

abbrev pub prune_batch : ℕ
prune_batch = 200

pub record Participant : Type 0 where
  pub session_id : String
  pub user_id : String
  pub user_name : String
  pub avatar_url : Option String
  pub color : String

pub record Room : Type 0 where
  -- `board:<id>:participants`
  pub participants : List (String × Participant)
  -- `board:<id>:participants_expiry`, in ascending order of the times
  pub expiry : List (String × ℕ)

unfoldable pub insert_score : String → ℕ → List (String × ℕ) → List (String × ℕ)
insert_score k score [] = (k, score) ∷ []
insert_score k score ((j, s) ∷ rest) =
    let later = insert_score k score rest in
    if ltb score s then (k, score) ∷ (j, s) ∷ rest else (j, s) ∷ later

-- ZADD: the member's new score, in its place.
unfoldable pub zadd : String → ℕ → List (String × ℕ) → List (String × ℕ)
unfolding insert_score
zadd k score z = insert_score k score (delete k z)

-- ZADD GT: a member that is there keeps a score that is not lower; a new one is added.
unfoldable pub zadd_gt : String → ℕ → List (String × ℕ) → List (String × ℕ)
unfolding zadd
zadd_gt k score z = elim (get k z) [
  | none ↦ zadd k score z
  | some s ↦ if ltb s score then zadd k score z else z
]

-- ZRANGEBYSCORE -inf now LIMIT 0 n.
unfoldable pub first_expired : ℕ → ℕ → List (String × ℕ) → List String
first_expired zero now z = []
first_expired (suc n) now [] = []
first_expired (suc n) now ((k, s) ∷ z) =
    let rest = first_expired n now z in if leb s now then k ∷ rest else []

unfoldable pub prune_expired : ℕ → Room → Room
unfolding first_expired
prune_expired now room =
    let expired = first_expired prune_batch now room.expiry in
    record {
      participants = delete_all expired room.participants;
      expiry = delete_all expired room.expiry;
    }

-- The two writes that the Lua script of an admission repeats.
unfoldable pub set_participant : ℕ → String → Participant → Room → Room
unfolding zadd
set_participant now socket_id p room = record {
  participants = put socket_id p room.participants;
  expiry = zadd socket_id (now + participant_ttl_ms) room.expiry;
}

unfoldable pub touch_participant : ℕ → String → Room → Room
unfolding zadd_gt
touch_participant now socket_id room = record room {
  expiry = zadd_gt socket_id (now + participant_ttl_ms) room.expiry;
}

unfoldable pub remove_participant : String → Room → Option Participant × Room
remove_participant socket_id room = elim (get socket_id room.participants) [
  | none ↦ (none, room)
  | some p ↦ (
    some p,
    record {
      participants = delete socket_id room.participants;
      expiry = delete socket_id room.expiry;
    },
  )
]

unfoldable pub get_room_participants : ℕ → Room → List Participant × Room
unfolding prune_expired
get_room_participants now room =
    let pruned = prune_expired now room in (values pruned.participants, pruned)

unfoldable pub get_room_size : ℕ → Room → ℕ × Room
unfolding prune_expired
get_room_size now room = let pruned = prune_expired now room in (length pruned.participants, pruned)

unfoldable pub has_participant : ℕ → String → Room → Bool × Room
unfolding prune_expired
has_participant now socket_id room =
    let pruned = prune_expired now room in (has socket_id (keys pruned.participants), pruned)

-- HEXISTS and HLEN after one prune: is it a member, and the size.
unfoldable pub get_admission_state : ℕ → String → Room → Bool × ℕ × Room
unfolding prune_expired
get_admission_state now socket_id room =
    let pruned = prune_expired now room in
    (has socket_id (keys pruned.participants), length pruned.participants, pruned)

unfoldable pub admit_participant : ℕ → String → Participant → ℕ → Room → Bool × Room
unfolding set_participant
admit_participant now socket_id p room_cap room =
    if has socket_id (keys room.participants)
    then (true, set_participant now socket_id p room)
    else if leb room_cap (length room.participants)
    then (false, room)
    else (true, set_participant now socket_id p room)
