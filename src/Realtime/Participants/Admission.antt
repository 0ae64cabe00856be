-- ===== src/Realtime/Participants/Admission.antt =====
-- The room's cap, whatever the order in which sockets join, leave and expire.
use notebortt_backend.Common.Keys.{has}
use notebortt_backend.Common.Assoc.{put, delete, delete_all, keys, get, get-put}
use notebortt_backend.Common.{
  ℕ, String, List, [], ◌≡◌, ◌∷◌, ◌≡◌, length, if◌then◌else◌, ◌≤◌, ◌≤◌, false, ◌↔◌, ◌↔◌, arith, true,
  suc, refl, ◌==◌, ◌==◌, some,
}
use notebortt_backend.Realtime.Participants.{
  admit_participant, remove_participant, Room, Participant, set_participant, touch_participant,
  room_connection_cap, prune_expired, first_expired, prune_batch,
}

length-put :
    (k : String) (p : Participant) (m : List (String × Participant))
    → length (put k p m) ≡ (if has k (keys m) then length m else suc (length m))
unfolding put has
length-put k p [] = refl
length-put k p ((j, q) ∷ m) = ground (arith, length-put k p m)

length-delete-le : (k : String) (m : List (String × Participant)) → length (delete k m) ≤ length m
unfolding delete
length-delete-le k [] = omega arith
length-delete-le k ((j, q) ∷ m) = ground (arith, length-delete-le k m)

length-delete_all-le :
    (ks : List String) (m : List (String × Participant)) → length (delete_all ks m) ≤ length m
unfolding delete_all
length-delete_all-le [] m = omega arith
length-delete_all-le (k ∷ ks) m =
    omega (arith, length-delete_all-le ks (delete k m), length-delete-le k m)

-- What the replicas do to a room: the script of a join, the leave, the heartbeat, and the prune
-- before each read.
pub data Request : Type 0 where
  admit : String → Participant → Request
  leave : String → Request
  heartbeat : String → Request
  expire : Request

abbrev pub serve : ℕ → Request → Room → Room
serve now (admit socket_id p) room = (admit_participant now socket_id p room_connection_cap room).1
serve now (leave socket_id) room = (remove_participant socket_id room).1
serve now (heartbeat socket_id) room = touch_participant now socket_id room
serve now expire room = prune_expired now room

abbrev pub serve_all : List (ℕ × Request) → Room → Room
serve_all [] room = room
serve_all ((now, request) ∷ requests) room = serve_all requests (serve now request room)

serve-le :
    (now : ℕ) (request : Request) (room : Room)
    → length room.participants ≤ room_connection_cap
    → length (serve now request room).participants ≤ room_connection_cap
unfolding admit_participant remove_participant touch_participant prune_expired set_participant
serve-le now (admit socket_id p) room h = ground (arith, length-put socket_id p room.participants)
serve-le now (leave socket_id) room h = ground (arith, length-delete-le socket_id room.participants)
serve-le now (heartbeat socket_id) room h = h
serve-le now expire room h =
    omega
      (arith, length-delete_all-le (first_expired prune_batch now room.expiry) room.participants)

-- A room with at most 50 participants never has more, whatever joins, leaves, heartbeats and prunes
-- the replicas send, in any order and at any times.
pub serve_all-le :
    (requests : List (ℕ × Request)) (room : Room)
    → length room.participants ≤ room_connection_cap
    → length (serve_all requests room).participants ≤ room_connection_cap
serve_all-le [] room h = h
serve_all-le ((now, request) ∷ requests) room h =
    serve_all-le requests (serve now request room) (serve-le now request room h)

-- A join is refused exactly when the socket has no slot and the room is full, and it then leaves
-- the room as it was; a socket that is admitted is a member with the participant given, and every
-- other socket's participant is the same.
pub admit_participant_lem :
    (now : ℕ) (socket_id other : String) (p : Participant) (cap : ℕ) (room : Room)
    → let (admitted, room') = admit_participant now socket_id p cap room in
      ((admitted ≡ false)
        ↔ ((has socket_id (keys room.participants) ≡ false) × (cap ≤ length room.participants)))
      × (admitted ≡ false → room' ≡ room)
      × (admitted ≡ true
          → get other room'.participants
            ≡ (if socket_id == other then some p else get other room.participants))
unfolding admit_participant set_participant
admit_participant_lem now socket_id other p cap room =
    ground (arith, get-put socket_id other p room.participants)
