-- ===== src/Realtime/Participants/Expiry.antt =====
-- Every participant has a time of expiry, so that a dead socket loses its slot.
use notebortt_backend.Realtime.Participants.Admission.{
  Request, serve_all, serve, admit, leave, heartbeat, expire,
}
use notebortt_backend.Common.Keys.{has}
use notebortt_backend.Common.{
  ℕ, List, String, [], ◌∷◌, length, ◌≤◌, ◌≡◌, ◌≤◌, ◌≡◌, ◌==◌, true, arith, ◌==◌, ◌||◌, false, suc,
  ◌||◌, eq_iff, refl, zero, ◌+◌,
}
use notebortt_backend.Common.Assoc.{
  delete, keys, has-keys-put, has-keys-delete, has-keys-delete_all,
}
use notebortt_backend.Realtime.Participants.{
  admit_participant, zadd, insert_score, zadd_gt, prune_expired, first_expired, Room,
  remove_participant, touch_participant, set_participant, prune_batch, participant_ttl_ms,
}

abbrev pub IsExpiring : Room → Type 0
IsExpiring room =
    (k : String) → has k (keys room.participants) ≡ true → has k (keys room.expiry) ≡ true

has-insert_score :
    (k j : String) (score : ℕ) (z : List (String × ℕ))
    → has j (keys (insert_score k score z)) ≡ (k == j || has j (keys z))
unfolding insert_score has
has-insert_score k j score [] = refl
has-insert_score k j score ((i, s) ∷ z) = ground (arith, has-insert_score k j score z)

has-zadd :
    (k j : String) (score : ℕ) (z : List (String × ℕ))
    → has j (keys (zadd k score z)) ≡ (k == j || has j (keys z))
unfolding zadd
has-zadd k j score z =
    ground (arith, has-insert_score k j score (delete k z), has-keys-delete k j z, eq_iff k j)

has-zadd_gt :
    (k j : String) (score : ℕ) (z : List (String × ℕ))
    → has j (keys z) ≡ true
    → has j (keys (zadd_gt k score z)) ≡ true
unfolding zadd_gt
has-zadd_gt k j score z h = ground (arith, has-zadd k j score z)

serve-IsExpiring :
    (now : ℕ) (request : Request) (room : Room)
    → IsExpiring room
    → IsExpiring (serve now request room)
unfolding admit_participant remove_participant touch_participant prune_expired set_participant
serve-IsExpiring now (admit socket_id p) room h k = ground (
  arith,
  h k,
  has-keys-put socket_id k p room.participants,
  has-zadd socket_id k (now + participant_ttl_ms) room.expiry,
)
serve-IsExpiring now (leave socket_id) room h k = ground (
  arith,
  h k,
  has-keys-delete socket_id k room.participants,
  has-keys-delete socket_id k room.expiry,
)
serve-IsExpiring now (heartbeat socket_id) room h k =
    λ member. has-zadd_gt socket_id k (now + participant_ttl_ms) room.expiry (h k member)
serve-IsExpiring now expire room h k = ground (
  arith,
  h k,
  has-keys-delete_all (first_expired prune_batch now room.expiry) k room.participants,
  has-keys-delete_all (first_expired prune_batch now room.expiry) k room.expiry,
)

serve_all-IsExpiring :
    (requests : List (ℕ × Request)) (room : Room)
    → IsExpiring room
    → IsExpiring (serve_all requests room)
serve_all-IsExpiring [] room h = h
serve_all-IsExpiring ((now, request) ∷ requests) room h =
    serve_all-IsExpiring requests (serve now request room) (serve-IsExpiring now request room h)

-- Every entry is due.
abbrev IsDue : ℕ → List (String × ℕ) → Type 0
IsDue now [] = Unit {0}
IsDue now ((k, s) ∷ z) = (s ≤ now) × IsDue now z

has-first_expired :
    (n now : ℕ) (k : String) (z : List (String × ℕ))
    → length z ≤ n
    → IsDue now z
    → has k (first_expired n now z) ≡ has k (keys z)
unfolding first_expired has
has-first_expired zero now k [] fits due = refl
has-first_expired zero now k (e ∷ z) fits due = absurd (omega (arith, fits))
has-first_expired (suc n) now k [] fits due = refl
has-first_expired (suc n) now k ((j, s) ∷ z) fits (past, due) =
    ground (arith, past, has-first_expired n now k z (omega (arith, fits)) due)

-- In a room that starts with a time of expiry for each participant, once all of at most 200 times
-- have passed, whatever requests came before, the next prune leaves no participant: a replica
-- that crashed holds no slot for ever.
pub prune_expired-empty :
    (requests : List (ℕ × Request)) (start : Room) (now : ℕ) (k : String)
    → IsExpiring start
    → length (serve_all requests start).expiry ≤ prune_batch
    → IsDue now (serve_all requests start).expiry
    → has k (keys (prune_expired now (serve_all requests start)).participants) ≡ false
unfolding prune_expired
prune_expired-empty requests start now k h fits due =
    let room = serve_all requests start in
    ground (
      arith,
      serve_all-IsExpiring requests start h k,
      has-first_expired prune_batch now k room.expiry fits due,
      has-keys-delete_all (first_expired prune_batch now room.expiry) k room.participants,
    )
