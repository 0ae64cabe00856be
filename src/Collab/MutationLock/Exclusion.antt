-- ===== src/Collab/MutationLock/Exclusion.antt =====
-- While a process keeps its lease alive, nobody else gets or frees the lock.
use notebortt_backend.Collab.MutationLock.{
  extend_mutation_lock, set_lock, release_mutation_lock, LockKey, lock_ttl_ms,
}
use notebortt_backend.Common.{
  String, ℕ, List, ◌∷◌, [], if◌then◌else◌, ◌<◌, Bool, some, ◌<◌, ◌==◌, ◌+◌, false, ◌≡◌, ◌≡◌, ◌||◌,
  arith, ◌⊎◌, ◌||◌, ◌⊎◌, eq_iff, ◌≤◌, ◌≤◌, refl,
}

-- What a process asks of Redis, with its token.
pub data LockRequest : Type 0 where
  take : String → LockRequest
  renew : String → LockRequest
  free : String → LockRequest

abbrev pub answer : ℕ → LockRequest → LockKey → Bool × LockKey
answer now (take token) lock = set_lock now token lock
answer now (renew token) lock = (false, extend_mutation_lock now token lock)
answer now (free token) lock = (false, release_mutation_lock now token lock)

abbrev pub answer_all : List (ℕ × LockRequest) → LockKey → LockKey
answer_all [] lock = lock
answer_all ((now, request) ∷ requests) lock = answer_all requests (answer now request lock).1

-- Does one of the requests get the lock?
abbrev pub is_acquired : List (ℕ × LockRequest) → LockKey → Bool
is_acquired [] lock = false
is_acquired ((now, request) ∷ requests) lock =
    (answer now request lock).0 || is_acquired requests (answer now request lock).1

-- The owner's own requests are renewals, every other request has another token, and all come
-- before the lease runs out, which each renewal moves.
abbrev pub IsTimely : String → ℕ → List (ℕ × LockRequest) → Type 0
IsTimely owner expires_at [] = Unit {0}
IsTimely owner expires_at ((now, take token) ∷ requests) =
    (now < expires_at) × ((owner == token) ≡ false) × IsTimely owner expires_at requests
IsTimely owner expires_at ((now, free token) ∷ requests) =
    (now < expires_at) × ((owner == token) ≡ false) × IsTimely owner expires_at requests
IsTimely owner expires_at ((now, renew token) ∷ requests) =
    (now < expires_at)
    × IsTimely owner (if owner == token then now + lock_ttl_ms else expires_at) requests

abbrev lease_end : String → ℕ → List (ℕ × LockRequest) → ℕ
lease_end owner expires_at [] = expires_at
lease_end owner expires_at ((now, take token) ∷ requests) = lease_end owner expires_at requests
lease_end owner expires_at ((now, free token) ∷ requests) = lease_end owner expires_at requests
lease_end owner expires_at ((now, renew token) ∷ requests) =
    lease_end owner (if owner == token then now + lock_ttl_ms else expires_at) requests

-- While the owner renews its lease in time, any requests of processes with other tokens, to take
-- the lock, to renew it or to release it, leave it with the owner, and none of them gets it.
pub answer_all_exclusive :
    (owner : String) (expires_at : ℕ) (requests : List (ℕ × LockRequest))
    → IsTimely owner expires_at requests
    → (answer_all requests (some (owner, expires_at))
        ≡ some (owner, lease_end owner expires_at requests))
      × (is_acquired requests (some (owner, expires_at)) ≡ false)
unfolding set_lock extend_mutation_lock release_mutation_lock
answer_all_exclusive owner expires_at [] h = (refl, refl)
answer_all_exclusive owner expires_at ((now, take token) ∷ requests) (live, other, h) =
    ground (arith, live, other, answer_all_exclusive owner expires_at requests h)
answer_all_exclusive owner expires_at ((now, free token) ∷ requests) (live, other, h) =
    ground (arith, live, other, answer_all_exclusive owner expires_at requests h)
answer_all_exclusive owner expires_at ((now, renew token) ∷ requests) (live, h) = ground (
  arith,
  live,
  eq_iff owner token,
  answer_all_exclusive owner (if owner == token then now + lock_ttl_ms else expires_at) requests h,
)

-- A process whose lease has run out, also when another has taken the lock since, cannot renew or
-- free it: its requests leave the key as it is, up to its expiry.
pub expired_powerless :
    (now : ℕ) (owner token : String) (expires_at : ℕ)
    → (owner == token) ≡ false ⊎ (expires_at ≤ now)
    → (extend_mutation_lock now token (some (owner, expires_at)) ≡ some (owner, expires_at))
      × (release_mutation_lock now token (some (owner, expires_at)) ≡ some (owner, expires_at))
unfolding extend_mutation_lock release_mutation_lock
expired_powerless now owner token expires_at h = ground (arith, h)
