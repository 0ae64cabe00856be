-- ===== src/Collab/MutationLock.antt =====
-- board-state/mutation-lock-domain.ts: the lock of a board in Redis, which the processes share. A
-- key with an owner's token and a time of expiry; times are in milliseconds.
pub mod Exclusion
pub mod Acquire
use notebortt_backend.Common.{
  ℕ, Option, String, Bool, if◌then◌else◌, ◌+◌, false, if◌then◌else◌, none, ◌+◌, some, suc, true,
  ltb, leb, zero, ◌&&◌, ◌&&◌, ◌==◌, ◌==◌,
}

abbrev pub lock_ttl_ms : ℕ
lock_ttl_ms = 30_000

abbrev pub acquire_timeout_ms : ℕ
acquire_timeout_ms = 2_000

abbrev pub poll_ms : ℕ
poll_ms = 25

-- `board:<id>:mutation_lock`: the token, and when the key expires.
abbrev pub LockKey : Type 0
LockKey = Option (String × ℕ)

abbrev pub is_taken : ℕ → LockKey → Bool
is_taken now none = false
is_taken now (some (token, expires_at)) = ltb now expires_at

abbrev pub is_owner : ℕ → String → LockKey → Bool
is_owner now token none = false
is_owner now token (some (owner, expires_at)) = ltb now expires_at && owner == token

-- SET key token PX ttl NX.
unfoldable pub set_lock : ℕ → String → LockKey → Bool × LockKey
set_lock now token lock =
    if is_taken now lock then (false, lock) else (true, some (token, now + lock_ttl_ms))

unfoldable pub extend_mutation_lock : ℕ → String → LockKey → LockKey
extend_mutation_lock now token lock =
    if is_owner now token lock then some (token, now + lock_ttl_ms) else lock

unfoldable pub release_mutation_lock : ℕ → String → LockKey → LockKey
release_mutation_lock now token lock = if is_owner now token lock then none else lock

-- What a poll takes, in milliseconds: from the loop's start to Redis's run of the SET, from there
-- to the clock's reading after its answer, and the sleep's time over `poll_ms`.
pub record Wait : Type 0 where
  pub until_run : ℕ
  pub until_read : ℕ
  pub overslept : ℕ

abbrev pub runs_at : ℕ → Wait → ℕ
runs_at now w = now + w.until_run

abbrev pub reads_at : ℕ → Wait → ℕ
reads_at now w = runs_at now w + w.until_read

abbrev pub next_at : ℕ → Wait → ℕ
next_at now w = reads_at now w + (poll_ms + w.overslept)

abbrev pub later_waits : (ℕ → Wait) → ℕ → Wait
later_waits waits k = waits (suc k)

-- The loop of `acquireMutationLock`, with the times at which the lock is free for it and what each
-- poll takes: when it got the lock, or `none` for the error 503. The fuel bounds the polls.
unfoldable pub poll_lock : ℕ → (ℕ → Bool) → (ℕ → Wait) → ℕ → ℕ → Option (Option ℕ)
poll_lock zero free waits deadline now = none
poll_lock (suc fuel) free waits deadline now =
    let w = waits 0 in
    let later = poll_lock fuel free (later_waits waits) deadline (next_at now w) in
    if free (runs_at now w)
    then some (some (runs_at now w))
    else if leb deadline (reads_at now w)
    then some none
    else later

unfoldable pub acquire_mutation_lock : ℕ → (ℕ → Bool) → (ℕ → Wait) → ℕ → Option (Option ℕ)
unfolding poll_lock
acquire_mutation_lock fuel free waits started_at =
    poll_lock fuel free waits (started_at + acquire_timeout_ms) started_at
