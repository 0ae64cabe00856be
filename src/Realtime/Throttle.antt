-- ===== src/Realtime/Throttle.antt =====
-- server.ts: the token bucket of a connection and the gate before its handlers. A token is 1000
-- units, so that the refill of 120 tokens a second is 120 units a millisecond, and times are in
-- milliseconds.
pub mod Rate
use notebortt_backend.Common.{
  Bool, ℕ, min, if◌then◌else◌, if◌then◌else◌, ◌+◌, not, ltb, ◌+◌, ◌-◌, false, leb, ◌-◌, true, ◌*◌,
  ◌*◌,
}

abbrev bucket_capacity : ℕ
bucket_capacity = 240_000

abbrev pub refill_per_ms : ℕ
refill_per_ms = 120

abbrev pub token : ℕ
token = 1_000

abbrev pub error_spacing_ms : ℕ
error_spacing_ms = 1_000

pub record Bucket : Type 0 where
  pub bucket_tokens : ℕ
  pub bucket_updated_at : ℕ

-- What the refill leaves, for a clock that does not run backwards.
abbrev refilled : ℕ → Bucket → ℕ
refilled now b = min bucket_capacity (b.bucket_tokens + (now - b.bucket_updated_at) * refill_per_ms)

unfoldable pub consume_event_token : ℕ → Bucket → Bool × Bucket
consume_event_token now b =
    if ltb (refilled now b) token
    then (false, record { bucket_tokens = refilled now b; bucket_updated_at = now })
    else (true, record { bucket_tokens = refilled now b - token; bucket_updated_at = now })

pub record Gate : Type 0 where
  pub bucket : Bucket
  pub last_throttle_notice_at : ℕ

-- What becomes of an event: dropped, with a notice or without, refused for its size, or handled.
pub data Verdict : Type 0 where
  dropped : Bool → Verdict
  too_large : Verdict
  handled : Verdict

-- The callback of `registerHandler` up to the handler's start; the last argument is the payload
-- that exceeds its cap.
unfoldable pub on_event : ℕ → Bool → Gate → Verdict × Gate
unfolding consume_event_token
on_event now exceeds gate =
    let (consumed, bucket') = consume_event_token now gate.bucket in
    if not consumed
    then (if leb error_spacing_ms (now - gate.last_throttle_notice_at)
        then (dropped true, record { bucket = bucket'; last_throttle_notice_at = now })
        else (dropped false, record gate { bucket = bucket' }))
    else if exceeds
    then (too_large, record gate { bucket = bucket' })
    else (handled, record gate { bucket = bucket' })
