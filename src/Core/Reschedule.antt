-- ===== src/Core/Reschedule.antt =====
-- internal/core/reschedule.go: the next check after a poll, and the jitter of cmd/bfeed/serve.go.
pub mod Backoff
use bfeed.Base.{ℕ, zero, suc, ◌*◌, ◌<◌, ◌==◌, ltb, if◌then◌else◌, ◌||◌, Option}
use bfeed.Base.Int.{ℤ, pos, ◌+ℤ◌, ltb_ℤ, leb_ℤ, min_ℤ, quot_ℤ, shl64}
use bfeed.Core.Types.{Duration, Time}
use bfeed.Core.Schedule.{add_jitter}

pub record RescheduleConfig : Type 0 where
  pub interval : Duration
  pub max_backoff : Duration

-- The delay after `error_count` > 0 errors, before the jitter.
unfoldable pub backoff : RescheduleConfig → ℕ → Duration
backoff cfg error_count =
    let shift = if ltb 16 error_count then 16 else error_count in
    let delay = shl64 cfg.interval shift in
    if ltb_ℤ cfg.max_backoff delay || leb_ℤ delay (pos 0) then cfg.max_backoff else delay

-- The delay of `PollReschedule`.
unfoldable pub reschedule_delay :
    RescheduleConfig → ℕ → Duration → Option (Duration → Duration) → Duration
unfolding backoff
reschedule_delay cfg error_count retry_after jitter =
    let delay =
      if ltb 0 error_count then add_jitter jitter (backoff cfg error_count) else cfg.interval in
    if ltb_ℤ delay retry_after then min_ℤ retry_after cfg.max_backoff else delay

-- `PollReschedule`
unfoldable pub poll_reschedule :
    Time → RescheduleConfig → ℕ → Duration → Option (Duration → Duration) → Time
poll_reschedule now cfg error_count retry_after jitter =
    now +ℤ reschedule_delay cfg error_count retry_after jitter

-- The `jitter` of `runServe`; `rand` is `rand.Int63n`.
unfoldable pub serve_jitter : (ℤ → ℤ) → Duration → Duration
serve_jitter rand d = let n = quot_ℤ d 4 in if leb_ℤ n (pos 0) then pos 0 else rand n
