-- ===== src/Core/Feed/Config.antt =====
-- What `NewFeedService` makes of a configuration.
use bfeed.Base.{◌^◌, arith}
use bfeed.Base.Int.{pos, ◌≤ℤ◌, ◌<ℤ◌}
use bfeed.Core.Schedule.{Float64}
use bfeed.Core.Schedule.Bounds.{IsSound, IsJitter}
use bfeed.Core.Feed.World.{FeedServiceConfig, normalize_config}

-- A configuration under which every check is scheduled ahead.
pub record IsSoundConfig {F : Type 0} (cfg : FeedServiceConfig F) : Type 0 where
  pub schedule : IsSound cfg.schedule
  pub backoff_positive : pos 0 <ℤ cfg.reschedule.max_backoff
  pub backoff_fits : cfg.reschedule.max_backoff ≤ℤ pos (2 ^ 62)
  pub fair : IsJitter cfg.jitter

-- The durations of a configuration are at most 2^62 ns (146 years).
pub record IsModest {F : Type 0} (cfg : FeedServiceConfig F) : Type 0 where
  pub min_fits : cfg.schedule.min_interval ≤ℤ pos (2 ^ 62)
  pub max_fits : cfg.schedule.max_interval ≤ℤ pos (2 ^ 62)
  pub backoff_fits : cfg.reschedule.max_backoff ≤ℤ pos (2 ^ 62)

-- If the durations are at most 2^62 ns and the jitter adds at most a quarter, then the normalised
-- configuration has positive bounds and a positive cap, whatever is zero or negative in the given
-- one.
pub normalize_config-IsSoundConfig :
    {F : Type 0} (fl : Float64 F) (cfg : FeedServiceConfig F)
    → IsModest cfg
    → IsJitter cfg.jitter
    → IsSoundConfig (normalize_config fl cfg)
unfolding normalize_config
normalize_config-IsSoundConfig fl cfg m fair = record {
  schedule = record {
    min_positive = ground arith;
    min_fits = ground arith;
    max_positive = ground arith;
    max_fits = ground arith;
  };
  backoff_positive = ground arith;
  backoff_fits = ground arith;
  fair = fair;
}
