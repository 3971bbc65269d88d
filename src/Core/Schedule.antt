-- ===== src/Core/Schedule.antt =====
-- internal/core/schedule.go: the adaptive poll interval.
pub mod Bounds
use bfeed.Base.{ℕ, ◌*◌, ◌^◌, ◌==◌, if◌then◌else◌, Bool, Option, none, some}
use bfeed.Base.Int.{ℤ, pos, ◌+ℤ◌, ltb_ℤ, min_ℤ, max_ℤ, wrap64}
use bfeed.Core.Types.{Duration, hour}

abbrev pub week : ℕ
week = 7 * 24 * hour

abbrev pub max_ttl_influence : ℕ
max_ttl_influence = 30 * 24 * hour

-- The float64 operations that the code uses. `F` is the type of float64 values.
pub record Float64 (F : Type 0) : Type 0 where
  pub of_int : ℤ → F
  pub mul : F → F → F
  pub div : F → F → F
  -- `time.Duration(x)`
  pub to_duration : F → Duration
  pub is_positive : F → Bool
  pub one : F

pub record ScheduleConfig (F : Type 0) : Type 0 where
  pub min_interval : Duration
  pub max_interval : Duration
  pub factor : F

-- A nil function is `none`. `iv += jitter(iv)` wraps as an int64 sum does.
unfoldable pub add_jitter : Option (Duration → Duration) → Duration → Duration
unfolding ◌+ℤ◌ wrap64
add_jitter none d = d
add_jitter (some jitter) d = wrap64 (d +ℤ jitter d)

module _ {F : Type 0} (fl : Float64 F) where
  -- The interval before the bounds.
  unfoldable pub raw_interval : ℕ → ScheduleConfig F → Duration
  raw_interval weekly_count cfg =
      if weekly_count == 0
      then cfg.max_interval
      else fl.to_duration
          (fl.div (fl.of_int (pos week)) (fl.mul (fl.of_int (pos weekly_count)) cfg.factor))

  -- `AdaptiveInterval`. The count is a `COUNT(*)`, so `weeklyCount <= 0` is a test for 0.
  unfoldable pub adaptive_interval :
      ℕ → ScheduleConfig F → Duration → Option (Duration → Duration) → Duration
  adaptive_interval weekly_count cfg feed_ttl jitter =
      let iv = min_ℤ (max_ℤ (raw_interval weekly_count cfg) cfg.min_interval) cfg.max_interval in
      let iv' = add_jitter jitter iv in
      if ltb_ℤ (pos 0) feed_ttl then max_ℤ iv' (min_ℤ feed_ttl (pos max_ttl_influence)) else iv'
