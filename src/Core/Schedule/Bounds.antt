-- ===== src/Core/Schedule/Bounds.antt =====
-- The bounds of the adaptive interval.
use bfeed.Base.{ℕ, ◌+◌, ◌/◌, ◌^◌, ◌≡◌, max, if◌then◌else◌, Option, none, some, arith}
use bfeed.Base.Int.{
  pos, negsuc, neg_part, +ℤ_parts, one_part, max_ℤ, ltb_ℤ, pos_part, ◌+ℤ◌, ◌≤ℤ◌, ◌<ℤ◌, min_ℤ,
  wrap64, wrap64_id,
}
use bfeed.Core.Types.{Duration}
use bfeed.Core.Schedule.{
  Float64, ScheduleConfig, raw_interval, add_jitter, adaptive_interval, max_ttl_influence,
}

-- A jitter is non-negative and at most a quarter of what it is given.
pub record IsQuarterJitter (jitter : Duration → Duration) : Type 0 where
  pub nonneg : (d : Duration) → pos 0 ≤ℤ d → pos 0 ≤ℤ jitter d
  pub quarter : (d : Duration) → pos 0 ≤ℤ d → jitter d ≤ℤ pos (pos_part d / 4)

abbrev pub IsJitter : Option (Duration → Duration) → Type 0
IsJitter none = Unit
IsJitter (some jitter) = IsQuarterJitter jitter

-- Below 2^62 ns (146 years) the jitter neither overflows nor shortens the interval.
pub add_jitter_bounds :
    (j : Option (Duration → Duration)) (d : Duration)
    → IsJitter j
    → pos 0 ≤ℤ d
    → d ≤ℤ pos (2 ^ 62)
    → (d ≤ℤ add_jitter j d) × (add_jitter j d ≤ℤ pos (pos_part d + pos_part d / 4))
unfolding add_jitter
add_jitter_bounds none d h l u = omega arith
add_jitter_bounds (some jitter) (negsuc n) h l u = absurd (omega arith)
add_jitter_bounds (some jitter) (pos n) h l u =
    let low = h.nonneg (pos n) l in
    let high = h.quarter (pos n) l in
    let sum = +ℤ_parts (pos n) (jitter (pos n)) in
    jittered (pos n +ℤ jitter (pos n)) (jitter (pos n)) low high sum
  where
    jittered :
        (r j : Duration)
        → pos 0 ≤ℤ j
        → j ≤ℤ pos (n / 4)
        → pos_part r + 0 + neg_part j ≡ neg_part r + n + pos_part j
        → (pos n ≤ℤ wrap64 r) × (wrap64 r ≤ℤ pos (n + n / 4))
    jittered (pos m) (pos j) p q e =
        rw (wrap64_id (pos m) (omega arith) (omega arith)) (omega arith)
    jittered (negsuc m) (pos j) p q e = absurd (omega arith)
    jittered r (negsuc j) p q e = absurd (omega arith)

-- The clamp alone lies between the lesser of the two bounds and the maximum.
clamp_bounds :
    (d lo hi : Duration) → (min_ℤ lo hi ≤ℤ min_ℤ (max_ℤ d lo) hi) × (min_ℤ (max_ℤ d lo) hi ≤ℤ hi)
clamp_bounds d lo hi = ground arith

-- A publisher's hint raises the interval, and past `hi` no further than the cap.
hint_bounds :
    (iv lo ttl : Duration) (hi : ℕ)
    → lo ≤ℤ iv
    → iv ≤ℤ pos hi
    → let r = if ltb_ℤ (pos 0) ttl then max_ℤ iv (min_ℤ ttl (pos max_ttl_influence)) else iv in
      (lo ≤ℤ r) × (r ≤ℤ pos (max hi max_ttl_influence))
hint_bounds iv lo ttl hi l u = ground arith

min-positive : (a b : Duration) → pos 0 <ℤ a → pos 0 <ℤ b → pos 0 <ℤ min_ℤ a b
min-positive a b p q = ground arith

-- A configuration that is positive and far from the int64 limit.
pub record IsSound {F : Type 0} (cfg : ScheduleConfig F) : Type 0 where
  pub min_positive : pos 0 <ℤ cfg.min_interval
  pub min_fits : cfg.min_interval ≤ℤ pos (2 ^ 62)
  pub max_positive : pos 0 <ℤ cfg.max_interval
  pub max_fits : cfg.max_interval ≤ℤ pos (2 ^ 62)

module _ {F : Type 0} (fl : Float64 F) (n : ℕ) (cfg : ScheduleConfig F) (ttl : Duration)
    (jitter : Option (Duration → Duration)) (sound : IsSound cfg) (fair : IsJitter jitter) where
  -- If the bounds are positive and at most 2^62 ns and the jitter adds at most a quarter, then
  -- whatever the count, the division and the publisher's hint, the interval is at least the lesser of
  -- the bounds, and at most the greater of thirty days and a quarter over the configured maximum.
  pub adaptive_interval_bounds :
      let interval = adaptive_interval fl n cfg ttl jitter in
      (min_ℤ cfg.min_interval cfg.max_interval ≤ℤ interval)
      × (interval
          ≤ℤ pos
              (max (pos_part cfg.max_interval + pos_part cfg.max_interval / 4) max_ttl_influence))
  unfolding adaptive_interval
  adaptive_interval_bounds =
      let c = clamp_bounds (raw_interval fl n cfg) cfg.min_interval cfg.max_interval in
      let iv = min_ℤ (max_ℤ (raw_interval fl n cfg) cfg.min_interval) cfg.max_interval in
      let least =
        min-positive cfg.min_interval cfg.max_interval sound.min_positive sound.max_positive in
      let j = add_jitter_bounds jitter iv fair (omega arith) (omega (arith, sound.max_fits)) in
      hint_bounds (add_jitter jitter iv) (min_ℤ cfg.min_interval cfg.max_interval) ttl
        (pos_part cfg.max_interval + pos_part cfg.max_interval / 4) (omega arith)
        (omega (arith, one_part iv, one_part cfg.max_interval))

  -- So the next poll lies ahead.
  pub adaptive_interval_positive : pos 0 <ℤ adaptive_interval fl n cfg ttl jitter
  adaptive_interval_positive =
      let least =
        min-positive cfg.min_interval cfg.max_interval sound.min_positive sound.max_positive in
      omega (arith, adaptive_interval_bounds)

-- A positive hint is honoured up to thirty days, for every configuration and jitter.
pub adaptive_interval_honours_ttl :
    {F : Type 0} (fl : Float64 F) (n : ℕ) (cfg : ScheduleConfig F) (ttl : Duration)
    (jitter : Option (Duration → Duration))
    → pos 0 <ℤ ttl
    → min_ℤ ttl (pos max_ttl_influence) ≤ℤ adaptive_interval fl n cfg ttl jitter
unfolding adaptive_interval
adaptive_interval_honours_ttl fl n cfg ttl jitter h = ground arith
