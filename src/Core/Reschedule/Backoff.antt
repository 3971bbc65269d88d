-- ===== src/Core/Reschedule/Backoff.antt =====
-- The exponential backoff: its value, its bounds, and the overflow of its int64 shift.
use bfeed.Base.{ℕ, ◌+◌, ◌*◌, ◌/◌, ◌^◌, ◌≤◌, ◌<◌, ◌≡◌, true, min, Option, arith, ltb, if◌then◌else◌}
use bfeed.Base.Int.{ltb_ℤ, min_ℤ, ℤ, pos, negsuc, pos_part, ◌≤ℤ◌, ◌<ℤ◌, shl64, wrap64_id, one_part}
use native.Mathlib.Nat.{one-le-pow, pow-le-pow_right}
use bfeed.Core.Types.{Duration}
use bfeed.Core.Schedule.{add_jitter}
use bfeed.Core.Schedule.Bounds.{IsQuarterJitter, IsJitter, add_jitter_bounds}
use bfeed.Core.Reschedule.{RescheduleConfig, backoff, reschedule_delay, serve_jitter}

-- The jitter of the server is non-negative and at most a quarter of a non-negative delay, if
-- `rand.Int63n n` lies in [0, n) for positive n.
pub serve_jitter-IsQuarterJitter :
    (rand : ℤ → ℤ)
    → ((n : ℤ) → pos 0 <ℤ n → pos 0 ≤ℤ rand n)
    → ((n : ℤ) → pos 0 <ℤ n → rand n <ℤ n)
    → IsQuarterJitter (serve_jitter rand)
unfolding serve_jitter
serve_jitter-IsQuarterJitter rand low high = record {
  nonneg = λ d h. nonneg d h;
  quarter = λ d h. quarter d h;
}
  where
    nonneg : (d : Duration) → pos 0 ≤ℤ d → pos 0 ≤ℤ serve_jitter rand d
    nonneg (pos n) h = ground (arith, low (pos (n / 4)))
    nonneg (negsuc n) h = absurd (omega arith)

    quarter : (d : Duration) → pos 0 ≤ℤ d → serve_jitter rand d ≤ℤ pos (pos_part d / 4)
    quarter (pos n) h = ground (arith, high (pos (n / 4)))
    quarter (negsuc n) h = absurd (omega arith)

abbrev pub shift : ℕ → ℕ
shift n = if ltb 16 n then 16 else n

-- A shift that stays below 2^63 is a product.
shl64_exact : (i k : ℕ) → i * 2 ^ k < 2 ^ 63 → shl64 (pos i) k ≡ pos (i * 2 ^ k)
unfolding shl64
shl64_exact i k h = wrap64_id (pos (i * 2 ^ k)) (omega arith) (omega arith)

pow_shift-bounds : (n : ℕ) → (1 ≤ 2 ^ shift n) × (2 ^ shift n ≤ 65536)
pow_shift-bounds n = (
  one-le-pow (shift n) 2 (omega arith),
  pow-le-pow_right {n = 2} (omega arith) {j = 16} (ground arith),
)

shifted-bounds : (i n : ℕ) → 0 < i → i < 2 ^ 47 → (0 < i * 2 ^ shift n) × (i * 2 ^ shift n < 2 ^ 63)
shifted-bounds i n p u = let b = pow_shift-bounds n in (grind arith, grind arith)

-- Below 2^47 ns (39 hours) nothing overflows: the delay of a positive interval is that interval,
-- doubled for each of the first sixteen errors, or the cap where that is less.
pub backoff_exact :
    (i m n : ℕ)
    → 0 < i
    → i < 2 ^ 47
    → backoff (record { interval = pos i; max_backoff = pos m }) n ≡ pos (min (i * 2 ^ shift n) m)
unfolding backoff
backoff_exact i m n p u =
    let b = shifted-bounds i n p u in rw (shl64_exact i (shift n) b.1) (ground arith)

-- More errors never shorten the delay, if the interval is positive and below 2^47 ns.
pub backoff_mono :
    (i m n k : ℕ)
    → 0 < i
    → i < 2 ^ 47
    → n ≤ k
    → backoff (record { interval = pos i; max_backoff = pos m }) n
      ≤ℤ backoff (record { interval = pos i; max_backoff = pos m }) k
backoff_mono i m n k p u h =
    let e : 2 ^ shift n ≤ 2 ^ shift k = pow-le-pow_right {n = 2} (omega arith) (ground arith) in
    let l : i * 2 ^ shift n ≤ i * 2 ^ shift k = grind arith in
    rw (backoff_exact i m n p u, backoff_exact i m k p u) (omega arith)

-- Whatever the interval, overflow included, the delay is positive and never above the cap.
pub backoff_bounds :
    (cfg : RescheduleConfig) (n : ℕ)
    → pos 0 <ℤ cfg.max_backoff
    → (pos 0 <ℤ backoff cfg n) × (backoff cfg n ≤ℤ cfg.max_backoff)
unfolding backoff
backoff_bounds cfg n h = ground arith

-- From 2^48 ns on the shift can wrap to a small positive delay: an interval of 2^48 + j ns backs
-- off by j * 2^16 ns once there are sixteen errors, if that is not above the cap.
pub backoff_wraps :
    (j m n : ℕ)
    → 0 < j
    → j * 2 ^ 16 < 2 ^ 63
    → j * 2 ^ 16 ≤ m
    → 16 ≤ n
    → backoff (record { interval = pos (2 ^ 48 + j); max_backoff = pos m }) n ≡ pos (j * 2 ^ 16)
unfolding backoff shl64
backoff_wraps j m n p u l h = let e : shift n ≡ 16 = ground arith in rw e (ground arith)

-- A Retry-After that is longer than the delay counts up to the cap.
retried-bounds :
    (delay retry cap : Duration) (hi : ℕ)
    → pos 0 <ℤ delay
    → delay ≤ℤ pos hi
    → pos 0 <ℤ cap
    → cap ≤ℤ pos hi
    → let r = if ltb_ℤ delay retry then min_ℤ retry cap else delay in (pos 0 <ℤ r) × (r ≤ℤ pos hi)
retried-bounds delay retry cap hi a b c d = ground arith

-- The delay of `reschedule_delay` on the error path.
error_delay :
    (cfg : RescheduleConfig) (n : ℕ) (retry : Duration) (j : Option (Duration → Duration))
    → 0 < n
    → reschedule_delay cfg n retry j ≡ (
        let d = add_jitter j (backoff cfg n) in
        if ltb_ℤ d retry then min_ℤ retry cfg.max_backoff else d)
unfolding reschedule_delay
error_delay cfg n retry j p = let e : ltb 0 n ≡ true = ground arith in rw e

-- With a positive cap of at most 2^62 ns and a jitter of at most a quarter, the delay after an error
-- is positive and at most a quarter over the cap, whatever the interval and the server's Retry-After.
pub reschedule_delay_bounds :
    (cfg : RescheduleConfig) (n : ℕ) (retry : Duration) (j : Option (Duration → Duration))
    → 0 < n
    → pos 0 <ℤ cfg.max_backoff
    → cfg.max_backoff ≤ℤ pos (2 ^ 62)
    → IsJitter j
    → (pos 0 <ℤ reschedule_delay cfg n retry j)
      × (reschedule_delay cfg n retry j
          ≤ℤ pos (pos_part cfg.max_backoff + pos_part cfg.max_backoff / 4))
reschedule_delay_bounds cfg n retry j p q u f =
    let b = backoff_bounds cfg n q in
    let a = add_jitter_bounds j (backoff cfg n) f (omega arith) (omega arith) in
    let hi = pos_part cfg.max_backoff + pos_part cfg.max_backoff / 4 in
    let e : pos_part (backoff cfg n) ≤ pos_part cfg.max_backoff =
      omega (arith, one_part (backoff cfg n), one_part cfg.max_backoff) in
    rw (error_delay cfg n retry j p) (
      retried-bounds (add_jitter j (backoff cfg n)) retry cfg.max_backoff hi (omega arith)
        (omega arith) q (omega (arith, one_part cfg.max_backoff)))
