-- ===== src/Parse/Items/Interval.antt =====
-- The interval that the publisher asks for.
use bfeed.Base.{
  ℕ, ◌*◌, ◌^◌, ◌<◌, ◌≡◌, refl, true, false, Option, none, some, List, Bool-cases, inl, inr, arith,
}
use bfeed.Base.Int.{ℤ, pos, negsuc, ltb_ℤ, leb_ℤ, max_ℤ, pos_part, quot_ℤ, wrap64, wrap64_id}
use bfeed.Base.Text.{Text, text_eq, codes, is_empty}
use bfeed.Core.Types.{minute}
use bfeed.Parse.Ttl.{
  TtlLib, feed_ttl, sy_interval, rss_ttl_minutes, rss_ttl, period_of, ext_value, frequency,
}

module _ (lib : TtlLib) where
  AtLeast0 : ℤ → Type 0
  AtLeast0 d = leb_ℤ (pos 0) d ≡ true

  quot-AtLeast0 : (d : ℤ) (n : ℕ) → AtLeast0 d → AtLeast0 (quot_ℤ d n)
  unfolding AtLeast0
  quot-AtLeast0 (pos m) n h = ground arith
  quot-AtLeast0 (negsuc m) n h = absurd (ground (arith, h))

  period_of-AtLeast0 : (p : Text) → AtLeast0 (period_of lib p)
  unfolding AtLeast0 period_of
  period_of-AtLeast0 p = ground arith

  sy_interval-AtLeast0 : (sy : Option (Text → List Text)) → AtLeast0 (sy_interval lib sy)
  unfolding AtLeast0 sy_interval
  sy_interval-AtLeast0 none = refl
  sy_interval-AtLeast0 (some sy) =
      let period = ext_value lib sy (codes "updatePeriod") in
      elim (Bool-cases (is_empty period)) [
        | inl h ↦ rw (h, sy_interval) refl
        | inr h ↦
            rw (h, sy_interval)
              (quot-AtLeast0 (period_of lib (lib.lower (lib.trim period)))
                (pos_part (frequency lib (ext_value lib sy (codes "updateFrequency"))))
                (period_of-AtLeast0 (lib.lower (lib.trim period))))
      ]

  -- The interval is never negative, and never shorter than the one of the syndication module. For an
  -- RSS feed whose minutes fit in a `time.Duration`, it is the longer one of the two.
  pub feed_ttl_lem :
      (feed_type : Text) (sy : Option (Text → List Text)) (bytes : Text)
      → ((leb_ℤ (pos 0) (feed_ttl lib feed_type sy bytes) ≡ true)
          × (leb_ℤ (sy_interval lib sy) (feed_ttl lib feed_type sy bytes) ≡ true))
        × (text_eq feed_type (codes "rss") ≡ true
            → pos_part (rss_ttl_minutes lib bytes) * minute < 2 ^ 63
            → feed_ttl lib feed_type sy bytes
              ≡ max_ℤ (pos (pos_part (rss_ttl_minutes lib bytes) * minute)) (sy_interval lib sy))
  unfolding feed_ttl rss_ttl
  feed_ttl_lem feed_type sy bytes = (
    (ground (arith, sy_interval-AtLeast0 sy), ground arith),
    λ h n. elim (Bool-cases (ltb_ℤ (pos 0) (rss_ttl_minutes lib bytes))) [
      | inl k ↦ rw (h, k, fits n, feed_ttl, rss_ttl) refl
      | inr k ↦ rw (h, k, feed_ttl, rss_ttl, none_asked k) refl
    ],
  )
    where
      fits :
          pos_part (rss_ttl_minutes lib bytes) * minute < 2 ^ 63
          → wrap64 (pos (pos_part (rss_ttl_minutes lib bytes) * minute))
            ≡ pos (pos_part (rss_ttl_minutes lib bytes) * minute)
      fits n = wrap64_id _ (ground (arith, n)) (ground arith)

      none_asked :
          ltb_ℤ (pos 0) (rss_ttl_minutes lib bytes) ≡ false
          → pos_part (rss_ttl_minutes lib bytes) ≡ 0
      none_asked k = ground (arith, k)
