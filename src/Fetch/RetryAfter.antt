-- ===== src/Fetch/RetryAfter.antt =====
-- `parseRetryAfter`: the delay that a server asks for, capped at a day.
use bfeed.Base.{
  Option-cases, inl, inr, ℕ, [], ◌∷◌, ◌/◌, ◌*◌, ◌≤◌, ◌≡◌, refl, min, if◌then◌else◌, false, Option,
  none, some, arith,
}
use bfeed.Base.Int.{ℤ, pos, negsuc, pos_part, ◌-ℤ◌, ◌≤ℤ◌, ltb_ℤ, leb_ℤ, min_ℤ, wrap64, wrap64_id}
use bfeed.Base.Text.{Text, is_empty}
use bfeed.Core.Types.{Duration, Time, second, hour}
use native.Mathlib.Decide.{dec_le}

abbrev pub max_retry_after : Duration
max_retry_after = pos (24 * hour)

-- `time.Duration(secs) * time.Second`, of a positive `secs`
seconds : ℤ → Duration
seconds secs = wrap64 (pos (pos_part secs * second))

-- `atoi` is `strconv.Atoi`, `parse_time` is `http.ParseTime`, and `now` the time that `time.Until`
-- reads.
module _ (atoi : Text → Option ℤ) (parse_time : Text → Option Time) (now : Time) where
  unfoldable pub delta : ℤ → Duration
  unfolding seconds
  delta secs =
      if leb_ℤ secs (pos 0)
      then pos 0
      else if ltb_ℤ (pos (24 * hour / second)) secs
      then max_retry_after
      else seconds secs

  unfoldable pub until : Time → Duration
  unfolding ◌-ℤ◌
  until t = let d = t -ℤ now in if ltb_ℤ (pos 0) d then min_ℤ d max_retry_after else pos 0

  unfoldable pub dated : Text → Duration
  unfolding until
  dated v = elim (parse_time v) [ none ↦ pos 0 | some t ↦ until t ]

  -- `parseRetryAfter`
  unfoldable pub parse_retry_after : Text → Duration
  unfolding delta dated
  parse_retry_after v =
      if is_empty v then pos 0 else elim (atoi v) [ none ↦ dated v | some secs ↦ delta secs ]

  fits : (n : ℕ) → n ≤ 24 * hour / second → wrap64 (pos (n * second)) ≡ pos (n * second)
  fits n h = wrap64_id (pos (n * second)) (omega arith) (omega arith)

  delta_exact : (n : ℕ) → delta (pos n) ≡ pos (min (n * second) (24 * hour))
  unfolding delta
  delta_exact n = elim (dec_le n 86400) [ yes h ↦ ground (arith, fits n h) | no h ↦ ground arith ]

  delta_bounds : (secs : ℤ) → (pos 0 ≤ℤ delta secs) × (delta secs ≤ℤ max_retry_after)
  delta_bounds (pos n) = rw (delta_exact n) (omega arith)
  delta_bounds (negsuc n) = unfold delta in ground arith

  until_bounds : (t : Time) → (pos 0 ≤ℤ until t) × (until t ≤ℤ max_retry_after)
  unfolding until
  until_bounds t = ground arith

  dated_bounds : (v : Text) → (pos 0 ≤ℤ dated v) × (dated v ≤ℤ max_retry_after)
  unfolding dated
  dated_bounds v = elim (Option-cases (parse_time v)) [
    | inl e ↦ rw (e, dated) (omega arith)
    | inr (t, e) ↦ rw (e, dated) (until_bounds t)
  ]

  -- Whatever the server sends, number, date or neither, the delay is between zero and a day.
  pub parse_retry_after_bounds :
      (v : Text) → (pos 0 ≤ℤ parse_retry_after v) × (parse_retry_after v ≤ℤ max_retry_after)
  unfolding parse_retry_after
  parse_retry_after_bounds [] = omega arith
  parse_retry_after_bounds (c ∷ v) = elim (Option-cases (atoi (c ∷ v))) [
    | inl e ↦ rw e (dated_bounds (c ∷ v))
    | inr (n, e) ↦ rw e (delta_bounds n)
  ]

  -- A header that reads as `n` seconds asks for exactly `n` seconds, or for a day if that is less:
  -- the product does not overflow.
  pub parse_retry_after_exact :
      (v : Text) (n : ℕ)
      → is_empty v ≡ false
      → atoi v ≡ some (pos n)
      → parse_retry_after v ≡ pos (min (n * second) (24 * hour))
  unfolding parse_retry_after
  parse_retry_after_exact v n h e = rw (h, e, delta_exact n) refl
