-- ===== src/Core/Scrape/Backoff.antt =====
-- `ScrapeConfig` and `ExtractBackoff`.
use bfeed.Base.{
  ℕ, zero, suc, ◌+◌, ◌-◌, ◌*◌, ◌^◌, ◌≤◌, ◌<◌, ◌≡◌, ap, min, if◌then◌else◌, true, false, ◌||◌,
  Option, none, arith,
}
use bfeed.Base.Int.{pos, ◌+ℤ◌, ltb_ℤ, leb_ℤ, wrap64, wrap64_id, int_laws}
use bfeed.Core.Types.{Duration}
use bfeed.Core.Schedule.{add_jitter}
use native.Mathlib.Nat.{one-le-pow, pow-suc}
use native.Mathlib.Decide.{dec_lt}

-- As `NewScrapeService` leaves it: it replaces limits and delays that are not positive, so that the limit
-- on the attempts is a natural number.
pub record ScrapeConfig : Type 0 where
  pub max_attempts : ℕ
  pub base_backoff : Duration
  pub max_backoff : Duration

-- The loop of `ExtractBackoff`, by the rounds left: `d *= 2` while `d < cfg.MaxBackoff`.
unfoldable pub doubled : ℕ → Duration → Duration → Duration
doubled zero top d = d
doubled (suc n) top d = elim (ltb_ℤ d top) [ true ↦ doubled n top (wrap64 (d +ℤ d)) | false ↦ d ]

abbrev capped : Duration → Duration → Duration
capped top d = if ltb_ℤ top d || leb_ℤ d (pos 0) then top else d

-- `ExtractBackoff`; the loop counts from 1, so it has `attempt - 1` rounds.
unfoldable pub extract_backoff : ScrapeConfig → ℕ → Option (Duration → Duration) → Duration
extract_backoff cfg attempt jitter =
    add_jitter jitter
      (capped cfg.max_backoff (doubled (attempt - 1) cfg.max_backoff cfg.base_backoff))

twice : (d : ℕ) → d < 2 ^ 62 → wrap64 (pos d +ℤ pos d) ≡ pos (d + d)
twice d h =
    let e : pos d +ℤ pos d ≡ pos (d + d) = omega int_laws in
    rw e (wrap64_id (pos (d + d)) (omega arith) (omega arith))

doubled_step :
    (n d m : ℕ)
    → d < m
    → m ≤ 2 ^ 62
    → doubled (suc n) (pos m) (pos d) ≡ doubled n (pos m) (pos (d + d))
unfolding doubled
doubled_step n d m h u = let e = twice d (omega arith) in ground (arith, e)

doubled_stop : (n d m : ℕ) → m ≤ d → doubled (suc n) (pos m) (pos d) ≡ pos d
unfolding doubled
doubled_stop n d m h = ground arith

le-mul_of_one_le : (d x : ℕ) → 1 ≤ x → d ≤ d * x
le-mul_of_one_le d x h = grind arith

doubled-capped :
    (n d m : ℕ)
    → 0 < d
    → 0 < m
    → m ≤ 2 ^ 62
    → capped (pos m) (doubled n (pos m) (pos d)) ≡ pos (min (d * 2 ^ n) m)
doubled-capped zero d m p q u = unfold doubled in ground arith
doubled-capped (suc n) d m p q u = elim (dec_lt d m) [
  | yes h ↦
      rw (doubled_step n d m h u, doubled-capped n (d + d) m (omega arith) q u)
        (ap (λ t. pos (min t m)) (rw (pow-suc 2 n) (omega arith)))
  | no h ↦
      let one : 1 ≤ 2 ^ suc n = one-le-pow (suc n) 2 (omega arith) in
      let grown = le-mul_of_one_le d (2 ^ suc n) one in
      rw (doubled_stop n d m (omega arith)) (ground arith)
]

-- Without jitter, and with a positive base and a positive cap of at most 2^62 ns, the delay of attempt
-- `n + 1` is the base doubled `n` times, or the cap where that is less.
pub extract_backoff_exact :
    (a d m n : ℕ)
    → 0 < d
    → 0 < m
    → m ≤ 2 ^ 62
    → extract_backoff
        (record { max_attempts = a; base_backoff = pos d; max_backoff = pos m })
        (suc n)
        none
      ≡ pos (min (d * 2 ^ n) m)
unfolding extract_backoff add_jitter
extract_backoff_exact a d m n p q u =
    let e : suc n - 1 ≡ n = omega arith in rw e (doubled-capped n d m p q u)
