-- ===== src/Core/Scrape/Pairing.antt =====
-- How often an extraction reports a result, and how often it times itself.
use bfeed.Base.{ℕ, ◌+◌, ◌≡◌, refl, Bool, Option, arith, count, if◌then◌else◌}
use bfeed.Base.Text.{Text}
use bfeed.Base.Exec.{Exec, pure, ◌>>=◌}
use bfeed.Base.Exec.Tally.{IsSilent, IsOnce, score, silent_rules, once_rules}
use bfeed.Core.Types.{RowId, Time, ExtractState}
use bfeed.Core.Metrics.{
  ScrapeResult, ErrorReason, ErrorComponent, scrape_done, error_observed, is_scrape_done,
  is_observe_article_scrape,
}
use bfeed.Core.Ports.{Clock}
use bfeed.Core.Scrape.Service.{ScrapeService, Scrape, call, emit, clock_now, ctx_done}

-- The results reported so far.
abbrev pub done_count : {S : Type 0} → Scrape S → ℕ
done_count w = count is_scrape_done w.metrics

-- The durations observed so far.
abbrev pub observes : {S : Type 0} → Scrape S → ℕ
observes w = count is_observe_article_scrape w.metrics

-- An attempt that is not to be counted stands in for a report.
abbrev reports : {S : Type 0} → Scrape S → ℕ
reports w = done_count w + (if w.counted then 0 else 1)

abbrev Observed : {S : Type 0} → ℕ → Scrape S → Type 0
Observed k w = observes w ≡ k

abbrev Attempt : {S : Type 0} → Bool → ℕ → Scrape S → Type 0
Attempt b k w = (w.counted ≡ b) × (observes w ≡ k)

module _ {S : Type 0} {b : Bool} {k : ℕ} where
  call-IsSilent : {A : Type 0} (op : Exec S A) → IsSilent (Attempt b k) reports (call op)
  unfolding call
  call-IsSilent op = record { keeps = λ w h. h; at = λ w h. refl }

  clock_now-IsSilent : (clk : Clock S) → IsSilent (Attempt b k) reports (clock_now clk)
  unfolding clock_now
  clock_now-IsSilent clk = record { keeps = λ w h. h; at = λ w h. refl }

  ctx_done-IsSilent : (clk : Clock S) → IsSilent (Attempt b k) reports (ctx_done clk)
  unfolding ctx_done
  ctx_done-IsSilent clk = record { keeps = λ w h. h; at = λ w h. refl }

  reported-IsOnce :
      {A : Type 0} (result : ScrapeResult) (a : A)
      → IsOnce {W = Scrape S}
          (Attempt b k)
          (Observed k)
          reports
          (emit (scrape_done result) >>= λ _. pure a)
  unfolding emit ◌>>=◌
  reported-IsOnce result a = record { ends = λ w h. h.1; at = λ w h. omega arith }

  failed-IsOnce :
      {A : Type 0} (result : ScrapeResult) (c : ErrorComponent) (reason : ErrorReason) (a : A)
      → IsOnce {W = Scrape S}
          (Attempt b k)
          (Observed k)
          reports
          (emit (scrape_done result) >>= λ _. (emit (error_observed c reason) >>= λ _. pure a))
  unfolding emit ◌>>=◌
  failed-IsOnce result c reason a = record { ends = λ w h. h.1; at = λ w h. omega arith }

ruleset port_rules = (silent_rules, call-IsSilent, clock_now-IsSilent, ctx_done-IsSilent)

ruleset report_rules = (once_rules, port_rules, reported-IsOnce, failed-IsOnce)

-- The store's `UpdateExtractState` does not panic.
abbrev pub UpdateReturns : {S : Type 0} → ScrapeService S → Type 0
UpdateReturns {S} s =
    (id : RowId) (state : ExtractState) (n : ℕ) (at : Option Time) (msg : Text) (e : S)
    → score (s.store.update_extract_state id state n at msg e).0 ≡ 1

abbrev pub flag : Bool → ℕ
flag b = if b then 1 else 0

-- What an extraction adds to the counter and to the histogram's count: the same, one or nothing.
abbrev pub IsPaired : {S : Type 0} → Scrape S → Scrape S → Type 0
IsPaired w w' =
    (done_count w' ≡ done_count w + flag w'.counted) × (observes w' ≡ observes w + flag w'.counted)
