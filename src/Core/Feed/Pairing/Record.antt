-- ===== src/Core/Feed/Pairing/Record.antt =====
-- The pairing for the ends of an attempt.
use bfeed.Base.{
  ℕ, ◌+◌, ◌≡◌, refl, if◌then◌else◌, Bool, true, Option, none, some, List, [], ◌∷◌, arith, count,
}
use bfeed.Base.Text.{Text}
use bfeed.Base.Exec.{Exec, pure, ◌>>=◌}
use bfeed.Core.Metrics.{feed_poll_done, error_observed, ErrorComponent}
use bfeed.Base.Exec.Tally.{
  IsSilent, IsSilent-if, IsSilent-pure, IsSilent-bind, IsOnce, IsTotal, score, silent_rules,
  once_rules, total_rules,
}
use bfeed.Core.Types.{Feed, Time, Duration, Result, ok, err}
use bfeed.Core.Metrics.{Metric, PollResult, ErrorReason, is_feed_poll_done, is_observe_feed_poll}
use bfeed.Core.Ports.{Clock, Dedup, ParsedEntry, ParsedFeed, FetchResponse}
use bfeed.Core.Feed.World.{
  World, FeedService, call, change, emit, get_snapshot, clock_now, ctx_done,
}
use bfeed.Core.Feed.Record.{
  record_error_emit, is_known, record_panic, ingest, after_dedup, persist, after_persist,
  after_ingest, new_entries, next_check, record_success,
}

-- The results reported so far; an attempt that is not to be counted stands in for one.
abbrev pub reports : {S : Type 0} → World S → ℕ
reports w = count is_feed_poll_done w.metrics + (if w.counted then 0 else 1)

-- The durations observed so far.
abbrev pub observes : {S : Type 0} → World S → ℕ
observes w = count is_observe_feed_poll w.metrics

abbrev pub Observed : {S : Type 0} → ℕ → World S → Type 0
Observed k w = observes w ≡ k

-- The state inside an attempt that began with `k` observations.
abbrev pub Attempt : {S : Type 0} → Bool → ℕ → World S → Type 0
Attempt b k w = (w.counted ≡ b) × (observes w ≡ k)

module _ {S : Type 0} {b : Bool} {k : ℕ} where
  pub call-IsSilent : {A : Type 0} (op : Exec S A) → IsSilent (Attempt b k) reports (call op)
  unfolding call
  call-IsSilent op = record { keeps = λ w h. h; at = λ w h. refl }

  pub get_snapshot-IsSilent : IsSilent {W = World S} (Attempt b k) reports get_snapshot
  unfolding get_snapshot
  get_snapshot-IsSilent = record { keeps = λ w h. h; at = λ w h. refl }

  pub change-IsSilent : (f : Feed → Feed) → IsSilent {W = World S} (Attempt b k) reports (change f)
  unfolding change
  change-IsSilent f = record { keeps = λ w h. h; at = λ w h. refl }

  pub clock_now-IsSilent : (clk : Clock S) → IsSilent (Attempt b k) reports (clock_now clk)
  unfolding clock_now
  clock_now-IsSilent clk = record { keeps = λ w h. h; at = λ w h. refl }

  pub ctx_done-IsSilent : (clk : Clock S) → IsSilent (Attempt b k) reports (ctx_done clk)
  unfolding ctx_done
  ctx_done-IsSilent clk = record { keeps = λ w h. h; at = λ w h. refl }

  pub reported-IsOnce :
      {A : Type 0} (result : PollResult) (a : A)
      → IsOnce {W = World S}
          (Attempt b k)
          (Observed k)
          reports
          (emit (feed_poll_done result) >>= λ _. pure a)
  unfolding emit ◌>>=◌
  reported-IsOnce result a = record { ends = λ w h. h.1; at = λ w h. omega arith }

  pub failed-IsOnce :
      {A : Type 0} (result : PollResult) (c : ErrorComponent) (reason : ErrorReason) (a : A)
      → IsOnce {W = World S}
          (Attempt b k)
          (Observed k)
          reports
          (emit (feed_poll_done result) >>= λ _. (emit (error_observed c reason) >>= λ _. pure a))
  unfolding emit ◌>>=◌
  failed-IsOnce result c reason a = record { ends = λ w h. h.1; at = λ w h. omega arith }

  pub failed_grouped-IsOnce :
      {A : Type 0} (result : PollResult) (c : ErrorComponent) (reason : ErrorReason) (a : A)
      → IsOnce {W = World S}
          (Attempt b k)
          (Observed k)
          reports
          ((emit (feed_poll_done result) >>= λ _. emit (error_observed c reason)) >>= λ _. pure a)
  unfolding emit ◌>>=◌
  failed_grouped-IsOnce result c reason a = record { ends = λ w h. h.1; at = λ w h. omega arith }

module _ {S : Type 0} where
  pub get_snapshot-IsTotal : IsTotal {W = World S} get_snapshot
  unfolding get_snapshot
  get_snapshot-IsTotal = record { at = λ w. refl }

  pub change-IsTotal : (f : Feed → Feed) → IsTotal {W = World S} (change f)
  unfolding change
  change-IsTotal f = record { at = λ w. refl }

  pub clock_now-IsTotal : (clk : Clock S) → IsTotal (clock_now clk)
  unfolding clock_now
  clock_now-IsTotal clk = record { at = λ w. refl }

  pub ctx_done-IsTotal : (clk : Clock S) → IsTotal (ctx_done clk)
  unfolding ctx_done
  ctx_done-IsTotal clk = record { at = λ w. refl }

  pub emit-IsTotal : (m : Metric) → IsTotal {W = World S} (emit m)
  unfolding emit
  emit-IsTotal m = record { at = λ w. refl }

-- The effects that never panic.
pub ruleset effects =
    (get_snapshot-IsTotal, change-IsTotal, clock_now-IsTotal, ctx_done-IsTotal, emit-IsTotal)

pub ruleset port_rules =
    (call-IsSilent, get_snapshot-IsSilent, change-IsSilent, clock_now-IsSilent, ctx_done-IsSilent)

pub ruleset report_rules =
    (once_rules, port_rules, reported-IsOnce, failed-IsOnce, failed_grouped-IsOnce)

module _ {S F U : Type 0} (s : FeedService S F U) {b : Bool} {k : ℕ} where
  pub record_error-IsOnce :
      (now : Time) (msg : Text) (retry : Duration) (result : PollResult) (reason : ErrorReason)
      → IsOnce
          (Attempt b k)
          (Observed k)
          reports
          (record_error_emit s now msg retry result reason true)
  unfolding record_error_emit
  record_error-IsOnce now msg retry result reason = search report_rules depth 12

  pub record_panic-IsOnce :
      (r : Text) → IsOnce (Attempt b k) (Observed k) reports (record_panic s r)
  unfolding record_panic
  record_panic-IsOnce r = search (report_rules, record_error-IsOnce) depth 12

  pub new_entries-IsSilent :
      (f : Feed) (now : Time) (base : Text) (d : Dedup) (pes : List ParsedEntry)
      → IsSilent (Attempt b k) reports (new_entries s f now base d pes)
  unfolding new_entries
  new_entries-IsSilent f now base d [] = search silent_rules
  new_entries-IsSilent f now base d (pe ∷ pes) =
      let rest = new_entries-IsSilent f now base d pes in
      IsSilent-if (is_known d pe) _ _ rest (
        IsSilent-bind _ _ (call-IsSilent _) λ content.
          IsSilent-bind _ _ (call-IsSilent _)
            λ summary. IsSilent-bind _ _ rest λ es. IsSilent-pure _)

  pub ingest-IsSilent :
      (pf : ParsedFeed) (base : Text) → IsSilent (Attempt b k) reports (ingest s pf base)
  unfolding ingest
  ingest-IsSilent pf base = IsSilent-bind _ _ (search port_rules) λ f.
      IsSilent-bind _ _ (search port_rules)
        λ now. IsSilent-bind _ _ (search port_rules) λ d. after f now d
    where
      after :
          (f : Feed) (now : Time) (d : Result Dedup)
          → IsSilent (Attempt b k) reports (after_dedup s f now base pf d)
      after f now (err e) = search silent_rules
      after f now (ok d) = search (silent_rules, port_rules, new_entries-IsSilent) depth 12

  pub next_check-IsSilent : (now : Time) → IsSilent (Attempt b k) reports (next_check s now)
  unfolding next_check
  next_check-IsSilent now = search (silent_rules, port_rules) depth 12

  pub after_persist-IsOnce :
      (result : PollResult) (r : Result (Unit {0}))
      → IsOnce (Attempt b k) (Observed k) reports (after_persist s result r)
  unfolding after_persist
  after_persist-IsOnce result (ok _) = search report_rules
  after_persist-IsOnce result (err e) = search report_rules

  pub persist-IsOnce :
      (now : Time) (resp : FetchResponse) (result : PollResult)
      → IsOnce (Attempt b k) (Observed k) reports (persist s now resp result)
  unfolding persist
  persist-IsOnce now resp result =
      search (report_rules, next_check-IsSilent, after_persist-IsOnce) depth 12

  pub after_ingest-IsOnce :
      (now : Time) (resp : FetchResponse) (pf : ParsedFeed) (r : Result (Unit {0}))
      → IsOnce (Attempt b k) (Observed k) reports (after_ingest s now resp pf r)
  unfolding after_ingest
  after_ingest-IsOnce now resp pf (ok _) = search (report_rules, persist-IsOnce) depth 12
  after_ingest-IsOnce now resp pf (err e) = search (record_error-IsOnce)

  pub record_success-IsOnce :
      (now : Time) (resp : FetchResponse) (pf : Option ParsedFeed)
      → IsOnce (Attempt b k) (Observed k) reports (record_success s now resp pf)
  unfolding record_success
  record_success-IsOnce now resp none = search persist-IsOnce
  record_success-IsOnce now resp (some pf) =
      search (report_rules, ingest-IsSilent, after_ingest-IsOnce) depth 12
