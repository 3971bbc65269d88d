-- ===== src/Core/Feed/Scheduling/Poll.antt =====
-- When a poll of a feed schedules the next check.
use bfeed.Base.{ℕ, ◌≡◌, ltb, Bool, true, false, ◌&&◌, Option, none, arith, if◌then◌else◌}
use bfeed.Base.Text.{Text}
use bfeed.Base.Exec.{Step, returned, panicked, ◌>>=◌, recover_with, deferred}
use bfeed.Base.Exec.Ensures.{
  Keeps, Ensures, WhenReturned, Ensures-if, Ensures-bind, Ensures-any, Ensures-recover_with,
}
use bfeed.Base.Exec.Tally.{score}
use bfeed.Core.Feed.Pairing.Poll.{UpdateReturns, guarded-IsTotal}
use bfeed.Core.Types.{Time, Error, Feed, Result, ok, err}
use bfeed.Core.Ports.{Clock, FetchResponse, ParsedFeed}
use bfeed.Core.Feed.World.{
  FeedService, World, get_snapshot, set_counted, clock_now, observe, observe_if_counted,
}
use bfeed.Core.Feed.Config.{IsSoundConfig}
use bfeed.Core.Feed.Record.{record_panic}
use bfeed.Core.Feed.Poll.{
  adopt_permanent_redirect, after_adopt, fetch_failed, http_failed, polled, answered, poll_body,
  poll_feed,
}
use bfeed.Core.Feed.Scheduling.Record.{
  IsScheduled, OnFeed, feed_rules, change-Keeps, call-Keeps, get_snapshot-Keeps, ctx_done-Keeps,
  anything, record_error-Ensures, record_panic-Ensures, record_success-Ensures,
}

abbrev pub IsHealthy : Feed → Type 0
IsHealthy f = f.error_count ≡ 0

module _ {S F U : Type 0} (s : FeedService S F U) (sound : IsSoundConfig s.cfg) where
  after_adopt-Keeps :
      (url : Text) (r : Result (Unit {0})) → Keeps (OnFeed IsHealthy) (after_adopt s url r)
  unfolding after_adopt
  after_adopt-Keeps url (ok _) = change-Keeps _ (λ g h. h)
  after_adopt-Keeps url (err e) = search feed_rules

  adopt-Keeps : (resp : FetchResponse) → Keeps (OnFeed IsHealthy) (adopt_permanent_redirect s resp)
  unfolding adopt_permanent_redirect
  adopt-Keeps resp = search (feed_rules, after_adopt-Keeps) depth 12

  fetch_failed-Ensures :
      (start : Time) (e : Error) (stopped : Bool)
      → Ensures (λ _. Unit {0}) (OnFeed IsScheduled) (fetch_failed s start e stopped)
  unfolding fetch_failed
  fetch_failed-Ensures start e stopped =
      Ensures-if _ _ _
        (Ensures-bind _ _ (anything _) λ _. record_error-Ensures s sound start _ _ _ _ _)
        (record_error-Ensures s sound start _ _ _ _ _)

  healthy-not_resolved : (html : Bool) (n : ℕ) → n ≡ 0 → (html && ltb 0 n) ≡ false
  healthy-not_resolved html n h = ground arith

  -- A feed with no errors is not resolved anew.
  polled-Ensures :
      (start : Time) (resp : FetchResponse) (r : Result (Option ParsedFeed))
      → Ensures (OnFeed IsHealthy) (OnFeed IsScheduled) (polled s start resp r)
  unfolding polled get_snapshot ◌>>=◌
  polled-Ensures start resp (ok pf) = Ensures-any _ (record_success-Ensures s sound start resp pf)
  polled-Ensures start resp (err e) = record {
    at = λ w h.
        rw (healthy-not_resolved _ w.feed.error_count h.holds)
          ((record_error-Ensures s sound start _ _ _ _ _).at w tt);
  }

  answered-Ensures :
      (start : Time) (r : Result FetchResponse)
      → Ensures (OnFeed IsHealthy) (OnFeed IsScheduled) (answered s start r)
  unfolding answered
  answered-Ensures start (err e) =
      Ensures-bind _ _ (ctx_done-Keeps s.clk)
        λ stopped. Ensures-any _ (fetch_failed-Ensures start e stopped)
  answered-Ensures start (ok resp) =
      Ensures-if resp.not_modified _ _
        (Ensures-bind _ _ (adopt-Keeps resp)
          λ _. Ensures-any _ (record_success-Ensures s sound start resp none))
        (Ensures-if _ _ _
          (Ensures-any _ (unfold http_failed in record_error-Ensures s sound start _ _ _ _ _))
          (Ensures-bind _ _ (adopt-Keeps resp) λ _.
            Ensures-bind _ _ get_snapshot-Keeps
              λ f. Ensures-bind _ _ (call-Keeps _) λ r. polled-Ensures start resp r))

  poll_body-Ensures :
      (start : Time) → Ensures (OnFeed IsHealthy) (OnFeed IsScheduled) (poll_body s start)
  unfolding poll_body
  poll_body-Ensures start =
      Ensures-bind _ _ get_snapshot-Keeps
        λ f. Ensures-bind _ _ (call-Keeps _) λ r. answered-Ensures start r

  seen-OnFeed :
      {P : Feed → Type 0} (clk : Clock S) (start : Time) (b : Bool) (w : World S)
      → OnFeed P w
      → OnFeed P (if b then observe clk start w else w)
  unfolding observe
  seen-OnFeed clk start true w h = record { holds = h.holds }
  seen-OnFeed clk start false w h = h

  observed-IsScheduled :
      {A : Type 0} (clk : Clock S) (start : Time) (r : Step A × World S)
      → score r.0 ≡ 1
      → WhenReturned (OnFeed IsScheduled) r
      → IsScheduled (observe_if_counted clk start r.1).feed
  unfolding observe_if_counted
  observed-IsScheduled clk start (returned a, w) t h = (seen-OnFeed clk start w.counted w h).holds
  observed-IsScheduled clk start (panicked x, w) t h = absurd (omega arith)

  guarded-Ensures :
      (start : Time)
      → Ensures
          (OnFeed IsHealthy)
          (OnFeed IsScheduled)
          (recover_with (poll_body s start) (record_panic s))
  guarded-Ensures start =
      Ensures-recover_with _ _ (poll_body-Ensures start) (record_panic-Ensures s sound)

  -- If the snapshot holds no errors, the configuration is sound and `UpdateFeed` does not panic,
  -- then a poll leaves the snapshot checked at some time and due strictly later, on every path:
  -- fetch errors, statuses, parse errors, store errors and panics included.
  pub poll_feed-IsScheduled :
      UpdateReturns s → (w : World S) → IsHealthy w.feed → IsScheduled (poll_feed s w).1.feed
  unfolding poll_feed clock_now set_counted ◌>>=◌ deferred
  poll_feed-IsScheduled returns w h =
      let start = (s.clk.now w.env).0 in
      let w' : World S = record w { env = (s.clk.now w.env).1; counted = true } in
      observed-IsScheduled s.clk start (recover_with (poll_body s start) (record_panic s) w')
        ((guarded-IsTotal s returns start).at w')
        ((guarded-Ensures start).at w' (record { holds = h }))
