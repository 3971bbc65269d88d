-- ===== src/Core/Feed/World.antt =====
-- The feed service's parts, and the state that its operations act on: the environment, the
-- `*Feed` that a poll holds (a panic leaves what was written to it), the `counted` flag of
-- `PollFeed`, and the calls of the metrics port, the newest first.
use bfeed.Base.{◌*◌, if◌then◌else◌, Bool, Option, List, ◌∷◌}
use bfeed.Base.Int.{pos, ◌-ℤ◌, leb_ℤ}
use bfeed.Base.Exec.{Step, Exec}
use bfeed.Core.Types.{Duration, Time, Feed, minute, hour}
use bfeed.Core.Metrics.{Metric, observe_feed_poll}
use bfeed.Core.Schedule.{Float64, ScheduleConfig}
use bfeed.Core.Reschedule.{RescheduleConfig}
use bfeed.Core.Ports.{Clock, Fetcher, FeedParser, Sanitizer, FeedStore, Strings, Urls}

pub record FeedServiceConfig (F : Type 0) : Type 0 where
  pub schedule : ScheduleConfig F
  pub reschedule : RescheduleConfig
  pub jitter : Option (Duration → Duration)

pub record FeedService (S F U : Type 0) : Type 0 where
  pub store : FeedStore S
  pub fetcher : Fetcher S
  pub parser : FeedParser S
  pub san : Sanitizer S
  pub clk : Clock S
  pub cfg : FeedServiceConfig F
  pub floats : Float64 F
  pub strings : Strings
  pub urls : Urls U

pub record World (S : Type 0) : Type 0 where
  pub env : S
  pub feed : Feed
  pub counted : Bool
  pub metrics : List Metric

-- The defaults that `NewFeedService` puts in.
module _ {F : Type 0} (floats : Float64 F) where
  normalize_schedule : ScheduleConfig F → ScheduleConfig F
  normalize_schedule s =
      let lo = if leb_ℤ s.min_interval (pos 0) then pos (5 * minute) else s.min_interval in
      record {
        min_interval = lo;
        max_interval = if leb_ℤ s.max_interval lo then pos (24 * hour) else s.max_interval;
        factor = if floats.is_positive s.factor then s.factor else floats.one;
      }

  normalize_reschedule : ScheduleConfig F → RescheduleConfig → RescheduleConfig
  normalize_reschedule s r = record {
    interval = if leb_ℤ r.interval (pos 0) then s.min_interval else r.interval;
    max_backoff = if leb_ℤ r.max_backoff (pos 0) then s.max_interval else r.max_backoff;
  }

  -- The normalisation of `NewFeedService`.
  unfoldable pub normalize_config : FeedServiceConfig F → FeedServiceConfig F
  unfolding normalize_schedule normalize_reschedule
  normalize_config c =
      let s = normalize_schedule c.schedule in
      record { schedule = s; reschedule = normalize_reschedule s c.reschedule; jitter = c.jitter }

module _ {S A : Type 0} where
  abbrev pub on_env : World S → Step A × S → Step A × World S
  on_env w (r, s) = (r, record w { env = s })

  -- A call of a port.
  unfoldable pub call : Exec S A → Exec (World S) A
  call op w = on_env w (op w.env)

module _ {S : Type 0} where
  unfoldable pub get_snapshot : Exec (World S) Feed
  get_snapshot w = (Step.returned w.feed, w)

  unfoldable pub change : (Feed → Feed) → Exec (World S) (Unit {0})
  change f w = (Step.returned tt, record w { feed = f w.feed })

  unfoldable pub emit : Metric → Exec (World S) (Unit {0})
  emit m w = (Step.returned tt, record w { metrics = m ∷ w.metrics })

  unfoldable pub set_counted : Bool → Exec (World S) (Unit {0})
  set_counted b w = (Step.returned tt, record w { counted = b })

module _ {S : Type 0} (clk : Clock S) where
  -- `s.clk.Now()`
  unfoldable pub clock_now : Exec (World S) Time
  clock_now w = let (t, s) = clk.now w.env in (Step.returned t, record w { env = s })

  -- `ctx.Err() != nil`
  unfoldable pub ctx_done : Exec (World S) Bool
  ctx_done w = let (b, s) = clk.ctx_done w.env in (Step.returned b, record w { env = s })

  -- The deferred observation of a poll's duration.
  unfoldable pub observe : Time → World S → World S
  unfolding ◌-ℤ◌
  observe start w =
      let (t, s) = clk.now w.env in
      record w { env = s; metrics = observe_feed_poll (t -ℤ start) ∷ w.metrics }

  unfoldable pub observe_if_counted : Time → World S → World S
  unfolding observe
  observe_if_counted start w = if w.counted then observe start w else w
