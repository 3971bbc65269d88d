-- ===== src/Tests/Poll.antt =====
-- The examples for a poll.
use bfeed.Base.{refl, false, arith}
use bfeed.Core.Feed.Config.{IsSoundConfig}
use bfeed.Core.Feed.Poll.{poll_feed}
use bfeed.Core.Feed.Scheduling.Record.{IsScheduled}
use bfeed.Core.Feed.Scheduling.Poll.{poll_feed-IsScheduled}
use bfeed.Tests.Service.{service, ticking, answer, start, config}

config-IsSoundConfig : IsSoundConfig config
config-IsSoundConfig = record {
  schedule = omega arith;
  backoff_positive = omega arith;
  backoff_fits = omega arith;
  fair = tt;
}

poll_feed-IsScheduled_example :
    IsScheduled (poll_feed (service ticking (answer 503 false)) start).1.feed
poll_feed-IsScheduled_example =
    poll_feed-IsScheduled (service ticking (answer 503 false)) config-IsSoundConfig (λ c f e. refl)
      start refl
