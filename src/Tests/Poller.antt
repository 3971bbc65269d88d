-- ===== src/Tests/Poller.antt =====
-- The examples for the poller.
use bfeed.Base.{ℕ, suc, ◌≡◌, refl, ltb, List, [], ◌∷◌, ◌++◌, take}
use bfeed.Base.Int.{pos}
use bfeed.Base.Exec.{returned, panicked}
use bfeed.Base.Exec.Tally.{score}
use bfeed.Core.Types.{Feed, ok, minute}
use bfeed.Core.Poller.{
  Poller, Run, inflight, poll_one, poll_one_lem, dispatch, Sends, dispatch-take,
}
use bfeed.Tests.Service.{ticking, sample_feed}

abbrev due : List Feed
due = sample_feed ∷ sample_feed ∷ sample_feed ∷ []

-- Polls panic, three feeds are due, and workers take feeds until the environment reaches 2.
abbrev poller : Poller ℕ
poller = record {
  list_due_feeds = λ now batch n. (returned (ok due), n);
  poll_feed = λ f n. (panicked [], n);
  sends = λ f n. (ltb n 2, suc n);
  clk = ticking;
  cfg = record { tick = pos minute; batch_size = pos 100; workers = pos 20 };
}

abbrev idle : Run ℕ
idle = record { env = 0; metrics = []; taken = [] }

poll_one_example :
    (score (poll_one poller sample_feed idle).0 ≡ 1)
    × (inflight (poll_one poller sample_feed idle).1.metrics ≡ inflight idle.metrics)
poll_one_example = poll_one_lem poller sample_feed idle

dispatch_example :
    (k : ℕ) × (Sends poller k due 1 × ((dispatch poller idle).1.taken ≡ idle.taken ++ take k due))
dispatch_example = dispatch-take poller due idle 1 refl
