-- ===== src/Core/Feed/Pairing/Attempt.antt =====
-- The pairing of counter and histogram over whole attempts.
use bfeed.Base.{ℕ, ◌+◌, ◌≡◌, Bool, count, if◌then◌else◌}
use bfeed.Core.Metrics.{is_feed_poll_done}
use bfeed.Core.Feed.World.{World}
use bfeed.Core.Feed.Pairing.Record.{observes}

-- The results reported so far.
abbrev pub done_count : {S : Type 0} → World S → ℕ
done_count w = count is_feed_poll_done w.metrics

abbrev pub flag : Bool → ℕ
flag b = if b then 1 else 0

-- What an attempt adds to the counter and to the histogram's count: the same, one or nothing.
abbrev pub IsPaired : {S : Type 0} → World S → World S → Type 0
IsPaired w w' =
    (done_count w' ≡ done_count w + flag w'.counted) × (observes w' ≡ observes w + flag w'.counted)
