-- ===== src/Core/Feed/Subscribe.antt =====
-- `CreateSubscription`, `Subscribe`, `Refresh` and `SetFullContent`.
use bfeed.Base.{if◌then◌else◌, Bool, false, Option, none, some, []}
use bfeed.Base.Int.{pos, ◌+ℤ◌}
use bfeed.Base.Text.{Text, is_empty, codes}
use bfeed.Base.Exec.{pure, ◌>>=◌, ◌>>◌}
use bfeed.Core.Types.{RowId, Time, Result, ok, err, Category, Feed, not_found, errors_is}
use bfeed.Core.Urls.{feed_title, http_url, normalize_feed_url}
use bfeed.Core.Feed.World.{FeedService, call, get_snapshot, change, clock_now}
use bfeed.Core.Feed.Record.{Op}
use bfeed.Core.Feed.Poll.{invalid, poll_feed, resolve_and_ingest_timed}

abbrev pub Done : Type 0
Done = Result (Unit {0})

module _ {S F U : Type 0} (s : FeedService S F U) where
  owned : Result Category → Done
  owned (ok c) = ok tt
  owned (err e) = if errors_is e not_found then err (invalid (codes "unknown category")) else err e

  -- `ensureCategoryOwned`
  unfoldable pub ensure_category_owned : RowId → Option RowId → Op s Done
  unfolding owned
  ensure_category_owned user_id none = pure (ok tt)
  ensure_category_owned user_id (some c) = do
    r ← call (s.store.get_category user_id c)
    pure (owned r)

  pending_feed : RowId → Text → Option RowId → Bool → Time → Feed
  unfolding ◌+ℤ◌
  pending_feed user_id url category_id full now = record {
    id = pos 0;
    user_id = user_id;
    category_id = category_id;
    feed_url = url;
    site_url = [];
    title = feed_title s.strings [] url;
    user_title = [];
    description = [];
    etag = [];
    last_modified = [];
    disabled = false;
    fetch_full_content = full;
    checked_at = none;
    next_check_at = now +ℤ s.cfg.schedule.min_interval;
    error_count = 0;
    last_error = [];
    ttl = pos 0;
    created_at = now;
    updated_at = now;
  }

  created : Feed → Result RowId → Op s Done
  created f (err e) = pure (err e)
  created f (ok id) = do change (λ _. record f { id = id }); pure (ok tt)

  create_owned : RowId → Text → Option RowId → Bool → Done → Op s Done
  unfolding pending_feed created
  create_owned user_id url category_id full (err e) = pure (err e)
  create_owned user_id url category_id full (ok _) = do
    now ← clock_now s.clk
    let f = pending_feed user_id url category_id full now
    r ← call (s.store.create_feed f)
    created f r

  -- `CreateSubscription`; the feed that it returns is the snapshot afterwards.
  unfoldable pub create_subscription : RowId → Text → Option RowId → Bool → Op s Done
  unfolding create_owned
  create_subscription user_id raw category_id full =
      let url = normalize_feed_url s.urls s.strings raw in
      if is_empty (http_url s.urls url) then pure (err (invalid (codes "invalid feed URL"))) else do
        r ← ensure_category_owned user_id category_id
        create_owned user_id url category_id full r

  rolled_back : RowId → Done → Op s Done
  rolled_back user_id (ok _) = pure (ok tt)
  rolled_back user_id (err e) = do
    f ← get_snapshot
    _ ← call (s.store.delete_feed user_id f.id)
    pure (err e)

  ingest_created : RowId → Done → Op s Done
  unfolding rolled_back
  ingest_created user_id (err e) = pure (err e)
  ingest_created user_id (ok _) = do r ← resolve_and_ingest_timed s; rolled_back user_id r

  -- `Subscribe`
  unfoldable pub subscribe : RowId → Text → Option RowId → Bool → Op s Done
  unfolding ingest_created
  subscribe user_id raw category_id full = do
    r ← create_subscription user_id raw category_id full
    ingest_created user_id r

  refreshed : Result Feed → Op s Done
  refreshed (err e) = pure (err e)
  refreshed (ok f) = do change (λ _. f); poll_feed s

  -- `Refresh`
  unfoldable pub refresh : RowId → RowId → Op s Done
  unfolding refreshed
  refresh user_id feed_id = do r ← call (s.store.get_feed user_id feed_id); refreshed r

  -- `SetFullContent`
  unfoldable pub set_full_content : RowId → RowId → Bool → Op s Done
  set_full_content user_id feed_id on = do
    now ← clock_now s.clk
    call (s.store.set_feed_full_content user_id feed_id on now)
