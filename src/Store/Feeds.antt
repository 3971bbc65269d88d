-- ===== src/Store/Feeds.antt =====
-- feeds.go and counts.go: the operations on feeds.
pub mod FullContent
pub mod Snapshot
use bfeed.Base.{ℕ, ◌*◌, ◌==◌, if◌then◌else◌, Bool, true, false, Option, none, some, List, map}
use bfeed.Base.Int.{ℤ, pos, negsuc, ◌-ℤ◌}
use bfeed.Base.Text.{Text}
use bfeed.Core.Types.{RowId, Time, Feed}
use bfeed.Core.Schedule.{week}
use bfeed.Store.Rows.{Db, FeedRow, feed_from_row, to_unix, null_unix, null_dur_sec, b2i}
use bfeed.Store.Sql.{
  Sql, SqlResult, done, failed, no_rows, give, fail, query, statement, transaction, ◌>>=◌, ◌>>◌,
}
use bfeed.Store.Queries.Entries
use bfeed.Store.Queries.Extraction
use bfeed.Store.Queries.Feeds

-- The parameters of `CreateFeed` and of `UpdateFeed` in one row, each field as both convert it. Neither
-- statement writes the whole row: `CreateFeed` leaves out `id` and `user_title`, and `UpdateFeed`, for
-- which `id`, `user_id` and `feed_url` are the key, also `category_id`, `fetch_full_content` and
-- `created_at`.
unfoldable pub feed_params : Feed → FeedRow
unfolding null_unix
feed_params f = record {
  id = f.id;
  user_id = f.user_id;
  feed_url = f.feed_url;
  site_url = f.site_url;
  title = f.title;
  description = f.description;
  etag = f.etag;
  last_modified = f.last_modified;
  disabled = b2i f.disabled;
  checked_at = null_unix f.checked_at;
  next_check_at = to_unix f.next_check_at;
  error_count = f.error_count;
  last_error = f.last_error;
  created_at = to_unix f.created_at;
  updated_at = to_unix f.updated_at;
  category_id = f.category_id;
  fetch_full_content = b2i f.fetch_full_content;
  user_title = f.user_title;
  ttl_seconds = null_dur_sec f.ttl;
}

-- `if n == 0 { return core.ErrNotFound }`
unfoldable pub affected : ℕ → Sql (Unit {0})
affected n = if n == 0 then fail no_rows else give tt

unfoldable pub create_feed : Feed → Sql RowId
unfolding feed_params
create_feed f = statement (Feeds.create_feed (feed_params f))

unfoldable pub get_feed : RowId → RowId → Sql Feed
get_feed user id = query (Feeds.get_feed id user) >>= λ r. give (feed_from_row r)

unfoldable pub list_feeds : (Text → Text → Bool) → RowId → Sql (List Feed)
list_feeds nocase user = query (Feeds.list_feeds nocase user) >>= λ rs. give (map feed_from_row rs)

unfoldable pub list_due_feeds : Time → ℤ → Sql (List Feed)
list_due_feeds now limit =
    query (Feeds.list_due_feeds (to_unix now) limit) >>= λ rs. give (map feed_from_row rs)

unfoldable pub update_feed : Feed → Sql (Unit {0})
unfolding feed_params
update_feed f = statement (Feeds.update_feed (feed_params f))

unfoldable pub delete_feed : RowId → RowId → Sql (Unit {0})
unfolding affected
delete_feed user id = statement (Feeds.delete_feed id user) >>= affected

unfoldable pub unread_count : RowId → Sql ℕ
unread_count user = query (Feeds.unread_count user)

unfoldable pub feed_entry_stats_by_id : RowId → RowId → Sql (ℕ × ℕ)
feed_entry_stats_by_id user feed = query (Feeds.feed_entry_stats_by_id user feed)

-- The end of `SetFeedFullContent`, once the flag is set.
unfoldable pub reconcile : RowId → Bool → Time → Sql (Unit {0})
reconcile feed true at = statement (Extraction.mark_feed_entries_pending (to_unix at) feed)
reconcile feed false at = statement (Extraction.cancel_feed_extractions feed)

unfoldable pub set_feed_full_content : RowId → RowId → Bool → Time → Sql (Unit {0})
unfolding affected reconcile
set_feed_full_content user feed on at = transaction (
    statement (Feeds.set_feed_full_content (b2i on) feed user) >>= λ n.
    (affected n >>= λ _. reconcile feed on at))

unfoldable pub weekly_entry_count : RowId → Time → Sql ℕ
unfolding ◌-ℤ◌
weekly_entry_count feed now =
    query (Entries.weekly_entry_count feed (to_unix (now -ℤ pos week)) (to_unix now))

unfoldable pub set_feed_user_title : RowId → RowId → Text → Sql (Unit {0})
unfolding affected
set_feed_user_title user feed title =
    statement (Feeds.set_feed_user_title title feed user) >>= affected

unfoldable pub set_feed_url : RowId → RowId → Text → Time → Sql (Unit {0})
unfolding affected
set_feed_url user feed url now =
    statement (Feeds.set_feed_url url (to_unix now) feed user) >>= affected

-- `SetFeedCategory` of categories.go
unfoldable pub set_feed_category : RowId → RowId → Option RowId → Sql (Unit {0})
unfolding affected
set_feed_category user feed category =
    statement (Feeds.set_feed_category category feed user) >>= affected

-- counts.go
unfoldable pub count_feeds : Sql ℕ
count_feeds = query Feeds.count_feeds

unfoldable pub count_entries : Sql ℕ
count_entries = query Extraction.count_entries

unfoldable pub count_due_feeds : Time → Sql ℕ
count_due_feeds now = query (Feeds.count_due_feeds (to_unix now))

unfoldable pub count_due_extractions : Time → Sql ℕ
count_due_extractions now = query (Extraction.count_due_extractions (to_unix now))
