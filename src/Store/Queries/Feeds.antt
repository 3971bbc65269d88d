-- ===== src/Store/Queries/Feeds.antt =====
-- sqlc/feeds.sql.go: the statements on feeds.
use bfeed.Base.{
  ℕ, suc, if◌then◌else◌, Bool, true, false, not, ◌&&◌, Option, none, some, List, [], ◌∷◌, count,
}
use bfeed.Base.Int.{ℤ, pos, eq_ℤ, leb_ℤ, ltb_ℤ}
use bfeed.Base.Text.{Text, text_eq, is_empty}
use bfeed.Core.Types.{RowId, unread, read}
use bfeed.Store.Table.{select, update, delete, exists, find, order_by, limit_to}
use bfeed.Store.Rows.{Db, FeedRow, EntryRow}
use bfeed.Store.Sql.{SqlResult, unique_failed, foreign_key_failed}
use bfeed.Store.Queries.Entries.{one_row}

-- `WHERE id = ? AND user_id = ?`
abbrev pub is_feed : RowId → RowId → FeedRow → Bool
is_feed id user r = eq_ℤ r.id id && eq_ℤ r.user_id user

abbrev pub has_url : RowId → Text → FeedRow → Bool
has_url user url r = eq_ℤ r.user_id user && text_eq r.feed_url url

-- A category that is NULL references nothing.
abbrev pub category_exists : Option RowId → Db → Bool
category_exists none db = true
category_exists (some c) db = exists (λ r. eq_ℤ r.id c) db.categories

-- `CreateFeed`, with the columns of a row; the id is the next of the sequence, and `user_title` has
-- its default.
unfoldable pub create_feed : FeedRow → Db → SqlResult (RowId × Db)
create_feed p db =
    let id = pos (suc db.feed_sequence) in
    if exists (has_url p.user_id p.feed_url) db.feeds
    then SqlResult.failed unique_failed
    else if exists (eq_ℤ p.user_id) db.users && category_exists p.category_id db
    then SqlResult.done (
      id,
      record db {
        feeds = record p { id = id; user_title = [] } ∷ db.feeds;
        feed_sequence = suc db.feed_sequence;
      },
    )
    else SqlResult.failed foreign_key_failed

-- `GetFeed`
unfoldable pub get_feed : RowId → RowId → Db → SqlResult FeedRow
get_feed id user db = one_row (find (is_feed id user) db.feeds) (λ r. r)

abbrev pub shown_title : FeedRow → Text
shown_title r = if is_empty r.user_title then r.title else r.user_title

-- `ListFeeds`; `nocase` is the order of COLLATE NOCASE.
unfoldable pub list_feeds : (Text → Text → Bool) → RowId → Db → SqlResult (List FeedRow)
list_feeds nocase user db = SqlResult.done (
    order_by (λ r s. nocase (shown_title r) (shown_title s))
      (select (λ r. eq_ℤ r.user_id user) db.feeds))

abbrev pub is_due_feed : ℤ → FeedRow → Bool
is_due_feed now r = eq_ℤ r.disabled (pos 0) && leb_ℤ r.next_check_at now

-- `ListDueFeeds`
unfoldable pub list_due_feeds : ℤ → ℤ → Db → SqlResult (List FeedRow)
list_due_feeds now limit db = SqlResult.done (
    limit_to limit
      (order_by (λ r s. ltb_ℤ r.next_check_at s.next_check_at) (select (is_due_feed now) db.feeds)))

-- `CountFeeds`, `CountDueFeeds`
unfoldable pub count_feeds : Db → SqlResult ℕ
count_feeds db = SqlResult.done (count (λ r. true) db.feeds)

unfoldable pub count_due_feeds : ℤ → Db → SqlResult ℕ
count_due_feeds now db = SqlResult.done (count (is_due_feed now) db.feeds)

-- The columns that `UpdateFeed` writes, from a row that holds them.
unfoldable pub set_polled : FeedRow → FeedRow → FeedRow
set_polled p r = record r {
  site_url = p.site_url;
  title = p.title;
  description = p.description;
  etag = p.etag;
  last_modified = p.last_modified;
  disabled = p.disabled;
  checked_at = p.checked_at;
  next_check_at = p.next_check_at;
  error_count = p.error_count;
  last_error = p.last_error;
  updated_at = p.updated_at;
  ttl_seconds = p.ttl_seconds;
}

-- `WHERE id = ? AND user_id = ? AND feed_url = ?`
abbrev pub is_snapshot : FeedRow → FeedRow → Bool
is_snapshot p r = is_feed p.id p.user_id r && text_eq r.feed_url p.feed_url

-- `UpdateFeed`
unfoldable pub update_feed : FeedRow → Db → SqlResult (Unit {0} × Db)
unfolding set_polled
update_feed p db =
    SqlResult.done (tt, record db { feeds = update (is_snapshot p) (set_polled p) db.feeds })

-- `DeleteFeed`; entries and tombstones are deleted with the feeds that they reference.
unfoldable pub delete_feed : RowId → RowId → Db → SqlResult (ℕ × Db)
delete_feed id user db =
    let gone = λ (feed : RowId). exists (λ r. is_feed id user r && eq_ℤ r.id feed) db.feeds in
    SqlResult.done (
      count (is_feed id user) db.feeds,
      record db {
        feeds = delete (is_feed id user) db.feeds;
        entries = delete (λ e. gone e.feed_id) db.entries;
        tombstones = delete (λ t. gone t.feed_id) db.tombstones;
      },
    )

-- `SetFeedCategory`
unfoldable pub set_feed_category : Option RowId → RowId → RowId → Db → SqlResult (ℕ × Db)
set_feed_category category id user db =
    let n = count (is_feed id user) db.feeds in
    if exists (is_feed id user) db.feeds && not (category_exists category db)
    then SqlResult.failed foreign_key_failed
    else SqlResult.done (
      n,
      record db {
        feeds = update (is_feed id user) (λ r. record r { category_id = category }) db.feeds;
      },
    )

-- `SetFeedFullContent`
unfoldable pub set_feed_full_content : ℤ → RowId → RowId → Db → SqlResult (ℕ × Db)
set_feed_full_content on id user db = SqlResult.done (
  count (is_feed id user) db.feeds,
  record db {
    feeds = update (is_feed id user) (λ r. record r { fetch_full_content = on }) db.feeds;
  },
)

-- `SetFeedUserTitle`
unfoldable pub set_feed_user_title : Text → RowId → RowId → Db → SqlResult (ℕ × Db)
set_feed_user_title title id user db = SqlResult.done (
  count (is_feed id user) db.feeds,
  record db { feeds = update (is_feed id user) (λ r. record r { user_title = title }) db.feeds },
)

unfoldable pub set_url : Text → ℤ → FeedRow → FeedRow
set_url url at r = record r { feed_url = url; etag = []; last_modified = []; next_check_at = at }

-- `SetFeedURL`, under UNIQUE (user_id, feed_url)
unfoldable pub set_feed_url : Text → ℤ → RowId → RowId → Db → SqlResult (ℕ × Db)
unfolding set_url
set_feed_url url at id user db =
    let n = count (is_feed id user) db.feeds in
    if exists (is_feed id user) db.feeds
      && exists (λ r. has_url user url r && not (eq_ℤ r.id id)) db.feeds
    then SqlResult.failed unique_failed
    else SqlResult.done
        (n, record db { feeds = update (is_feed id user) (set_url url at) db.feeds })

abbrev pub is_unread : EntryRow → Bool
is_unread r = elim r.status [ unread ↦ true | read ↦ false ]

-- `UnreadCount`
unfoldable pub unread_count : RowId → Db → SqlResult ℕ
unread_count user db = SqlResult.done (count (λ r. eq_ℤ r.user_id user && is_unread r) db.entries)

-- `FeedEntryStatsByID`: total and unread
unfoldable pub feed_entry_stats_by_id : RowId → RowId → Db → SqlResult (ℕ × ℕ)
feed_entry_stats_by_id user feed db =
    let mine = λ (r : EntryRow). eq_ℤ r.user_id user && eq_ℤ r.feed_id feed in
    SqlResult.done (count mine db.entries, count (λ r. mine r && is_unread r) db.entries)
