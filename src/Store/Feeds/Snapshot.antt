-- ===== src/Store/Feeds/Snapshot.antt =====
-- `UpdateFeed`, with which a poll writes back a snapshot that it took before its request.
use bfeed.Base.{◌≡◌, refl, Bool, not, ◌&&◌, Option, map}
use bfeed.Base.Int.{ℤ, eq_ℤ}
use bfeed.Base.Text.{Text, text_eq}
use bfeed.Core.Types.{RowId, Feed}
use bfeed.Store.Table.{select}
use bfeed.Store.Table.Laws.{select-update, map-update}
use bfeed.Store.Rows.{Db, FeedRow}
use bfeed.Store.Sql.{SqlResult, done, failed, Conn}
use bfeed.Store.Sql.Triple.{Triple, After, Triple-statement}
use bfeed.Store.Queries
use bfeed.Store.Feeds
use bfeed.Store.Feeds.{feed_params}

-- The columns that the user sets.
abbrev user_columns : FeedRow → RowId × RowId × Text × Text × Option RowId × ℤ × ℤ
user_columns r =
    (r.id, r.user_id, r.feed_url, r.user_title, r.category_id, r.fetch_full_content, r.created_at)

-- The row is the feed's, and its URL is still that of the snapshot.
abbrev pub is_of_snapshot : Feed → FeedRow → Bool
is_of_snapshot f r = eq_ℤ r.id f.id && eq_ℤ r.user_id f.user_id && text_eq r.feed_url f.feed_url

module _ (f : Feed) (old : Db) where
  pub record IsPolled (db : Db) : Type 0 where
    columns : map user_columns db.feeds ≡ map user_columns old.feeds
    others :
        select (λ r. not (is_of_snapshot f r)) db.feeds
        ≡ select (λ r. not (is_of_snapshot f r)) old.feeds
    entries : db.entries ≡ old.entries
    tombstones : db.tombstones ≡ old.tombstones

  update_feed-Triple : Triple (λ db. db ≡ old) (λ _. IsPolled) IsPolled (Feeds.update_feed f)
  unfolding Feeds.update_feed Queries.Feeds.update_feed Queries.Feeds.set_polled feed_params
  update_feed-Triple =
      Triple-statement _
        (λ db e. rw e (record { columns = refl; others = refl; entries = refl; tombstones = refl }))
        (λ db e. rw e (record {
          columns = map-update user_columns _ _ old.feeds (λ r. refl);
          others = select-update _ _ _ old.feeds (λ r h. (rw h refl, rw h refl));
          entries = refl;
          tombstones = refl;
        }))

-- `UpdateFeed` leaves the columns that the user sets, all entries and tombstones, and every row alone
-- but one with the id, the user and the URL of the snapshot: so it writes nothing where the feed's URL is
-- no longer that of the snapshot. All this holds also where it fails.
pub update_feed-IsPolled : (f : Feed) (c : Conn) → IsPolled f c.db (Feeds.update_feed f c).1.db
update_feed-IsPolled f c = ended _ ((update_feed-Triple f c.db).at c refl)
  where
    ended :
        (r : SqlResult (Unit {0}) × Conn)
        → After (λ _. IsPolled f c.db) (IsPolled f c.db) r
        → IsPolled f c.db r.1.db
    ended (done a, d) h = h
    ended (failed e, d) h = h
