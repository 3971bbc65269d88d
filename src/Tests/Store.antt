-- ===== src/Tests/Store.antt =====
-- A store with one user, and histories of writes on it.
use bfeed.Base.{
  ℕ, suc, ◌≡◌, refl, true, false, Option, none, some, List, [], ◌∷◌, map, length, arith,
}
use bfeed.Base.Int.{ℤ, pos}
use bfeed.Base.Text.{Text, codes, text_eq}
use bfeed.Core.Types.{RowId, Entry, Error, unread, idle, published_desc}
use bfeed.Store.Table.{exists, find, select, delete, update, insert, order_by}
use bfeed.Store.Rows.{Db, EntryRow, CategoryRow, entry_from_row, to_unix}
use bfeed.Store.Sql.{Conn, done, other, transaction, rolled_back, statement, faulty, applied, ◌>>=◌}
use bfeed.Store.Queries
use bfeed.Store.Feeds
use bfeed.Store.Feeds.{feed_params, affected}
use bfeed.Store.Feeds.FullContent.{IsReconciled, set_feed_full_content-IsReconciled}
use bfeed.Store.Feeds.Snapshot.{IsPolled, update_feed-IsPolled}
use bfeed.Store.Entries
use bfeed.Store.Entries.{EntryFilter}
use bfeed.Store.Listing.{listed_rows, scan_entry}
use bfeed.Store.Listing.Pages.{walk, walk-list_entries}
use bfeed.Store.Upsert.{Sqlite}
use bfeed.Store.Sound.{IsSound}
use bfeed.Store.Writes.{Write, perform, after}
use bfeed.Store.Writes.Atomic.{perform_failed}
use bfeed.Store.Writes.Sound.{after-IsSound}
use bfeed.Tests.Service.{sample_feed}

abbrev pub lib : Sqlite
lib = record {
  fresh_entry = λ rs. pos (suc (length rs));
  plain_text = λ t. t;
  nocase = λ s t. text_eq s t;
}

abbrev pub fresh_category : List CategoryRow → RowId
fresh_category rs = pos (suc (length rs))

abbrev pub no_rows_yet : Db
no_rows_yet = record {
  users = sample_feed.user_id ∷ [];
  feeds = [];
  entries = [];
  categories = [];
  tombstones = [];
  settings = [];
  feed_sequence = 0;
}

abbrev pub start : Conn
start = record { db = no_rows_yet; faults = [] }

abbrev pub entry : Text → Text → Entry
entry guid hash = record {
  id = pos 0;
  user_id = sample_feed.user_id;
  feed_id = pos 1;
  guid = guid;
  url = codes "https://example.org/a";
  title = codes "A";
  author = [];
  content = codes "text";
  summary = [];
  published_at = pos 0;
  status = unread;
  starred = false;
  read_at = none;
  created_at = pos 0;
  hash = hash;
  comments_url = [];
  extract_state = idle;
  extract_attempts = 0;
  extract_error = [];
}

abbrev pub batch : List Entry
batch = entry (codes "a") (codes "1") ∷ entry (codes "b") (codes "2") ∷ []

-- A poll, a deletion, and the same poll again.
abbrev pub history : List Write
history =
    Write.creates_feed sample_feed
    ∷ Write.upserts (pos 1) batch
    ∷ Write.deletes_entry (pos 0) sample_feed.user_id (pos 1)
    ∷ Write.upserts (pos 1) batch
    ∷ []

pub no_rows_yet-IsSound : IsSound no_rows_yet
unfolding exists
no_rows_yet-IsSound = record { unique = λ f g. omega arith; buried = λ f g h. refl }

after-IsSound_example : IsSound (after lib fresh_category history start).db
after-IsSound_example = after-IsSound lib fresh_category history start no_rows_yet-IsSound

left : ℕ
left = length (after lib fresh_category history start).db.entries

abbrev pub row : RowId → Text → ℤ → EntryRow
row id guid published = record {
  id = id;
  user_id = pos 1;
  feed_id = pos 1;
  guid = guid;
  url = [];
  title = [];
  author = [];
  content = codes "text";
  summary = [];
  published_at = published;
  status = unread;
  starred = pos 0;
  read_at = none;
  created_at = pos 0;
  hash = [];
  extract_state = idle;
  extract_attempts = 0;
  next_extract_at = none;
  extract_error = [];
  content_text = [];
  summary_text = [];
  comments_url = [];
}

-- A feed with three entries, two of them of one date.
abbrev pub stocked : Db
stocked = record no_rows_yet {
  feeds = record (feed_params sample_feed) { id = pos 1 } ∷ [];
  entries =
      row (pos 1) (codes "a") (pos 7)
      ∷ row (pos 2) (codes "b") (pos 9)
      ∷ row (pos 3) (codes "c") (pos 7)
      ∷ [];
  feed_sequence = 1;
}

-- The commit of the deletion fails.
abbrev broken : Error
broken = record { chain = []; message = codes "disk" }

abbrev pub failing : List (Option Error) → Conn
failing fs = record { db = stocked; faults = fs }

perform_failed_example : stocked ≡ stocked
unfolding perform Entries.delete_entry Entries.get_entry Entries.bury transaction rolled_back ◌>>=◌
    statement faulty applied Queries.Entries.get_entry Queries.Entries.insert_tombstone
    Queries.Entries.delete_entry find exists delete select affected entry_from_row
perform_failed_example =
    perform_failed lib fresh_category (Write.deletes_entry (pos 0) (pos 1) (pos 2))
      (failing (none ∷ none ∷ none ∷ none ∷ some broken ∷ [])) (failing []) (other broken) refl

reconciled : Db
unfolding Queries.Extraction.queue
reconciled = record stocked {
  feeds = record (feed_params sample_feed) { id = pos 1; fetch_full_content = pos 1 } ∷ [];
  entries =
      Queries.Extraction.queue (to_unix (pos 0)) (row (pos 1) (codes "a") (pos 7))
      ∷ Queries.Extraction.queue (to_unix (pos 0)) (row (pos 2) (codes "b") (pos 9))
      ∷ Queries.Extraction.queue (to_unix (pos 0)) (row (pos 3) (codes "c") (pos 7))
      ∷ [];
}

set_feed_full_content_example : IsReconciled (pos 1) (pos 1) true (pos 0) stocked reconciled
unfolding reconciled Feeds.set_feed_full_content Feeds.reconcile transaction rolled_back ◌>>=◌
    statement faulty applied Queries.Feeds.set_feed_full_content
    Queries.Extraction.mark_feed_entries_pending Queries.Extraction.queue update affected
    feed_params
set_feed_full_content_example =
    set_feed_full_content-IsReconciled (pos 1) (pos 1) true (pos 0) (failing [])
      (record { db = reconciled; faults = [] }) refl

update_feed_example : IsPolled sample_feed stocked (Feeds.update_feed sample_feed (failing [])).1.db
update_feed_example = update_feed-IsPolled sample_feed (failing [])

abbrev by_one : EntryFilter
by_one = record {
  feed_id = some (pos 1);
  status = some unread;
  starred = none;
  category_id = none;
  uncategorised = false;
  limit = pos 1;
  cursor = none;
  order = published_desc;
}

walk_example :
    walk (λ t. t) (pos 1) 4 by_one (failing [])
    ≡ (done (map (scan_entry (λ t. t)) (listed_rows (pos 1) by_one stocked)), failing [])
unfolding listed_rows order_by insert select
walk_example =
    walk-list_entries (λ t. t) (pos 1) 4 by_one stocked ((refl, (refl, tt)), ((refl, tt), (tt, tt)))
      (omega arith)
