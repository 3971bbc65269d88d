-- ===== src/Store/Queries/Entries.antt =====
-- sqlc/entries.sql.go: the statements on entries and tombstones.
use bfeed.Base.{ℕ, if◌then◌else◌, Bool, ◌&&◌, Option, none, some, List, [], ◌∷◌, count}
use bfeed.Base.Int.{ℤ, pos, eq_ℤ, leb_ℤ, ltb_ℤ}
use bfeed.Base.Text.{Text, text_eq}
use bfeed.Core.Types.{RowId, ExtractState, unread}
use bfeed.Store.Table.{update, delete, exists, find}
use bfeed.Store.Rows.{Db, EntryRow, TombstoneRow}
use bfeed.Store.Sql.{SqlResult, no_rows, unique_failed, foreign_key_failed}

abbrev pub has_guid : RowId → Text → EntryRow → Bool
has_guid feed guid r = eq_ℤ r.feed_id feed && text_eq r.guid guid

abbrev pub buries : RowId → Text → TombstoneRow → Bool
buries feed guid t = eq_ℤ t.feed_id feed && text_eq t.guid guid

-- `WHERE id = ? AND user_id = ?`
abbrev pub is_entry : RowId → RowId → EntryRow → Bool
is_entry id user r = eq_ℤ r.id id && eq_ℤ r.user_id user

abbrev pub one_row {ℓ} : {A : Type ℓ} {B : Type 0} → Option A → (A → B) → SqlResult B
one_row none f = SqlResult.failed no_rows
one_row (some a) f = SqlResult.done (f a)

-- `GetEntryByGUID`
unfoldable pub get_entry_by_guid : RowId → Text → Db → SqlResult EntryRow
get_entry_by_guid feed guid db = one_row (find (has_guid feed guid) db.entries) (λ r. r)

-- `TombstoneExists`
unfoldable pub tombstone_exists : RowId → Text → Db → SqlResult (Unit {0})
tombstone_exists feed guid db =
    if exists (buries feed guid) db.tombstones then SqlResult.done tt else SqlResult.failed no_rows

pub record InsertEntryParams : Type 0 where
  pub user_id : RowId
  pub feed_id : RowId
  pub guid : Text
  pub url : Text
  pub title : Text
  pub author : Text
  pub content : Text
  pub summary : Text
  pub content_text : Text
  pub summary_text : Text
  pub comments_url : Text
  pub published_at : ℤ
  pub created_at : ℤ
  pub hash : Text
  pub extract_state : ExtractState
  pub next_extract_at : Option ℤ

unfoldable pub entry_row : RowId → InsertEntryParams → EntryRow
entry_row id p = record {
  id = id;
  user_id = p.user_id;
  feed_id = p.feed_id;
  guid = p.guid;
  url = p.url;
  title = p.title;
  author = p.author;
  content = p.content;
  summary = p.summary;
  published_at = p.published_at;
  status = unread;
  starred = pos 0;
  read_at = none;
  created_at = p.created_at;
  hash = p.hash;
  extract_state = p.extract_state;
  extract_attempts = 0;
  next_extract_at = p.next_extract_at;
  extract_error = [];
  content_text = p.content_text;
  summary_text = p.summary_text;
  comments_url = p.comments_url;
}

-- `InsertEntry`; `fresh` is the rowid that SQLite picks. UNIQUE (feed_id, guid), and references to
-- users and feeds.
unfoldable pub insert_entry :
    (List EntryRow → RowId) → InsertEntryParams → Db → SqlResult (RowId × Db)
unfolding entry_row
insert_entry fresh p db =
    let id = fresh db.entries in
    if exists (has_guid p.feed_id p.guid) db.entries
    then SqlResult.failed unique_failed
    else if exists (eq_ℤ p.user_id) db.users && exists (λ f. eq_ℤ f.id p.feed_id) db.feeds
    then SqlResult.done (id, record db { entries = entry_row id p ∷ db.entries })
    else SqlResult.failed foreign_key_failed

pub record UpdateEntryParams : Type 0 where
  pub title : Text
  pub author : Text
  pub content : Text
  pub summary : Text
  pub content_text : Text
  pub summary_text : Text
  pub comments_url : Text
  pub published_at : ℤ
  pub url : Text
  pub hash : Text
  pub id : RowId
  pub user_id : RowId

unfoldable pub set_content : UpdateEntryParams → EntryRow → EntryRow
set_content p r = record r {
  title = p.title;
  author = p.author;
  content = p.content;
  summary = p.summary;
  content_text = p.content_text;
  summary_text = p.summary_text;
  comments_url = p.comments_url;
  published_at = p.published_at;
  url = p.url;
  hash = p.hash;
}

-- `UpdateEntryContent`
unfoldable pub update_entry_content : UpdateEntryParams → Db → SqlResult (Unit {0} × Db)
unfolding set_content
update_entry_content p db =
    SqlResult.done
      (tt, record db { entries = update (is_entry p.id p.user_id) (set_content p) db.entries })

unfoldable pub set_metadata : UpdateEntryParams → EntryRow → EntryRow
set_metadata p r = record r {
  title = p.title;
  author = p.author;
  summary = p.summary;
  summary_text = p.summary_text;
  comments_url = p.comments_url;
  published_at = p.published_at;
  url = p.url;
  hash = p.hash;
}

-- `UpdateEntryMetadata`
unfoldable pub update_entry_metadata : UpdateEntryParams → Db → SqlResult (Unit {0} × Db)
unfolding set_metadata
update_entry_metadata p db =
    SqlResult.done
      (tt, record db { entries = update (is_entry p.id p.user_id) (set_metadata p) db.entries })

-- `GetEntry`
unfoldable pub get_entry : RowId → RowId → Db → SqlResult EntryRow
get_entry id user db = one_row (find (is_entry id user) db.entries) (λ r. r)

-- `DeleteEntry`, with the rows affected
unfoldable pub delete_entry : RowId → RowId → Db → SqlResult (ℕ × Db)
delete_entry id user db = SqlResult.done (
  count (is_entry id user) db.entries,
  record db { entries = delete (is_entry id user) db.entries },
)

-- `InsertTombstone`, an upsert; a tombstone references its feed.
unfoldable pub insert_tombstone : TombstoneRow → Db → SqlResult (Unit {0} × Db)
insert_tombstone t db =
    if exists (buries t.feed_id t.guid) db.tombstones
    then SqlResult.done (
      tt,
      record db {
        tombstones =
            update (buries t.feed_id t.guid) (λ u. record u { deleted_at = t.deleted_at })
              db.tombstones;
      },
    )
    else if exists (λ f. eq_ℤ f.id t.feed_id) db.feeds
    then SqlResult.done (tt, record db { tombstones = t ∷ db.tombstones })
    else SqlResult.failed foreign_key_failed

-- `GetFeedFullContent`
unfoldable pub get_feed_full_content : RowId → Db → SqlResult ℤ
get_feed_full_content id db =
    one_row (find (λ f. eq_ℤ f.id id) db.feeds) (λ f. f.fetch_full_content)

-- The date that an entry counts under.
abbrev pub effective_at : EntryRow → ℤ
effective_at r = if ltb_ℤ (pos 0) r.published_at then r.published_at else r.created_at

abbrev pub in_window : RowId → ℤ → ℤ → EntryRow → Bool
in_window feed from to r =
    eq_ℤ r.feed_id feed && leb_ℤ from (effective_at r) && leb_ℤ (effective_at r) to

-- `WeeklyEntryCount`
unfoldable pub weekly_entry_count : RowId → ℤ → ℤ → Db → SqlResult ℕ
weekly_entry_count feed from to db = SqlResult.done (count (in_window feed from to) db.entries)
