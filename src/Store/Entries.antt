-- ===== src/Store/Entries.antt =====
-- entries.go: the operations on single entries.
pub mod MarkRead
use bfeed.Base.{
  ℕ, if◌then◌else◌, Bool, true, false, ◌&&◌, ◌||◌, Option, none, some, List, [], ◌∷◌, map, count,
}
use bfeed.Base.Int.{ℤ, eq_ℤ}
use bfeed.Base.Text.{Text}
use bfeed.Core.Types.{RowId, Time, Entry, EntryStatus, ExtractState, Order, Cursor, read, unread}
use bfeed.Store.Table.{update, exists}
use bfeed.Store.Rows.{EntryRow, FeedRow, entry_from_row, to_unix, null_unix, b2i}
use bfeed.Store.Sql.{Sql, done, give, query, statement, transaction, ◌>>=◌}
use bfeed.Store.Upsert.{Sqlite}
use bfeed.Store.Feeds.{affected}
use bfeed.Store.Queries.Entries
use bfeed.Store.Queries.Extraction
use bfeed.Store.Queries.Feeds.{is_unread}

-- The fields of `EntryFilter`; nil is `none`.
pub record EntryFilter : Type 0 where
  pub feed_id : Option RowId
  pub status : Option EntryStatus
  pub starred : Option Bool
  pub category_id : Option RowId
  pub uncategorised : Bool
  pub limit : ℤ
  pub cursor : Option Cursor
  pub order : Order

unfoldable pub get_entry : RowId → RowId → Sql Entry
get_entry user id = query (Entries.get_entry id user) >>= λ r. give (entry_from_row r)

-- `id IN (…)`
unfoldable pub is_in : List RowId → RowId → Bool
is_in [] id = false
is_in (i ∷ ids) id = eq_ℤ i id || is_in ids id

abbrev pub is_listed : RowId → List RowId → EntryRow → Bool
is_listed user ids r = eq_ℤ r.user_id user && is_in ids r.id

abbrev pub read_at_of : Time → EntryStatus → Option ℤ
read_at_of now read = some (to_unix now)
read_at_of now unread = none

-- `SetStatus`; `now` is the time that it reads.
unfoldable pub set_status : Time → RowId → List RowId → EntryStatus → Sql (Unit {0})
set_status now user [] st = give tt
set_status now user (i ∷ ids) st = statement (λ db. done (
  tt,
  record db {
    entries =
        update (is_listed user (i ∷ ids))
          (λ r. record r { status = st; read_at = read_at_of now st }) db.entries;
  },
))

-- `SetStarred`
unfoldable pub set_starred : RowId → List RowId → Bool → Sql (Unit {0})
set_starred user [] on = give tt
set_starred user (i ∷ ids) on = statement (λ db. done (
  tt,
  record db {
    entries = update (is_listed user (i ∷ ids)) (λ r. record r { starred = b2i on }) db.entries;
  },
))

abbrev pub in_category : RowId → FeedRow → Bool
in_category c f = elim f.category_id [ none ↦ false | some d ↦ eq_ℤ d c ]

abbrev pub is_uncategorised : FeedRow → Bool
is_uncategorised f = elim f.category_id [ none ↦ true | some d ↦ false ]

-- `feed_id IN (SELECT id FROM feeds WHERE user_id = ? AND …)`
abbrev pub in_feeds : List FeedRow → RowId → (FeedRow → Bool) → EntryRow → Bool
in_feeds feeds user p r = exists (λ f. eq_ℤ f.user_id user && p f && eq_ℤ f.id r.feed_id) feeds

-- The selection of `MarkReadByFilter`: the feed, else the category, else the uncategorised.
unfoldable pub is_selected : List FeedRow → RowId → EntryFilter → EntryRow → Bool
is_selected feeds user f r = elim f.feed_id [
  | some id ↦ eq_ℤ r.feed_id id
  | none ↦ elim f.category_id [
    | some c ↦ in_feeds feeds user (in_category c) r
    | none ↦ if f.uncategorised then in_feeds feeds user is_uncategorised r else true
  ]
]

-- `WHERE user_id = ? AND status = 'unread' AND …`
unfoldable pub to_mark : List FeedRow → RowId → EntryFilter → EntryRow → Bool
unfolding is_selected
to_mark feeds user f r = (eq_ℤ r.user_id user && is_unread r) && is_selected feeds user f r

unfoldable pub mark_read : Time → EntryRow → EntryRow
mark_read now r = record r { status = read; read_at = some (to_unix now) }

-- `MarkReadByFilter`, with the rows affected
unfoldable pub mark_read_by_filter : Time → RowId → EntryFilter → Sql ℕ
unfolding to_mark mark_read
mark_read_by_filter now user f = statement (λ db. done (
  count (to_mark db.feeds user f) db.entries,
  record db { entries = update (to_mark db.feeds user f) (mark_read now) db.entries },
))

-- The transaction of `DeleteEntry`.
unfoldable pub bury : Time → RowId → RowId → Entry → Sql (Unit {0})
unfolding affected
bury now user id e = transaction (
    statement (
      Entries.insert_tombstone
        (record { feed_id = e.feed_id; guid = e.guid; deleted_at = to_unix now }))
    >>= λ _. (statement (Entries.delete_entry id user) >>= affected))

-- `DeleteEntry`
unfoldable pub delete_entry : Time → RowId → RowId → Sql (Unit {0})
unfolding get_entry bury
delete_entry now user id = get_entry user id >>= bury now user id

unfoldable pub list_pending_extractions : Time → ℤ → Sql (List Entry)
list_pending_extractions now limit =
    query (Extraction.list_pending_extractions (to_unix now) limit) >>= λ rs.
    give (map entry_from_row rs)

unfoldable pub set_entry_content : Sqlite → RowId → Text → Sql (Unit {0})
set_entry_content lib id content =
    statement (Extraction.set_entry_content content (lib.plain_text content) id)

unfoldable pub update_extract_state : RowId → ExtractState → ℕ → Option Time → Text → Sql (Unit {0})
unfolding null_unix
update_extract_state id state attempts at reason =
    statement (Extraction.update_extract_state state attempts (null_unix at) reason id)
