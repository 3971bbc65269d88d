-- ===== src/Store/Listing.antt =====
-- `ListEntries` of entries.go: the dynamic WHERE, the keyset, and the cursor of the next page.
pub mod Pages
use bfeed.Base.{
  ℕ, zero, suc, ◌-◌, ◌<◌, ltb, if◌then◌else◌, Bool, true, false, not, ◌&&◌, ◌||◌, Option, none,
  some, List, [], ◌∷◌, map, take, length,
}
use bfeed.Base.Int.{ℤ, pos, negsuc, eq_ℤ, ltb_ℤ, leb_ℤ}
use bfeed.Base.Text.{Text}
use bfeed.Core.Types.{
  RowId, Entry, EntryStatus, Order, Cursor, read, unread, published_desc, read_at_desc, unset,
}
use bfeed.Core.Cursor.{cursor_key}
use bfeed.Store.Table.{select, exists, order_by, get_elem?}
use bfeed.Store.Rows.{Db, EntryRow, FeedRow, entry_from_row, b2i}
use bfeed.Store.Sql.{Sql, SqlResult, done, give, query, ◌>>=◌}
use bfeed.Store.Entries.{EntryFilter, in_category, is_uncategorised}
use bfeed.Store.Queries.Feeds.{is_unread}

-- A condition that is there if the field is set.
abbrev pub where_set {ℓ} : {A : Type ℓ} → Option A → (A → Bool) → Bool
where_set none p = true
where_set (some a) p = p a

abbrev pub has_status : EntryStatus → EntryRow → Bool
has_status unread r = is_unread r
has_status read r = not (is_unread r)

-- `JOIN feeds f ON e.feed_id = f.id`; `feeds.id` is a primary key.
abbrev pub joined : List FeedRow → (FeedRow → Bool) → EntryRow → Bool
joined feeds p r = exists (λ f. eq_ℤ r.feed_id f.id && p f) feeds

unfoldable pub category_matches : List FeedRow → EntryFilter → EntryRow → Bool
category_matches feeds f r = elim f.category_id [
  | some c ↦ joined feeds (in_category c) r
  | none ↦ if f.uncategorised then joined feeds is_uncategorised r else true
]

-- `e.read_at IS NOT NULL` for the history.
abbrev pub is_member : Order → EntryRow → Bool
is_member published_desc r = true
is_member read_at_desc r = elim r.read_at [ none ↦ false | some t ↦ true ]

-- The WHERE clause but for the cursor.
unfoldable pub matches : List FeedRow → RowId → EntryFilter → EntryRow → Bool
unfolding category_matches
matches feeds user f r =
    eq_ℤ r.user_id user
    && (where_set f.feed_id (λ id. eq_ℤ r.feed_id id)
        && (where_set f.status (λ st. has_status st r)
            && (where_set f.starred (λ b. eq_ℤ r.starred (b2i b))
                && (category_matches feeds f r && is_member f.order r))))

-- The order column; the rows that have none are no members.
abbrev pub sort_key : Order → EntryRow → ℤ
sort_key published_desc r = r.published_at
sort_key read_at_desc r = elim r.read_at [ none ↦ pos 0 | some t ↦ t ]

-- `(col < ? OR (col = ? AND e.id < ?))`
abbrev pub is_older : Order → ℤ → RowId → EntryRow → Bool
is_older order key id r =
    ltb_ℤ (sort_key order r) key || (eq_ℤ (sort_key order r) key && ltb_ℤ r.id id)

-- `ORDER BY col DESC, e.id DESC`
unfoldable pub precedes : Order → EntryRow → EntryRow → Bool
precedes order r s = is_older order (sort_key order r) r.id s

unfoldable pub is_listed : List FeedRow → RowId → EntryFilter → EntryRow → Bool
unfolding matches
is_listed feeds user f r =
    matches feeds user f r && where_set f.cursor (λ c. is_older f.order c.key c.id r)

-- The page size: 50, unless the filter asks for 1 to 200.
unfoldable pub page_size : ℤ → ℕ
page_size (negsuc n) = 50
page_size (pos zero) = 50
page_size (pos (suc n)) = if ltb 200 (suc n) then 50 else suc n

-- The rows that the query selects, in order.
unfoldable pub listed_rows : RowId → EntryFilter → Db → List EntryRow
unfolding is_listed precedes
listed_rows user f db = order_by (precedes f.order) (select (is_listed db.feeds user f) db.entries)

module _ (preview : Text → Text) where
  -- The projection: `preview` is `substr(…, 1, 2048)` of SQLite; the extraction columns are left out.
  unfoldable pub scan_entry : EntryRow → Entry
  unfolding entry_from_row
  scan_entry r = entry_from_row (record r {
    content = preview r.content;
    summary = preview r.summary;
    extract_state = unset;
    extract_attempts = 0;
    extract_error = [];
  })

  -- The cursor of the next page, if there is one row more than the page holds.
  unfoldable pub next_cursor : Order → ℕ → List EntryRow → Option Cursor
  unfolding scan_entry
  next_cursor order n rows =
      if ltb n (length rows)
      then elim (get_elem? rows (n - 1)) [
        | none ↦ none
        | some last ↦ some (record { key = cursor_key (scan_entry last) order; id = last.id })
      ]
      else none

  unfoldable pub page : EntryFilter → List EntryRow → List Entry × Option Cursor
  unfolding next_cursor page_size
  page f rows =
      let n = page_size f.limit in (map scan_entry (take n rows), next_cursor f.order n rows)

  -- `ListEntries`
  unfoldable pub list_entries : RowId → EntryFilter → Sql (List Entry × Option Cursor)
  unfolding listed_rows page
  list_entries user f =
      query (λ db. done (take (suc (page_size f.limit)) (listed_rows user f db))) >>= λ rows.
      give (page f rows)
