-- ===== src/Tests/Entries.antt =====
-- Entries marked, polled again, and feeds read from their rows.
use bfeed.Base.{
  ℕ, ◌+◌, leb, map, ◌&&◌, if◌then◌else◌, Bool, true, not, ◌||◌, ◌⊎◌, ◌≡◌, refl, false, none, [],
  ◌∷◌,
}
use bfeed.Base.Int.{pos, eq_ℤ}
use bfeed.Base.Text.{Text, text_eq, codes}
use bfeed.Core.Types.{Category, Result, published_desc, err}
use bfeed.Store.Table.{update, exists}
use bfeed.Store.Rows.{Db}
use bfeed.Store.Sql.{Conn, map_err, unique_failed, statement, faulty, applied}
use bfeed.Store.Upsert.{upsert_entries}
use bfeed.Store.Upsert.Growth.{IsGrown, upsert_entries-IsGrown}
use bfeed.Store.Entries.{EntryFilter, mark_read_by_filter, to_mark, is_selected, mark_read}
use bfeed.Store.Entries.MarkRead.{IsMarked, mark_read_by_filter-IsMarked}
use bfeed.Store.Categories.Creation.{IsCreated, sqlite_categories, is_taken, working, create_lem}
use bfeed.Core.Category.{create}
use bfeed.Core.Feed.Poll.{invalid}
use bfeed.Base.Exec.{Step, returned}
use bfeed.Tests.Store.{lib, fresh_category, batch, stocked, failing, row}
use bfeed.Tests.Service.{plain_strings}

-- Each entry of the batch is there already with another hash.
upsert_entries-IsGrown_example :
    IsGrown stocked (upsert_entries lib (pos 1) batch (failing [])).1.db
upsert_entries-IsGrown_example = upsert_entries-IsGrown lib (pos 1) batch (failing [])

abbrev all_feeds : EntryFilter
all_feeds = record {
  feed_id = none;
  status = none;
  starred = none;
  category_id = none;
  uncategorised = false;
  limit = pos 0;
  cursor = none;
  order = published_desc;
}

marked : Db
unfolding mark_read
marked = record stocked {
  entries =
      mark_read (pos 0) (row (pos 1) (codes "a") (pos 7))
      ∷ mark_read (pos 0) (row (pos 2) (codes "b") (pos 9))
      ∷ mark_read (pos 0) (row (pos 3) (codes "c") (pos 7))
      ∷ [];
}

mark_read_by_filter_example : IsMarked (pos 1) all_feeds (pos 0) stocked 3 marked
unfolding marked mark_read_by_filter statement faulty applied to_mark is_selected mark_read update
mark_read_by_filter_example =
    mark_read_by_filter-IsMarked (pos 0) (pos 1) all_feeds (failing [])
      (record { db = marked; faults = [] }) 3 refl

-- ASCII letters without their case, and a category that there is.
abbrev folded : ℕ → ℕ
folded c = if leb 65 c && leb c 90 then c + 32 else c

abbrev folding : Text → Text → Bool
folding t u = text_eq (map folded t) (map folded u)

abbrev with_news : Db
with_news = record stocked {
  categories = record { id = pos 9; user_id = pos 1; title = codes "News" } ∷ [];
}

abbrev create_news : Step (Result Category) × Conn
create_news =
    create plain_strings (sqlite_categories folding fresh_category) (pos 1) (codes "NEWS")
      (working with_news)

create_lem_example :
    (false ≡ true
      × (create_news
          ≡ (returned (err (invalid (codes "category title required"))), working with_news)))
    ⊎ ((exists (is_taken folding fresh_category (pos 1) (codes "NEWS")) with_news.categories
          || not (exists (eq_ℤ (pos 1)) with_news.users))
        ≡ true)
      × (create_news ≡ (returned (err (map_err unique_failed)), working with_news))
    ⊎ IsCreated folding fresh_category (pos 1) (codes "NEWS") with_news create_news
create_lem_example =
    create_lem folding fresh_category plain_strings (pos 1) (codes "NEWS") with_news

-- It is a conflict.
news_taken :
    exists (is_taken folding fresh_category (pos 1) (codes "NEWS")) with_news.categories ≡ true
unfolding exists text_eq
news_taken = refl
