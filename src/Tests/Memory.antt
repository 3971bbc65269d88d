-- ===== src/Tests/Memory.antt =====
-- A poll of a feed of the SQLite store and of its mirror in memory.
use bfeed.Base.{
  ℕ, suc, max, ◌<◌, ◌≡◌, refl, false, ◌&&◌, none, List, [], ◌∷◌, Bool-cases, inl, inr, arith,
}
use bfeed.Base.Int.{pos, eq_ℤ, pos_part}
use bfeed.Base.Text.{Text, text_eq, codes}
use bfeed.Core.Types.{Entry}
use bfeed.Store.Table.{exists, find}
use bfeed.Store.Rows.{Db, EntryRow, to_unix}
use bfeed.Store.Sql.Triple.{After}
use bfeed.Store.Feeds.{feed_params}
use bfeed.Store.Upsert
use bfeed.Store.Upsert.{Sqlite}
use bfeed.Store.Memory.{MemStore, upsert_entries}
use bfeed.Store.Memory.Views.{row_view, entry_view}
use bfeed.Store.Memory.Refinement.{upsert_entries-refines}
use bfeed.Store.Memory.Refinement.Keys.{Agrees, IsNew}
use bfeed.Store.Memory.Refinement.Rounds.{Ends, IsFresh}
use bfeed.Tests.Store.{no_rows_yet, row, entry}
use bfeed.Tests.Service.{sample_feed}

-- The largest rowid, and the next one.
abbrev top : List EntryRow → ℕ
top [] = 0
top (r ∷ rs) = max (pos_part r.id) (top rs)

abbrev next_rowid : Sqlite
next_rowid = record {
  fresh_entry = λ rs. pos (suc (top rs));
  plain_text = λ t. t;
  nocase = λ s t. text_eq s t;
}

above : (n : ℕ) (rs : List EntryRow) → top rs < n → exists (λ r. eq_ℤ r.id (pos n)) rs ≡ false
unfolding exists
above n [] h = refl
above n (r ∷ rs) h = ground (arith, above n rs)

next_rowid-IsFresh : IsFresh next_rowid
next_rowid-IsFresh rs = above (suc (top rs)) rs (omega arith)

abbrev old_row : EntryRow
old_row = record (row (pos 1) (codes "a") (to_unix (pos 0))) { created_at = to_unix (pos 0) }

-- GUID a is there, b is deleted.
abbrev tables : Db
tables = record no_rows_yet {
  feeds = record (feed_params sample_feed) { id = pos 1 } ∷ [];
  entries = old_row ∷ [];
  tombstones = record { feed_id = pos 1; guid = codes "b"; deleted_at = pos 0 } ∷ [];
}

abbrev mirror : MemStore
mirror = record {
  feeds = record sample_feed { id = pos 5 } ∷ [];
  entries =
      record (entry (codes "a") []) { id = pos 6; feed_id = pos 5; url = []; title = [] } ∷ [];
  tombstones = λ f g. eq_ℤ f (pos 5) && text_eq (codes "b") g;
  next_extract = λ id. none;
  next_id = pos 7;
}

abbrev polled : List Entry
polled =
    entry (codes "a") (codes "1")
    ∷ entry (codes "b") (codes "2")
    ∷ entry (codes "c") (codes "3")
    ∷ []

tables-Agrees : Agrees (pos 1) (pos 5) (pos 1) tables mirror
unfolding find exists row_view entry_view feed_params
tables-Agrees = record {
  entries =
      λ g. elim (Bool-cases (text_eq (codes "a") g)) [ inl h ↦ rw h refl | inr h ↦ rw h refl ];
  tombstones =
      λ g. elim (Bool-cases (text_eq (codes "b") g)) [ inl h ↦ rw h refl | inr h ↦ rw h refl ];
  feed = refl;
  owned = λ g r h. ground (arith, h);
  ids = λ id. ground arith;
}

entry-IsNew : (g h : Text) → IsNew (pos 1) (entry g h)
entry-IsNew g h = record { user = refl; unread = refl; unstarred = refl }

upsert_entries-refines_example :
    After
      (Ends (pos 1) (pos 5) (pos 1) (upsert_entries (pos 5) polled mirror))
      (λ db. db ≡ tables)
      (Upsert.upsert_entries next_rowid (pos 1) polled (record { db = tables; faults = [] }))
upsert_entries-refines_example =
    upsert_entries-refines next_rowid (pos 1) (pos 5) (pos 1) next_rowid-IsFresh polled
      (entry-IsNew _ _, (entry-IsNew _ _, (entry-IsNew _ _, tt))) mirror
      (record { db = tables; faults = [] }) tables-Agrees
