-- ===== src/Tests/Deletion.antt =====
-- An entry deleted, and the same poll again.
use bfeed.Base.{◌≡◌, refl, some, List, [], ◌∷◌, arith}
use bfeed.Base.Int.{pos}
use bfeed.Base.Text.{codes}
use bfeed.Store.Table.{exists, find, select, delete}
use bfeed.Store.Rows.{Db, entry_from_row, to_unix}
use bfeed.Store.Queries
use bfeed.Store.Queries.Entries.{has_guid, is_entry, buries}
use bfeed.Store.Sql.{done, transaction, rolled_back, statement, faulty, applied, ◌>>=◌}
use bfeed.Store.Feeds.{affected}
use bfeed.Store.Entries
use bfeed.Store.Sound.{IsSound}
use bfeed.Store.Writes.{Write, after}
use bfeed.Store.Writes.Gone.{IsGone, delete_entry-after}
use bfeed.Tests.Store.{lib, fresh_category, batch, stocked, row}

abbrev one_entry : Db
one_entry = record stocked { entries = row (pos 1) (codes "a") (pos 7) ∷ [] }

abbrev no_entry : Db
no_entry = record stocked {
  entries = [];
  tombstones = record { feed_id = pos 1; guid = codes "a"; deleted_at = to_unix (pos 0) } ∷ [];
}

-- The next poll has the entry again, and another feed goes.
abbrev later : List Write
later = Write.upserts (pos 1) batch ∷ Write.deletes_feed (pos 1) (pos 2) ∷ []

one_entry-IsSound : IsSound one_entry
unfolding exists
one_entry-IsSound = record {
  unique = λ f g. ground arith;
  buried = λ f g h. absurd (ground (arith, h));
}

is_deleted :
    Entries.delete_entry (pos 0) (pos 1) (pos 1) (record { db = one_entry; faults = [] })
    ≡ (done tt, record { db = no_entry; faults = [] })
unfolding Entries.delete_entry Entries.get_entry Entries.bury transaction rolled_back ◌>>=◌
    statement faulty applied Queries.Entries.get_entry Queries.Entries.insert_tombstone
    Queries.Entries.delete_entry find exists delete select affected entry_from_row
is_deleted = refl

is_found :
    find (is_entry (pos 1) (pos 1)) one_entry.entries ≡ some (row (pos 1) (codes "a") (pos 7))
unfolding find
is_found = refl

delete_entry-after_example :
    IsGone
      (pos 1)
      (codes "a")
      (after lib fresh_category later (record { db = no_entry; faults = [] })).db
delete_entry-after_example =
    delete_entry-after lib fresh_category (pos 0) (pos 1) (pos 1)
      (record { db = one_entry; faults = [] }) (record { db = no_entry; faults = [] })
      (row (pos 1) (codes "a") (pos 7)) later one_entry-IsSound is_found is_deleted (tt, (refl, tt))
