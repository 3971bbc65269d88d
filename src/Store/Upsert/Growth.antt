-- ===== src/Store/Upsert/Growth.antt =====
-- What `UpsertEntries` leaves of the entries that are there.
use bfeed.Base.{◌≡◌, refl, ap, ◌∙◌, Bool, Option, none, List, [], ◌∷◌, ◌++◌, map, arith}
use bfeed.Base.Int.{ℤ, pos}
use bfeed.Base.Text.{Text}
use bfeed.Core.Types.{RowId, Entry, EntryStatus, unread}
use bfeed.Store.Table.{All, update}
use bfeed.Store.Table.Laws.{map-update}
use bfeed.Store.Rows.{Db, EntryRow}
use bfeed.Store.Sql.{SqlResult, done, failed, Conn}
use bfeed.Store.Sql.Triple.{After}
use bfeed.Store.Queries.Entries.{
  InsertEntryParams, insert_entry, entry_row, update_entry_content, update_entry_metadata,
  set_content, set_metadata,
}
use bfeed.Store.Upsert.{Sqlite, upsert_entries}
use bfeed.Store.Upsert.Steps.{StatementsKeep, upsert_entries-Triple}

-- What the user did to an entry, and what it is.
pub record UserState : Type 0 where
  id : RowId
  user_id : RowId
  feed_id : RowId
  guid : Text
  status : EntryStatus
  starred : ℤ
  read_at : Option ℤ
  created_at : ℤ

pub user_state : EntryRow → UserState
user_state r = record {
  id = r.id;
  user_id = r.user_id;
  feed_id = r.feed_id;
  guid = r.guid;
  status = r.status;
  starred = r.starred;
  read_at = r.read_at;
  created_at = r.created_at;
}

abbrev pub IsFresh : UserState → Type 0
IsFresh u = (u.status ≡ unread) × (u.starred ≡ pos 0) × (u.read_at ≡ none)

pub record IsGrown (old db : Db) : Type 0 where
  added : List UserState
  fresh : All IsFresh added
  kept : map user_state db.entries ≡ added ++ map user_state old.entries
  feeds : db.feeds ≡ old.feeds
  tombstones : db.tombstones ≡ old.tombstones

module _ (old : Db) where
  -- An update that leaves what the user did alone.
  updated :
      (q : EntryRow → Bool) (h : EntryRow → EntryRow) (db : Db)
      → ((r : EntryRow) → user_state (h r) ≡ user_state r)
      → IsGrown old db
      → IsGrown old (record db { entries = update q h db.entries })
  updated q h db k g = record {
    added = g.added;
    fresh = g.fresh;
    kept = map-update user_state q h db.entries k ∙ g.kept;
    feeds = g.feeds;
    tombstones = g.tombstones;
  }

  grown :
      (id : RowId) (p : InsertEntryParams) (db : Db)
      → IsGrown old db
      → IsGrown old (record db { entries = entry_row id p ∷ db.entries })
  unfolding entry_row user_state
  grown id p db g = record {
    added = user_state (entry_row id p) ∷ g.added;
    fresh = ((refl, refl, refl), g.fresh);
    kept = ap (λ us. user_state (entry_row id p) ∷ us) g.kept;
    feeds = g.feeds;
    tombstones = g.tombstones;
  }

  IsGrown-StatementsKeep : (lib : Sqlite) → StatementsKeep lib (IsGrown old)
  unfolding update_entry_content update_entry_metadata insert_entry user_state set_content
      set_metadata
  IsGrown-StatementsKeep lib = record {
    metadata = λ p db g. updated _ (set_metadata p) db (λ r. refl) g;
    content = λ p db g. updated _ (set_content p) db (λ r. refl) g;
    inserted = λ p db g alive. ground (arith, grown (lib.fresh_entry db.entries) p db g);
  }

-- However `UpsertEntries` ends, it removes no entry and changes nothing of what the user did to one:
-- the entries that were there keep their place, key, status, star and date of reading, and those it
-- adds are unread and not starred. It leaves the feeds and the tombstones alone.
pub upsert_entries-IsGrown :
    (lib : Sqlite) (feed : RowId) (es : List Entry) (c : Conn)
    → IsGrown c.db (upsert_entries lib feed es c).1.db
upsert_entries-IsGrown lib feed es c =
    ended _ ((upsert_entries-Triple lib feed (IsGrown-StatementsKeep c.db lib) es).at c start)
  where
    start : IsGrown c.db c.db
    start = record { added = []; fresh = tt; kept = refl; feeds = refl; tombstones = refl }

    ended :
        (r : SqlResult (List Entry) × Conn)
        → After (λ _. IsGrown c.db) (IsGrown c.db) r
        → IsGrown c.db r.1.db
    ended (done a, d) h = h
    ended (failed e, d) h = h
