-- ===== src/Store/Upsert/Sound.antt =====
-- `UpsertEntries` and the invariant of the tables.
use bfeed.Base.{List}
use bfeed.Core.Types.{RowId, Entry}
use bfeed.Store.Sql.Triple.{Triple}
use bfeed.Store.Sound.{IsSound}
use bfeed.Store.Sound.Statements.{
  update_entry_metadata-Sound, update_entry_content-Sound, insert_entry-Sound,
}
use bfeed.Store.Upsert.{Sqlite, upsert_entries}
use bfeed.Store.Upsert.Steps
use bfeed.Store.Upsert.Steps.{StatementsKeep}

module _ (lib : Sqlite) where
  IsSound-StatementsKeep : StatementsKeep lib IsSound
  IsSound-StatementsKeep = record {
    metadata = λ p db s. update_entry_metadata-Sound db s p;
    content = λ p db s. update_entry_content-Sound db s p;
    inserted = λ p db s alive. insert_entry-Sound db s lib.fresh_entry p alive;
  }

  pub upsert_entries-Triple :
      (feed : RowId) (es : List Entry)
      → Triple IsSound (λ _. IsSound) IsSound (upsert_entries lib feed es)
  upsert_entries-Triple feed es = Steps.upsert_entries-Triple lib feed IsSound-StatementsKeep es
