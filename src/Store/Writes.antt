-- ===== src/Store/Writes.antt =====
-- Every operation of `Store` that writes, and histories of them. An operation runs to its end before
-- the next: the pool has one connection.
pub mod Atomic
pub mod Buried
pub mod Deletion
pub mod Gone
pub mod Sound
use bfeed.Base.{ℕ, ◌≡◌, Bool, Option, List, [], ◌∷◌}
use bfeed.Base.Text.{Text}
use bfeed.Core.Types.{RowId, Time, Feed, Entry, Category, EntryStatus, ExtractState, Error}
use bfeed.Store.Rows.{Db, CategoryRow}
use bfeed.Store.Sql.{Sql, SqlResult, Conn, give, ◌>>=◌}
use bfeed.Store.Upsert.{Sqlite, upsert_entries}
use bfeed.Store.Feeds
use bfeed.Store.Categories
use bfeed.Store.Entries
use bfeed.Store.Entries.{EntryFilter}

pub data Write : Type 0 where
  creates_feed updates_feed : Feed → Write
  deletes_feed deletes_category : RowId → RowId → Write
  sets_full_content : RowId → RowId → Bool → Time → Write
  sets_user_title : RowId → RowId → Text → Write
  sets_feed_url : RowId → RowId → Text → Time → Write
  sets_feed_category : RowId → RowId → Option RowId → Write
  upserts : RowId → List Entry → Write
  sets_status : Time → RowId → List RowId → EntryStatus → Write
  sets_starred : RowId → List RowId → Bool → Write
  marks_read : Time → RowId → EntryFilter → Write
  deletes_entry : Time → RowId → RowId → Write
  sets_content : RowId → Text → Write
  updates_extract : RowId → ExtractState → ℕ → Option Time → Text → Write
  creates_category updates_category : Category → Write
  puts_setting : Text → Text → Write

abbrev pub forget : {A : Type 0} → Sql A → Sql (Unit {0})
forget m = m >>= λ _. give tt

module _ (lib : Sqlite) (fresh_category : List CategoryRow → RowId) where
  unfoldable pub perform : Write → Sql (Unit {0})
  perform (creates_feed f) = forget (Feeds.create_feed f)
  perform (updates_feed f) = Feeds.update_feed f
  perform (deletes_feed user id) = Feeds.delete_feed user id
  perform (deletes_category user id) = Categories.delete_category user id
  perform (sets_full_content user id on at) = Feeds.set_feed_full_content user id on at
  perform (sets_user_title user id title) = Feeds.set_feed_user_title user id title
  perform (sets_feed_url user id url now) = Feeds.set_feed_url user id url now
  perform (sets_feed_category user id c) = Feeds.set_feed_category user id c
  perform (upserts feed es) = forget (upsert_entries lib feed es)
  perform (sets_status now user ids st) = Entries.set_status now user ids st
  perform (sets_starred user ids on) = Entries.set_starred user ids on
  perform (marks_read now user f) = forget (Entries.mark_read_by_filter now user f)
  perform (deletes_entry now user id) = Entries.delete_entry now user id
  perform (sets_content id content) = Entries.set_entry_content lib id content
  perform (updates_extract id state n at reason) = Entries.update_extract_state id state n at reason
  perform (creates_category c) = forget (Categories.create_category lib.nocase fresh_category c)
  perform (updates_category c) = Categories.update_category lib.nocase c
  perform (puts_setting key value) = Categories.put_setting key value

  -- The connection after a history of operations, failed ones included.
  unfoldable pub after : List Write → Conn → Conn
  unfolding perform
  after [] c = c
  after (op ∷ ops) c = after ops (perform op c).1
