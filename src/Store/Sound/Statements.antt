-- ===== src/Store/Sound/Statements.antt =====
-- The statements that keep the invariant of the tables.
use bfeed.Base.{ℕ, Bool, ◌≡◌, refl, false, Option, List, arith}
use bfeed.Base.Int.{ℤ}
use bfeed.Base.Text.{Text}
use bfeed.Core.Types.{RowId, ExtractState}
use bfeed.Store.Table.{exists}
use bfeed.Store.Rows.{Db, EntryRow, FeedRow, CategoryRow}
use bfeed.Store.Sql.Triple.{Given}
use bfeed.Store.Sound.{IsSound, IsSound_of, IsSound-update, IsSound-delete, IsSound-insert}
use bfeed.Store.Queries.Entries
use bfeed.Store.Queries.Entries.{InsertEntryParams, UpdateEntryParams, buries}
use bfeed.Store.Queries.Extraction
use bfeed.Store.Queries.Feeds
use bfeed.Store.Queries.Categories

abbrev pub Sound {ℓ} : {A : Type ℓ} → A → Db → Type 0
Sound a db = IsSound db

module _ (db : Db) (s : IsSound db) where
  pub update_entry_metadata-Sound :
      (p : UpdateEntryParams) → Given Sound (Entries.update_entry_metadata p db)
  unfolding Entries.update_entry_metadata
  update_entry_metadata-Sound p = IsSound-update db _ _ (λ f g r. refl) s

  pub update_entry_content-Sound :
      (p : UpdateEntryParams) → Given Sound (Entries.update_entry_content p db)
  unfolding Entries.update_entry_content
  update_entry_content-Sound p = IsSound-update db _ _ (λ f g r. refl) s

  pub set_entry_content-Sound :
      (content text : Text) (id : RowId)
      → Given Sound (Extraction.set_entry_content content text id db)
  unfolding Extraction.set_entry_content
  set_entry_content-Sound content text id = IsSound-update db _ _ (λ f g r. refl) s

  pub update_extract_state-Sound :
      (state : ExtractState) (n : ℕ) (at : Option ℤ) (reason : Text) (id : RowId)
      → Given Sound (Extraction.update_extract_state state n at reason id db)
  unfolding Extraction.update_extract_state
  update_extract_state-Sound state n at reason id = IsSound-update db _ _ (λ f g r. refl) s

  pub mark_feed_entries_pending-Sound :
      (at : ℤ) (feed : RowId) → Given Sound (Extraction.mark_feed_entries_pending at feed db)
  unfolding Extraction.mark_feed_entries_pending
  mark_feed_entries_pending-Sound at feed = IsSound-update db _ _ (λ f g r. refl) s

  pub cancel_feed_extractions-Sound :
      (feed : RowId) → Given Sound (Extraction.cancel_feed_extractions feed db)
  unfolding Extraction.cancel_feed_extractions
  cancel_feed_extractions-Sound feed = IsSound-update db _ _ (λ f g r. refl) s

  pub insert_entry-Sound :
      (fresh : List EntryRow → RowId) (p : InsertEntryParams)
      → exists (buries p.feed_id p.guid) db.tombstones ≡ false
      → Given Sound (Entries.insert_entry fresh p db)
  unfolding Entries.insert_entry
  insert_entry-Sound fresh p alive = ground (arith, IsSound-insert db (fresh db.entries) p alive)

  pub create_feed-Sound : (p : FeedRow) → Given Sound (Feeds.create_feed p db)
  unfolding Feeds.create_feed
  create_feed-Sound p = ground (arith, IsSound_of db _ refl refl s)

  pub update_feed-Sound : (p : FeedRow) → Given Sound (Feeds.update_feed p db)
  unfolding Feeds.update_feed
  update_feed-Sound p = IsSound_of db _ refl refl s

  pub delete_feed-Sound : (id user : RowId) → Given Sound (Feeds.delete_feed id user db)
  unfolding Feeds.delete_feed
  delete_feed-Sound id user = IsSound-delete db _ _ _ refl refl s

  pub set_feed_category-Sound :
      (c : Option RowId) (id user : RowId) → Given Sound (Feeds.set_feed_category c id user db)
  unfolding Feeds.set_feed_category
  set_feed_category-Sound c id user = ground (arith, IsSound_of db _ refl refl s)

  pub set_feed_full_content-Sound :
      (on : ℤ) (id user : RowId) → Given Sound (Feeds.set_feed_full_content on id user db)
  unfolding Feeds.set_feed_full_content
  set_feed_full_content-Sound on id user = IsSound_of db _ refl refl s

  pub set_feed_user_title-Sound :
      (title : Text) (id user : RowId) → Given Sound (Feeds.set_feed_user_title title id user db)
  unfolding Feeds.set_feed_user_title
  set_feed_user_title-Sound title id user = IsSound_of db _ refl refl s

  pub set_feed_url-Sound :
      (url : Text) (at : ℤ) (id user : RowId) → Given Sound (Feeds.set_feed_url url at id user db)
  unfolding Feeds.set_feed_url
  set_feed_url-Sound url at id user = ground (arith, IsSound_of db _ refl refl s)

  pub create_category-Sound :
      (nocase : Text → Text → Bool) (fresh : List CategoryRow → RowId) (user : RowId) (title : Text)
      → Given Sound (Categories.create_category nocase fresh user title db)
  unfolding Categories.create_category
  create_category-Sound nocase fresh user title = ground (arith, IsSound_of db _ refl refl s)

  pub update_category-Sound :
      (nocase : Text → Text → Bool) (title : Text) (id user : RowId)
      → Given Sound (Categories.update_category nocase title id user db)
  unfolding Categories.update_category
  update_category-Sound nocase title id user = ground (arith, IsSound_of db _ refl refl s)

  pub delete_category-Sound :
      (id user : RowId) → Given Sound (Categories.delete_category id user db)
  unfolding Categories.delete_category
  delete_category-Sound id user = IsSound_of db _ refl refl s

  pub put_app_setting-Sound :
      (key value : Text) → Given Sound (Categories.put_app_setting key value db)
  unfolding Categories.put_app_setting
  put_app_setting-Sound key value = ground (arith, IsSound_of db _ refl refl s)
