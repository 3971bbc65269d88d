-- ===== src/Store/Writes/Gone.antt =====
-- Tombstones through histories of writes: `DeleteEntry` writes one, and it stays while its feed does.
use bfeed.Base.{
  ◌&&◌, true, ◌≡◌, refl, false, some, List, [], ◌∷◌, Bool-cases, Option-cases, inl, inr, sym, ap,
  Option, none, ◌∙◌, arith,
}
use mathlib.Core.Path.{subst}
use bfeed.Base.Int.{eq_ℤ, eq_ℤ-refl}
use bfeed.Base.Text.{Text, text_eq, text_eq_refl}
use bfeed.Core.Types.{RowId, Time, Entry}
use bfeed.Store.Table.{exists, find}
use bfeed.Store.Table.Laws.{exists-update}
use bfeed.Store.Rows.{Db, EntryRow, CategoryRow, TombstoneRow, entry_from_row, to_unix}
use bfeed.Store.Sql.{SqlResult, done, failed, Conn}
use bfeed.Store.Sql.Triple.{
  Triple, After, Given, Found, Triple-give, Triple-fail, Triple-if, Triple-statement, Triple-query,
  Triple-bind, Triple-transaction,
}
use bfeed.Store.Queries
use bfeed.Store.Queries.Entries.{buries, is_entry, has_guid}
use bfeed.Store.Queries.Feeds.{is_feed}
use bfeed.Store.Upsert.{Sqlite}
use bfeed.Store.Upsert.Steps
use bfeed.Store.Upsert.Steps.{StatementsKeep}
use bfeed.Store.Feeds
use bfeed.Store.Categories
use bfeed.Store.Entries
use bfeed.Store.Entries.{get_entry, bury}
use bfeed.Store.Sound.{IsSound}
use bfeed.Store.Writes
use bfeed.Store.Writes.{Write}
use bfeed.Store.Writes.Deletion
use bfeed.Store.Writes.Sound.{after-IsSound}
use bfeed.Store.Writes.Buried.{
  IsBuriedIn, Buried, Keeps, Keeps-statement, Keeps-forget, counted, Keeps-affected, spared,
  delete_entry-Keeps, set_feed_full_content-Keeps, set_status-Keeps, set_starred-Keeps,
  mark_read_by_filter-Keeps,
}

-- The write deletes no feed with this id.
abbrev pub Spares : RowId → Write → Type 0
Spares feed (Write.deletes_feed user id) = eq_ℤ id feed ≡ false
Spares feed _ = Unit

abbrev pub AllSpare : RowId → List Write → Type 0
AllSpare feed [] = Unit
AllSpare feed (op ∷ ops) = Spares feed op × AllSpare feed ops

module _ (feed : RowId) (guid : Text) (lib : Sqlite) where
  upserts-StatementsKeep : StatementsKeep lib (Buried feed guid)
  unfolding Queries.Entries.update_entry_metadata Queries.Entries.update_entry_content
      Queries.Entries.insert_entry
  upserts-StatementsKeep = record {
    metadata = λ p db b. b;
    content = λ p db b. b;
    inserted = λ p db b alive. ground (arith, b);
  }

  perform-Keeps :
      (fresh_category : List CategoryRow → RowId) (op : Write)
      → Spares feed op
      → Keeps feed guid (Writes.perform lib fresh_category op)
  unfolding Writes.perform Feeds.create_feed Feeds.update_feed Feeds.delete_feed
      Feeds.set_feed_user_title Feeds.set_feed_url Feeds.set_feed_category
      Categories.delete_category Categories.create_category Categories.update_category
      Categories.put_setting Entries.set_entry_content Entries.update_extract_state
      Queries.Feeds.create_feed Queries.Feeds.update_feed Queries.Feeds.set_feed_user_title
      Queries.Feeds.set_feed_url Queries.Feeds.set_feed_category Queries.Categories.delete_category
      Queries.Categories.create_category Queries.Categories.update_category
      Queries.Categories.put_app_setting Queries.Extraction.set_entry_content
      Queries.Extraction.update_extract_state
  perform-Keeps fresh (Write.creates_feed f) s =
      Keeps-forget feed guid _ (Keeps-statement feed guid _ (λ db. ground arith))
  perform-Keeps fresh (Write.updates_feed f) s = Keeps-statement feed guid _ (λ db. refl)
  perform-Keeps fresh (Write.deletes_feed user id) s =
      Triple-bind _ _ (Triple-statement _ (λ db b. b) (λ db b. spared feed guid id user s db b))
        λ n. counted feed guid n (λ db b. b)
  perform-Keeps fresh (Write.deletes_category user id) s = Keeps-affected feed guid _ (λ db. refl)
  perform-Keeps fresh (Write.sets_full_content user id on at) s =
      set_feed_full_content-Keeps feed guid user id on at
  perform-Keeps fresh (Write.sets_user_title user id title) s =
      Keeps-affected feed guid _ (λ db. refl)
  perform-Keeps fresh (Write.sets_feed_url user id url now) s =
      Keeps-affected feed guid _ (λ db. ground arith)
  perform-Keeps fresh (Write.sets_feed_category user id c) s =
      Keeps-affected feed guid _ (λ db. ground arith)
  perform-Keeps fresh (Write.upserts id es) s =
      Keeps-forget feed guid _ (Steps.upsert_entries-Triple lib id upserts-StatementsKeep es)
  perform-Keeps fresh (Write.sets_status now user ids st) s =
      set_status-Keeps feed guid now user ids st
  perform-Keeps fresh (Write.sets_starred user ids on) s = set_starred-Keeps feed guid user ids on
  perform-Keeps fresh (Write.marks_read now user f) s =
      Keeps-forget feed guid _ (mark_read_by_filter-Keeps feed guid now user f)
  perform-Keeps fresh (Write.deletes_entry now user id) s = delete_entry-Keeps feed guid now user id
  perform-Keeps fresh (Write.sets_content id content) s = Keeps-statement feed guid _ (λ db. refl)
  perform-Keeps fresh (Write.updates_extract id state n at reason) s =
      Keeps-statement feed guid _ (λ db. refl)
  perform-Keeps fresh (Write.creates_category c) s =
      Keeps-forget feed guid _ (Keeps-statement feed guid _ (λ db. ground arith))
  perform-Keeps fresh (Write.updates_category c) s = Keeps-affected feed guid _ (λ db. ground arith)
  perform-Keeps fresh (Write.puts_setting key value) s =
      Keeps-statement feed guid _ (λ db. ground arith)

  perform-Buried :
      (fresh : List CategoryRow → RowId) (op : Write) (c : Conn)
      → Spares feed op
      → Buried feed guid c.db
      → Buried feed guid (Writes.perform lib fresh op c).1.db
  perform-Buried fresh op c s b =
      ended (Writes.perform lib fresh op c) ((perform-Keeps fresh op s).at c b)
    where
      ended :
          (r : SqlResult (Unit {0}) × Conn)
          → After (λ _. Buried feed guid) (Buried feed guid) r
          → Buried feed guid r.1.db
      ended (done a, d) h = h
      ended (failed e, d) h = h

  after-Buried :
      (fresh : List CategoryRow → RowId) (ops : List Write) (c : Conn)
      → AllSpare feed ops
      → Buried feed guid c.db
      → Buried feed guid (Writes.after lib fresh ops c).db
  unfolding Writes.after
  after-Buried fresh [] c s b = b
  after-Buried fresh (op ∷ ops) c (s, ss) b =
      after-Buried fresh ops _ ss (perform-Buried fresh op c s b)

-- What a successful `DeleteEntry` leaves: a tombstone of the row that it found.
abbrev LeavesOne : RowId → RowId → Db → Db → Type 0
LeavesOne id user old db =
    (r : EntryRow) × ((find (is_entry id user) old.entries ≡ some r)
      × IsBuriedIn r.feed_id r.guid db)

module _ (now : Time) (id user : RowId) (old : Db) where
  -- The entry that was read, by its row.
  abbrev ReadFrom : Entry → Db → Type 0
  ReadFrom e db =
      (r : EntryRow) × ((find (is_entry id user) old.entries ≡ some r)
        × ((e.feed_id ≡ r.feed_id) × (e.guid ≡ r.guid)))

  get_entry-ReadFrom : Triple (λ db. db ≡ old) ReadFrom (λ db. Unit {0}) (get_entry user id)
  unfolding get_entry entry_from_row Queries.Entries.get_entry
  get_entry-ReadFrom =
      Triple-bind _ _
        (Triple-query {Q = λ r. ReadFrom (entry_from_row r)} _ (λ db e. tt) (λ db e. read db e))
        λ r. Triple-give _ (λ db h. h)
    where
      read :
          (db : Db)
          → db ≡ old
          → Found (λ r. ReadFrom (entry_from_row r) db) (Queries.Entries.get_entry id user db)
      read db e = elim (Option-cases (find (is_entry id user) db.entries)) [
        | inl h ↦ rw h tt
        | inr (r, h) ↦ rw h (r, (rw (← e) h, (refl, refl)))
      ]

  insert_tombstone-Buried :
      (t : TombstoneRow) (db : Db)
      → Given (λ _. Buried t.feed_id t.guid) (Queries.Entries.insert_tombstone t db)
  unfolding Queries.Entries.insert_tombstone exists
  insert_tombstone-Buried t db =
      elim (Bool-cases (exists (buries t.feed_id t.guid) db.tombstones)) [
        | inl h ↦
            rw (h, Queries.Entries.insert_tombstone)
              (exists-update (buries t.feed_id t.guid) (buries t.feed_id t.guid) _ db.tombstones
                  (λ u. refl)
                ∙ h)
        | inr h ↦ elim (Bool-cases (exists (λ f. eq_ℤ f.id t.feed_id) db.feeds)) [
          | inl k ↦ rw (h, k) (ground (arith, eq_ℤ-refl t.feed_id, text_eq_refl t.guid))
          | inr k ↦ rw (h, k) tt
        ]
      ]

  bury-Buried :
      (e : Entry)
      → Triple (ReadFrom e) (λ _. LeavesOne id user old) (λ db. Unit {0}) (bury now user id e)
  unfolding bury Queries.Entries.delete_entry Feeds.affected
  bury-Buried e =
      Triple-transaction _ (λ db b. tt)
        (Triple-bind _ _
          (Triple-statement {Q = λ _. LeavesOne id user old} _ (λ db b. tt)
            (λ db b. leave db b _ (
              insert_tombstone-Buried
                (record { feed_id = e.feed_id; guid = e.guid; deleted_at = to_unix now }) db)))
          λ _.
            Triple-bind _ _ (Triple-statement _ (λ db b. tt) (λ db b. b))
              λ n. Triple-if _ _ _ (Triple-fail _ (λ db b. tt)) (Triple-give tt (λ db b. b)))
    where
      leave :
          (db : Db)
          → ReadFrom e db
          → (s : SqlResult (Unit {0} × Db)) → Given (λ _. Buried e.feed_id e.guid) s
          → Given (λ _. LeavesOne id user old) s
      leave db (r, (found, (f, g))) (done (a, d)) b = (r, (found, rw (← f, ← g) b))
      leave db h (failed x) b = tt

  delete_entry-Triple :
      Triple
        (λ db. db ≡ old)
        (λ _. LeavesOne id user old)
        (λ db. Unit {0})
        (Entries.delete_entry now user id)
  unfolding Entries.delete_entry
  delete_entry-Triple = Triple-bind _ _ get_entry-ReadFrom bury-Buried

-- The feed has a tombstone of the GUID, and no entry of it.
pub record IsGone (feed : RowId) (guid : Text) (db : Db) : Type 0 where
  tombstone : exists (λ t. eq_ℤ t.feed_id feed && text_eq t.guid guid) db.tombstones ≡ true
  no_entry : exists (λ r. eq_ℤ r.feed_id feed && text_eq r.guid guid) db.entries ≡ false

module _ (lib : Sqlite) (fresh : List CategoryRow → RowId) where
  -- From sound tables: after a successful `DeleteEntry` of the row with the id and the user given, and any history of
  -- further writes that deletes no feed with that row's feed id, failed ones and polls included, there is
  -- a tombstone of the row's GUID in its feed, and the feed has no entry of that GUID: no poll brings it
  -- back.
  pub delete_entry-after :
      (now : Time) (user id : RowId) (c d : Conn) (row : EntryRow) (ops : List Write)
      → IsSound c.db
      → find (λ r. eq_ℤ r.id id && eq_ℤ r.user_id user) c.db.entries ≡ some row
      → Entries.delete_entry now user id c ≡ (done tt, d)
      → AllSpare row.feed_id ops
      → IsGone row.feed_id row.guid (Writes.after lib fresh ops d).db
  delete_entry-after now user id c d row ops sound found h spare =
      let leaves : LeavesOne id user c.db d.db =
        subst (After (λ _. LeavesOne id user c.db) (λ db. Unit {0})) h
          ((delete_entry-Triple now id user c.db).at c refl) in
      let sound_then : IsSound d.db =
        subst (After (λ _. IsSound) IsSound) h
          ((Deletion.delete_entry-Triple now id user).at c sound) in
      let (r, (same, buried)) = leaves in
      let one : r ≡ row = found_once same found in
      let kept = after-Buried row.feed_id row.guid lib fresh ops d spare (rw (← one) buried) in
      record {
        tombstone = kept;
        no_entry = (after-IsSound lib fresh ops d sound_then).buried row.feed_id row.guid kept;
      }
    where
      found_once : {o : Option EntryRow} {r s : EntryRow} → o ≡ some r → o ≡ some s → r ≡ s
      found_once {o} {r} p q = ap (λ m. elim m [ none ↦ r | some x ↦ x ]) (sym p ∙ q)
