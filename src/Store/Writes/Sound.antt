-- ===== src/Store/Writes/Sound.antt =====
-- The invariant of the tables under every operation that writes.
use bfeed.Base.{ℕ, refl, Bool, true, false, List, [], ◌∷◌}
use bfeed.Core.Types.{RowId, Time, EntryStatus}
use bfeed.Store.Rows.{Db, CategoryRow}
use bfeed.Store.Sql.{Sql, SqlResult, done, failed, Conn, statement, ◌>>=◌}
use bfeed.Store.Sql.Triple.{
  Triple, After, Given, Triple-give, Triple-statement, Triple-bind, Triple-transaction,
}
use bfeed.Store.Sound.{IsSound, IsSound-update}
use bfeed.Store.Sound.Statements
use bfeed.Store.Sound.Statements.{Sound}
use bfeed.Store.Upsert.{Sqlite}
use bfeed.Store.Upsert.Sound.{upsert_entries-Triple}
use bfeed.Store.Feeds
use bfeed.Store.Categories
use bfeed.Store.Entries
use bfeed.Store.Writes.Deletion.{affected-Triple, delete_entry-Triple}
use bfeed.Store.Writes
use bfeed.Store.Writes.{Write}

-- The action keeps the invariant, whether it succeeds or fails.
abbrev pub KeepsSound : {A : Type 0} → Sql A → Type 0
KeepsSound m = Triple IsSound (λ _. IsSound) IsSound m

module _ {A : Type 0} where
  Keeps-statement :
      (f : Db → SqlResult (A × Db))
      → ((db : Db) → IsSound db → Given Sound (f db))
      → KeepsSound (statement f)
  Keeps-statement f h = Triple-statement f (λ db s. s) h

  Keeps-forget : (m : Sql A) → KeepsSound m → KeepsSound (Writes.forget m)
  Keeps-forget m k = Triple-bind _ _ k λ a. Triple-give tt (λ db s. s)

Keeps-affected :
    (f : Db → SqlResult (ℕ × Db))
    → ((db : Db) → IsSound db → Given Sound (f db))
    → KeepsSound (statement f >>= Feeds.affected)
Keeps-affected f h = Triple-bind _ _ (Keeps-statement f h) λ n. affected-Triple n (λ db s. s)

reconcile-Triple :
    (id : RowId) (on : Bool) (at : Time)
    → Triple IsSound (λ _. IsSound) (λ _. Unit {0}) (Feeds.reconcile id on at)
unfolding Feeds.reconcile
reconcile-Triple id true at =
    Triple-statement _ (λ db s. tt) (λ db s. Statements.mark_feed_entries_pending-Sound db s _ id)
reconcile-Triple id false at =
    Triple-statement _ (λ db s. tt) (λ db s. Statements.cancel_feed_extractions-Sound db s id)

set_feed_full_content-Keeps :
    (user id : RowId) (on : Bool) (at : Time)
    → KeepsSound (Feeds.set_feed_full_content user id on at)
unfolding Feeds.set_feed_full_content
set_feed_full_content-Keeps user id on at =
    Triple-transaction _ (λ db s. s)
      (Triple-bind _ _
        (Triple-statement _ (λ db s. tt)
          (λ db s. Statements.set_feed_full_content-Sound db s _ id user))
        λ n. Triple-bind _ _ (affected-Triple n (λ db s. tt)) λ _. reconcile-Triple id on at)

set_status-Keeps :
    (now : Time) (user : RowId) (ids : List RowId) (st : EntryStatus)
    → KeepsSound (Entries.set_status now user ids st)
unfolding Entries.set_status
set_status-Keeps now user [] st = Triple-give tt (λ db s. s)
set_status-Keeps now user (i ∷ ids) st =
    Keeps-statement _ (λ db s. IsSound-update db _ _ (λ f g r. refl) s)

set_starred-Keeps :
    (user : RowId) (ids : List RowId) (on : Bool) → KeepsSound (Entries.set_starred user ids on)
unfolding Entries.set_starred
set_starred-Keeps user [] on = Triple-give tt (λ db s. s)
set_starred-Keeps user (i ∷ ids) on =
    Keeps-statement _ (λ db s. IsSound-update db _ _ (λ f g r. refl) s)

mark_read_by_filter-Keeps :
    (now : Time) (user : RowId) (f : Entries.EntryFilter)
    → KeepsSound (Entries.mark_read_by_filter now user f)
unfolding Entries.mark_read_by_filter Entries.mark_read
mark_read_by_filter-Keeps now user f =
    Keeps-statement _ (λ db s. IsSound-update db _ _ (λ a g r. refl) s)

module _ (lib : Sqlite) (fresh_category : List CategoryRow → RowId) where
  pub perform-KeepsSound : (op : Write) → KeepsSound (Writes.perform lib fresh_category op)
  unfolding Writes.perform Feeds.create_feed Feeds.update_feed Feeds.delete_feed
      Feeds.set_feed_user_title Feeds.set_feed_url Feeds.set_feed_category
      Categories.delete_category Categories.create_category Categories.update_category
      Categories.put_setting Entries.set_entry_content Entries.update_extract_state
  perform-KeepsSound (Write.creates_feed f) =
      Keeps-forget _ (Keeps-statement _ (λ db s. Statements.create_feed-Sound db s _))
  perform-KeepsSound (Write.updates_feed f) =
      Keeps-statement _ (λ db s. Statements.update_feed-Sound db s _)
  perform-KeepsSound (Write.deletes_feed user id) =
      Keeps-affected _ (λ db s. Statements.delete_feed-Sound db s id user)
  perform-KeepsSound (Write.deletes_category user id) =
      Keeps-affected _ (λ db s. Statements.delete_category-Sound db s id user)
  perform-KeepsSound (Write.sets_full_content user id on at) =
      set_feed_full_content-Keeps user id on at
  perform-KeepsSound (Write.sets_user_title user id title) =
      Keeps-affected _ (λ db s. Statements.set_feed_user_title-Sound db s title id user)
  perform-KeepsSound (Write.sets_feed_url user id url now) =
      Keeps-affected _ (λ db s. Statements.set_feed_url-Sound db s url _ id user)
  perform-KeepsSound (Write.sets_feed_category user id c) =
      Keeps-affected _ (λ db s. Statements.set_feed_category-Sound db s c id user)
  perform-KeepsSound (Write.upserts feed es) = Keeps-forget _ (upsert_entries-Triple lib feed es)
  perform-KeepsSound (Write.sets_status now user ids st) = set_status-Keeps now user ids st
  perform-KeepsSound (Write.sets_starred user ids on) = set_starred-Keeps user ids on
  perform-KeepsSound (Write.marks_read now user f) =
      Keeps-forget _ (mark_read_by_filter-Keeps now user f)
  perform-KeepsSound (Write.deletes_entry now user id) = delete_entry-Triple now id user
  perform-KeepsSound (Write.sets_content id content) =
      Keeps-statement _ (λ db s. Statements.set_entry_content-Sound db s _ _ id)
  perform-KeepsSound (Write.updates_extract id state n at reason) =
      Keeps-statement _ (λ db s. Statements.update_extract_state-Sound db s state n _ reason id)
  perform-KeepsSound (Write.creates_category c) = Keeps-forget _ (
      Keeps-statement _
        (λ db s. Statements.create_category-Sound db s lib.nocase fresh_category _ _))
  perform-KeepsSound (Write.updates_category c) =
      Keeps-affected _ (λ db s. Statements.update_category-Sound db s lib.nocase _ _ _)
  perform-KeepsSound (Write.puts_setting key value) =
      Keeps-statement _ (λ db s. Statements.put_app_setting-Sound db s key value)

  perform-IsSound :
      (op : Write) (c : Conn) → IsSound c.db → IsSound (Writes.perform lib fresh_category op c).1.db
  perform-IsSound op c s =
      ended (Writes.perform lib fresh_category op c) ((perform-KeepsSound op).at c s)
    where
      ended : (r : SqlResult (Unit {0}) × Conn) → After (λ _. IsSound) IsSound r → IsSound r.1.db
      ended (done a, d) h = h
      ended (failed e, d) h = h

  -- From sound tables every history of writes leads to sound tables, whichever statements the driver
  -- fails and whatever rowids it picks: a feed never has two entries of one GUID, and none
  -- whose GUID has a tombstone.
  pub after-IsSound :
      (ops : List Write) (c : Conn)
      → IsSound c.db
      → IsSound (Writes.after lib fresh_category ops c).db
  unfolding Writes.after
  after-IsSound [] c s = s
  after-IsSound (op ∷ ops) c s = after-IsSound ops _ (perform-IsSound op c s)
