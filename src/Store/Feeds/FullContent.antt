-- ===== src/Store/Feeds/FullContent.antt =====
-- `SetFeedFullContent`: the flag of a feed and the backlog of its extractions.
use bfeed.Base.{
  ◌≡◌, refl, ap, Bool, true, false, not, ◌&&◌, ◌||◌, ◌==◌, none, some, [], map, if◌then◌else◌,
  arith,
}
use mathlib.Core.Path.{subst}
use bfeed.Base.Int.{ℤ, eq_ℤ}
use bfeed.Core.Types.{RowId, Time, ExtractState, idle, pending, done, failed, unset}
use bfeed.Store.Table.{exists, select}
use bfeed.Store.Table.Laws.{exists-update_all, select-update, update-map}
use bfeed.Store.Rows.{Db, EntryRow, b2i, to_unix}
use bfeed.Store.Sql.{SqlResult, Conn}
use bfeed.Store.Sql.Triple.{
  Triple, After, Given, Triple-give, Triple-fail, Triple-if, Triple-statement, Triple-bind,
  Triple-transaction,
}
use bfeed.Store.Queries
use bfeed.Store.Queries.Feeds.{is_feed}
use bfeed.Store.Queries.Extraction.{is_idle_or_failed, is_pending_or_failed}
use bfeed.Store.Feeds

-- What is out of place: articles to extract that wait for nothing, or extractions that wait where
-- none are wanted.
abbrev is_stale : Bool → EntryRow → Bool
is_stale true r = is_idle_or_failed r
is_stale false r = is_pending_or_failed r

-- What becomes of an entry of the feed, by the state of its extraction: turned on, an entry that is not
-- extracted is queued afresh for the given time, and turned off, one that waits or failed is no longer
-- wanted.
abbrev settled_row : Bool → ℤ → ExtractState → EntryRow → EntryRow
settled_row true at idle r = record r {
  extract_state = pending;
  next_extract_at = some at;
  extract_attempts = 0;
  extract_error = [];
}
settled_row true at failed r = record r {
  extract_state = pending;
  next_extract_at = some at;
  extract_attempts = 0;
  extract_error = [];
}
settled_row false at pending r = record r {
  extract_state = idle;
  next_extract_at = none;
  extract_error = [];
}
settled_row false at failed r = record r {
  extract_state = idle;
  next_extract_at = none;
  extract_error = [];
}
settled_row on at _ r = r

abbrev pub settle : RowId → Bool → ℤ → EntryRow → EntryRow
settle feed on at r = if eq_ℤ r.feed_id feed then settled_row on at r.extract_state r else r

-- The entries of other feeds, and extracted articles.
abbrev is_untouched : RowId → EntryRow → Bool
is_untouched feed r = not (eq_ℤ r.feed_id feed) || elim r.extract_state [ done ↦ true | _ ↦ false ]

module _ (user id : RowId) (on : Bool) (at : Time) (old : Db) where
  record IsFlagged (db : Db) : Type 0 where
    flag :
        exists (λ f. is_feed id user f && not (eq_ℤ f.fetch_full_content (b2i on))) db.feeds ≡ false
    same : db.entries ≡ old.entries

  pub record IsReconciled (db : Db) : Type 0 where
    flag :
        exists (λ f. is_feed id user f && not (eq_ℤ f.fetch_full_content (b2i on))) db.feeds ≡ false
    settled : exists (λ r. eq_ℤ r.feed_id id && is_stale on r) db.entries ≡ false
    entries : db.entries ≡ map (settle id on (to_unix at)) old.entries
    others : select (is_untouched id) db.entries ≡ select (is_untouched id) old.entries

  set : (b m : Bool) → (m && not (eq_ℤ (b2i b) (b2i b))) ≡ false
  set true true = refl
  set true false = refl
  set false true = refl
  set false false = refl

  flag-IsFlagged :
      (db : Db)
      → db ≡ old
      → Given (λ _. IsFlagged) (Queries.Feeds.set_feed_full_content (b2i on) id user db)
  unfolding Queries.Feeds.set_feed_full_content
  flag-IsFlagged db e = record {
    flag =
        exists-update_all _ (is_feed id user) _ db.feeds (λ r h. set on (is_feed id user r))
          (λ r h. rw h refl);
    same = ap (λ d. d.entries) e;
  }

-- The rows that the two statements pick, by their state and whether they are of the feed.
module _ (m : Bool) where
  queued :
      (s : ExtractState)
      → (m && elim s [ idle ↦ true | failed ↦ true | _ ↦ false ]) ≡ true
      → ((not m || elim s [ done ↦ true | _ ↦ false ]) ≡ false) × ((not m || false) ≡ false)
  queued idle h = ground (arith, h)
  queued pending h = ground (arith, h)
  queued done h = ground (arith, h)
  queued failed h = ground (arith, h)
  queued unset h = ground (arith, h)

  unqueued :
      (s : ExtractState)
      → (m && elim s [ pending ↦ true | failed ↦ true | _ ↦ false ]) ≡ true
      → ((not m || elim s [ done ↦ true | _ ↦ false ]) ≡ false) × ((not m || false) ≡ false)
  unqueued idle h = ground (arith, h)
  unqueued pending h = ground (arith, h)
  unqueued done h = ground (arith, h)
  unqueued failed h = ground (arith, h)
  unqueued unset h = ground (arith, h)

  settled : (m && false) ≡ false
  settled = ground arith

-- What each of the two statements makes of a row is what the row settles as.
module _ (at : ℤ) (m : Bool) (r : EntryRow) where
  queue-settled_row :
      (s : ExtractState)
      → (if m && elim s [ idle ↦ true | failed ↦ true | _ ↦ false ]
          then Queries.Extraction.queue at r
          else r)
        ≡ (if m then settled_row true at s r else r)
  unfolding Queries.Extraction.queue
  queue-settled_row idle = ground arith
  queue-settled_row pending = ground arith
  queue-settled_row done = ground arith
  queue-settled_row failed = ground arith
  queue-settled_row unset = ground arith

  unqueue-settled_row :
      (s : ExtractState)
      → (if m && elim s [ pending ↦ true | failed ↦ true | _ ↦ false ]
          then Queries.Extraction.unqueue r
          else r)
        ≡ (if m then settled_row false at s r else r)
  unfolding Queries.Extraction.unqueue
  unqueue-settled_row idle = ground arith
  unqueue-settled_row pending = ground arith
  unqueue-settled_row done = ground arith
  unqueue-settled_row failed = ground arith
  unqueue-settled_row unset = ground arith

module _ (user id : RowId) (at : Time) (old : Db) where
  reconcile-IsReconciled :
      (on : Bool)
      → Triple
          (IsFlagged user id on at old)
          (λ _. IsReconciled user id on at old)
          (λ _. Unit {0})
          (Feeds.reconcile id on at)
  unfolding Feeds.reconcile Queries.Extraction.mark_feed_entries_pending
      Queries.Extraction.cancel_feed_extractions Queries.Extraction.queue Queries.Extraction.unqueue
  reconcile-IsReconciled true =
      Triple-statement _ (λ db f. tt)
        (λ db f. record {
          flag = f.flag;
          settled = exists-update_all _ _ _ db.entries (λ r h. settled _) (λ r h. h);
          entries = rw (← f.same) (
              update-map _ _ _ db.entries
                (λ r. queue-settled_row (to_unix at) (eq_ℤ r.feed_id id) r r.extract_state));
          others = rw (← f.same) (
              select-update _ _ _ db.entries (λ r h. queued (eq_ℤ r.feed_id id) r.extract_state h));
        })
  reconcile-IsReconciled false =
      Triple-statement _ (λ db f. tt)
        (λ db f. record {
          flag = f.flag;
          settled = exists-update_all _ _ _ db.entries (λ r h. settled _) (λ r h. h);
          entries = rw (← f.same) (
              update-map _ _ _ db.entries
                (λ r. unqueue-settled_row (to_unix at) (eq_ℤ r.feed_id id) r r.extract_state));
          others = rw (← f.same) (
              select-update _ _ _ db.entries
                (λ r h. unqueued (eq_ℤ r.feed_id id) r.extract_state h));
        })

  set_feed_full_content-Triple :
      (on : Bool)
      → Triple
          (λ db. db ≡ old)
          (λ _. IsReconciled user id on at old)
          (λ db. db ≡ old)
          (Feeds.set_feed_full_content user id on at)
  unfolding Feeds.set_feed_full_content Feeds.affected
  set_feed_full_content-Triple on =
      Triple-transaction _ (λ db e. e)
        (Triple-bind _ _
          (Triple-statement {Q = λ _. IsFlagged user id on at old} _ (λ db e. tt)
            (flag-IsFlagged user id on at old))
          λ n.
            Triple-bind _ _
              (Triple-if (n == 0) _ _ (Triple-fail _ (λ db f. tt)) (Triple-give tt (λ db f. f)))
              λ _. reconcile-IsReconciled on)

-- After a successful `SetFeedFullContent` the feed has the flag, and none of its entries is out of
-- place. Turned on, every entry whose extraction is idle or failed waits, from the given time on, with no
-- attempts and no error; turned off, every entry that waited or failed is without an extraction, its
-- time and its error. Every other column and every other entry are as they were, and so the entries of
-- other feeds and the articles extracted already.
pub set_feed_full_content-IsReconciled :
    (user id : RowId) (on : Bool) (at : Time) (c d : Conn)
    → Feeds.set_feed_full_content user id on at c ≡ (SqlResult.done tt, d)
    → IsReconciled user id on at c.db d.db
set_feed_full_content-IsReconciled user id on at c d h =
    subst (After (λ _. IsReconciled user id on at c.db) (λ db. db ≡ c.db)) h
      ((set_feed_full_content-Triple user id at c.db on).at c refl)
