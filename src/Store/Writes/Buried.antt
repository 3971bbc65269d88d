-- ===== src/Store/Writes/Buried.antt =====
-- The operations that leave a tombstone where it is.
use bfeed.Base.{
  ℕ, ◌≡◌, refl, Bool, true, false, not, ◌&&◌, List, [], ◌∷◌, Bool-cases, inl, inr, sym, ◌∙◌, arith,
}
use mathlib.Core.Path.{subst}
use bfeed.Base.Int.{eq_ℤ, eq_of_eq_ℤ}
use bfeed.Base.Text.{Text}
use bfeed.Core.Types.{RowId, Time, Entry, EntryStatus}
use bfeed.Store.Table.{exists, delete}
use bfeed.Store.Table.Laws.{exists-update, exists-ext, exists-select}
use bfeed.Store.Rows.{Db, EntryRow, FeedRow, TombstoneRow}
use bfeed.Store.Sql.{Sql, SqlResult, done, failed, statement, ◌>>=◌}
use bfeed.Store.Sql.Triple.{
  Triple, Given, Found, Triple-give, Triple-fail, Triple-if, Triple-statement, Triple-query,
  Triple-bind, Triple-transaction,
}
use bfeed.Store.Queries
use bfeed.Store.Queries.Entries.{buries, is_entry, has_guid}
use bfeed.Store.Queries.Feeds.{is_feed}
use bfeed.Store.Feeds
use bfeed.Store.Entries
use bfeed.Store.Entries.{get_entry, bury}
use bfeed.Store.Writes
use bfeed.Store.Writes.{Write}

-- There is a tombstone of the feed's GUID.
abbrev pub IsBuriedIn : RowId → Text → Db → Type 0
IsBuriedIn feed guid db = exists (buries feed guid) db.tombstones ≡ true

module _ (feed : RowId) (guid : Text) where
  abbrev pub Buried : Db → Type 0
  Buried = IsBuriedIn feed guid

  abbrev pub Keeps : {A : Type 0} → Sql A → Type 0
  Keeps m = Triple Buried (λ _. Buried) Buried m

  -- A statement that leaves the tombstones alone, if it succeeds.
  abbrev pub LeavesTombstones : {A : Type 0} → (Db → SqlResult (A × Db)) → Type 0
  LeavesTombstones f = (db : Db) → Given (λ a d. d.tombstones ≡ db.tombstones) (f db)

  module _ {A : Type 0} where
    kept :
        (db : Db) (r : SqlResult (A × Db))
        → Buried db
        → Given (λ a d. d.tombstones ≡ db.tombstones) r
        → Given (λ _. Buried) r
    kept db (done (a, d)) b h = rw h b
    kept db (failed e) b h = tt

    pub Keeps-statement : (f : Db → SqlResult (A × Db)) → LeavesTombstones f → Keeps (statement f)
    Keeps-statement f h = Triple-statement f (λ db b. b) (λ db b. kept db (f db) b (h db))

    pub Keeps-forget : (m : Sql A) → Keeps m → Keeps (Writes.forget m)
    Keeps-forget m k = Triple-bind _ _ k λ a. Triple-give tt (λ db b. b)

  pub counted :
      {F : Db → Type 0} (n : ℕ)
      → ((db : Db) → Buried db → F db)
      → Triple Buried (λ _. Buried) F (Feeds.affected n)
  unfolding Feeds.affected
  counted n w = Triple-if _ _ _ (Triple-fail _ w) (Triple-give tt (λ db b. b))

  pub Keeps-affected :
      (f : Db → SqlResult (ℕ × Db)) → LeavesTombstones f → Keeps (statement f >>= Feeds.affected)
  Keeps-affected f h = Triple-bind _ _ (Keeps-statement f h) λ n. counted n (λ db b. b)

  not_gone :
      (id user x : RowId) (fs : List FeedRow)
      → eq_ℤ id x ≡ false
      → exists (λ r. is_feed id user r && eq_ℤ r.id x) fs ≡ false
  unfolding exists
  not_gone id user x [] e = refl
  not_gone id user x (r ∷ fs) e = elim (Bool-cases (eq_ℤ r.id id)) [
    | inr n ↦ ground (arith, n, not_gone id user x fs e)
    | inl y ↦
        let other : eq_ℤ r.id x ≡ false =
          subst (λ k. eq_ℤ k x ≡ false) (sym (eq_of_eq_ℤ _ _ y)) e in
        ground (arith, other, not_gone id user x fs e)
  ]

  -- The deletion of another feed.
  pub spared :
      (id user : RowId)
      → eq_ℤ id feed ≡ false
      → (db : Db) → Buried db
      → Given (λ _. Buried) (Queries.Feeds.delete_feed id user db)
  unfolding Queries.Feeds.delete_feed delete
  spared id user e db b =
      exists-select (buries feed guid) _ db.tombstones
      ∙ exists-ext _ _ db.tombstones (λ t. stays t)
      ∙ b
    where
      gone : RowId → Bool
      gone x = exists (λ r. is_feed id user r && eq_ℤ r.id x) db.feeds

      stays : (t : TombstoneRow) → (not (gone t.feed_id) && buries feed guid t) ≡ buries feed guid t
      stays t = elim (Bool-cases (eq_ℤ t.feed_id feed)) [
        | inr n ↦ ground (arith, n)
        | inl y ↦
            let kept : gone t.feed_id ≡ false =
              not_gone id user t.feed_id db.feeds
                (subst (λ k. eq_ℤ id k ≡ false) (sym (eq_of_eq_ℤ _ _ y)) e) in
            ground (arith, kept)
      ]

  inserted_kept :
      (t : TombstoneRow) (db : Db)
      → Buried db
      → Given (λ _. Buried) (Queries.Entries.insert_tombstone t db)
  unfolding Queries.Entries.insert_tombstone exists
  inserted_kept t db b = elim (Bool-cases (exists (buries t.feed_id t.guid) db.tombstones)) [
    | inl h ↦
        rw (h, Queries.Entries.insert_tombstone)
          (exists-update (buries feed guid) (buries t.feed_id t.guid) _ db.tombstones (λ u. refl)
            ∙ b)
    | inr h ↦ elim (Bool-cases (exists (λ f. eq_ℤ f.id t.feed_id) db.feeds)) [
      | inl k ↦ rw (h, k) (ground (arith, b))
      | inr k ↦ rw (h, k) tt
    ]
  ]

  bury-Keeps : (now : Time) (user id : RowId) (e : Entry) → Keeps (bury now user id e)
  unfolding bury Queries.Entries.delete_entry
  bury-Keeps now user id e =
      Triple-transaction _ (λ db b. b)
        (Triple-bind _ _ (Triple-statement _ (λ db b. tt) (λ db b. inserted_kept _ db b)) λ _.
          Triple-bind _ _ (Triple-statement _ (λ db b. tt) (λ db b. b)) λ n. counted n (λ db b. tt))

  pub delete_entry-Keeps : (now : Time) (user id : RowId) → Keeps (Entries.delete_entry now user id)
  unfolding Entries.delete_entry get_entry
  delete_entry-Keeps now user id =
      Triple-bind _ _
        (Triple-bind _ _
          (Triple-query {Q = λ r. Buried} _ (λ db b. b)
            (λ db b. found db b (Queries.Entries.get_entry id user db)))
          λ r. Triple-give _ (λ db b. b))
        λ e. bury-Keeps now user id e
    where
      found : (db : Db) → Buried db → (r : SqlResult EntryRow) → Found (λ a. Buried db) r
      found db b (done a) = b
      found db b (failed e) = tt

  reconcile-Keeps :
      (id : RowId) (on : Bool) (at : Time)
      → Triple Buried (λ _. Buried) (λ _. Unit {0}) (Feeds.reconcile id on at)
  unfolding Feeds.reconcile Queries.Extraction.mark_feed_entries_pending
      Queries.Extraction.cancel_feed_extractions
  reconcile-Keeps id true at = Triple-statement _ (λ db b. tt) (λ db b. b)
  reconcile-Keeps id false at = Triple-statement _ (λ db b. tt) (λ db b. b)

  pub set_feed_full_content-Keeps :
      (user id : RowId) (on : Bool) (at : Time) → Keeps (Feeds.set_feed_full_content user id on at)
  unfolding Feeds.set_feed_full_content Queries.Feeds.set_feed_full_content
  set_feed_full_content-Keeps user id on at =
      Triple-transaction _ (λ db b. b)
        (Triple-bind _ _ (Triple-statement _ (λ db b. tt) (λ db b. b))
          λ n. Triple-bind _ _ (counted n (λ db b. tt)) λ _. reconcile-Keeps id on at)

  pub set_status-Keeps :
      (now : Time) (user : RowId) (ids : List RowId) (st : EntryStatus)
      → Keeps (Entries.set_status now user ids st)
  unfolding Entries.set_status
  set_status-Keeps now user [] st = Triple-give tt (λ db b. b)
  set_status-Keeps now user (i ∷ ids) st = Keeps-statement _ (λ db. refl)

  pub set_starred-Keeps :
      (user : RowId) (ids : List RowId) (on : Bool) → Keeps (Entries.set_starred user ids on)
  unfolding Entries.set_starred
  set_starred-Keeps user [] on = Triple-give tt (λ db b. b)
  set_starred-Keeps user (i ∷ ids) on = Keeps-statement _ (λ db. refl)

  pub mark_read_by_filter-Keeps :
      (now : Time) (user : RowId) (f : Entries.EntryFilter)
      → Keeps (Entries.mark_read_by_filter now user f)
  unfolding Entries.mark_read_by_filter
  mark_read_by_filter-Keeps now user f = Keeps-statement _ (λ db. refl)
