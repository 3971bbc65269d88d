-- ===== src/Store/Writes/Atomic.antt =====
-- Operations that fail: what they leave of the tables.
use bfeed.Base.{
  ℕ, ap, Bool-cases, inl, inr, ◌≡◌, refl, if◌then◌else◌, Bool, true, false, Option, none, some,
  List, [], ◌∷◌, count, ◌==◌, arith,
}
use mathlib.Core.Path.{subst}
use bfeed.Base.Int.{ℤ, eq_ℤ}
use bfeed.Base.Text.{Text}
use bfeed.Core.Types.{RowId, Time, EntryStatus}
use bfeed.Store.Table.{update}
use bfeed.Store.Table.Laws.{
  update_of_none, delete_of_none, delete_of_never, update_of_fixed, not_exists-and,
  not_exists_of_count,
}
use bfeed.Store.Rows.{Db, FeedRow, CategoryRow}
use bfeed.Store.Sql.{
  Sql, SqlResult, SqlError, done, failed, Conn, statement, transaction, transaction_or, ◌>>=◌,
}
use bfeed.Store.Sql.Triple.{
  Triple, After, Given, Found, Triple-give, Triple-fail, Triple-statement, Triple-query,
  Triple-bind, Triple-transaction, Triple-transaction_or, OrEarly,
}
use bfeed.Store.Upsert.{Sqlite, upsert_entries}
use bfeed.Store.Queries
use bfeed.Store.Queries.Feeds.{is_feed}
use bfeed.Store.Queries.Categories.{is_category}
use bfeed.Store.Feeds
use bfeed.Store.Categories
use bfeed.Store.Entries
use bfeed.Store.Writes
use bfeed.Store.Writes.{Write}

-- Started on `db`, the action leaves `db` where it fails.
abbrev pub Atomic : {A : Type 0} → Db → Sql A → Type 0
Atomic db m = Triple (λ d. d ≡ db) (λ _ _. Unit {0}) (λ d. d ≡ db) m

module _ {A : Type 0} where
  given : (r : SqlResult (A × Db)) → Given (λ _ _. Unit {0}) r
  given (done p) = tt
  given (failed e) = tt

  trivial : {P : Db → Type 0} (m : Sql A) → Triple P (λ _ _. Unit {0}) (λ _. Unit {0}) m
  trivial m = record { at = λ c u. ended (m c) }
    where
      ended : (r : SqlResult A × Conn) → After (λ _ _. Unit {0}) (λ _. Unit {0}) r
      ended (done a, c) = tt
      ended (failed e, c) = tt

module _ {A : Type 0} (db : Db) where
  statement-Atomic : (f : Db → SqlResult (A × Db)) → Atomic db (statement f)
  statement-Atomic f = Triple-statement f (λ d e. e) (λ d e. given (f d))

  forget-Atomic : (m : Sql A) → Atomic db m → Atomic db (Writes.forget m)
  forget-Atomic m a = Triple-bind _ _ a λ _. Triple-give tt (λ d u. tt)

  transaction-Atomic : (m : Sql A) → Atomic db (transaction m)
  transaction-Atomic m = Triple-transaction m (λ d e. e) (trivial m)

  transaction_or-Atomic : (a : A) (m : Sql (Option A)) → Atomic db (transaction_or a m)
  transaction_or-Atomic a m =
      Triple-transaction_or {X = Unit {0}} a m (λ d e. e) (λ d x e. tt) (any m)
    where
      ended :
          (r : SqlResult (Option A) × Conn)
          → After (OrEarly (Unit {0}) (λ _ _. Unit {0})) (λ _. Unit {0}) r
      ended (done none, c) = tt
      ended (done (some b), c) = tt
      ended (failed e, c) = tt

      any :
          {P : Db → Type 0} (m : Sql (Option A))
          → Triple P (OrEarly (Unit {0}) (λ _ _. Unit {0})) (λ _. Unit {0}) m
      any m = record { at = λ c u. ended (m c) }

module _ (db : Db) where
  affected-Atomic :
      (n : ℕ) → Triple (λ d. n ≡ 0 → d ≡ db) (λ _ _. Unit {0}) (λ d. d ≡ db) (Feeds.affected n)
  unfolding Feeds.affected
  affected-Atomic n = elim (Bool-cases (n == 0)) [
    | inl h ↦ rw h (Triple-fail _ (λ d k. k (ground (arith, h))))
    | inr h ↦ rw h (Triple-give tt (λ d k. tt))
  ]

  -- A statement that affects no row changes nothing, as seen from the tables it starts on.
  affected-statement-Atomic :
      (f : Db → SqlResult (ℕ × Db))
      → Given (λ n d. n ≡ 0 → d ≡ db) (f db)
      → Atomic db (statement f >>= Feeds.affected)
  affected-statement-Atomic f h =
      Triple-bind _ _ (Triple-statement {Q = λ n d. n ≡ 0 → d ≡ db} f (λ d e. e) (λ d e. rw e h))
        affected-Atomic

  -- An update or a deletion of feeds that matches none.
  feeds_same :
      (p : FeedRow → Bool) (h : FeedRow → FeedRow)
      → count p db.feeds ≡ 0
      → record db { feeds = update p h db.feeds } ≡ db
  feeds_same p h n = ap (λ fs. record db { feeds = fs }) (update_of_none p h db.feeds n)

  categories_same :
      (p : CategoryRow → Bool) (h : CategoryRow → CategoryRow)
      → count p db.categories ≡ 0
      → record db { categories = update p h db.categories } ≡ db
  categories_same p h n =
      ap (λ cs. record db { categories = cs }) (update_of_none p h db.categories n)

  set_feed_user_title-same :
      (title : Text) (id user : RowId)
      → Given (λ n d. n ≡ 0 → d ≡ db) (Queries.Feeds.set_feed_user_title title id user db)
  unfolding Queries.Feeds.set_feed_user_title
  set_feed_user_title-same title id user n = feeds_same (is_feed id user) _ n

  set_feed_url-same :
      (url : Text) (at : ℤ) (id user : RowId)
      → Given (λ n d. n ≡ 0 → d ≡ db) (Queries.Feeds.set_feed_url url at id user db)
  unfolding Queries.Feeds.set_feed_url
  set_feed_url-same url at id user =
      ground (arith, feeds_same (is_feed id user) (Queries.Feeds.set_url url at))

  set_feed_category-same :
      (c : Option RowId) (id user : RowId)
      → Given (λ n d. n ≡ 0 → d ≡ db) (Queries.Feeds.set_feed_category c id user db)
  unfolding Queries.Feeds.set_feed_category
  set_feed_category-same c id user =
      ground (arith, feeds_same (is_feed id user) (λ r. record r { category_id = c }))

  update_category-same :
      (nocase : Text → Text → Bool) (title : Text) (id user : RowId)
      → Given (λ n d. n ≡ 0 → d ≡ db) (Queries.Categories.update_category nocase title id user db)
  unfolding Queries.Categories.update_category
  update_category-same nocase title id user =
      ground (arith, categories_same (is_category id user) (λ r. record r { title = title }))

  delete_feed-same :
      (id user : RowId) → Given (λ n d. n ≡ 0 → d ≡ db) (Queries.Feeds.delete_feed id user db)
  unfolding Queries.Feeds.delete_feed
  delete_feed-same id user n =
      let absent = λ (feed : RowId).
        not_exists-and (is_feed id user) (λ r. eq_ℤ r.id feed) db.feeds
          (not_exists_of_count (is_feed id user) db.feeds n) in
      rw
        (
          delete_of_none (is_feed id user) db.feeds n,
          delete_of_never _ db.entries (λ e. absent e.feed_id),
          delete_of_never _ db.tombstones (λ t. absent t.feed_id),
        )
        refl

  delete_category-same :
      (id user : RowId)
      → Given (λ n d. n ≡ 0 → d ≡ db) (Queries.Categories.delete_category id user db)
  unfolding Queries.Categories.delete_category Queries.Categories.unset_category
  delete_category-same id user n =
      let absent = λ (c : RowId).
        not_exists-and (is_category id user) (λ r. eq_ℤ r.id c) db.categories
          (not_exists_of_count (is_category id user) db.categories n) in
      rw
        (
          delete_of_none (is_category id user) db.categories n,
          update_of_fixed (λ r. true) (Queries.Categories.unset_category _) db.feeds
              (λ r. kept _ absent r),
        )
        refl
    where
      kept :
          (gone : RowId → Bool)
          → ((c : RowId) → gone c ≡ false)
          → (r : FeedRow) → Queries.Categories.unset_category gone r ≡ r
      kept gone h r = ap (λ c. record r { category_id = c }) (reset r.category_id)
        where
          reset :
              (c : Option RowId)
              → (elim c [ none ↦ none | some c ↦ if gone c then none else some c ]) ≡ c
          reset none = refl
          reset (some c) = rw (h c) refl

module _ (db : Db) where
  delete_entry-Atomic :
      (now : Time) (user id : RowId) → Atomic db (Entries.delete_entry now user id)
  unfolding Entries.delete_entry Entries.get_entry Entries.bury
  delete_entry-Atomic now user id =
      Triple-bind {Q = λ _ d. d ≡ db} _ _
        (Triple-bind {Q = λ _ d. d ≡ db} _ _ (Triple-query _ (λ d e. e) (λ d e. found d e _))
          λ r. Triple-give _ (λ d e. e))
        λ e. transaction-Atomic db _
    where
      found : {A : Type 0} (d : Db) → d ≡ db → (r : SqlResult A) → Found (λ _. d ≡ db) r
      found d e (done a) = e
      found d e (failed x) = tt

  set_status-Atomic :
      (now : Time) (user : RowId) (ids : List RowId) (st : EntryStatus)
      → Atomic db (Entries.set_status now user ids st)
  unfolding Entries.set_status
  set_status-Atomic now user [] st = Triple-give tt (λ d e. tt)
  set_status-Atomic now user (i ∷ ids) st = statement-Atomic db _

  set_starred-Atomic :
      (user : RowId) (ids : List RowId) (on : Bool) → Atomic db (Entries.set_starred user ids on)
  unfolding Entries.set_starred
  set_starred-Atomic user [] on = Triple-give tt (λ d e. tt)
  set_starred-Atomic user (i ∷ ids) on = statement-Atomic db _

module _ (lib : Sqlite) (fresh_category : List CategoryRow → RowId) (db : Db) where
  perform-Atomic : (op : Write) → Atomic db (Writes.perform lib fresh_category op)
  unfolding Writes.perform Feeds.create_feed Feeds.update_feed Feeds.delete_feed
      Feeds.set_feed_user_title Feeds.set_feed_url Feeds.set_feed_category
      Feeds.set_feed_full_content Categories.delete_category Categories.create_category
      Categories.update_category Categories.put_setting Entries.set_entry_content
      Entries.update_extract_state Entries.mark_read_by_filter upsert_entries
  perform-Atomic (Write.creates_feed f) = forget-Atomic db _ (statement-Atomic db _)
  perform-Atomic (Write.updates_feed f) = statement-Atomic db _
  perform-Atomic (Write.deletes_feed user id) =
      affected-statement-Atomic db _ (delete_feed-same db id user)
  perform-Atomic (Write.deletes_category user id) =
      affected-statement-Atomic db _ (delete_category-same db id user)
  perform-Atomic (Write.sets_full_content user id on at) = transaction-Atomic db _
  perform-Atomic (Write.sets_user_title user id title) =
      affected-statement-Atomic db _ (set_feed_user_title-same db title id user)
  perform-Atomic (Write.sets_feed_url user id url now) =
      affected-statement-Atomic db _ (set_feed_url-same db url _ id user)
  perform-Atomic (Write.sets_feed_category user id c) =
      affected-statement-Atomic db _ (set_feed_category-same db c id user)
  perform-Atomic (Write.upserts feed es) = forget-Atomic db _ (transaction_or-Atomic db [] _)
  perform-Atomic (Write.sets_status now user ids st) = set_status-Atomic db now user ids st
  perform-Atomic (Write.sets_starred user ids on) = set_starred-Atomic db user ids on
  perform-Atomic (Write.marks_read now user f) = forget-Atomic db _ (statement-Atomic db _)
  perform-Atomic (Write.deletes_entry now user id) = delete_entry-Atomic db now user id
  perform-Atomic (Write.sets_content id content) = statement-Atomic db _
  perform-Atomic (Write.updates_extract id state n at reason) = statement-Atomic db _
  perform-Atomic (Write.creates_category c) = forget-Atomic db _ (statement-Atomic db _)
  perform-Atomic (Write.updates_category c) =
      affected-statement-Atomic db _ (update_category-same db lib.nocase _ _ _)
  perform-Atomic (Write.puts_setting key value) = statement-Atomic db _

module _ (lib : Sqlite) (fresh_category : List CategoryRow → RowId) where
  -- A write that ends in an error, whether the driver failed one of its statements or commits, a
  -- constraint refused it, or it affected no row, leaves every table as it was.
  pub perform_failed :
      (op : Write) (c d : Conn) (e : SqlError)
      → Writes.perform lib fresh_category op c ≡ (failed e, d)
      → d.db ≡ c.db
  perform_failed op c d e h =
      subst (After (λ _ _. Unit {0}) (λ x. x ≡ c.db)) h
        ((perform-Atomic lib fresh_category c.db op).at c refl)
