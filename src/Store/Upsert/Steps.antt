-- ===== src/Store/Upsert/Steps.antt =====
-- `UpsertEntries` and a condition on the tables that its statements keep.
use bfeed.Base.{◌≡◌, false, Option, none, some, List, [], ◌∷◌, Bool-cases, Option-cases, inl, inr}
use bfeed.Base.Int.{ℤ, eq_ℤ}
use bfeed.Core.Types.{RowId, Entry, Error, ExtractState}
use bfeed.Store.Table.{exists, find}
use bfeed.Store.Rows.{Db, EntryRow}
use bfeed.Store.Sql.{
  SqlResult, done, failed, no_rows, unique_failed, foreign_key_failed, other, Conn, with_db,
  applied, faulty, statement, query,
}
use bfeed.Store.Sql.Triple.{
  Triple, After, Given, Triple-give, Triple-if, Triple-statement, Triple-bind,
  Triple-transaction_or, OrEarly,
}
use bfeed.Store.Queries.Entries.{
  InsertEntryParams, UpdateEntryParams, has_guid, buries, get_entry_by_guid, tombstone_exists,
  get_feed_full_content, insert_entry, update_entry_content, update_entry_metadata,
}
use bfeed.Store.Upsert.{
  Sqlite, optional, lookup, insert_state, insert_params, refresh, insert, store_entry, live_entry,
  upsert_entry, upsert_all, upsert_into, upsert_entries,
}

-- Within the transaction a failure needs no postcondition.
abbrev pub Anything : Db → Type 0
Anything db = Unit {0}

module _ {A : Type 0} where
  abbrev pub FoundOption : (Option A → Type 0) → SqlResult A → Type 0
  FoundOption Q (done a) = Q (some a)
  FoundOption Q (failed no_rows) = Q none
  FoundOption Q (failed _) = Unit

  looked_applied :
      (Q : Option A → Db → Type 0) (c : Conn) (r : SqlResult A)
      → FoundOption (λ a. Q a c.db) r
      → After Q Anything (optional (applied c (with_db c.db r)))
  unfolding applied
  looked_applied Q c (done a) q = q
  looked_applied Q c (failed no_rows) q = q
  looked_applied Q c (failed unique_failed) q = tt
  looked_applied Q c (failed foreign_key_failed) q = tt
  looked_applied Q c (failed (other e)) q = tt

  looked_faulty :
      (Q : Option A → Db → Type 0) (f : Db → SqlResult A) (fs : List (Option Error)) (c : Conn)
      → FoundOption (λ a. Q a c.db) (f c.db)
      → After Q Anything (optional (faulty (λ db. with_db db (f db)) fs c))
  unfolding faulty
  looked_faulty Q f [] c q = looked_applied Q c (f c.db) q
  looked_faulty Q f (none ∷ fs) c q = looked_applied Q (record c { faults = fs }) (f c.db) q
  looked_faulty Q f (some e ∷ fs) c q = tt

  pub Triple-lookup :
      {P : Db → Type 0} {Q : Option A → Db → Type 0} (f : Db → SqlResult A)
      → ((db : Db) → P db → FoundOption (λ a. Q a db) (f db))
      → Triple P Q Anything (lookup (query f))
  unfolding lookup statement
  Triple-lookup {P} {Q} f h = record { at = λ c p. looked_faulty Q f c.faults c (h c.db p) }

-- The statements keep the condition, the insert where the GUID has no tombstone.
pub record StatementsKeep (lib : Sqlite) (P : Db → Type 0) : Type 0 where
  pub metadata :
      (p : UpdateEntryParams) (db : Db) → P db → Given (λ _. P) (update_entry_metadata p db)
  pub content :
      (p : UpdateEntryParams) (db : Db) → P db → Given (λ _. P) (update_entry_content p db)
  pub inserted :
      (p : InsertEntryParams) (db : Db)
      → P db
      → exists (buries p.feed_id p.guid) db.tombstones ≡ false
      → Given (λ _. P) (insert_entry lib.fresh_entry p db)

-- No tombstone of the GUID, or a row found.
abbrev NotBuried : (Db → Type 0) → RowId → Entry → Option (Unit {0}) → Db → Type 0
NotBuried P feed e (some _) db = P db
NotBuried P feed e none db = P db × (exists (buries feed e.guid) db.tombstones ≡ false)

module _ {P : Db → Type 0} (lib : Sqlite) (feed : RowId) (keeps : StatementsKeep lib P) where
  refresh-Triple : (r : EntryRow) (e : Entry) → Triple P (λ _. P) Anything (refresh lib feed r e)
  unfolding refresh
  refresh-Triple r e = Triple-if _ _ _ (Triple-give [] (λ db s. s)) (
      Triple-if _ _ _
        (Triple-bind _ _ (Triple-statement _ (λ db s. tt) (λ db s. keeps.metadata _ db s))
          λ _. Triple-give [] (λ db s. s))
        (Triple-bind _ _ (Triple-statement _ (λ db s. tt) (λ db s. keeps.content _ db s))
          λ _. Triple-give [] (λ db s. s)))

  insert-Triple :
      (state : ExtractState) (e : Entry)
      → Triple (NotBuried P feed e none) (λ _. P) Anything (insert lib feed state e)
  unfolding insert insert_params
  insert-Triple state e =
      Triple-bind _ _
        (Triple-statement _ (λ db s. tt) (λ db (s, alive). keeps.inserted _ db s alive))
        λ id. Triple-give _ (λ db s. s)

  store_entry-Triple :
      (state : ExtractState) (e : Entry) (r : Option EntryRow)
      → Triple (NotBuried P feed e none) (λ _. P) Anything (store_entry lib feed state e r)
  unfolding store_entry
  store_entry-Triple state e none = insert-Triple state e
  store_entry-Triple state e (some r) = record { at = λ c p. (refresh-Triple r e).at c p.0 }

  live_entry-Triple :
      (state : ExtractState) (e : Entry) (t : Option (Unit {0}))
      → Triple (NotBuried P feed e t) (λ _. P) Anything (live_entry lib feed state e t)
  unfolding live_entry get_entry_by_guid
  live_entry-Triple state e (some _) = Triple-give [] (λ db s. s)
  live_entry-Triple state e none =
      Triple-bind _ _ (Triple-lookup _ (λ db p. found db p)) (store_entry-Triple state e)
    where
      found :
          (db : Db)
          → NotBuried P feed e none db
          → FoundOption (λ _. NotBuried P feed e none db) (get_entry_by_guid feed e.guid db)
      found db p = elim (Option-cases (find (has_guid feed e.guid) db.entries)) [
        | inl h ↦ rw (h, get_entry_by_guid) p
        | inr (r, h) ↦ rw (h, get_entry_by_guid) p
      ]

  upsert_entry-Triple :
      (state : ExtractState) (e : Entry)
      → Triple P (λ _. P) Anything (upsert_entry lib feed state e)
  unfolding upsert_entry tombstone_exists
  upsert_entry-Triple state e =
      Triple-bind _ _ (Triple-lookup _ (λ db s. found db s)) (live_entry-Triple state e)
    where
      found :
          (db : Db)
          → P db
          → FoundOption (λ t. NotBuried P feed e t db) (tombstone_exists feed e.guid db)
      found db s = elim (Bool-cases (exists (buries feed e.guid) db.tombstones)) [
        | inl h ↦ rw (h, tombstone_exists) s
        | inr h ↦ rw (h, tombstone_exists) (s, h)
      ]

  upsert_all-Triple :
      (state : ExtractState) (es : List Entry)
      → Triple P (λ _. P) Anything (upsert_all lib feed state es)
  unfolding upsert_all
  upsert_all-Triple state [] = Triple-give [] (λ db s. s)
  upsert_all-Triple state (e ∷ es) =
      Triple-bind _ _ (upsert_entry-Triple state e)
        λ is. Triple-bind _ _ (upsert_all-Triple state es) λ js. Triple-give _ (λ db s. s)

  upsert_into-Triple :
      (es : List Entry) (ff : Option ℤ)
      → Triple P (OrEarly (Unit {0}) (λ _. P)) Anything (upsert_into lib feed es ff)
  unfolding upsert_into
  upsert_into-Triple es none = Triple-give none (λ db s. tt)
  upsert_into-Triple es (some ff) =
      Triple-bind _ _ (upsert_all-Triple (insert_state ff) es)
        λ is. Triple-give (some is) (λ db s. s)

  pub upsert_entries-Triple : (es : List Entry) → Triple P (λ _. P) P (upsert_entries lib feed es)
  unfolding upsert_entries get_feed_full_content
  upsert_entries-Triple es =
      Triple-transaction_or [] _ (λ db s. s) (λ db x s. s)
        (Triple-bind _ _ (Triple-lookup _ (λ db s. found db s)) (upsert_into-Triple es))
    where
      found : (db : Db) → P db → FoundOption (λ _. P db) (get_feed_full_content feed db)
      found db s = elim (Option-cases (find (λ f. eq_ℤ f.id feed) db.feeds)) [
        | inl h ↦ rw (h, get_feed_full_content) s
        | inr (r, h) ↦ rw (h, get_feed_full_content) s
      ]
