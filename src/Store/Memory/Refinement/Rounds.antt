-- ===== src/Store/Memory/Refinement/Rounds.antt =====
-- One round of the loop of `UpsertEntries`, in the SQLite store and in memory.
use mathlib.Core.Option
use mathlib.Core.Path.{subst}
use bfeed.Base.{
  ◌≡◌, refl, sym, ap, true, false, ◌&&◌, Option, none, some, List, [], ◌∷◌, map, Bool-cases,
  Option-cases, inl, inr, arith,
}
use bfeed.Base.Int.{eq_ℤ}
use bfeed.Base.Text.{text_eq}
use bfeed.Core.Types.{RowId, Entry, ExtractState, unread}
use bfeed.Store.Table.{find, exists}
use bfeed.Store.Table.Laws.{update_of_fixed}
use bfeed.Store.Rows.{Db, EntryRow}
use bfeed.Store.Sql.Triple.{
  Triple, Given, Triple-give, Triple-if_known, Triple-with, Triple-statement, Triple-bind,
}
use bfeed.Store.Queries.Entries.{
  has_guid, is_entry, buries, set_content, set_metadata, UpdateEntryParams, get_entry_by_guid,
  tombstone_exists, insert_entry, update_entry_content, update_entry_metadata,
}
use bfeed.Store.Upsert.{
  Sqlite, insert_params, update_params, refresh, insert, store_entry, live_entry, upsert_entry,
}
use bfeed.Store.Upsert.Steps.{Anything, FoundOption, Triple-lookup}
use bfeed.Store.Memory.{
  MemStore, of_key, change_first, overwrite, add_entry, copied, upsert_one, is_extracted,
}
use bfeed.Store.Memory.Views.{
  row_view, entry_view, row_view-set_content, row_view-set_metadata, changed_of_same_hash,
}
use bfeed.Store.Memory.Refinement.Keys.{Agrees, IsNew, Keeps}
use bfeed.Store.Memory.Refinement.Steps.{Agrees-update, Agrees-insert}

set_content-Keeps : (p : UpdateEntryParams) → Keeps (set_content p)
unfolding set_content
set_content-Keeps p = record { key = λ a g r. refl; id = λ r. refl; user = λ r. refl }

set_metadata-Keeps : (p : UpdateEntryParams) → Keeps (set_metadata p)
unfolding set_metadata
set_metadata-Keeps p = record { key = λ a g r. refl; id = λ r. refl; user = λ r. refl }

module _ {o : Option EntryRow} {q : Option Entry} where
  also_none : o ≡ none → Option.map row_view o ≡ Option.map entry_view q → q ≡ none
  also_none h k = elim (Option-cases q) [
    | inl e ↦ e
    | inr (x, e) ↦ absurd (ground (arith, h, k, e))
  ]

  also_some :
      (r : EntryRow)
      → o ≡ some r
      → Option.map row_view o ≡ Option.map entry_view q
      → (x : Entry) × (q ≡ some x)
  also_some r h k = elim (Option-cases q) [ inr p ↦ p | inl e ↦ absurd (ground (arith, h, k, e)) ]

-- What the store in memory is after a call, and that the calls give the same entries.
unfoldable pub Ends : (a b u : RowId) → List Entry × MemStore → List Entry → Db → Type 0
Ends a b u (js, m) is db = (map entry_view is ≡ map entry_view js) × Agrees a b u db m

-- SQLite picks a rowid that no row has.
abbrev pub IsFresh : Sqlite → Type 0
IsFresh lib = (rs : List EntryRow) → exists (λ r. eq_ℤ r.id (lib.fresh_entry rs)) rs ≡ false

module _ (lib : Sqlite) (a b u : RowId) (fresh : IsFresh lib) (state : ExtractState) where
  module _ (e : Entry) (new : IsNew u e) (m : MemStore) where
    abbrev overwritten : MemStore
    overwritten = record m { entries = change_first (of_key b e.guid) (overwrite e) m.entries }

    -- The row of the GUID is `o`.
    abbrev Row : Option EntryRow → Db → Type 0
    Row o db = (find (has_guid a e.guid) db.entries ≡ o) × Agrees a b u db m

    unchanged :
        (r : EntryRow)
        → text_eq r.hash e.hash ≡ true
        → (db : Db) → Row (some r) db
        → Agrees a b u db overwritten
    unchanged r h db (k, s) =
        subst (λ rs. Agrees a b u (record db { entries = rs }) overwritten)
          (update_of_fixed (is_entry r.id e.user_id) (λ x. x) db.entries (λ x. refl))
          (Agrees-update e r (λ x. x) new k
            (record { key = λ a g x. refl; id = λ x. refl; user = λ x. refl })
            (sym (changed_of_same_hash lib a r.id e r h)) s)

    module _ {r : EntryRow} (db : Db) (h : text_eq r.hash e.hash ≡ false) where
      described :
          is_extracted r.extract_state ≡ true
          → find (has_guid a e.guid) db.entries ≡ some r
          → Agrees a b u db m
          → Given
              (λ _ db'. Agrees a b u db' overwritten)
              (update_entry_metadata (update_params lib a r.id e) db)
      unfolding update_entry_metadata update_params
      described d k s =
          Agrees-update e r (set_metadata (update_params lib a r.id e)) new k
            (set_metadata-Keeps (update_params lib a r.id e))
            (row_view-set_metadata lib a r.id e r h d) s

      rewritten :
          is_extracted r.extract_state ≡ false
          → find (has_guid a e.guid) db.entries ≡ some r
          → Agrees a b u db m
          → Given
              (λ _ db'. Agrees a b u db' overwritten)
              (update_entry_content (update_params lib a r.id e) db)
      unfolding update_entry_content update_params
      rewritten d k s =
          Agrees-update e r (set_content (update_params lib a r.id e)) new k
            (set_content-Keeps (update_params lib a r.id e))
            (row_view-set_content lib a r.id e r h d) s

    refresh-Triple :
        (r : EntryRow)
        → Triple (Row (some r)) (Ends a b u ([], overwritten)) Anything (refresh lib a r e)
    unfolding refresh Ends
    refresh-Triple r =
        Triple-if_known _ _ _ (λ h. Triple-give [] (λ db k. (refl, unchanged r h db k)))
          λ h.
            Triple-if_known _ _ _
              (λ d.
                Triple-bind _ _
                  (Triple-statement {Q = λ _ db. Agrees a b u db overwritten} _ (λ db s. tt)
                    (λ db (k, s). described db h d k s))
                  λ _. Triple-give [] (λ db s. (refl, s)))
              (λ d.
                Triple-bind _ _
                  (Triple-statement {Q = λ _ db. Agrees a b u db overwritten} _ (λ db s. tt)
                    (λ db (k, s). rewritten db h d k s))
                  λ _. Triple-give [] (λ db s. (refl, s)))

    inserted :
        (db : Db)
        → Agrees a b u db m
        → Given
            (λ _ db'. Agrees a b u db' (add_entry b state e m))
            (insert_entry lib.fresh_entry (insert_params lib a state e) db)
    unfolding insert_entry insert_params
    inserted db s = elim (Bool-cases (exists (has_guid a e.guid) db.entries)) [
      | inl h ↦ rw (h, insert_entry) tt
      | inr h ↦
          elim (Bool-cases
            (exists (eq_ℤ e.user_id) db.users && exists (λ f. eq_ℤ f.id a) db.feeds)) [
              | inl k ↦
                  rw (h, k, insert_entry)
                    (Agrees-insert e lib (lib.fresh_entry db.entries) state new (fresh db.entries)
                      s)
              | inr k ↦ rw (h, k, insert_entry) tt
            ]
    ]

    given_view :
        (id : RowId)
        → entry_view (record e { id = id; status = unread; extract_state = state })
          ≡ entry_view (copied m.next_id b state e)
    unfolding entry_view
    given_view id = rw new.unread refl

    insert-Triple :
        Triple
          (Row none)
          (Ends a b u (copied m.next_id b state e ∷ [], add_entry b state e m))
          Anything
          (insert lib a state e)
    unfolding insert Ends
    insert-Triple =
        Triple-bind _ _
          (Triple-statement {Q = λ _ db. Agrees a b u db (add_entry b state e m)} _ (λ db s. tt)
            (λ db (k, s). inserted db s))
          λ id. Triple-give _ (λ db s. (ap (λ v. v ∷ []) (given_view id), s))

    one_buried : m.tombstones b e.guid ≡ true → upsert_one b state e m ≡ ([], m)
    unfolding upsert_one
    one_buried h = rw h refl

    one_found :
        (x : Entry)
        → m.tombstones b e.guid ≡ false
        → find (of_key b e.guid) m.entries ≡ some x
        → upsert_one b state e m ≡ ([], overwritten)
    unfolding upsert_one
    one_found x h k = rw (h, k) refl

    one_new :
        m.tombstones b e.guid ≡ false
        → find (of_key b e.guid) m.entries ≡ none
        → upsert_one b state e m ≡ (copied m.next_id b state e ∷ [], add_entry b state e m)
    unfolding upsert_one
    one_new h k = rw (h, k) refl

    module _ (alive : m.tombstones b e.guid ≡ false) where
      store_entry-Triple :
          (o : Option EntryRow)
          → Triple
              (Row o)
              (Ends a b u (upsert_one b state e m))
              Anything
              (store_entry lib a state e o)
      unfolding store_entry
      store_entry-Triple none = record {
        at = λ c p. rw (one_new alive (also_none p.0 (p.1.entries e.guid))) (insert-Triple.at c p);
      }
      store_entry-Triple (some r) = record {
        at = λ c p.
            let (x, k) = also_some r p.0 (p.1.entries e.guid) in
            rw (one_found x alive k) ((refresh-Triple r).at c p);
      }

      live_entry-Triple :
          Triple
            (λ db. Agrees a b u db m)
            (Ends a b u (upsert_one b state e m))
            Anything
            (live_entry lib a state e none)
      unfolding live_entry get_entry_by_guid
      live_entry-Triple = Triple-bind _ _ (Triple-lookup _ (λ db p. found db p)) store_entry-Triple
        where
          found :
              (db : Db)
              → Agrees a b u db m
              → FoundOption (λ o. Row o db) (get_entry_by_guid a e.guid db)
          found db p = elim (Option-cases (find (has_guid a e.guid) db.entries)) [
            | inl h ↦ rw (h, get_entry_by_guid) (refl, p)
            | inr (r, h) ↦ rw (h, get_entry_by_guid) (refl, p)
          ]

    -- A tombstone of the GUID, or none.
    abbrev Buried : Option (Unit {0}) → Db → Type 0
    Buried (some _) db = (m.tombstones b e.guid ≡ true) × Agrees a b u db m
    Buried none db = (m.tombstones b e.guid ≡ false) × Agrees a b u db m

    maybe_live-Triple :
        (t : Option (Unit {0}))
        → Triple
            (Buried t)
            (Ends a b u (upsert_one b state e m))
            Anything
            (live_entry lib a state e t)
    unfolding live_entry Ends
    maybe_live-Triple (some _) = Triple-give [] (λ db p. rw (one_buried p.0) (refl, p.1))
    maybe_live-Triple none = Triple-with _ (λ h. live_entry-Triple h)

    pub upsert_entry-Triple :
        Triple
          (λ db. Agrees a b u db m)
          (Ends a b u (upsert_one b state e m))
          Anything
          (upsert_entry lib a state e)
    unfolding upsert_entry tombstone_exists
    upsert_entry-Triple = Triple-bind _ _ (Triple-lookup _ (λ db p. found db p)) maybe_live-Triple
      where
        found :
            (db : Db)
            → Agrees a b u db m
            → FoundOption (λ t. Buried t db) (tombstone_exists a e.guid db)
        found db p = elim (Bool-cases (exists (buries a e.guid) db.tombstones)) [
          | inl h ↦ rw (h, tombstone_exists) (rw (← p.tombstones e.guid) h, p)
          | inr h ↦ rw (h, tombstone_exists) (rw (← p.tombstones e.guid) h, p)
        ]
