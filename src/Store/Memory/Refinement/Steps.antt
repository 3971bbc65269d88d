-- ===== src/Store/Memory/Refinement/Steps.antt =====
-- The statements of `UpsertEntries`, and what the store in memory does for them.
use mathlib.Core.Option
use mathlib.Core.Path.{subst}
use bfeed.Base.{
  ◌≡◌, refl, sym, ◌∙◌, ap, if◌then◌else◌, Bool, true, false, some, List, ◌∷◌, Bool-cases,
  Option-cases, inl, inr, arith,
}
use bfeed.Base.Int.{eq_ℤ, eq_ℤ-refl, eq_of_eq_ℤ}
use bfeed.Base.Text.{Text, text_eq}
use bfeed.Core.Types.{RowId, Entry, ExtractState}
use bfeed.Store.Table.{find, update, exists}
use bfeed.Store.Table.Laws.{count-update, count_of_not_exists}
use bfeed.Store.Rows.{Db, EntryRow}
use bfeed.Store.Queries.Entries.{has_guid, is_entry, entry_row}
use bfeed.Store.Upsert.{Sqlite, insert_params}
use bfeed.Store.Memory.{MemStore, of_key, change_first, overwrite, add_entry, copied}
use bfeed.Store.Memory.Views.{row_view, entry_view, changed, find-update}
use bfeed.Store.Memory.Refinement.Keys.{Agrees, IsNew, Keeps, memory_after, tables_after}

owner_cons :
    {u : RowId} (p : EntryRow → Bool) (r : EntryRow) (rs : List EntryRow) (t : EntryRow)
    → r.user_id ≡ u
    → (find p rs ≡ some t → t.user_id ≡ u)
    → find p (r ∷ rs) ≡ some t
    → t.user_id ≡ u
unfolding find
owner_cons p r rs t h k i = elim (Bool-cases (p r)) [
  | inl e ↦ let j : some r ≡ some t = rw (← i, e) refl in cc
  | inr e ↦ k (rw (← i, e) refl)
]

new_view :
    (a b : RowId) {u : RowId} (e : Entry) (lib : Sqlite) (id id' : RowId) (state : ExtractState)
    → IsNew u e
    → row_view (entry_row id (insert_params lib a state e)) ≡ entry_view (copied id' b state e)
unfolding row_view entry_view entry_row insert_params
new_view a b e lib id id' state new = rw (new.unread, new.unstarred) refl

module _ {a b u : RowId} {db : Db} {m : MemStore} (e : Entry) where
  -- An update of the row of the entry's GUID.
  pub Agrees-update :
      (r : EntryRow) (f : EntryRow → EntryRow)
      → IsNew u e
      → find (has_guid a e.guid) db.entries ≡ some r
      → Keeps f
      → row_view (f r) ≡ changed e (row_view r)
      → Agrees a b u db m
      → Agrees a b u
          (record db { entries = update (is_entry r.id e.user_id) f db.entries })
          (record m { entries = change_first (of_key b e.guid) (overwrite e) m.entries })
  Agrees-update r f new h keeps view s = record {
    entries = λ g.
        tables_after a db e r f s.ids h (s.owned e.guid r h ∙ sym new.user) keeps view g
        ∙ rw (s.entries g) (sym (memory_after b e m.entries g));
    tombstones = s.tombstones;
    feed = s.feed;
    owned = λ g t i. owned g t (
        sym (find-update (has_guid a g) (is_entry r.id e.user_id) f db.entries (keeps.key a g))
        ∙ i);
    ids = λ id.
        rw
          (count-update (λ x. eq_ℤ x.id id) (is_entry r.id e.user_id) f db.entries
            (λ x. rw (keeps.id x) refl))
          (s.ids id);
  }
    where
      same_user :
          (q : Bool) (x t : EntryRow) → some (if q then f x else x) ≡ some t → t.user_id ≡ x.user_id
      same_user true x t i = let k = keeps.user x in cc
      same_user false x t i = cc

      owned :
          (g : Text) (t : EntryRow)
          → Option.map
              (λ x. if is_entry r.id e.user_id x then f x else x)
              (find (has_guid a g) db.entries)
            ≡ some t
          → t.user_id ≡ u
      owned g t i = elim (Option-cases (find (has_guid a g) db.entries)) [
        | inl k ↦ absurd (ground (arith, i, k))
        | inr (x, k) ↦
            same_user (is_entry r.id e.user_id x) x t (
              subst (λ o. Option.map (λ y. if is_entry r.id e.user_id y then f y else y) o ≡ some t)
                k i)
            ∙ s.owned g x k
      ]

  -- A new row, and a new entry in memory.
  pub Agrees-insert :
      (lib : Sqlite) (id : RowId) (state : ExtractState)
      → IsNew u e
      → exists (λ r. eq_ℤ r.id id) db.entries ≡ false
      → Agrees a b u db m
      → Agrees a b u
          (record db { entries = entry_row id (insert_params lib a state e) ∷ db.entries })
          (add_entry b state e m)
  unfolding add_entry entry_row insert_params find
  Agrees-insert lib id state new fresh s = record {
    entries = λ g. elim (Bool-cases (text_eq e.guid g)) [
      | inl t ↦
          rw (t, eq_ℤ-refl a, eq_ℤ-refl b) (ap some (new_view a b e lib id m.next_id state new))
      | inr t ↦ rw (t, eq_ℤ-refl a, eq_ℤ-refl b) (s.entries g)
    ];
    tombstones = s.tombstones;
    feed = s.feed;
    owned = λ g t i. owner_cons _ _ db.entries t new.user (s.owned g t) i;
    ids = λ j. elim (Bool-cases (eq_ℤ id j)) [
      | inl h ↦ ground (
        arith,
        h,
        count_of_not_exists (λ r. eq_ℤ r.id j) db.entries
            (subst (λ k. exists (λ r. eq_ℤ r.id k) db.entries ≡ false) (eq_of_eq_ℤ id j h) fresh),
      )
      | inr h ↦ ground (arith, h, s.ids j)
    ];
  }
