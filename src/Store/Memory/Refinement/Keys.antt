-- ===== src/Store/Memory/Refinement/Keys.antt =====
-- One feed, in the tables and in memory, before and after a change of one GUID.
use mathlib.Core.Path.{subst}
use mathlib.Core.Option
use bfeed.Base.{
  ◌≤◌, ◌≡◌, refl, ◌∙◌, ap, if◌then◌else◌, true, false, Option, none, some, List, count, Bool-cases,
  Option-cases, inl, inr, arith,
}
use bfeed.Base.Int.{pos, eq_ℤ, eq_ℤ-refl}
use bfeed.Base.Text.{Text, text_eq, eq_of_text_eq}
use bfeed.Core.Types.{RowId, Entry, unread}
use bfeed.Store.Table.{find, update, exists}
use bfeed.Store.Rows.{Db, EntryRow}
use bfeed.Store.Queries.Entries.{has_guid, is_entry, buries}
use bfeed.Store.Memory.{MemStore, of_key, change_first, overwrite, full_content}
use bfeed.Store.Memory.Views.{
  row_view, entry_view, changed, entry_view-overwrite, one_guid, found_is, find-update,
  find-change_first, find-change_other, unique_found,
}

-- The feed `a` of the tables is the feed `b` in memory, and belongs to the user `u`.
pub record Agrees (a b u : RowId) (db : Db) (m : MemStore) : Type 0 where
  pub entries :
      (g : Text)
      → Option.map row_view (find (has_guid a g) db.entries)
        ≡ Option.map entry_view (find (of_key b g) m.entries)
  pub tombstones : (g : Text) → exists (buries a g) db.tombstones ≡ m.tombstones b g
  pub feed :
      Option.map (λ f. eq_ℤ f.fetch_full_content (pos 1)) (find (λ f. eq_ℤ f.id a) db.feeds)
      ≡ Option.map (λ f. f.fetch_full_content) (full_content b m.feeds)
  pub owned : (g : Text) (r : EntryRow) → find (has_guid a g) db.entries ≡ some r → r.user_id ≡ u
  pub ids : (id : RowId) → count (λ r. eq_ℤ r.id id) db.entries ≤ 1

-- An entry as a poll makes it.
pub record IsNew (u : RowId) (e : Entry) : Type 0 where
  pub user : e.user_id ≡ u
  pub unread : e.status ≡ unread
  pub unstarred : e.starred ≡ false

-- An update leaves these columns alone.
pub record Keeps (f : EntryRow → EntryRow) : Type 0 where
  pub key : (a : RowId) (g : Text) (r : EntryRow) → has_guid a g (f r) ≡ has_guid a g r
  pub id : (r : EntryRow) → (f r).id ≡ r.id
  pub user : (r : EntryRow) → (f r).user_id ≡ r.user_id

overwrite-of_key : (b : RowId) (g : Text) (e x : Entry) → of_key b g (overwrite e x) ≡ of_key b g x
unfolding overwrite
overwrite-of_key b g e x = elim (Bool-cases (text_eq x.hash e.hash)) [
  | inl h ↦ rw h refl
  | inr h ↦ rw h refl
]

module _ (b : RowId) (e : Entry) (es : List Entry) (g : Text) where
  pub memory_after :
      Option.map entry_view (find (of_key b g) (change_first (of_key b e.guid) (overwrite e) es))
      ≡ (if text_eq e.guid g
          then Option.map (changed e) (Option.map entry_view (find (of_key b g) es))
          else Option.map entry_view (find (of_key b g) es))
  memory_after = elim (Bool-cases (text_eq e.guid g)) [
    | inl t ↦ rw t (found (eq_of_text_eq e.guid g t))
    | inr t ↦ rw t (
        ap (Option.map entry_view)
          (find-change_other _ _ _ es (overwrite-of_key b g e) (λ x h. other t x h)))
  ]
    where
      other :
          text_eq e.guid g ≡ false → (x : Entry) → of_key b e.guid x ≡ true → of_key b g x ≡ false
      other t x h = elim (Bool-cases (of_key b g x)) [
        | inl i ↦ absurd (ground (arith, t, h, i, one_guid (λ y. y.guid) x e.guid g))
        | inr i ↦ i
      ]

      viewed :
          (o : Option Entry)
          → Option.map entry_view (Option.map (overwrite e) o)
            ≡ Option.map (changed e) (Option.map entry_view o)
      viewed none = refl
      viewed (some x) = ap some (entry_view-overwrite e x)

      found :
          e.guid ≡ g
          → Option.map entry_view
              (find (of_key b g) (change_first (of_key b e.guid) (overwrite e) es))
            ≡ Option.map (changed e) (Option.map entry_view (find (of_key b g) es))
      found t =
          ap (Option.map entry_view)
            (find-change_first _ _ _ es (overwrite-of_key b g e) (λ x. rw t refl))
          ∙ viewed (find (of_key b g) es)

module _ (a : RowId) (db : Db) (e : Entry) (r : EntryRow) (f : EntryRow → EntryRow) where
  module _ (ids : (id : RowId) → count (λ s. eq_ℤ s.id id) db.entries ≤ 1)
      (h : find (has_guid a e.guid) db.entries ≡ some r) (user : r.user_id ≡ e.user_id)
      (keeps : Keeps f) (view : row_view (f r) ≡ changed e (row_view r)) (g : Text) where
    hits : is_entry r.id e.user_id r ≡ true
    hits = ground (arith, user, eq_ℤ-refl r.id, eq_ℤ-refl e.user_id)

    other_key :
        text_eq e.guid g ≡ false
        → (s : EntryRow) → has_guid a g s ≡ true
        → has_guid a e.guid s ≡ false
    other_key t s i = elim (Bool-cases (has_guid a e.guid s)) [
      | inr n ↦ n
      | inl n ↦ absurd (ground (arith, t, n, i, one_guid (λ y. y.guid) s e.guid g))
    ]

    misses :
        text_eq e.guid g ≡ false
        → (s : EntryRow) → find (has_guid a g) db.entries ≡ some s
        → is_entry r.id e.user_id s ≡ false
    misses t s i =
        let m =
          unique_found (has_guid a e.guid) (has_guid a g) (λ x. eq_ℤ x.id r.id) db.entries r s
            (ids r.id) h (eq_ℤ-refl r.id) i (other_key t s (found_is _ _ s i)) in
        ground (arith, m)

    pub tables_after :
        Option.map row_view (find (has_guid a g) (update (is_entry r.id e.user_id) f db.entries))
        ≡ (if text_eq e.guid g
            then Option.map (changed e) (Option.map row_view (find (has_guid a g) db.entries))
            else Option.map row_view (find (has_guid a g) db.entries))
    tables_after = elim (Bool-cases (text_eq e.guid g)) [
      | inl t ↦
          let k : find (has_guid a g) db.entries ≡ some r =
            subst (λ x. find (has_guid a x) db.entries ≡ some r) (eq_of_text_eq e.guid g t) h in
          rw
            (
              t,
              find-update (has_guid a g) (is_entry r.id e.user_id) f db.entries (keeps.key a g),
              k,
              hits,
            )
            (ap some view)
      | inr t ↦ elim (Option-cases (find (has_guid a g) db.entries)) [
        | inl k ↦
            rw
              (
                t,
                find-update (has_guid a g) (is_entry r.id e.user_id) f db.entries (keeps.key a g),
                k,
              )
              refl
        | inr (s, k) ↦
            rw
              (
                t,
                find-update (has_guid a g) (is_entry r.id e.user_id) f db.entries (keeps.key a g),
                k,
                misses t s k,
              )
              refl
      ]
    ]
