-- ===== src/Store/Sound.antt =====
-- The invariant of the tables, and the statements that keep it.
pub mod Statements
use bfeed.Base.{
  ℕ, ◌≤◌, ◌≡◌, refl, Bool, true, false, not, ◌&&◌, ◌||◌, List, [], ◌∷◌, count, if◌then◌else◌, inl,
  inr, Bool-cases, arith,
}
use mathlib.Core.Path.{subst}
use bfeed.Base.Int.{eq_ℤ, eq_of_eq_ℤ}
use bfeed.Base.Text.{Text, text_eq, eq_of_text_eq}
use bfeed.Core.Types.{RowId}
use bfeed.Store.Table.{select, update, delete, exists}
use bfeed.Store.Table.Laws.{
  exists-update, count-update, count-select-le, count_of_not_exists, not_exists-select,
}
use bfeed.Store.Rows.{Db, EntryRow, TombstoneRow}
use bfeed.Store.Queries.Entries.{has_guid, buries, entry_row, InsertEntryParams}

-- No feed has two entries of one GUID, and none has an entry whose GUID has a tombstone.
pub record IsSound (db : Db) : Type 0 where
  pub unique : (feed : RowId) (guid : Text) → count (has_guid feed guid) db.entries ≤ 1
  pub buried :
      (feed : RowId) (guid : Text)
      → exists (buries feed guid) db.tombstones ≡ true
      → exists (has_guid feed guid) db.entries ≡ false

-- The tables with other entries and tombstones are sound, whatever the other tables hold.
pub IsSound_of :
    (db db' : Db)
    → db'.entries ≡ db.entries
    → db'.tombstones ≡ db.tombstones
    → IsSound db
    → IsSound db'
IsSound_of db db' e t s = record {
  unique = λ f g. rw e (s.unique f g);
  buried = λ f g h. rw e (s.buried f g (rw (← t) h));
}

-- An update that leaves feeds and GUIDs alone.
abbrev pub KeepsKey : (EntryRow → EntryRow) → Type 0
KeepsKey h = (f : RowId) (g : Text) (r : EntryRow) → has_guid f g (h r) ≡ has_guid f g r

pub IsSound-update :
    (db : Db) (q : EntryRow → Bool) (h : EntryRow → EntryRow)
    → KeepsKey h
    → IsSound db
    → IsSound (record db { entries = update q h db.entries })
IsSound-update db q h k s = record {
  unique = λ f g. rw (count-update (has_guid f g) q h db.entries (k f g)) (s.unique f g);
  buried = λ f g b. rw (exists-update (has_guid f g) q h db.entries (k f g)) (s.buried f g b);
}

-- The deletion of entries and of tombstones.
pub IsSound-delete :
    (db db' : Db) (q : EntryRow → Bool) (t : TombstoneRow → Bool)
    → db'.entries ≡ delete q db.entries
    → db'.tombstones ≡ delete t db.tombstones
    → IsSound db
    → IsSound db'
unfolding delete
IsSound-delete db db' q t e f s = record {
  unique = λ a g.
      rw e
        (omega (arith, count-select-le (has_guid a g) (λ r. not (q r)) db.entries, s.unique a g));
  buried = λ a g b. rw e (
      not_exists-select (has_guid a g) (λ r. not (q r)) db.entries
        (s.buried a g (still a g (rw (← f) b))));
}
  where
    still :
        (a : RowId) (g : Text)
        → exists (buries a g) (select (λ r. not (t r)) db.tombstones) ≡ true
        → exists (buries a g) db.tombstones ≡ true
    still a g b = ground (arith, b, not_exists-select (buries a g) (λ r. not (t r)) db.tombstones)

-- A test by feed and GUID that holds of one key is the test for that key.
pub same_key :
    (P : RowId → Text → Type 0) (a f : RowId) (h g : Text)
    → (eq_ℤ a f && text_eq h g) ≡ true
    → P a h
    → P f g
same_key P a f h g e x =
    subst (λ c. P c g) (eq_of_eq_ℤ a f (ground (arith, e)))
      (subst (λ t. P a t) (eq_of_text_eq h g (ground (arith, e))) x)

-- A new entry whose GUID is neither there nor buried.
module _ (db : Db) (id : RowId) (p : InsertEntryParams) where
  insert_unique :
      exists (has_guid p.feed_id p.guid) db.entries ≡ false
      → IsSound db
      → (f : RowId) (g : Text) → count (has_guid f g) (entry_row id p ∷ db.entries) ≤ 1
  unfolding entry_row
  insert_unique n s f g = elim (Bool-cases (eq_ℤ p.feed_id f && text_eq p.guid g)) [
    | inl e ↦
        let absent =
          same_key (λ a h. exists (has_guid a h) db.entries ≡ false) p.feed_id f p.guid g e n in
        let none_there = count_of_not_exists (has_guid f g) db.entries absent in
        ground (arith, e, none_there)
    | inr e ↦ let u = s.unique f g in ground (arith, e, u)
  ]

  insert_buried :
      exists (buries p.feed_id p.guid) db.tombstones ≡ false
      → IsSound db
      → (f : RowId) (g : Text) → exists (buries f g) db.tombstones ≡ true
      → exists (has_guid f g) (entry_row id p ∷ db.entries) ≡ false
  unfolding entry_row exists
  insert_buried b s f g h = elim (Bool-cases (eq_ℤ p.feed_id f && text_eq p.guid g)) [
    | inl e ↦
        let alive =
          same_key (λ a t. exists (buries a t) db.tombstones ≡ false) p.feed_id f p.guid g e b in
        absurd (ground (arith, h, alive))
    | inr e ↦ let k = s.buried f g h in ground (arith, e, k)
  ]

  pub IsSound-insert :
      exists (buries p.feed_id p.guid) db.tombstones ≡ false
      → exists (has_guid p.feed_id p.guid) db.entries ≡ false
      → IsSound db
      → IsSound (record db { entries = entry_row id p ∷ db.entries })
  IsSound-insert b n s = record { unique = insert_unique n s; buried = insert_buried b s }
