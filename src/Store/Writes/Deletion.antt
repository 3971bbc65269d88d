-- ===== src/Store/Writes/Deletion.antt =====
-- `DeleteEntry` and the invariant of the tables: the tombstone comes first, then the entry goes.
use bfeed.Base.{
  ℕ, ◌≡◌, ◌≤◌, refl, true, false, not, ◌&&◌, some, ◌∷◌, ◌⊎◌, Bool-cases, Option-cases, inl, inr,
  count, ◌==◌, arith,
}
use bfeed.Base.Int.{eq_ℤ}
use bfeed.Base.Text.{Text, text_eq}
use bfeed.Core.Types.{RowId, Time, Entry}
use bfeed.Store.Table.{exists, find, delete}
use bfeed.Store.Table.Laws.{exists-update, exists-delete_only, not_exists-select, count-select-le}
use bfeed.Store.Rows.{Db, EntryRow, TombstoneRow, entry_from_row, to_unix}
use bfeed.Store.Sql.Triple.{
  Triple, Given, Found, Triple-give, Triple-fail, Triple-if, Triple-statement, Triple-query,
  Triple-bind, Triple-transaction,
}
use bfeed.Store.Sound.{IsSound}
use bfeed.Store.Queries.Entries
use bfeed.Store.Queries.Entries.{has_guid, buries, is_entry}
use bfeed.Store.Feeds.{affected}
use bfeed.Store.Entries.{get_entry, bury, delete_entry}

pub affected-Triple :
    {F : Db → Type 0} (n : ℕ)
    → ((db : Db) → IsSound db → F db)
    → Triple IsSound (λ _. IsSound) F (affected n)
unfolding affected
affected-Triple n w = Triple-if (n == 0) _ _ (Triple-fail _ w) (Triple-give tt (λ db s. s))

-- The row that the entry was read from.
record IsRead (id user : RowId) (e : Entry) (db : Db) : Type 0 where
  sound : IsSound db
  row : EntryRow
  found : find (is_entry id user) db.entries ≡ some row
  same_feed : row.feed_id ≡ e.feed_id
  same_guid : row.guid ≡ e.guid

-- The invariant but for the entry that is about to go.
record IsBuried (id user : RowId) (e : Entry) (db : Db) : Type 0 where
  unique : (feed : RowId) (guid : Text) → count (has_guid feed guid) db.entries ≤ 1
  buried :
      (feed : RowId) (guid : Text)
      → exists (buries feed guid) db.tombstones ≡ true
      → (exists (has_guid feed guid) db.entries ≡ false)
        ⊎ ((eq_ℤ e.feed_id feed && text_eq e.guid guid) ≡ true)
  row : EntryRow
  found : find (is_entry id user) db.entries ≡ some row
  same_feed : row.feed_id ≡ e.feed_id
  same_guid : row.guid ≡ e.guid

module _ (now : Time) (id user : RowId) where
  abbrev tombstone : Entry → TombstoneRow
  tombstone e = record { feed_id = e.feed_id; guid = e.guid; deleted_at = to_unix now }

  get_entry-IsRead :
      (db : Db)
      → IsSound db
      → Found (λ r. IsRead id user (entry_from_row r) db) (Entries.get_entry id user db)
  unfolding Entries.get_entry entry_from_row
  get_entry-IsRead db s = elim (Option-cases (find (is_entry id user) db.entries)) [
    | inl h ↦ rw h tt
    | inr (r, h) ↦
        rw h (record { sound = s; row = r; found = h; same_feed = refl; same_guid = refl })
  ]

  get_entry-Triple : Triple IsSound (IsRead id user) IsSound (get_entry user id)
  unfolding get_entry
  get_entry-Triple =
      Triple-bind _ _
        (Triple-query {Q = λ r. IsRead id user (entry_from_row r)} _ (λ db s. s)
          (λ db s. get_entry-IsRead db s))
        λ r. Triple-give _ (λ db i. i)

  -- Tables with at most one tombstone more, for the entry.
  IsBuried-of :
      (e : Entry) (db db' : Db)
      → db'.entries ≡ db.entries
      → ((feed : RowId) (guid : Text)
          → exists (buries feed guid) db'.tombstones ≡ true
          → (exists (buries feed guid) db.tombstones ≡ true)
            ⊎ ((eq_ℤ e.feed_id feed && text_eq e.guid guid) ≡ true))
      → IsRead id user e db
      → IsBuried id user e db'
  IsBuried-of e db db' h t i = record {
    unique = λ f g. rw h (i.sound.unique f g);
    buried = λ f g b. elim (t f g b) [
      | inl old ↦ inl (rw h (i.sound.buried f g old))
      | inr same ↦ inr same
    ];
    row = i.row;
    found = rw h i.found;
    same_feed = i.same_feed;
    same_guid = i.same_guid;
  }

  insert_tombstone-IsBuried :
      (e : Entry) (db : Db)
      → IsRead id user e db
      → Given (λ _. IsBuried id user e) (Entries.insert_tombstone (tombstone e) db)
  unfolding Entries.insert_tombstone exists
  insert_tombstone-IsBuried e db i =
      elim (Bool-cases (exists (buries e.feed_id e.guid) db.tombstones)) [
        | inl h ↦
            rw (h, Entries.insert_tombstone)
              (IsBuried-of e db _ refl
                (λ f g b. inl (
                  rw
                    (← exists-update (buries f g) (buries e.feed_id e.guid) _ db.tombstones
                      (λ r. refl))
                    b))
                i)
        | inr h ↦ elim (Bool-cases (exists (λ f. eq_ℤ f.id e.feed_id) db.feeds)) [
          | inl k ↦ rw (h, k) (IsBuried-of e db _ refl (λ f g b. new f g b) i)
          | inr k ↦ rw (h, k) tt
        ]
      ]
    where
      new :
          (f : RowId) (g : Text)
          → exists (buries f g) (tombstone e ∷ db.tombstones) ≡ true
          → (exists (buries f g) db.tombstones ≡ true)
            ⊎ ((eq_ℤ e.feed_id f && text_eq e.guid g) ≡ true)
      new f g b = elim (Bool-cases (eq_ℤ e.feed_id f && text_eq e.guid g)) [
        | inl k ↦ inr k
        | inr k ↦ inl (ground (arith, b, k))
      ]

  delete_entry-IsSound :
      (e : Entry) (db : Db)
      → IsBuried id user e db
      → Given (λ _. IsSound) (Entries.delete_entry id user db)
  unfolding Entries.delete_entry delete
  delete_entry-IsSound e db i = record { unique = at_most; buried = gone }
    where
      at_most :
          (f : RowId) (g : Text) → count (has_guid f g) (delete (is_entry id user) db.entries) ≤ 1
      at_most f g = omega (
        arith,
        count-select-le (has_guid f g) (λ r. not (is_entry id user r)) db.entries,
        i.unique f g,
      )

      gone :
          (f : RowId) (g : Text)
          → exists (buries f g) db.tombstones ≡ true
          → exists (has_guid f g) (delete (is_entry id user) db.entries) ≡ false
      gone f g b = elim (i.buried f g b) [
        | inl h ↦ (not_exists-select (has_guid f g) (λ r. not (is_entry id user r)) db.entries h)
        | inr h ↦
            exists-delete_only (has_guid f g) (is_entry id user) db.entries i.row i.found
              (rw (i.same_feed, i.same_guid) h) (i.unique f g)
      ]

  bury-Triple : (e : Entry) → Triple (IsRead id user e) (λ _. IsSound) IsSound (bury now user id e)
  unfolding bury
  bury-Triple e =
      Triple-transaction _ (λ db i. i.sound)
        (Triple-bind _ _
          (Triple-statement _ (λ db i. tt) (λ db i. insert_tombstone-IsBuried e db i))
          λ _.
            Triple-bind _ _ (Triple-statement _ (λ db i. tt) (λ db i. delete_entry-IsSound e db i))
              λ n. affected-Triple n (λ db s. tt))

  pub delete_entry-Triple : Triple IsSound (λ _. IsSound) IsSound (delete_entry now user id)
  unfolding delete_entry
  delete_entry-Triple = Triple-bind _ _ get_entry-Triple bury-Triple
