-- ===== src/Store/Dedup/Chunks.antt =====
-- `EntryDedup` against single lookups.
use bfeed.Base.{
  ℕ, zero, suc, ◌≤◌, ◌≡◌, refl, ◌∙◌, if◌then◌else◌, Bool, true, false, ◌&&◌, ◌||◌, Option, none,
  some, List, [], ◌∷◌, take, length, count, Bool-cases, inl, inr, arith,
}
use bfeed.Base.Int.{eq_ℤ}
use bfeed.Base.Text.{Text, text_eq, eq_of_text_eq}
use bfeed.Core.Types.{RowId}
use bfeed.Core.Ports.{Dedup}
use bfeed.Store.Table.{select, drop, find, exists}
use bfeed.Store.Table.Laws.{exists-select}
use bfeed.Store.Table.Slices.{
  find-select, count-select, find_if, find_of_count, exists_if, count_if_le, length-drop,
}
use bfeed.Store.Rows.{Db, EntryRow, TombstoneRow}
use bfeed.Store.Sql.{done, Conn, statement, ◌>>=◌}
use bfeed.Store.Sound.{IsSound}
use bfeed.Store.Queries.Entries.{has_guid, buries}
use bfeed.Store.Dedup.{
  is_one_of, select_hashes, select_tombstones, put_hashes, put_tombstones, chunk, dedup_batch,
  dedup_chunks, no_dedup, entry_dedup,
}

-- The hash of a row that was found, or what was known before.
abbrev pub or_else : Option EntryRow → Option Text → Option Text
or_else none m = m
or_else (some r) m = some r.hash

put_hashes_lem :
    (rs : List EntryRow) (m : Text → Option Text) (t : Text)
    → count (λ r. text_eq r.guid t) rs ≤ 1
    → put_hashes rs m t ≡ or_else (find (λ r. text_eq r.guid t) rs) (m t)
unfolding put_hashes find
put_hashes_lem [] m t h = refl
put_hashes_lem (r ∷ rs) m t h =
    let bound : count (λ s. text_eq s.guid t) rs ≤ 1 = ground (arith, h) in
    put_hashes_lem rs (λ u. if text_eq r.guid u then some r.hash else m u) t bound
    ∙ elim (Bool-cases (text_eq r.guid t)) [
      | inl e ↦
          let gone : count (λ s. text_eq s.guid t) rs ≡ 0 = ground (arith, h, e) in
          rw (e, find_of_count (λ s. text_eq s.guid t) rs gone) refl
      | inr e ↦ rw e refl
    ]

put_tombstones_lem :
    (rs : List TombstoneRow) (m : Text → Bool) (t : Text)
    → put_tombstones rs m t ≡ (exists (λ r. text_eq r.guid t) rs || m t)
unfolding put_tombstones exists
put_tombstones_lem [] m t = refl
put_tombstones_lem (r ∷ rs) m t =
    ground (arith, put_tombstones_lem rs (λ u. if text_eq r.guid u then true else m u) t)

-- Of the rows of a batch those with a GUID are the rows with that key, if it is in the batch.
same_guid :
    (batch : List Text) (b : Bool) (g t : Text)
    → ((b && is_one_of batch g) && text_eq g t) ≡ (is_one_of batch t && (b && text_eq g t))
same_guid batch b g t = elim (Bool-cases (text_eq g t)) [
  | inl e ↦ rw (eq_of_text_eq g t e) (ground arith)
  | inr e ↦ rw e (ground arith)
]

is_one_of-split :
    (n : ℕ) (gs : List Text) (t : Text)
    → is_one_of gs t ≡ (is_one_of (take n gs) t || is_one_of (drop n gs) t)
unfolding is_one_of drop
is_one_of-split zero gs t = refl
is_one_of-split (suc n) [] t = refl
is_one_of-split (suc n) (g ∷ gs) t = ground (arith, is_one_of-split n gs t)

abbrev known : RowId → Db → Text → Option EntryRow
known feed db t = find (has_guid feed t) db.entries

abbrev dead : RowId → Db → Text → Bool
dead feed db t = exists (buries feed t) db.tombstones

module _ (feed : RowId) (db : Db) (sound : IsSound db) (t : Text) where
  -- What a batch adds.
  batch_hashes :
      (batch : List Text) (m : Text → Option Text)
      → put_hashes (select_hashes feed batch db) m t
        ≡ (if is_one_of batch t then or_else (known feed db t) (m t) else m t)
  unfolding select_hashes
  batch_hashes batch m =
      let p = λ (r : EntryRow). text_eq r.guid t in
      let q = λ (r : EntryRow). eq_ℤ r.feed_id feed && is_one_of batch r.guid in
      let pick = λ (r : EntryRow). same_guid batch (eq_ℤ r.feed_id feed) r.guid t in
      let at_most : count p (select q db.entries) ≤ 1 = rw (count-select p q db.entries) (
        omega (
          arith,
          count_if_le (is_one_of batch t) (has_guid feed t) (λ r. q r && p r) db.entries pick,
          sound.unique feed t,
        )) in
      let found : find p (select q db.entries)
          ≡ (if is_one_of batch t then known feed db t else none) =
        find-select p q db.entries
        ∙ find_if (is_one_of batch t) (has_guid feed t) (λ r. q r && p r) db.entries pick in
      put_hashes_lem (select q db.entries) m t at_most
      ∙ rw found (chosen (is_one_of batch t) (known feed db t))
    where
      chosen :
          (b : Bool) (k : Option EntryRow)
          → or_else (if b then k else none) (m t) ≡ (if b then or_else k (m t) else m t)
      chosen true k = refl
      chosen false k = refl

  batch_tombstones :
      (batch : List Text) (m : Text → Bool)
      → put_tombstones (select_tombstones feed batch db) m t
        ≡ ((is_one_of batch t && dead feed db t) || m t)
  unfolding select_tombstones
  batch_tombstones batch m =
      let p = λ (r : TombstoneRow). text_eq r.guid t in
      let q = λ (r : TombstoneRow). eq_ℤ r.feed_id feed && is_one_of batch r.guid in
      let pick = λ (r : TombstoneRow). same_guid batch (eq_ℤ r.feed_id feed) r.guid t in
      let found : exists p (select q db.tombstones) ≡ (is_one_of batch t && dead feed db t) =
        exists-select p q db.tombstones
        ∙ exists_if (is_one_of batch t) (buries feed t) (λ r. q r && p r) db.tombstones pick in
      put_tombstones_lem (select q db.tombstones) m t ∙ rw found refl

-- `new` is `old` with what single lookups find for the GUIDs.
record IsMerged (feed : RowId) (db : Db) (guids : List Text) (old new : Dedup) : Type 0 where
  existing :
      (t : Text)
      → new.existing t
        ≡ (if is_one_of guids t then or_else (known feed db t) (old.existing t) else old.existing t)
  tombstoned :
      (t : Text) → new.tombstoned t ≡ ((is_one_of guids t && dead feed db t) || old.tombstoned t)

module _ (feed : RowId) (db : Db) (sound : IsSound db) where
  abbrev idle : Conn
  idle = record { db = db; faults = [] }

  batch : List Text → Dedup → Dedup
  batch guids d = record {
    existing = put_hashes (select_hashes feed guids db) d.existing;
    tombstoned = put_tombstones (select_tombstones feed guids db) d.tombstoned;
  }

  merged_twice :
      (a b : Bool) (k : Option EntryRow) (m : Option Text)
      → (if b then or_else k (if a then or_else k m else m) else (if a then or_else k m else m))
        ≡ (if a || b then or_else k m else m)
  merged_twice true true none m = refl
  merged_twice true true (some r) m = refl
  merged_twice true false k m = refl
  merged_twice false true k m = refl
  merged_twice false false k m = refl

  batch-IsMerged :
      (n : ℕ) (guids : List Text) (old new : Dedup)
      → IsMerged feed db (drop n guids) (batch (take n guids) old) new
      → IsMerged feed db guids old new
  unfolding batch
  batch-IsMerged n guids old new i = record {
    existing = λ t.
        i.existing t
        ∙ rw (batch_hashes feed db sound t (take n guids) old.existing, is_one_of-split n guids t)
            (merged_twice (is_one_of (take n guids) t) (is_one_of (drop n guids) t)
              (known feed db t) (old.existing t));
    tombstoned = λ t.
        i.tombstoned t
        ∙ rw
            (
              batch_tombstones feed db sound t (take n guids) old.tombstoned,
              is_one_of-split n guids t,
            )
            (ground arith);
  }

  chunks-IsMerged :
      (k : ℕ) (guids : List Text) (old : Dedup)
      → length guids ≤ k
      → (new : Dedup) × (dedup_chunks k feed guids old idle ≡ (done new, idle))
        × IsMerged feed db guids old new
  unfolding dedup_chunks dedup_batch statement ◌>>=◌ batch is_one_of
  chunks-IsMerged zero [] old h =
      (old, refl, record { existing = λ t. refl; tombstoned = λ t. refl })
  chunks-IsMerged zero (g ∷ gs) old h = absurd (omega (arith, h))
  chunks-IsMerged (suc k) [] old h =
      (old, refl, record { existing = λ t. refl; tombstoned = λ t. refl })
  chunks-IsMerged (suc k) (g ∷ gs) old h =
      let shorter = length-drop 499 gs in
      let (new, e, i) =
        chunks-IsMerged k (drop chunk (g ∷ gs)) (batch (take chunk (g ∷ gs)) old)
          (unfold drop in omega (arith, shorter, h)) in
      (new, e, batch-IsMerged chunk (g ∷ gs) old new i)

  -- On a connection that works and sound tables, `EntryDedup` gives what a lookup of each GUID gives,
  -- however many GUIDs there are and wherever the chunks end: the hash of the feed's entry of that
  -- GUID, none without one, and whether the GUID has a tombstone.
  pub entry_dedup_lem :
      (guids : List Text)
      → (d : Dedup) × (entry_dedup feed guids idle ≡ (done d, idle))
        × ((t : Text)
            → is_one_of guids t ≡ true
            → (d.existing t ≡ or_else (find (has_guid feed t) db.entries) none)
              × (d.tombstoned t ≡ exists (buries feed t) db.tombstones))
  unfolding entry_dedup no_dedup
  entry_dedup_lem guids =
      let (d, e, i) = chunks-IsMerged (length guids) guids no_dedup (omega arith) in
      (d, e, λ t h. (i.existing t ∙ rw h refl, i.tombstoned t ∙ rw h (ground arith)))
