-- ===== src/Store/Memory.antt =====
-- internal/core/coretest/memstore.go: the store in memory that mirrors the SQLite store, with what a
-- poll and the deletions do.
pub mod Views
pub mod Refinement
use bfeed.Base.{
  ◌≡◌, if◌then◌else◌, Bool, true, false, not, ◌&&◌, Option, none, some, List, [], ◌∷◌, ◌++◌,
}
use bfeed.Base.Int.{ℤ, pos, eq_ℤ, ◌+ℤ◌}
use bfeed.Base.Text.{Text, text_eq}
use bfeed.Core.Types.{
  RowId, Time, Feed, Entry, ExtractState, idle, pending, done, Result, ok, err, Error, Sentinel,
  not_found, conflict,
}
use bfeed.Store.Table.{exists, find, delete}

-- `MemStore` but for the categories and the settings. The maps from ids are the lists of their
-- values, in the order of an iteration.
pub record MemStore : Type 0 where
  pub feeds : List Feed
  pub entries : List Entry
  pub tombstones : RowId → Text → Bool
  pub next_extract : RowId → Option Time
  pub next_id : RowId

abbrev pub of_key : RowId → Text → Entry → Bool
of_key feed guid e = eq_ℤ e.feed_id feed && text_eq e.guid guid

abbrev pub full_content : RowId → List Feed → Option Feed
full_content feed fs = find (λ f. eq_ℤ f.id feed) fs

abbrev pub is_pending : ExtractState → Bool
is_pending pending = true
is_pending _ = false

abbrev pub is_extracted : ExtractState → Bool
is_extracted s = elim s [ done ↦ true | _ ↦ false ]

-- The pointer `existing` is to the first entry that the iteration finds.
unfoldable pub change_first : {A : Type 0} → (A → Bool) → (A → A) → List A → List A
change_first p f [] = []
change_first p f (x ∷ xs) = let rest = change_first p f xs in if p x then f x ∷ xs else x ∷ rest

unfoldable pub overwrite : Entry → Entry → Entry
overwrite e existing = if text_eq existing.hash e.hash then existing else record existing {
  title = e.title;
  author = e.author;
  content = if is_extracted existing.extract_state then existing.content else e.content;
  summary = e.summary;
  published_at = e.published_at;
  url = e.url;
  hash = e.hash;
  comments_url = e.comments_url;
}

-- `cp`
abbrev pub copied : RowId → RowId → ExtractState → Entry → Entry
copied id feed state e = record e { id = id; feed_id = feed; extract_state = state }

unfoldable pub add_entry : RowId → ExtractState → Entry → MemStore → MemStore
unfolding ◌+ℤ◌
add_entry feed state e m = record m {
  next_id = m.next_id +ℤ pos 1;
  entries = copied m.next_id feed state e ∷ m.entries;
  next_extract =
      λ id. if eq_ℤ m.next_id id && is_pending state then some e.created_at else m.next_extract id;
}

-- One round of the loop, with the entries it inserts.
unfoldable pub upsert_one : RowId → ExtractState → Entry → MemStore → List Entry × MemStore
unfolding add_entry
upsert_one feed state e m =
    if m.tombstones feed e.guid then ([], m) else elim (find (of_key feed e.guid) m.entries) [
      | some existing ↦
          ([], record m { entries = change_first (of_key feed e.guid) (overwrite e) m.entries })
      | none ↦ (copied m.next_id feed state e ∷ [], add_entry feed state e m)
    ]

unfoldable pub upsert_loop : RowId → ExtractState → List Entry → MemStore → List Entry × MemStore
unfolding upsert_one
upsert_loop feed state [] m = ([], m)
upsert_loop feed state (e ∷ es) m =
    let r = upsert_one feed state e m in let s = upsert_loop feed state es r.1 in (r.0 ++ s.0, s.1)

abbrev pub state_of : Bool → ExtractState
state_of on = if on then pending else idle

-- `UpsertEntries`
unfoldable pub upsert_entries : RowId → List Entry → MemStore → List Entry × MemStore
unfolding upsert_loop
upsert_entries feed es m = elim (full_content feed m.feeds) [
  | none ↦ ([], m)
  | some f ↦ upsert_loop feed (state_of f.fetch_full_content) es m
]
