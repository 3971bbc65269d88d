-- ===== src/Store/Listing/Pages.antt =====
-- The pages of `ListEntries`, and the walk along their cursors.
pub mod Keys
use bfeed.Base.{
  ℕ, zero, suc, ◌+◌, ◌-◌, ◌≤◌, ltb, ◌≡◌, ◌⊎◌, refl, sym, ap, ◌∙◌, if◌then◌else◌, Bool, true, false,
  ◌&&◌, ◌||◌, Option, none, some, List, [], ◌∷◌, ◌++◌, map, take, length, Bool-cases, Option-cases,
  inl, inr, arith,
}
use mathlib.Core.Path.{subst}
use bfeed.Base.Int.{ℤ, pos, negsuc, eq_ℤ}
use bfeed.Base.Text.{Text}
use bfeed.Core.Types.{RowId, Entry, Order, Cursor}
use bfeed.Core.Cursor.{cursor_key}
use bfeed.Store.Table.{select, order_by, drop, get_elem?, All}
use bfeed.Store.Table.Order.{
  Pairwise, Pairwise-select, Pairwise-map, All-order_by, append-take-drop, order_by-Sorted,
  select-order_by, select_after,
}
use bfeed.Store.Table.Slices.{
  All-select_self, All-get_elem?, get_elem?-take_more, take-take, take_all, no_more,
  length-drop_of_get, select-select, select_ext, map-take-drop,
}
use bfeed.Store.Rows.{Db, EntryRow}
use bfeed.Store.Sql.{Sql, SqlResult, done, Conn, give, statement, ◌>>=◌}
use bfeed.Store.Entries.{EntryFilter}
use bfeed.Store.Listing.{
  matches, is_listed, is_older, is_member, sort_key, precedes, page_size, listed_rows,
  category_matches, where_set, scan_entry, next_cursor, page, list_entries,
}
use bfeed.Store.Listing.Pages.Keys.{
  precedes_trans, precedes_asym, precedes_total, older_of_precedes, cursor_key-scan_entry,
}

-- `entries.id` is a primary key.
abbrev pub DistinctIds : List EntryRow → Type 0
DistinctIds = Pairwise (λ r s. eq_ℤ r.id s.id ≡ false)

-- The page size is positive.
page_size-suc : (l : ℤ) → (m : ℕ) × (page_size l ≡ suc m)
unfolding page_size
page_size-suc (negsuc n) = (49, refl)
page_size-suc (pos zero) = (49, refl)
page_size-suc (pos (suc n)) = elim (Bool-cases (ltb 200 (suc n))) [
  | inl e ↦ (49, rw e refl)
  | inr e ↦ (n, rw e refl)
]

module _ (user : RowId) (f : EntryFilter) (db : Db) (distinct : DistinctIds db.entries) where
  abbrev rows : List EntryRow
  rows = listed_rows user f db

  -- The filter of the page that starts behind a row.
  abbrev behind : EntryRow → EntryFilter
  behind last = record f { cursor = some (record { key = sort_key f.order last; id = last.id }) }

  comparable :
      (q : EntryRow → Bool)
      → Pairwise
          (λ r s. (precedes f.order r s || precedes f.order s r) ≡ true)
          (select q db.entries)
  comparable q =
      Pairwise-map _ _ _ (precedes_total f.order) (Pairwise-select _ q db.entries distinct)

  listed :
      (n : ℕ) (last : EntryRow)
      → get_elem? rows n ≡ some last
      → is_listed db.feeds user f last ≡ true
  unfolding listed_rows
  listed n last e =
      All-get_elem? _ rows n last
        (All-order_by (precedes f.order) (precedes_trans f.order) (precedes_asym f.order)
          (λ r. is_listed db.feeds user f r ≡ true) _
          (All-select_self (is_listed db.feeds user f) db.entries))
        e

  member : (r : EntryRow) → is_listed db.feeds user f r ≡ true → is_member f.order r ≡ true
  unfolding is_listed matches
  member r h = ground (arith, h)

  still_older :
      (r s : EntryRow)
      → is_listed db.feeds user f r ≡ true
      → precedes f.order r s ≡ true
      → where_set f.cursor (λ c. is_older f.order c.key c.id s) ≡ true
  unfolding is_listed
  still_older r s h k = set f.cursor (ground (arith, h))
    where
      set :
          (c : Option Cursor)
          → where_set c (λ c. is_older f.order c.key c.id r) ≡ true
          → where_set c (λ c. is_older f.order c.key c.id s) ≡ true
      set none p = refl
      set (some c) p = older_of_precedes f.order c.key c.id r s p k

  absorbed : (a b c : Bool) → (c ≡ true → b ≡ true) → ((a && b) && c) ≡ (a && c)
  absorbed a b c h = ground (arith, h)

  same_rows :
      (last : EntryRow)
      → is_listed db.feeds user f last ≡ true
      → (r : EntryRow)
      → (is_listed db.feeds user f r && precedes f.order last r)
        ≡ is_listed db.feeds user (behind last) r
  unfolding is_listed precedes category_matches
  same_rows last h r = absorbed (matches db.feeds user f r) _ _ (still_older last r h)

  -- Behind a row of a listing comes the rest of the listing.
  rest :
      (n : ℕ) (last : EntryRow)
      → get_elem? rows n ≡ some last
      → listed_rows user (behind last) db ≡ drop (suc n) rows
  unfolding listed_rows
  rest n last e =
      let p = is_listed db.feeds user f in
      let q = precedes f.order last in
      let after : select q rows ≡ drop (suc n) rows =
        select_after (precedes f.order) (precedes_trans f.order) (precedes_asym f.order) n rows last
          (order_by-Sorted (precedes f.order) (precedes_trans f.order) (precedes_asym f.order)
            (select p db.entries) (comparable p))
          e in
      let moved : select q rows ≡ order_by (precedes f.order) (select q (select p db.entries)) =
        select-order_by (precedes f.order) (precedes_trans f.order) (precedes_asym f.order) q
          (select p db.entries) (comparable p) in
      let both : select q (select p db.entries)
          ≡ select (is_listed db.feeds user (behind last)) db.entries =
        select-select p q db.entries
        ∙ select_ext _ _ db.entries (same_rows last (listed n last e)) in
      ap (order_by (precedes f.order)) (sym both) ∙ (sym moved ∙ after)

  pred : (m : ℕ) → suc m - 1 ≡ m
  pred m = omega arith

  -- The cursor of a page: none after all rows, else the place of the last row that is shown.
  next_cursor-cases :
      (preview : Text → Text) (m : ℕ)
      → (next_cursor preview f.order (suc m) (take (suc (suc m)) rows) ≡ none)
          × (take (suc m) rows ≡ rows)
        ⊎ (last : EntryRow) × (next_cursor preview f.order (suc m) (take (suc (suc m)) rows)
            ≡ (behind last).cursor)
          × (get_elem? rows m ≡ some last)
  unfolding next_cursor
  next_cursor-cases preview m = elim (Option-cases (get_elem? rows m)) [
    | inl e ↦ inl (rw (no_more m rows e) refl, take_all (suc m) rows (no_more m rows e))
    | inr (last, e) ↦ elim (Bool-cases (ltb (suc m) (length (take (suc (suc m)) rows)))) [
      | inl h ↦ inr (
        last,
        rw
            (
              h,
              pred m,
              get_elem?-take_more m rows,
              e,
              cursor_key-scan_entry preview f.order last (member last (listed m last e)),
            )
            refl,
        e,
      )
      | inr h ↦ inl (rw h refl, take_all (suc m) rows h)
    ]
  ]

module _ (preview : Text → Text) (user : RowId) where
  -- The pages from a filter on, along their cursors, at most so many.
  unfoldable pub walk : ℕ → EntryFilter → Sql (List Entry)
  walk zero f = give []
  walk (suc k) f = list_entries preview user f >>= λ (out, next). elim next [
    | none ↦ give out
    | some c ↦ walk k (record f { cursor = some c }) >>= λ more. give (out ++ more)
  ]

  -- The walk gives each entry that matches the filter once, newest first, whatever the page size:
  -- no page repeats or skips an entry. It needs no more pages than there are such entries, and one.
  pub walk-list_entries :
      (k : ℕ) (f : EntryFilter) (db : Db)
      → DistinctIds db.entries
      → suc (length (listed_rows user f db)) ≤ k
      → walk k f (record { db = db; faults = [] })
        ≡ (done (map (scan_entry preview) (listed_rows user f db)), record { db = db; faults = [] })
  unfolding walk list_entries page statement ◌>>=◌
  walk-list_entries zero f db d h = absurd (omega (arith, h))
  walk-list_entries (suc k) f db d h =
      let (m, size) = page_size-suc f.limit in
      elim (next_cursor-cases user f db d preview m) [
        | inl c ↦ rw (size, c.0, take-take (suc m) (listed_rows user f db), c.1) refl
        | inr (last, next, at) ↦
            let g = behind user f db d last in
            let left : listed_rows user g db ≡ drop (suc m) (listed_rows user f db) =
              rest user f db d m last at in
            let shorter = length-drop_of_get m (listed_rows user f db) last at in
            let bound : suc (length (listed_rows user g db)) ≤ k =
              rw left (omega (arith, shorter, h)) in
            rw
              (
                size,
                next,
                take-take (suc m) (listed_rows user f db),
                walk-list_entries k g db d bound,
                left,
                map-take-drop (scan_entry preview) (suc m) (listed_rows user f db),
              )
              refl
      ]
