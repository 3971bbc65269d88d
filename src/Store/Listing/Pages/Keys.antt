-- ===== src/Store/Listing/Pages/Keys.antt =====
-- The order of the pages on pairs of a key and an id, and the key that a cursor takes from an entry.
use bfeed.Base.{
  ℕ, suc, ◌-◌, ◌*◌, ◌/◌, ◌≡◌, ap, Bool, true, false, not, ◌&&◌, ◌||◌, Option, none, some, arith,
}
use bfeed.Base.Int.{ℤ, pos, negsuc, eq_ℤ, ltb_ℤ, sub_ℕ, floor_ℤ, ◌+ℤ◌, ◌-ℤ◌, int_laws}
use bfeed.Base.Text.{Text}
use bfeed.Core.Types.{Order, published_desc, read_at_desc, unix, second}
use bfeed.Core.Cursor.{cursor_key}
use bfeed.Store.Rows.{EntryRow, entry_from_row, ptr_unix, from_unix, times_ℕ}
use bfeed.Store.Listing.{is_older, is_member, sort_key, precedes, scan_entry}

abbrev older : ℤ → ℤ → ℤ → ℤ → Bool
older k i l j = ltb_ℤ l k || (eq_ℤ l k && ltb_ℤ j i)

eq_lem : (a b : ℤ) → eq_ℤ a b ≡ (not (ltb_ℤ a b) && not (ltb_ℤ b a))
eq_lem a b = ground arith

pub older_asym : (k i l j : ℤ) → older k i l j ≡ true → older l j k i ≡ false
older_asym k i l j h = ground (arith, eq_lem k l, eq_lem l k, h)

pub older_trans :
    (k i l j m h : ℤ) → older k i l j ≡ true → older l j m h ≡ true → older k i m h ≡ true
older_trans k i l j m h p q = ground (arith, eq_lem m k, eq_lem l k, eq_lem m l, p, q)

pub older_total : (k i l j : ℤ) → eq_ℤ i j ≡ false → (older k i l j || older l j k i) ≡ true
older_total k i l j n = ground (arith, eq_lem l k, eq_lem k l, eq_lem i j, n)

div_exact : (n : ℕ) → (n * 1_000_000_000) / 1_000_000_000 ≡ n
div_exact n = omega arith

div_below : (n : ℕ) → (suc n * 1_000_000_000 - 1) / 1_000_000_000 ≡ n
div_below n = omega arith

below_zero : (n : ℕ) → sub_ℕ 0 (suc n * second) ≡ negsuc (suc n * second - 1)
below_zero n = ground arith

floor-times : (z : ℤ) → floor_ℤ (times_ℕ z second) second ≡ z
floor-times (pos n) = ap pos (div_exact n)
floor-times (negsuc n) = rw (below_zero n) (ap negsuc (div_below n))

back : (s : ℤ) → (s +ℤ pos 62_135_596_800) -ℤ pos 62_135_596_800 ≡ s
back s = grind int_laws

pub unix-from_unix : (s : ℤ) → unix (from_unix s) ≡ s
unfolding unix from_unix
unix-from_unix s = rw (floor-times (s +ℤ pos 62_135_596_800)) (back s)

-- A cursor takes the column that the page is sorted by.
pub cursor_key-scan_entry :
    (preview : Text → Text) (order : Order) (r : EntryRow)
    → is_member order r ≡ true
    → cursor_key (scan_entry preview r) order ≡ sort_key order r
unfolding cursor_key scan_entry entry_from_row ptr_unix
cursor_key-scan_entry preview published_desc r h = unix-from_unix r.published_at
cursor_key-scan_entry preview read_at_desc r h = key r.read_at h
  where
    key :
        (t : Option ℤ)
        → (elim t [ none ↦ false | some s ↦ true ]) ≡ true
        → (elim (ptr_unix t) [ none ↦ unix (from_unix r.published_at) | some s ↦ unix s ])
          ≡ elim t [ none ↦ pos 0 | some s ↦ s ]
    key none h = cc
    key (some s) h = unix-from_unix s

module _ (order : Order) where
  pub precedes_trans :
      (r s t : EntryRow)
      → precedes order r s ≡ true
      → precedes order s t ≡ true
      → precedes order r t ≡ true
  unfolding precedes
  precedes_trans r s t h k =
      older_trans (sort_key order r) r.id (sort_key order s) s.id (sort_key order t) t.id h k

  pub precedes_asym : (r s : EntryRow) → precedes order r s ≡ true → precedes order s r ≡ false
  unfolding precedes
  precedes_asym r s h = older_asym (sort_key order r) r.id (sort_key order s) s.id h

  pub precedes_total :
      (r s : EntryRow) → eq_ℤ r.id s.id ≡ false → (precedes order r s || precedes order s r) ≡ true
  unfolding precedes
  precedes_total r s h = older_total (sort_key order r) r.id (sort_key order s) s.id h

  pub older_of_precedes :
      (key id : ℤ) (r s : EntryRow)
      → is_older order key id r ≡ true
      → precedes order r s ≡ true
      → is_older order key id s ≡ true
  unfolding precedes
  older_of_precedes key id r s h k =
      older_trans key id (sort_key order r) r.id (sort_key order s) s.id h k
