-- ===== src/Store/Entries/MarkRead.antt =====
-- `MarkReadByFilter`: what it marks, and how many.
use bfeed.Base.{
  ℕ, ◌+◌, ◌≡◌, refl, Bool, true, false, not, ◌&&◌, count, map, if◌then◌else◌, Option, none, some,
  arith,
}
use mathlib.Core.Path.{subst}
use bfeed.Base.Int.{eq_ℤ}
use bfeed.Core.Types.{RowId, Time, read}
use bfeed.Store.Table.{exists, select}
use bfeed.Store.Table.Laws.{
  exists-update_all, exists-ext, update-map, select-update, count-update_all,
}
use bfeed.Store.Rows.{Db, EntryRow, FeedRow, to_unix}
use bfeed.Store.Sql.{SqlResult, Conn}
use bfeed.Store.Sql.Triple.{Triple, After, Triple-statement}
use bfeed.Store.Queries.Feeds.{is_unread}
use bfeed.Store.Entries
use bfeed.Store.Entries.{
  EntryFilter, to_mark, is_selected, mark_read, in_feeds, in_category, is_uncategorised,
}

abbrev pub unread_of : RowId → EntryRow → Bool
unread_of user r = eq_ℤ r.user_id user && is_unread r

-- It is the id of a feed of the user that is as `p` says.
abbrev of_feed : Db → RowId → (FeedRow → Bool) → RowId → Bool
of_feed db user p id = exists (λ f. eq_ℤ f.id id && eq_ℤ f.user_id user && p f) db.feeds

-- A feed of the category, or, for none, of no category.
abbrev has_category : Option RowId → FeedRow → Bool
has_category none f = elim f.category_id [ none ↦ true | some d ↦ false ]
has_category (some c) f = elim f.category_id [ none ↦ false | some d ↦ eq_ℤ d c ]

-- The feeds whose entries a filter names, by its feed, its category and whether it asks for the uncategorised:
-- the feed counts alone, then the category, and without any of them every feed is named.
abbrev named : Db → RowId → Option RowId → Option RowId → Bool → RowId → Bool
named db user (some feed) c u id = eq_ℤ id feed
named db user none (some c) u id = of_feed db user (has_category (some c)) id
named db user none none true id = of_feed db user (has_category none) id
named db user none none false id = true

-- The selection of the filter, read entries included.
abbrev pub in_selection : Db → RowId → EntryFilter → EntryRow → Bool
in_selection db user f r =
    eq_ℤ r.user_id user && named db user f.feed_id f.category_id f.uncategorised r.feed_id

module _ (db : Db) (user : RowId) (r : EntryRow) where
  in_feeds-of_feed : (p : FeedRow → Bool) → in_feeds db.feeds user p r ≡ of_feed db user p r.feed_id
  in_feeds-of_feed p =
      exists-ext _ _ db.feeds (λ f. swapped (eq_ℤ f.user_id user) (p f) (eq_ℤ f.id r.feed_id))
    where
      swapped : (a b c : Bool) → (a && b && c) ≡ (c && a && b)
      swapped a b c = ground arith

  is_selected-cases :
      (feed category : Option RowId) (u : Bool)
      → (elim feed [
        | some id ↦ eq_ℤ r.feed_id id
        | none ↦ elim category [
          | some c ↦ in_feeds db.feeds user (in_category c) r
          | none ↦ if u then in_feeds db.feeds user is_uncategorised r else true
        ]
      ])
        ≡ named db user feed category u r.feed_id
  is_selected-cases (some id) category u = refl
  is_selected-cases none (some c) u = in_feeds-of_feed (in_category c)
  is_selected-cases none none true = in_feeds-of_feed is_uncategorised
  is_selected-cases none none false = refl

  is_selected-named :
      (f : EntryFilter)
      → is_selected db.feeds user f r
        ≡ named db user f.feed_id f.category_id f.uncategorised r.feed_id
  unfolding is_selected
  is_selected-named f = is_selected-cases f.feed_id f.category_id f.uncategorised

-- The rows of the statement, marked as read at the given time.
abbrev pub marked : Db → RowId → EntryFilter → Time → EntryRow → EntryRow
marked db user f now r =
    if in_selection db user f r && is_unread r
    then record r { status = read; read_at = some (to_unix now) }
    else r

-- The test of the statement and those of the result, on whether the row is the user's, unread, and
-- selected, as the code and as the description have it.
module _ (m u s n : Bool) (e : s ≡ n) where
  unmarked : ((m && u) && s) ≡ false → ((m && n) && u) ≡ false
  unmarked h = ground (arith, e, h)

  was_unread : ((m && u) && s) ≡ true → ((m && u) ≡ true) × ((m && false) ≡ false)
  was_unread h = ground (arith, h)

  was_selected : ((m && u) && s) ≡ true → (not (m && n) ≡ false) × (not (m && n) ≡ false)
  was_selected h = ground (arith, e, h)

  now_read : ((m && n) && false) ≡ false
  now_read = ground arith

  same_row :
      (r r' : EntryRow) → (if (m && u) && s then r' else r) ≡ (if (m && n) && u then r' else r)
  same_row r r' = ground (arith, e)

module _ (user : RowId) (f : EntryFilter) (now : Time) (old : Db) where
  pub record IsMarked (n : ℕ) (db : Db) : Type 0 where
    none_left : exists (λ r. in_selection old user f r && is_unread r) db.entries ≡ false
    unread : count (unread_of user) db.entries + n ≡ count (unread_of user) old.entries
    entries : db.entries ≡ map (marked old user f now) old.entries
    others :
        select (λ r. not (in_selection old user f r)) db.entries
        ≡ select (λ r. not (in_selection old user f r)) old.entries
    feeds : db.feeds ≡ old.feeds

  mark_read_by_filter-Triple :
      Triple (λ db. db ≡ old) IsMarked (λ db. db ≡ old) (Entries.mark_read_by_filter now user f)
  unfolding Entries.mark_read_by_filter mark_read to_mark
  mark_read_by_filter-Triple =
      let chosen = λ (r : EntryRow). is_selected-named old user r f in
      Triple-statement _ (λ db e. e)
        (λ db e. rw e (record {
          none_left =
              exists-update_all (λ r. in_selection old user f r && is_unread r)
                (to_mark old.feeds user f) (mark_read now) old.entries
                (λ r h. now_read (eq_ℤ r.user_id user) (is_unread r) _ _ (chosen r))
                (λ r h. unmarked (eq_ℤ r.user_id user) (is_unread r) _ _ (chosen r) h);
          unread =
              count-update_all (unread_of user) (to_mark old.feeds user f) (mark_read now)
                old.entries
                (λ r h. was_unread (eq_ℤ r.user_id user) (is_unread r) _ _ (chosen r) h);
          entries =
              update-map (to_mark old.feeds user f) (mark_read now) (marked old user f now)
                old.entries (λ r. same_row (eq_ℤ r.user_id user) (is_unread r) _ _ (chosen r) r _);
          others =
              select-update (λ r. not (in_selection old user f r)) (to_mark old.feeds user f)
                (mark_read now) old.entries
                (λ r h. was_selected (eq_ℤ r.user_id user) (is_unread r) _ _ (chosen r) h);
          feeds = refl;
        }))

-- A successful `MarkReadByFilter` marks the user's unread entries of the selection (one feed, else one
-- category of the user's feeds, else the user's feeds without one, else all) as read at the given time,
-- and leaves none of them unread. The user's unread count goes down by what it returns, and every other
-- entry, one outside the selection among them, is as it was.
pub mark_read_by_filter-IsMarked :
    (now : Time) (user : RowId) (f : EntryFilter) (c d : Conn) (n : ℕ)
    → Entries.mark_read_by_filter now user f c ≡ (SqlResult.done n, d)
    → IsMarked user f now c.db n d.db
mark_read_by_filter-IsMarked now user f c d n h =
    subst (After (IsMarked user f now c.db) (λ db. db ≡ c.db)) h
      ((mark_read_by_filter-Triple user f now c.db).at c refl)
