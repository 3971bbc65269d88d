-- ===== src/Store/Memory/Refinement.antt =====
-- `UpsertEntries` of the SQLite store does what that of the store in memory does.
pub mod Keys
pub mod Steps
pub mod Rounds
use mathlib.Core.Option
use bfeed.Base.{
  ◌≡◌, refl, ◌∙◌, ap, Bool, true, false, Option, none, some, List, [], ◌∷◌, ◌++◌, map, Option-cases,
  inl, inr, arith,
}
use bfeed.Base.Int.{ℤ, pos, eq_ℤ}
use bfeed.Core.Types.{RowId, Entry, Feed, ExtractState}
use bfeed.Store.Table.{find, All}
use bfeed.Store.Rows.{Db, FeedRow}
use bfeed.Store.Sql.{Conn}
use bfeed.Store.Sql.Triple.{
  Triple, After, Triple-give, Triple-bind, Triple-with, Triple-transaction_or, OrEarly,
}
use bfeed.Store.Queries.Entries.{get_feed_full_content}
use bfeed.Store.Upsert
use bfeed.Store.Upsert.{Sqlite, upsert_all, upsert_into, insert_state}
use bfeed.Store.Upsert.Steps.{Anything, FoundOption, Triple-lookup}
use bfeed.Store.Memory.{MemStore, full_content, upsert_one, upsert_loop, upsert_entries, state_of}
use bfeed.Store.Memory.Views.{View, entry_view}
use bfeed.Store.Memory.Refinement.Keys.{Agrees, IsNew}
use bfeed.Store.Memory.Refinement.Rounds.{Ends, IsFresh, upsert_entry-Triple}

map-append : {A B : Type 0} (f : A → B) (xs ys : List A) → map f (xs ++ ys) ≡ map f xs ++ map f ys
map-append f [] ys = refl
map-append f (x ∷ xs) ys = ap (λ zs. f x ∷ zs) (map-append f xs ys)

both :
    {A B C : Type 0} (f : A → C) (g : B → C) (xs ys : List A) (zs ws : List B)
    → map f xs ≡ map g zs
    → map f ys ≡ map g ws
    → map f (xs ++ ys) ≡ map g (zs ++ ws)
both f g xs ys zs ws h k = rw (map-append f xs ys, map-append g zs ws, h, k) refl

module _ (lib : Sqlite) (a b u : RowId) (fresh : IsFresh lib) where
  upsert_all-Triple :
      (state : ExtractState) (es : List Entry)
      → All (IsNew u) es
      → (m : MemStore)
      → Triple
          (λ db. Agrees a b u db m)
          (Ends a b u (upsert_loop b state es m))
          Anything
          (upsert_all lib a state es)
  unfolding upsert_all upsert_loop Ends
  upsert_all-Triple state [] new m = Triple-give [] (λ db s. (refl, s))
  upsert_all-Triple state (e ∷ es) (new, news) m =
      let one = upsert_one b state e m in
      let rest = upsert_loop b state es one.1 in
      Triple-bind _ _ (upsert_entry-Triple lib a b u fresh state e new m) λ is. Triple-with _ λ h.
        Triple-bind _ _ (upsert_all-Triple state es news one.1)
          λ js. Triple-give _ (λ db (k, s). (both entry_view entry_view is js one.0 rest.0 h k, s))

  module _ (es : List Entry) (new : All (IsNew u) es) (m : MemStore) where
    -- The feed in memory for what the query gives.
    abbrev HasFeed : Option ℤ → Type 0
    HasFeed o =
        Option.map (λ n. eq_ℤ n (pos 1)) o
        ≡ Option.map (λ f. f.fetch_full_content) (full_content b m.feeds)

    abbrev Start : Option ℤ → Db → Type 0
    Start o db = HasFeed o × Agrees a b u db m

    found :
        (db : Db) → Agrees a b u db m → FoundOption (λ o. Start o db) (get_feed_full_content a db)
    unfolding get_feed_full_content
    found db s = elim (Option-cases (find (λ f. eq_ℤ f.id a) db.feeds)) [
      | inl h ↦ let k = s.feed in rw (h, get_feed_full_content) (rw (← k, h) refl, s)
      | inr (r, h) ↦ let k = s.feed in rw (h, get_feed_full_content) (rw (← k, h) refl, s)
    ]

    of_none : HasFeed none → upsert_entries b es m ≡ ([], m)
    unfolding upsert_entries
    of_none h = elim (Option-cases (full_content b m.feeds)) [
      | inl k ↦ rw (k, upsert_entries) refl
      | inr (f, k) ↦ absurd (ground (arith, h, k))
    ]

    of_some :
        (n : ℤ) → HasFeed (some n) → upsert_entries b es m ≡ upsert_loop b (insert_state n) es m
    unfolding upsert_entries insert_state
    of_some n h = elim (Option-cases (full_content b m.feeds)) [
      | inl k ↦ absurd (ground (arith, h, k))
      | inr (f, k) ↦
          let on : eq_ℤ n (pos 1) ≡ f.fetch_full_content = ground (arith, h, k) in
          rw (k, on, upsert_entries, insert_state) refl
    ]

    upsert_into-Triple :
        (o : Option ℤ)
        → Triple
            (Start o)
            (OrEarly (HasFeed none) (Ends a b u (upsert_entries b es m)))
            Anything
            (upsert_into lib a es o)
    unfolding upsert_into Ends
    upsert_into-Triple none = Triple-give none (λ db (h, s). h)
    upsert_into-Triple (some n) = Triple-with _ λ h.
        Triple-bind _ _ (upsert_all-Triple (insert_state n) es new m)
          λ is. Triple-give (some is) (λ db q. rw (of_some n h) q)

    -- Where the table and the store in memory agree on a feed, and the entries are as a poll makes
    -- them: if the transaction succeeds, it returns entries of the same content, and the two agree on
    -- the feed again, on which GUIDs have a tombstone and on what each of its entries holds; if it
    -- fails, the tables are as before.
    pub upsert_entries-refines :
        (c : Conn)
        → Agrees a b u c.db m
        → After
            (Ends a b u (upsert_entries b es m))
            (λ db. db ≡ c.db)
            (Upsert.upsert_entries lib a es c)
    unfolding bfeed.Store.Upsert.upsert_entries Ends
    upsert_entries-refines c s =
        (Triple-transaction_or {P = λ db. (db ≡ c.db) × Agrees a b u db m}
            {Q = Ends a b u (upsert_entries b es m)} [] _ (λ db p. p.0)
            (λ db h p. rw (of_none h) (refl, p.1))
            (Triple-bind _ _ (Triple-lookup _ (λ db p. found db p.1)) upsert_into-Triple)).at
          c (refl, s)
