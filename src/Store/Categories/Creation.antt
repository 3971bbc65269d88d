-- ===== src/Store/Categories/Creation.antt =====
-- The category service over the store: what `Create` does on every branch.
use bfeed.Base.{
  ◌≡◌, ◌⊎◌, refl, some, ◌∷◌, inl, inr, Bool, true, false, not, ◌&&◌, ◌||◌, List, [], Bool-cases,
}
use bfeed.Base.Int.{eq_ℤ, eq_ℤ-refl}
use bfeed.Base.Text.{Text, text_eq, is_empty, codes}
use bfeed.Base.Exec
use bfeed.Base.Exec.{Step, returned}
use bfeed.Core.Types.{RowId, Category, Result, ok, err}
use bfeed.Core.Ports.{Strings}
use bfeed.Core.Category.{CategoryStore, create, get}
use bfeed.Core.Feed.Poll.{invalid}
use bfeed.Store.Table.{exists, find}
use bfeed.Store.Rows.{Db, CategoryRow, category_from_row}
use bfeed.Store.Sql.{
  Conn, SqlResult, run, mapped, map_err, unique_failed, statement, faulty, applied,
}
use bfeed.Store.Sql
use bfeed.Store.Queries
use bfeed.Store.Queries.Categories.{is_category}
use bfeed.Store.Categories

-- A connection on which no statement fails.
abbrev pub working : Db → Conn
working db = record { db = db; faults = [] }

module _ (nocase : Text → Text → Bool) (fresh : List CategoryRow → RowId) where
  unfoldable pub sqlite_categories : CategoryStore Conn
  sqlite_categories = record {
    create_category = λ c. run (Categories.create_category nocase fresh c);
    get_category = λ user id. run (Categories.get_category user id);
    list_categories = λ user. run (Categories.list_categories nocase user);
    update_category = λ c. run (Categories.update_category nocase c);
    delete_category = λ user id. run (Categories.delete_category user id);
  }

  -- The title is the user's already: the same text, or the same text but for letters that differ in case,
  -- so that neither comes strictly before the other.
  abbrev pub is_taken : RowId → Text → CategoryRow → Bool
  is_taken user t r =
      eq_ℤ r.user_id user && (text_eq r.title t || (nocase r.title t && nocase t r.title))

  -- What a category's creation comes to, with a title that is trimmed.
  pub record IsCreated (user : RowId) (t : Text) (db : Db) (r : Step (Result Category) × Conn)
      : Type 0 where
    not_blank : is_empty t ≡ false
    new : exists (is_taken user t) db.categories ≡ false
    category : Category
    after : Db
    result : r ≡ (returned (ok category), working after)
    title : category.title ≡ t
    added : after ≡ record db {
      categories = record { id = category.id; user_id = user; title = t } ∷ db.categories;
    }
    readable :
        (strings : Strings)
        → get strings sqlite_categories user category.id (working after)
          ≡ (returned (ok category), working after)

  found_first :
      (user id : RowId) (t : Text) (cs : List CategoryRow)
      → find (is_category id user) (record { id = id; user_id = user; title = t } ∷ cs)
        ≡ some (record { id = id; user_id = user; title = t })
  unfolding find
  found_first user id t cs = rw (eq_ℤ-refl id, eq_ℤ-refl user) refl

  -- `Create` on a working connection: a blank title is refused and a title that the user has already, in
  -- whatever case of its letters, is a conflict, as is a user that does not exist, all three without a change of the tables; otherwise just the
  -- category with the trimmed title is added, and `Get` finds it.
  pub create_lem :
      (strings : Strings) (user : RowId) (title : Text) (db : Db)
      → (is_empty (strings.trim_space title) ≡ true
          × (create strings sqlite_categories user title (working db)
              ≡ (returned (err (invalid (codes "category title required"))), working db)))
        ⊎ ((exists (is_taken user (strings.trim_space title)) db.categories
              || not (exists (eq_ℤ user) db.users))
            ≡ true)
          × (create strings sqlite_categories user title (working db)
              ≡ (returned (err (map_err unique_failed)), working db))
        ⊎ IsCreated user
            (strings.trim_space title)
            db
            (create strings sqlite_categories user title (working db))
  unfolding create get sqlite_categories run mapped map_err Categories.create_category
      Categories.get_category Queries.Categories.create_category Queries.Categories.get_category
      category_from_row statement faulty applied Sql.◌>>=◌ Exec.◌>>=◌
  create_lem strings user title db =
      let t = strings.trim_space title in
      elim (Bool-cases (is_empty t)) [
        | inl blank ↦ inl (blank, rw blank refl)
        | inr e ↦ elim (Bool-cases (exists (is_taken user t) db.categories)) [
          | inl h ↦ inr (inl (rw h refl, rw (e, h) refl))
          | inr h ↦ elim (Bool-cases (exists (eq_ℤ user) db.users)) [
            | inr u ↦ inr (inl (rw (h, u) refl, rw (e, h, u) refl))
            | inl u ↦
                let row : CategoryRow = record {
                  id = fresh db.categories;
                  user_id = user;
                  title = t;
                } in
                inr (
                  inr (record {
                    not_blank = e;
                    new = h;
                    category = category_from_row row;
                    after = record db { categories = row ∷ db.categories };
                    result = rw (e, h, u) refl;
                    title = refl;
                    added = refl;
                    readable =
                        λ w. rw (found_first user (fresh db.categories) t db.categories) refl;
                  }))
          ]
        ]
      ]
