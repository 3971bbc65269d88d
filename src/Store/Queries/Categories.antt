-- ===== src/Store/Queries/Categories.antt =====
-- sqlc/categories.sql.go and sqlc/settings.sql.go: the statements on categories and settings.
use bfeed.Base.{ℕ, if◌then◌else◌, Bool, true, not, ◌&&◌, ◌||◌, none, some, List, ◌∷◌, count}
use bfeed.Base.Int.{eq_ℤ}
use bfeed.Base.Text.{Text, text_eq}
use bfeed.Core.Types.{RowId}
use bfeed.Store.Table.{select, update, delete, exists, find, order_by}
use bfeed.Store.Rows.{Db, FeedRow, CategoryRow}
use bfeed.Store.Sql.{SqlResult, unique_failed, foreign_key_failed}
use bfeed.Store.Queries.Entries.{one_row}

abbrev pub is_category : RowId → RowId → CategoryRow → Bool
is_category id user r = eq_ℤ r.id id && eq_ℤ r.user_id user

-- The keys on which a row clashes with a title of the user: UNIQUE (user_id, title), and the index
-- (user_id, title COLLATE NOCASE) of migration 0011; `nocase` is the order of COLLATE NOCASE.
abbrev pub has_title : (Text → Text → Bool) → RowId → Text → CategoryRow → Bool
has_title nocase user title r =
    eq_ℤ r.user_id user && (text_eq r.title title || (nocase r.title title && nocase title r.title))

-- `CreateCategory`; `fresh` is the rowid that SQLite picks.
unfoldable pub create_category :
    (Text → Text → Bool) → (List CategoryRow → RowId) → RowId → Text → Db → SqlResult (RowId × Db)
create_category nocase fresh user title db =
    let id = fresh db.categories in
    if exists (has_title nocase user title) db.categories
    then SqlResult.failed unique_failed
    else if exists (eq_ℤ user) db.users
    then SqlResult.done (
      id,
      record db { categories = record { id = id; user_id = user; title = title } ∷ db.categories },
    )
    else SqlResult.failed foreign_key_failed

-- `GetCategory`
unfoldable pub get_category : RowId → RowId → Db → SqlResult CategoryRow
get_category id user db = one_row (find (is_category id user) db.categories) (λ r. r)

-- `ListCategories`; `nocase` is the order of COLLATE NOCASE.
unfoldable pub list_categories : (Text → Text → Bool) → RowId → Db → SqlResult (List CategoryRow)
list_categories nocase user db =
    SqlResult.done
      (order_by (λ r s. nocase r.title s.title) (select (λ r. eq_ℤ r.user_id user) db.categories))

-- `UpdateCategory`, under the same two keys
unfoldable pub update_category :
    (Text → Text → Bool) → Text → RowId → RowId → Db → SqlResult (ℕ × Db)
update_category nocase title id user db =
    let n = count (is_category id user) db.categories in
    if exists (is_category id user) db.categories
      && exists (λ r. has_title nocase user title r && not (eq_ℤ r.id id)) db.categories
    then SqlResult.failed unique_failed
    else SqlResult.done (
      n,
      record db {
        categories = update (is_category id user) (λ r. record r { title = title }) db.categories;
      },
    )

-- A reference to a deleted category becomes NULL.
unfoldable pub unset_category : (RowId → Bool) → FeedRow → FeedRow
unset_category gone r = record r {
  category_id = elim r.category_id [ none ↦ none | some c ↦ if gone c then none else some c ];
}

-- `DeleteCategory`
unfoldable pub delete_category : RowId → RowId → Db → SqlResult (ℕ × Db)
unfolding unset_category
delete_category id user db =
    let gone = λ (c : RowId). exists (λ r. is_category id user r && eq_ℤ r.id c) db.categories in
    SqlResult.done (
      count (is_category id user) db.categories,
      record db {
        categories = delete (is_category id user) db.categories;
        feeds = update (λ r. true) (unset_category gone) db.feeds;
      },
    )

-- `GetAppSetting`
unfoldable pub get_app_setting : Text → Db → SqlResult Text
get_app_setting key db = one_row (find (λ r. text_eq r.key key) db.settings) (λ r. r.value)

-- `PutAppSetting`, an upsert
unfoldable pub put_app_setting : Text → Text → Db → SqlResult (Unit {0} × Db)
put_app_setting key value db =
    if exists (λ r. text_eq r.key key) db.settings
    then SqlResult.done (
      tt,
      record db {
        settings = update (λ r. text_eq r.key key) (λ r. record r { value = value }) db.settings;
      },
    )
    else SqlResult.done
        (tt, record db { settings = record { key = key; value = value } ∷ db.settings })
