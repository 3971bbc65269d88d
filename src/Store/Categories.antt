-- ===== src/Store/Categories.antt =====
-- categories.go and settings.go: the operations on categories and settings.
pub mod Creation
use bfeed.Base.{Bool, List, map}
use bfeed.Base.Text.{Text}
use bfeed.Core.Types.{RowId, Category}
use bfeed.Store.Rows.{CategoryRow, category_from_row}
use bfeed.Store.Sql.{Sql, give, query, statement, ◌>>=◌}
use bfeed.Store.Feeds.{affected}
use bfeed.Store.Queries.Categories

unfoldable pub create_category :
    (Text → Text → Bool) → (List CategoryRow → RowId) → Category → Sql RowId
create_category nocase fresh c =
    statement (Categories.create_category nocase fresh c.user_id c.title)

unfoldable pub get_category : RowId → RowId → Sql Category
get_category user id = query (Categories.get_category id user) >>= λ r. give (category_from_row r)

unfoldable pub list_categories : (Text → Text → Bool) → RowId → Sql (List Category)
list_categories nocase user =
    query (Categories.list_categories nocase user) >>= λ rs. give (map category_from_row rs)

unfoldable pub update_category : (Text → Text → Bool) → Category → Sql (Unit {0})
unfolding affected
update_category nocase c =
    statement (Categories.update_category nocase c.title c.id c.user_id) >>= affected

unfoldable pub delete_category : RowId → RowId → Sql (Unit {0})
unfolding affected
delete_category user id = statement (Categories.delete_category id user) >>= affected

unfoldable pub get_setting : Text → Sql Text
get_setting key = query (Categories.get_app_setting key)

unfoldable pub put_setting : Text → Text → Sql (Unit {0})
put_setting key value = statement (Categories.put_app_setting key value)
