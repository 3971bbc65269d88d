-- ===== src/Core/Category.antt =====
-- internal/core/category.go: the category service.
use bfeed.Base.{if◌then◌else◌, List}
use bfeed.Base.Text.{Text, is_empty, codes}
use bfeed.Base.Exec.{Exec, pure, ◌>>=◌}
use bfeed.Core.Types.{RowId, Category, Result, ok, err}
use bfeed.Core.Ports.{Strings}
use bfeed.Core.Feed.Poll.{invalid}
use bfeed.Base.Int.{pos}

-- The port `CategoryStore`, but for the unread counts.
pub record CategoryStore (S : Type 0) : Type 0 where
  pub create_category : Category → Exec S (Result RowId)
  pub get_category : RowId → RowId → Exec S (Result Category)
  pub list_categories : RowId → Exec S (Result (List Category))
  pub update_category : Category → Exec S (Result (Unit {0}))
  pub delete_category : RowId → RowId → Exec S (Result (Unit {0}))

abbrev pub with_id : Category → Result RowId → Result Category
with_id c (ok id) = ok (record c { id = id })
with_id c (err e) = err e

module _ {S : Type 0} (strings : Strings) (store : CategoryStore S) where
  new_category : RowId → Text → Category
  new_category user title = record { id = pos 0; user_id = user; title = title }

  -- `Create`
  unfoldable pub create : RowId → Text → Exec S (Result Category)
  unfolding new_category
  create user title =
      let t = strings.trim_space title in
      if is_empty t then pure (err (invalid (codes "category title required"))) else do
        r ← store.create_category (new_category user t)
        pure (with_id (new_category user t) r)

  -- `Rename`
  unfoldable pub rename : RowId → RowId → Text → Exec S (Result (Unit {0}))
  rename user id title =
      let t = strings.trim_space title in
      if is_empty t
      then pure (err (invalid (codes "category title required")))
      else store.update_category (record { id = id; user_id = user; title = t })

  -- `List`, `Get`, `Delete`
  unfoldable pub list : RowId → Exec S (Result (List Category))
  list user = store.list_categories user

  unfoldable pub get : RowId → RowId → Exec S (Result Category)
  get user id = store.get_category user id

  unfoldable pub delete : RowId → RowId → Exec S (Result (Unit {0}))
  delete user id = store.delete_category user id
