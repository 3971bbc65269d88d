-- ===== src/Store/Table.antt =====
-- Tables as lists of rows: what WHERE clauses select, update, delete and count.
pub mod Laws
pub mod Order
pub mod Slices
use bfeed.Base.{
  ℕ, zero, suc, ◌+◌, ◌≡◌, refl, ap, if◌then◌else◌, Bool, true, false, not, ◌&&◌, ◌||◌, Option, none,
  some, List, [], ◌∷◌, ◌++◌, length, count, take, arith,
}
use bfeed.Base.Int.{ℤ, pos, negsuc}

module _ {A : Type 0} where
  -- `SELECT … WHERE p`
  unfoldable pub select : (A → Bool) → List A → List A
  select p [] = []
  select p (r ∷ rs) = let rest = select p rs in if p r then r ∷ rest else rest

  -- `UPDATE … SET f WHERE p`
  unfoldable pub update : (A → Bool) → (A → A) → List A → List A
  update p f [] = []
  update p f (r ∷ rs) = (if p r then f r else r) ∷ update p f rs

  -- `DELETE … WHERE p`
  unfoldable pub delete : (A → Bool) → List A → List A
  delete p rs = select (λ r. not (p r)) rs

  -- `EXISTS (SELECT … WHERE p)`
  unfoldable pub exists : (A → Bool) → List A → Bool
  exists p [] = false
  exists p (r ∷ rs) = p r || exists p rs

  -- The row of a query by a unique key, `:one` for sqlc.
  unfoldable pub find : (A → Bool) → List A → Option A
  find p [] = none
  find p (r ∷ rs) = let rest = find p rs in if p r then some r else rest

  -- Every row is as `P` says.
  abbrev pub All : (A → Type 0) → List A → Type 0
  All P [] = Unit
  All P (r ∷ rs) = P r × All P rs

  -- `ORDER BY`: each row goes before the first one that it may precede.
  unfoldable pub insert : (A → A → Bool) → A → List A → List A
  insert before r [] = r ∷ []
  insert before r (s ∷ ss) =
      let rest = insert before r ss in if before r s then r ∷ s ∷ ss else s ∷ rest

  unfoldable pub order_by : (A → A → Bool) → List A → List A
  unfolding insert
  order_by before [] = []
  order_by before (r ∷ rs) = insert before r (order_by before rs)

  -- `LIMIT`; a negative limit is none.
  unfoldable pub limit_to : ℤ → List A → List A
  limit_to (pos n) rs = take n rs
  limit_to (negsuc n) rs = rs

  -- `rs[n:]` and `rs[n]`
  unfoldable pub drop : ℕ → List A → List A
  drop zero rs = rs
  drop (suc n) [] = []
  drop (suc n) (r ∷ rs) = drop n rs

  unfoldable pub get_elem? : List A → ℕ → Option A
  get_elem? [] n = none
  get_elem? (r ∷ rs) zero = some r
  get_elem? (r ∷ rs) (suc n) = get_elem? rs n
