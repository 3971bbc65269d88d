-- ===== src/Store/Table/Laws.antt =====
-- How what WHERE clauses find changes with the tables.
use bfeed.Base.{
  ◌+◌, ◌≤◌, ◌≡◌, refl, if◌then◌else◌, Bool, true, false, not, ◌&&◌, ◌||◌, some, List, [], ◌∷◌, ◌++◌,
  map, count, arith,
}
use mathlib.Core.Path.{ap₂}
use bfeed.Store.Table.{select, update, delete, exists, find}

module _ {A : Type 0} where
  pub update_of_none :
      (p : A → Bool) (f : A → A) (rs : List A) → count p rs ≡ 0 → update p f rs ≡ rs
  unfolding update
  update_of_none p f [] h = refl
  update_of_none p f (r ∷ rs) h = ground (arith, update_of_none p f rs)

  pub delete_of_none : (p : A → Bool) (rs : List A) → count p rs ≡ 0 → delete p rs ≡ rs
  unfolding delete select
  delete_of_none p [] h = refl
  delete_of_none p (r ∷ rs) h = ground (arith, delete_of_none p rs)

  pub exists-select :
      (p q : A → Bool) (rs : List A) → exists p (select q rs) ≡ exists (λ r. q r && p r) rs
  unfolding exists select
  exists-select p q [] = refl
  exists-select p q (r ∷ rs) = ground (arith, exists-select p q rs)

  pub exists-append :
      (p : A → Bool) (rs ss : List A) → exists p (rs ++ ss) ≡ (exists p rs || exists p ss)
  unfolding exists
  exists-append p [] ss = refl
  exists-append p (r ∷ rs) ss = ground (arith, exists-append p rs ss)

  -- An update that leaves the test alone leaves its answer alone.
  pub exists-update :
      (p q : A → Bool) (f : A → A) (rs : List A)
      → ((r : A) → p (f r) ≡ p r)
      → exists p (update q f rs) ≡ exists p rs
  unfolding exists update
  exists-update p q f [] h = refl
  exists-update p q f (r ∷ rs) h = ground (arith, h r, exists-update p q f rs h)

  pub count-update :
      (p q : A → Bool) (f : A → A) (rs : List A)
      → ((r : A) → p (f r) ≡ p r)
      → count p (update q f rs) ≡ count p rs
  unfolding update
  count-update p q f [] h = refl
  count-update p q f (r ∷ rs) h = ground (arith, h r, count-update p q f rs h)

  pub count-select-le : (p q : A → Bool) (rs : List A) → count p (select q rs) ≤ count p rs
  unfolding select
  count-select-le p q [] = omega arith
  count-select-le p q (r ∷ rs) = ground (arith, count-select-le p q rs)

  pub count_of_not_exists : (p : A → Bool) (rs : List A) → exists p rs ≡ false → count p rs ≡ 0
  unfolding exists
  count_of_not_exists p [] h = refl
  count_of_not_exists p (r ∷ rs) h = ground (arith, count_of_not_exists p rs)

  pub not_exists_of_count : (p : A → Bool) (rs : List A) → count p rs ≡ 0 → exists p rs ≡ false
  unfolding exists
  not_exists_of_count p [] h = refl
  not_exists_of_count p (r ∷ rs) h = ground (arith, not_exists_of_count p rs)

  pub not_exists-select :
      (p q : A → Bool) (rs : List A) → exists p rs ≡ false → exists p (select q rs) ≡ false
  unfolding exists select
  not_exists-select p q [] h = refl
  not_exists-select p q (r ∷ rs) h = ground (arith, not_exists-select p q rs)

  -- What is found passes the test, and is there.
  pub find_lem :
      (p q : A → Bool) (rs : List A) (r : A)
      → find p rs ≡ some r
      → (p r ≡ true) × (q r ≡ true → exists q rs ≡ true)
  unfolding find exists
  find_lem p q [] r h = cc
  find_lem p q (s ∷ rs) r h = ground (arith, find_lem p q rs r)

  -- Deleting the only row with a property leaves none.
  pub exists-delete_only :
      (p q : A → Bool) (rs : List A) (r : A)
      → find q rs ≡ some r
      → p r ≡ true
      → count p rs ≤ 1
      → exists p (delete q rs) ≡ false
  unfolding find exists delete select
  exists-delete_only p q [] r h e u = refl
  exists-delete_only p q (s ∷ rs) r h e u = ground (
    arith,
    exists-delete_only p q rs r,
    find_lem q p rs r,
    not_exists_of_count p rs,
    not_exists-select p (λ t. not (q t)) rs,
  )

  -- The rows that an update leaves alone are as they were.
  pub select-update :
      (p q : A → Bool) (f : A → A) (rs : List A)
      → ((r : A) → q r ≡ true → (p r ≡ false) × (p (f r) ≡ false))
      → select p (update q f rs) ≡ select p rs
  unfolding select update
  select-update p q f [] h = refl
  select-update p q f (r ∷ rs) h = ground (arith, h r, select-update p q f rs h)

  -- An update, row by row.
  pub update-map :
      (p : A → Bool) (f g : A → A) (rs : List A)
      → ((r : A) → (if p r then f r else r) ≡ g r)
      → update p f rs ≡ map g rs
  unfolding update
  update-map p f g [] h = refl
  update-map p f g (r ∷ rs) h = ap₂ (λ s ss. s ∷ ss) (h r) (update-map p f g rs h)

  pub exists-ext :
      (p q : A → Bool) (rs : List A) → ((r : A) → p r ≡ q r) → exists p rs ≡ exists q rs
  unfolding exists
  exists-ext p q [] h = refl
  exists-ext p q (r ∷ rs) h = ap₂ (λ a b. a || b) (h r) (exists-ext p q rs h)

  -- A test that never holds deletes nothing, and an update that changes no row changes nothing.
  pub delete_of_never : (p : A → Bool) (rs : List A) → ((r : A) → p r ≡ false) → delete p rs ≡ rs
  unfolding delete select
  delete_of_never p [] h = refl
  delete_of_never p (r ∷ rs) h = ground (arith, h r, delete_of_never p rs h)

  pub update_of_fixed :
      (p : A → Bool) (f : A → A) (rs : List A) → ((r : A) → f r ≡ r) → update p f rs ≡ rs
  unfolding update
  update_of_fixed p f [] h = refl
  update_of_fixed p f (r ∷ rs) h = ground (arith, h r, update_of_fixed p f rs h)

  pub not_exists-and :
      (p q : A → Bool) (rs : List A) → exists p rs ≡ false → exists (λ r. p r && q r) rs ≡ false
  unfolding exists
  not_exists-and p q [] h = refl
  not_exists-and p q (r ∷ rs) h = ground (arith, not_exists-and p q rs)

  -- An update after which no row passes a test that only its rows passed.
  pub exists-update_all :
      (p q : A → Bool) (f : A → A) (rs : List A)
      → ((r : A) → q r ≡ true → p (f r) ≡ false)
      → ((r : A) → q r ≡ false → p r ≡ false)
      → exists p (update q f rs) ≡ false
  unfolding exists update
  exists-update_all p q f [] h k = refl
  exists-update_all p q f (r ∷ rs) h k = ground (arith, h r, k r, exists-update_all p q f rs h k)

module _ {A B : Type 0} where
  -- What an update leaves of a view of the rows that it does not change.
  pub map-update :
      (g : A → B) (p : A → Bool) (f : A → A) (rs : List A)
      → ((r : A) → g (f r) ≡ g r)
      → map g (update p f rs) ≡ map g rs
  unfolding update
  map-update g p f [] h = refl
  map-update g p f (r ∷ rs) h = ground (arith, h r, map-update g p f rs h)

module _ {A : Type 0} where
  -- An update after which its rows no longer pass a test takes their number off its count.
  pub count-update_all :
      (p q : A → Bool) (f : A → A) (rs : List A)
      → ((r : A) → q r ≡ true → (p r ≡ true) × (p (f r) ≡ false))
      → count p (update q f rs) + count q rs ≡ count p rs
  unfolding update
  count-update_all p q f [] h = omega arith
  count-update_all p q f (r ∷ rs) h = ground (arith, h r, count-update_all p q f rs h)
