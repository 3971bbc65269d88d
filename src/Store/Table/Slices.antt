-- ===== src/Store/Table/Slices.antt =====
-- Slices of sorted rows, and selections of selections.
use bfeed.Base.{
  ℕ, zero, suc, ◌≤◌, ◌≡◌, refl, ap, Bool, true, false, ◌&&◌, none, some, List, [], ◌∷◌, ◌++◌, map,
  length, take, ltb, Bool-cases, inl, inr, arith, count, if◌then◌else◌,
}
use mathlib.Core.Path.{subst}
use bfeed.Store.Table.{select, find, exists, All, drop, get_elem?}

module _ {A : Type 0} where
  pub All-select_self : (q : A → Bool) (rs : List A) → All (λ r. q r ≡ true) (select q rs)
  unfolding select
  All-select_self q [] = tt
  All-select_self q (r ∷ rs) = elim (Bool-cases (q r)) [
    | inl e ↦ rw e (e, All-select_self q rs)
    | inr e ↦ rw e (All-select_self q rs)
  ]

  pub All-get_elem? :
      (P : A → Type 0) (rs : List A) (n : ℕ) (l : A) → All P rs → get_elem? rs n ≡ some l → P l
  unfolding get_elem?
  All-get_elem? P [] n l h e = absurd cc
  All-get_elem? P (r ∷ rs) zero l h e = let same : r ≡ l = cc in subst P same h.0
  All-get_elem? P (r ∷ rs) (suc n) l h e = All-get_elem? P rs n l h.1 e

  pub get_elem?-take : (m : ℕ) (rs : List A) → get_elem? (take (suc m) rs) m ≡ get_elem? rs m
  unfolding get_elem?
  get_elem?-take m [] = refl
  get_elem?-take zero (r ∷ rs) = refl
  get_elem?-take (suc m) (r ∷ rs) = get_elem?-take m rs

  pub get_elem?-take_more :
      (m : ℕ) (rs : List A) → get_elem? (take (suc (suc m)) rs) m ≡ get_elem? rs m
  unfolding get_elem?
  get_elem?-take_more m [] = refl
  get_elem?-take_more zero (r ∷ rs) = refl
  get_elem?-take_more (suc m) (r ∷ rs) = get_elem?-take_more m rs

  pub take-take : (n : ℕ) (rs : List A) → take n (take (suc n) rs) ≡ take n rs
  take-take zero rs = refl
  take-take (suc n) [] = refl
  take-take (suc n) (r ∷ rs) = ap (λ ss. r ∷ ss) (take-take n rs)

  -- Where one row more than `n` is asked for and not given, `n` are all.
  pub take_all : (n : ℕ) (rs : List A) → ltb n (length (take (suc n) rs)) ≡ false → take n rs ≡ rs
  take_all zero [] h = refl
  take_all zero (r ∷ rs) h = absurd (ground (arith, h))
  take_all (suc n) [] h = refl
  take_all (suc n) (r ∷ rs) h = ap (λ ss. r ∷ ss) (take_all n rs (ground (arith, h)))

  pub length-drop : (n : ℕ) (rs : List A) → length (drop n rs) ≤ length rs
  unfolding drop
  length-drop zero rs = omega arith
  length-drop (suc n) [] = omega arith
  length-drop (suc n) (r ∷ rs) = omega (arith, length-drop n rs)

  -- What follows a row is shorter.
  pub length-drop_of_get :
      (n : ℕ) (rs : List A) (l : A)
      → get_elem? rs n ≡ some l
      → suc (length (drop (suc n) rs)) ≤ length rs
  unfolding drop get_elem?
  length-drop_of_get n [] l e = absurd cc
  length-drop_of_get zero (r ∷ rs) l e = omega arith
  length-drop_of_get (suc n) (r ∷ rs) l e = omega (arith, length-drop_of_get n rs l e)

  -- A row is there if one more is.
  pub no_more :
      (m : ℕ) (rs : List A)
      → get_elem? rs m ≡ none
      → ltb (suc m) (length (take (suc (suc m)) rs)) ≡ false
  unfolding get_elem?
  no_more m [] e = ground arith
  no_more zero (r ∷ rs) e = absurd cc
  no_more (suc m) (r ∷ rs) e = ground (arith, no_more m rs e)

  pub select-select :
      (p q : A → Bool) (rs : List A) → select q (select p rs) ≡ select (λ r. p r && q r) rs
  unfolding select
  select-select p q [] = refl
  select-select p q (r ∷ rs) = ground (arith, select-select p q rs)

  pub find-select :
      (p q : A → Bool) (rs : List A) → find p (select q rs) ≡ find (λ r. q r && p r) rs
  unfolding select find
  find-select p q [] = refl
  find-select p q (r ∷ rs) = ground (arith, find-select p q rs)

  pub count-select :
      (p q : A → Bool) (rs : List A) → count p (select q rs) ≡ count (λ r. q r && p r) rs
  unfolding select
  count-select p q [] = refl
  count-select p q (r ∷ rs) = ground (arith, count-select p q rs)

  pub find_of_count : (p : A → Bool) (rs : List A) → count p rs ≡ 0 → find p rs ≡ none
  unfolding find
  find_of_count p [] h = refl
  find_of_count p (r ∷ rs) h = ground (arith, find_of_count p rs)

  -- A condition that does not depend on the row.
  pub find_if :
      (b : Bool) (p q : A → Bool) (rs : List A)
      → ((r : A) → q r ≡ (b && p r))
      → find q rs ≡ (if b then find p rs else none)
  unfolding find
  find_if b p q [] h = ground arith
  find_if b p q (r ∷ rs) h = ground (arith, h r, find_if b p q rs h)

  pub exists_if :
      (b : Bool) (p q : A → Bool) (rs : List A)
      → ((r : A) → q r ≡ (b && p r))
      → exists q rs ≡ (b && exists p rs)
  unfolding exists
  exists_if b p q [] h = ground arith
  exists_if b p q (r ∷ rs) h = ground (arith, h r, exists_if b p q rs h)

  pub count_if_le :
      (b : Bool) (p q : A → Bool) (rs : List A)
      → ((r : A) → q r ≡ (b && p r))
      → count q rs ≤ count p rs
  count_if_le b p q [] h = omega arith
  count_if_le b p q (r ∷ rs) h = ground (arith, h r, count_if_le b p q rs h)

  pub select_ext :
      (p q : A → Bool) (rs : List A) → ((r : A) → p r ≡ q r) → select p rs ≡ select q rs
  unfolding select
  select_ext p q [] h = refl
  select_ext p q (r ∷ rs) h = ground (arith, h r, select_ext p q rs h)

module _ {A B : Type 0} where
  pub map-take-drop :
      (g : A → B) (n : ℕ) (rs : List A) → map g (take n rs) ++ map g (drop n rs) ≡ map g rs
  unfolding drop
  map-take-drop g zero rs = refl
  map-take-drop g (suc n) [] = refl
  map-take-drop g (suc n) (r ∷ rs) = ap (λ ss. g r ∷ ss) (map-take-drop g n rs)
