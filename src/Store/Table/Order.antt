-- ===== src/Store/Table/Order.antt =====
-- ORDER BY with a strict order: how the sorted rows are cut into pages.
use bfeed.Base.{
  ℕ, zero, suc, ◌≡◌, refl, ap, if◌then◌else◌, Bool, true, false, ◌||◌, some, List, [], ◌∷◌, ◌++◌,
  take, Bool-cases, inl, inr, arith,
}
use mathlib.Core.Path.{subst}
use bfeed.Store.Table.{select, insert, order_by, All, drop, get_elem?}

module _ {A : Type 0} where
  -- Each row is related to all that follow.
  abbrev pub Pairwise : (A → A → Type 0) → List A → Type 0
  Pairwise R [] = Unit
  Pairwise R (r ∷ rs) = All (R r) rs × Pairwise R rs

  pub All-select : (P : A → Type 0) (q : A → Bool) (rs : List A) → All P rs → All P (select q rs)
  unfolding select
  All-select P q [] h = tt
  All-select P q (r ∷ rs) h = elim (Bool-cases (q r)) [
    | inl e ↦ rw e (h.0, All-select P q rs h.1)
    | inr e ↦ rw e (All-select P q rs h.1)
  ]

  pub Pairwise-select :
      (R : A → A → Type 0) (q : A → Bool) (rs : List A) → Pairwise R rs → Pairwise R (select q rs)
  unfolding select
  Pairwise-select R q [] h = tt
  Pairwise-select R q (r ∷ rs) h = elim (Bool-cases (q r)) [
    | inl e ↦ rw e (All-select (R r) q rs h.0, Pairwise-select R q rs h.1)
    | inr e ↦ rw e (Pairwise-select R q rs h.1)
  ]

  pub All-map : (P Q : A → Type 0) (rs : List A) → ((r : A) → P r → Q r) → All P rs → All Q rs
  All-map P Q [] f h = tt
  All-map P Q (r ∷ rs) f h = (f r h.0, All-map P Q rs f h.1)

  pub Pairwise-map :
      (R S : A → A → Type 0) (rs : List A)
      → ((r s : A) → R r s → S r s)
      → Pairwise R rs
      → Pairwise S rs
  Pairwise-map R S [] f h = tt
  Pairwise-map R S (r ∷ rs) f h = (All-map (R r) (S r) rs (f r) h.0, Pairwise-map R S rs f h.1)

  pub select-and :
      (p q : A → Bool) (rs : List A)
      → ((r : A) → q r ≡ true → p r ≡ true)
      → select q (select p rs) ≡ select q rs
  unfolding select
  select-and p q [] h = refl
  select-and p q (r ∷ rs) h = ground (arith, h r, select-and p q rs h)

  pub append-take-drop : (n : ℕ) (rs : List A) → take n rs ++ drop n rs ≡ rs
  unfolding drop
  append-take-drop zero rs = refl
  append-take-drop (suc n) [] = refl
  append-take-drop (suc n) (r ∷ rs) = ap (λ ss. r ∷ ss) (append-take-drop n rs)

module _ {A : Type 0} (lt : A → A → Bool)
    (trans : (r s t : A) → lt r s ≡ true → lt s t ≡ true → lt r t ≡ true)
    (asym : (r s : A) → lt r s ≡ true → lt s r ≡ false) where
  abbrev Lt : A → A → Type 0
  Lt r s = lt r s ≡ true

  abbrev pub Comparable : A → A → Type 0
  Comparable r s = (lt r s || lt s r) ≡ true

  abbrev pub Sorted : List A → Type 0
  Sorted = Pairwise Lt

  insert_first : (r : A) (rs : List A) → All (Lt r) rs → insert lt r rs ≡ r ∷ rs
  unfolding insert
  insert_first r [] h = refl
  insert_first r (s ∷ ss) h = rw (h.0) refl

  All-insert : (P : A → Type 0) (r : A) (rs : List A) → P r → All P rs → All P (insert lt r rs)
  unfolding insert
  All-insert P r [] p h = (p, tt)
  All-insert P r (s ∷ ss) p h = elim (Bool-cases (lt r s)) [
    | inl e ↦ rw e (p, h)
    | inr e ↦ rw e (h.0, All-insert P r ss p h.1)
  ]

  insert-Sorted :
      (r : A) (rs : List A) → All (Comparable r) rs → Sorted rs → Sorted (insert lt r rs)
  unfolding insert
  insert-Sorted r [] c h = (tt, tt)
  insert-Sorted r (s ∷ ss) c h = elim (Bool-cases (lt r s)) [
    | inl e ↦ rw e ((e, All-map (Lt s) (Lt r) ss (λ t. trans r s t e) h.0), h)
    | inr e ↦ rw e (All-insert (Lt s) r ss (ground (arith, c.0, e)) h.0, insert-Sorted r ss c.1 h.1)
  ]

  pub All-order_by : (P : A → Type 0) (rs : List A) → All P rs → All P (order_by lt rs)
  unfolding order_by
  All-order_by P [] h = tt
  All-order_by P (r ∷ rs) h = All-insert P r (order_by lt rs) h.0 (All-order_by P rs h.1)

  pub order_by-Sorted : (rs : List A) → Pairwise Comparable rs → Sorted (order_by lt rs)
  unfolding order_by
  order_by-Sorted [] h = tt
  order_by-Sorted (r ∷ rs) h =
      insert-Sorted r (order_by lt rs) (All-order_by (Comparable r) rs h.0) (order_by-Sorted rs h.1)

  select-insert :
      (q : A → Bool) (r : A) (rs : List A)
      → Sorted rs
      → select q (insert lt r rs) ≡ (if q r then insert lt r (select q rs) else select q rs)
  unfolding select insert
  select-insert q r [] h = refl
  select-insert q r (s ∷ ss) h = elim (Bool-cases (lt r s)) [
    | inl e ↦
        let below = All-select (Lt r) q ss (All-map (Lt s) (Lt r) ss (λ t. trans r s t e) h.0) in
        ground (arith, e, insert_first r (select q ss) below)
    | inr e ↦ ground (arith, e, select-insert q r ss h.1)
  ]

  -- Filtering and sorting commute.
  pub select-order_by :
      (q : A → Bool) (rs : List A)
      → Pairwise Comparable rs
      → select q (order_by lt rs) ≡ order_by lt (select q rs)
  unfolding select order_by
  select-order_by q [] h = refl
  select-order_by q (r ∷ rs) h =
      ground (
        arith,
        select-insert q r (order_by lt rs) (order_by-Sorted rs h.1),
        select-order_by q rs h.1,
      )

  irrefl : (r : A) → lt r r ≡ false
  irrefl r = elim (Bool-cases (lt r r)) [ inl e ↦ asym r r e | inr e ↦ e ]

  select_whole : (r : A) (rs : List A) → All (Lt r) rs → select (lt r) rs ≡ rs
  unfolding select
  select_whole r [] h = refl
  select_whole r (s ∷ ss) h = rw (h.0, select_whole r ss h.1) refl

  found_below :
      (r l : A) (n : ℕ) (rs : List A) → All (Lt r) rs → get_elem? rs n ≡ some l → lt r l ≡ true
  unfolding get_elem?
  found_below r l n [] h e = cc
  found_below r l zero (s ∷ ss) h e = ground (arith, h.0, e)
  found_below r l (suc n) (s ∷ ss) h e = found_below r l n ss h.1 e

  -- What follows the row at `n` in order is what comes after the first `n + 1` rows.
  pub select_after :
      (n : ℕ) (rs : List A) (l : A)
      → Sorted rs
      → get_elem? rs n ≡ some l
      → select (lt l) rs ≡ drop (suc n) rs
  unfolding select drop get_elem?
  select_after n [] l h e = cc
  select_after zero (s ∷ ss) l h e =
      let same : s ≡ l = cc in
      subst (λ k. select (lt k) (s ∷ ss) ≡ ss) same (rw (irrefl s) (select_whole s ss h.0))
  select_after (suc n) (s ∷ ss) l h e =
      let b = asym s l (found_below s l n ss h.0 e) in rw (b, select_after n ss l h.1 e) refl
