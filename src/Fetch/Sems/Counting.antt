-- ===== src/Fetch/Sems/Counting.antt =====
-- Counting the fetches that refer to a semaphore, one fetch apart from the others.
use bfeed.Base.{ℕ, ◌+◌, ◌≤◌, ◌≡◌, Bool, true, false, List, [], ◌∷◌, ◌++◌, count, arith}
use bfeed.Store.Table.{All}

abbrev pub one : Bool → ℕ
one true = 1
one false = 0

module _ {A : Type 0} where
  pub count-splice :
      (p : A → Bool) (xs : List A) (t : A) (ys : List A)
      → count p (xs ++ (t ∷ ys)) ≡ count p xs + count p ys + one (p t)
  count-splice p [] t ys = ground arith
  count-splice p (x ∷ xs) t ys = ground (arith, count-splice p xs t ys)

  pub All-splice :
      (P : A → Type 0) (xs : List A) (t : A) (ys : List A)
      → All P xs
      → P t
      → All P ys
      → All P (xs ++ (t ∷ ys))
  All-splice P [] t ys hx ht hy = (ht, hy)
  All-splice P (x ∷ xs) t ys hx ht hy = (hx.0, All-splice P xs t ys hx.1 ht hy)

  pub All-front : (P : A → Type 0) (xs ys : List A) → All P (xs ++ ys) → All P xs
  All-front P [] ys h = tt
  All-front P (x ∷ xs) ys h = (h.0, All-front P xs ys h.1)

  pub All-back : (P : A → Type 0) (xs ys : List A) → All P (xs ++ ys) → All P ys
  All-back P [] ys h = h
  All-back P (x ∷ xs) ys h = All-back P xs ys h.1

  -- A change of the predicate where nothing counts against it.
  pub All-map_of_none :
      (P Q : A → Type 0) (p : A → Bool) (xs : List A)
      → ((x : A) → p x ≡ false → P x → Q x)
      → count p xs ≡ 0
      → All P xs
      → All Q xs
  All-map_of_none P Q p [] f n h = tt
  All-map_of_none P Q p (x ∷ xs) f n h =
      (f x (ground (arith, n)) h.0, All-map_of_none P Q p xs f (ground (arith, n)) h.1)

  pub count-le_of :
      (P : A → Type 0) (p q : A → Bool) (xs : List A)
      → ((x : A) → P x → p x ≡ true → q x ≡ true)
      → All P xs
      → count p xs ≤ count q xs
  count-le_of P p q [] f h = omega arith
  count-le_of P p q (x ∷ xs) f h = ground (arith, f x h.0, count-le_of P p q xs f h.1)
