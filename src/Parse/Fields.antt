-- ===== src/Parse/Fields.antt =====
-- `joinFields`, the text under the hash of an entry, and `EntryHash`.
use bfeed.Base.{ℕ, ◌≡◌, refl, sym, ap, ◌∙◌, false, some, List, [], ◌∷◌, ◌++◌, length, arith}
use mathlib.Core.List.{head-eq_of_cons-eq, tail-eq_of_cons-eq}
use bfeed.Base.Text.{Text}
use bfeed.Core.Cursor.{split_colon}
use bfeed.Core.Cursor.RoundTrip.{has_colon, split_colon-append}

-- `itoa` is `strconv.Itoa` of a length.
module _ (itoa : ℕ → Text) where
  -- `joinFields`
  unfoldable pub join_fields : List Text → Text
  join_fields [] = []
  join_fields (p ∷ ps) = itoa (length p) ++ (b':' ∷ (p ++ join_fields ps))

-- `EntryHash`; `hash` is `hashStr`.
unfoldable pub entry_hash : (ℕ → Text) → (Text → Text) → Text → Text → Text → Text
entry_hash itoa hash title content summary =
    hash (join_fields itoa (title ∷ content ∷ summary ∷ []))

-- What is documented of decimal numbers: they differ where the numbers do, and hold no colon.
pub record IsDecimal (itoa : ℕ → Text) : Type 0 where
  pub injective : (m n : ℕ) → itoa m ≡ itoa n → m ≡ n
  pub no_colon : (n : ℕ) → has_colon (itoa n) ≡ false

append_cancel : (p q s t : Text) → length p ≡ length q → p ++ s ≡ q ++ t → (p ≡ q) × (s ≡ t)
append_cancel [] [] s t l e = (refl, e)
append_cancel [] (y ∷ q) s t l e = absurd (omega (arith, l))
append_cancel (x ∷ p) [] s t l e = absurd (omega (arith, l))
append_cancel (x ∷ p) (y ∷ q) s t l e =
    let h = head-eq_of_cons-eq e in
    let (ih, r) = append_cancel p q s t (omega (arith, l)) (tail-eq_of_cons-eq e) in (cc, r)

not_empty : (s t : Text) (c : ℕ) → [] ≡ s ++ (c ∷ t) → ⊥
not_empty [] t c e = ground (arith, e)
not_empty (x ∷ s) t c e = ground (arith, e)

module _ (itoa : ℕ → Text) (decimal : IsDecimal itoa) where
  split_field :
      (p rest : Text)
      → split_colon (itoa (length p) ++ (b':' ∷ rest)) ≡ (itoa (length p), some rest)
  split_field p rest = split_colon-append (itoa (length p)) rest (decimal.no_colon (length p))

  field_inj :
      (p q s t : Text)
      → itoa (length p) ++ (b':' ∷ (p ++ s)) ≡ itoa (length q) ++ (b':' ∷ (q ++ t))
      → (p ≡ q) × (s ≡ t)
  field_inj p q s t e =
      let both = sym (split_field p (p ++ s)) ∙ (ap split_colon e ∙ split_field q (q ++ t)) in
      let lengths = decimal.injective (length p) (length q) (ap (λ x. x.0) both) in
      append_cancel p q s t lengths (some_inj (ap (λ x. x.1) both))
    where
      some_inj : {a b : Text} → some a ≡ some b → a ≡ b
      some_inj h = ground (arith, h)

  -- If decimal numbers of different lengths differ and hold no colon, then fields that are joined to
  -- the same text are the same fields, whatever colons and digits they hold.
  pub join_fields_inj : (ps qs : List Text) → join_fields itoa ps ≡ join_fields itoa qs → ps ≡ qs
  unfolding join_fields
  join_fields_inj [] [] e = refl
  join_fields_inj [] (q ∷ qs) e = absurd (not_empty (itoa (length q)) _ _ e)
  join_fields_inj (p ∷ ps) [] e = absurd (not_empty (itoa (length p)) _ _ (sym e))
  join_fields_inj (p ∷ ps) (q ∷ qs) e =
      let (h, k) = field_inj p q (join_fields itoa ps) (join_fields itoa qs) e in
      let ih = join_fields_inj ps qs k in cc
