-- ===== src/Tests/Parse.antt =====
-- The example for the fields of a hash.
use bfeed.Base.{ℕ, zero, suc, ◌≡◌, refl, sym, ap, ◌∙◌, false, [], ◌∷◌, length}
use bfeed.Base.Text.{Text}
use bfeed.Core.Cursor.RoundTrip.{has_colon}
use bfeed.Parse.Fields.{IsDecimal}

-- Numbers in unary stand in for decimal ones.
abbrev pub unary : ℕ → Text
unary zero = []
unary (suc n) = b'1' ∷ unary n

length-unary : (n : ℕ) → length (unary n) ≡ n
length-unary zero = refl
length-unary (suc n) = ap suc (length-unary n)

pub unary-IsDecimal : IsDecimal unary
unary-IsDecimal = record {
  injective = λ m n e. sym (length-unary m) ∙ (ap length e ∙ length-unary n);
  no_colon = no_colon;
}
  where
    no_colon : (n : ℕ) → has_colon (unary n) ≡ false
    no_colon zero = refl
    no_colon (suc n) = no_colon n
