-- ===== src/Base/Int.antt =====
-- Signed integers over the native numbers, and the wrap-around of an int64.
use bfeed.Base.Tests.{ltb, leb, ◌==◌, if◌then◌else◌}
use Prim.Native.Nat.{ℕ, suc, ◌+◌, ◌-◌, ◌*◌, ◌/◌, ◌%◌, ◌^◌, ◌≤◌, ◌<◌}
use mathlib.Core.Path.{◌≡◌, refl}
use mathlib.Core.Logic.{◌⊎◌, inl, inr}
use mathlib.Core.Bool.{Bool, true, false}
use native.Mathlib.Omega.{arith}

-- `negsuc n` is -(n + 1).
pub data ℤ : Type 0 where
  pos : ℕ → ℤ
  negsuc : ℕ → ℤ

abbrev pub pos_part : ℤ → ℕ
pos_part (pos n) = n
pos_part (negsuc n) = 0

abbrev pub neg_part : ℤ → ℕ
neg_part (pos n) = 0
neg_part (negsuc n) = suc n

-- a - b, as an integer.
abbrev pub sub_ℕ : ℕ → ℕ → ℤ
sub_ℕ a b = if leb b a then pos (a - b) else negsuc (b - a - 1)

infixl 65 ◌+ℤ◌ ◌-ℤ◌
infix 50 ◌≤ℤ◌ ◌<ℤ◌
unfoldable pub ◌+ℤ◌ : ℤ → ℤ → ℤ
a +ℤ b = sub_ℕ (pos_part a + pos_part b) (neg_part a + neg_part b)

unfoldable pub ◌-ℤ◌ : ℤ → ℤ → ℤ
a -ℤ b = sub_ℕ (pos_part a + neg_part b) (neg_part a + pos_part b)

abbrev pub ◌≤ℤ◌ : ℤ → ℤ → Type 0
a ≤ℤ b = pos_part a + neg_part b ≤ pos_part b + neg_part a

abbrev pub ◌<ℤ◌ : ℤ → ℤ → Type 0
a <ℤ b = pos_part a + neg_part b < pos_part b + neg_part a

abbrev pub ltb_ℤ : ℤ → ℤ → Bool
ltb_ℤ a b = ltb (pos_part a + neg_part b) (pos_part b + neg_part a)

abbrev pub eq_ℤ : ℤ → ℤ → Bool
eq_ℤ (pos a) (pos b) = a == b
eq_ℤ (negsuc a) (negsuc b) = a == b
eq_ℤ (pos a) (negsuc b) = false
eq_ℤ (negsuc a) (pos b) = false

pub eq_of_eq_ℤ : (a b : ℤ) → eq_ℤ a b ≡ true → a ≡ b
eq_of_eq_ℤ a b h = ground arith

pub eq_ℤ-refl : (a : ℤ) → eq_ℤ a a ≡ true
eq_ℤ-refl a = ground arith

abbrev pub leb_ℤ : ℤ → ℤ → Bool
leb_ℤ a b = leb (pos_part a + neg_part b) (pos_part b + neg_part a)

abbrev pub min_ℤ : ℤ → ℤ → ℤ
min_ℤ a b = if ltb_ℤ b a then b else a

abbrev pub max_ℤ : ℤ → ℤ → ℤ
max_ℤ a b = if ltb_ℤ a b then b else a

-- The quotient rounded towards zero, as the language divides.
abbrev pub quot_ℤ : ℤ → ℕ → ℤ
quot_ℤ (pos n) d = pos (n / d)
quot_ℤ (negsuc n) d = sub_ℕ 0 (suc n / d)

-- The quotient rounded down.
abbrev pub floor_ℤ : ℤ → ℕ → ℤ
floor_ℤ (pos n) d = pos (n / d)
floor_ℤ (negsuc n) d = negsuc (n / d)

-- The int64 that 64 bits stand for.
of_bits64 : ℕ → ℤ
of_bits64 b = if ltb b (2 ^ 63) then pos b else negsuc (2 ^ 64 - 1 - b)

-- An integer reduced to an int64, as overflowing arithmetic leaves it.
unfoldable pub wrap64 : ℤ → ℤ
unfolding of_bits64
wrap64 (pos n) = of_bits64 (n % 2 ^ 64)
wrap64 (negsuc n) = of_bits64 (2 ^ 64 - 1 - n % 2 ^ 64)

-- x << k on an int64.
unfoldable pub shl64 : ℤ → ℕ → ℤ
unfolding wrap64
shl64 (pos n) k = wrap64 (pos (n * 2 ^ k))
shl64 (negsuc n) k = wrap64 (negsuc (suc n * 2 ^ k - 1))

pub +ℤ_parts :
    (a b : ℤ)
    → pos_part (a +ℤ b) + neg_part a + neg_part b ≡ neg_part (a +ℤ b) + pos_part a + pos_part b
unfolding ◌+ℤ◌
+ℤ_parts a b = ground arith

pub -ℤ_parts :
    (a b : ℤ)
    → pos_part (a -ℤ b) + neg_part a + pos_part b ≡ neg_part (a -ℤ b) + pos_part a + neg_part b
unfolding ◌-ℤ◌
-ℤ_parts a b = ground arith

pub one_part : (a : ℤ) → (pos_part a ≡ 0) ⊎ (neg_part a ≡ 0)
one_part (pos n) = inr refl
one_part (negsuc n) = inl refl

pub eq_of_parts : (a b : ℤ) → pos_part a + neg_part b ≡ pos_part b + neg_part a → a ≡ b
eq_of_parts a b h = ground arith

-- A value that fits in an int64 is left alone.
pub wrap64_id : (a : ℤ) → a <ℤ pos (2 ^ 63) → negsuc (2 ^ 63 - 1) ≤ℤ a → wrap64 a ≡ a
unfolding wrap64
wrap64_id (pos n) h l = ground arith
wrap64_id (negsuc n) h l = ground arith

pub ruleset int_laws = (arith, +ℤ_parts, -ℤ_parts, eq_of_parts)

wrap64_max : wrap64 (pos (2 ^ 63)) ≡ negsuc (2 ^ 63 - 1)
unfolding wrap64
wrap64_max = refl
