-- ===== src/Base/Int.antt =====
-- Signed integers over the native numbers, under the library's names, with the division of C++.
use native.Mathlib.Omega.{arith}
use mathlib.Core.Path.{◌≡◌}
use Prim.Native.Nat.{ℕ, suc, ◌+◌, ◌-◌, ◌*◌, ◌/◌, ◌%◌, ◌^◌, ◌≤◌, ◌<◌}
use mathlib.Core.Bool.{Bool, ◌&&◌}
use mathlib.Core.Option.{Option, none, some}
use rob320_p.Base.Tests.{ltb, leb, if◌then◌else◌}

-- `negsuc n` is -(n + 1).
pub data ℤ : Type 0 where
  pos : ℕ → ℤ
  negsuc : ℕ → ℤ

abbrev pub pos_part : ℤ → ℕ
pos_part (pos n) = n
pos_part (negsuc n) = 0

abbrev pub neg_part : ℤ → ℕ
neg_part (pos n) = 0
neg_part (negsuc n) = suc n

-- a - b, as an integer.
abbrev pub sub_ℕ : ℕ → ℕ → ℤ
sub_ℕ a b = if leb b a then pos (a - b) else negsuc (b - a - 1)

infixl 65 ◌+ℤ◌ ◌-ℤ◌
infixl 70 ◌*ℤ◌
infix 50 ◌≤ℤ◌ ◌<ℤ◌
unfoldable pub ◌+ℤ◌ : ℤ → ℤ → ℤ
a +ℤ b = sub_ℕ (pos_part a + pos_part b) (neg_part a + neg_part b)

unfoldable pub ◌-ℤ◌ : ℤ → ℤ → ℤ
a -ℤ b = sub_ℕ (pos_part a + neg_part b) (neg_part a + pos_part b)

-- A product with a number.
unfoldable pub ◌*ℤ◌ : ℤ → ℕ → ℤ
a *ℤ k = sub_ℕ (pos_part a * k) (neg_part a * k)

-- A product of integers.
unfoldable pub mul_ℤ : ℤ → ℤ → ℤ
unfolding ◌-ℤ◌ ◌*ℤ◌
mul_ℤ a (pos n) = a *ℤ n
mul_ℤ a (negsuc n) = pos 0 -ℤ a *ℤ suc n

-- The operations by their parts, which `omega` reads.
pub sub_parts : (a b : ℕ) → pos_part (sub_ℕ a b) + b ≡ neg_part (sub_ℕ a b) + a
sub_parts a b = ground arith

pub +ℤ_parts :
    (a b : ℤ)
    → pos_part (a +ℤ b) + neg_part a + neg_part b ≡ neg_part (a +ℤ b) + pos_part a + pos_part b
unfolding ◌+ℤ◌
+ℤ_parts a b = omega (arith, sub_parts (pos_part a + pos_part b) (neg_part a + neg_part b))

pub -ℤ_parts :
    (a b : ℤ)
    → pos_part (a -ℤ b) + neg_part a + pos_part b ≡ neg_part (a -ℤ b) + pos_part a + neg_part b
unfolding ◌-ℤ◌
-ℤ_parts a b = omega (arith, sub_parts (pos_part a + neg_part b) (neg_part a + pos_part b))

pub *ℤ_parts :
    (a : ℤ) (k : ℕ) → pos_part (a *ℤ k) + neg_part a * k ≡ neg_part (a *ℤ k) + pos_part a * k
unfolding ◌*ℤ◌
*ℤ_parts a k = omega (arith, sub_parts (pos_part a * k) (neg_part a * k))

pub eq_of_parts : (a b : ℤ) → pos_part a + neg_part b ≡ pos_part b + neg_part a → a ≡ b
eq_of_parts a b h = ground arith

abbrev pub ◌≤ℤ◌ : ℤ → ℤ → Type 0
a ≤ℤ b = pos_part a + neg_part b ≤ pos_part b + neg_part a

abbrev pub ◌<ℤ◌ : ℤ → ℤ → Type 0
a <ℤ b = pos_part a + neg_part b < pos_part b + neg_part a

abbrev pub ltb_ℤ : ℤ → ℤ → Bool
ltb_ℤ a b = ltb (pos_part a + neg_part b) (pos_part b + neg_part a)

-- `/` and `%` of C++, which go towards zero, by a positive number.
unfoldable pub div_ℤ : ℤ → ℕ → ℤ
div_ℤ (pos n) k = pos (n / k)
div_ℤ (negsuc n) k = sub_ℕ 0 (suc n / k)

unfoldable pub mod_ℤ : ℤ → ℕ → ℤ
mod_ℤ (pos n) k = pos (n % k)
mod_ℤ (negsuc n) k = sub_ℕ 0 (suc n % k)

-- An int32_t is kept as its bit pattern; this is the number that it stands for, and the conversion of an
-- int64_t to it.
abbrev pub signed32 : ℕ → ℤ
signed32 w = if ltb w (2 ^ 31) then pos w else negsuc (2 ^ 32 - w - 1)

abbrev pub to_i32 : ℤ → ℕ
to_i32 (pos n) = n % 2 ^ 32
to_i32 (negsuc n) = 2 ^ 32 - 1 - n % 2 ^ 32

-- int64_t arithmetic: a sum that does not fit is undefined behaviour, `none`.
abbrev pub IsI64 : ℤ → Type 0
IsI64 a = (pos_part a < 2 ^ 63) × (neg_part a ≤ 2 ^ 63)

unfoldable pub checked64 : ℤ → Option ℤ
checked64 a = if ltb (pos_part a) (2 ^ 63) && leb (neg_part a) (2 ^ 63) then some a else none

pub to_i32-lt : (a : ℤ) → to_i32 a < 2 ^ 32
to_i32-lt (pos n) = omega arith
to_i32-lt (negsuc n) = omega arith
