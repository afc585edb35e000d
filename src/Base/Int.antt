-- ===== src/Base/Int.antt =====
-- Go's `int` and `time.Duration`: signed integers over the native numbers, and the wrap-around of
-- 64-bit arithmetic.
use Prim.Native.Nat.{ℕ, suc, ◌+◌, ◌-◌, ◌*◌, ◌%◌, ◌≤◌, ◌<◌}
use mathlib.Core.Path.{◌≡◌}
use mathlib.Core.Bool.{Bool, not}
use native.Mathlib.Omega.{arith}
use scootless.Base.Tests.{ltb, if◌then◌else◌}

-- `negsuc n` is -(n + 1).
pub data ℤ : Type 0 where
  pos : ℕ → ℤ
  negsuc : ℕ → ℤ

abbrev pub pos_part : ℤ → ℕ
pos_part (pos n) = n
pos_part (negsuc n) = 0

abbrev pub neg_part : ℤ → ℕ
neg_part (pos n) = 0
neg_part (negsuc n) = suc n

abbrev pub ltb_ℤ : ℤ → ℤ → Bool
ltb_ℤ a b = ltb (pos_part a + neg_part b) (pos_part b + neg_part a)

-- a ≤ b as the negation of b < a.
abbrev pub leb_ℤ : ℤ → ℤ → Bool
leb_ℤ a b = not (ltb_ℤ b a)

infix 50 ◌≤ℤ◌
abbrev pub ◌≤ℤ◌ : ℤ → ℤ → Type 0
a ≤ℤ b = pos_part a + neg_part b ≤ pos_part b + neg_part a

abbrev two63 : ℕ
two63 = 9223372036854775808

abbrev two64 : ℕ
two64 = 18446744073709551616

-- The 64 bits of a pattern read as a signed number.
abbrev of_bits : ℕ → ℤ
of_bits b = if ltb b two63 then pos b else negsuc (two64 - b - 1)

-- An integer reduced to 64 bits, as every int64 operation of Go does.
unfoldable pub wrap64 : ℤ → ℤ
wrap64 (pos n) = of_bits (n % two64)
wrap64 (negsuc n) = of_bits (two64 - 1 - n % two64)

-- A value that fits is unchanged.
pub wrap64_of_small : (n : ℕ) → n < 9223372036854775808 → wrap64 (pos n) ≡ pos n
unfolding wrap64
wrap64_of_small n h = ground arith

-- A signed product with a positive factor.
abbrev pub scale : ℤ → ℕ → ℤ
scale (pos n) k = pos (n * k)
scale (negsuc n) k = negsuc (suc n * k - 1)
