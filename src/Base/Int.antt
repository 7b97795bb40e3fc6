-- ===== src/Base/Int.antt =====
-- Signed integers over the native numbers: the `int32` prices and `int64` amounts of the program.
use Prim.Native.Nat.{ℕ, suc, ◌+◌, ◌-◌, ◌^◌, ◌%◌}
use mathlib.Core.Bool.{Bool, false}
use goods_hunter.Base.Tests.{ltb, leb, ◌==◌, if◌then◌else◌}

-- `negsuc n` is -(n + 1).
pub data ℤ : Type 0 where
  pos : ℕ → ℤ
  negsuc : ℕ → ℤ

abbrev pub pos_part : ℤ → ℕ
pos_part (pos n) = n
pos_part (negsuc n) = 0

abbrev pub neg_part : ℤ → ℕ
neg_part (pos n) = 0
neg_part (negsuc n) = suc n

-- a - b, as an integer.
abbrev pub sub_ℕ : ℕ → ℕ → ℤ
sub_ℕ a b = if leb b a then pos (a - b) else negsuc (b - a - 1)

abbrev pub ltb_ℤ : ℤ → ℤ → Bool
ltb_ℤ a b = ltb (pos_part a + neg_part b) (pos_part b + neg_part a)

abbrev pub eqb_ℤ : ℤ → ℤ → Bool
eqb_ℤ (pos a) (pos b) = a == b
eqb_ℤ (negsuc a) (negsuc b) = a == b
eqb_ℤ _ _ = false

-- The int32 with the low 32 bits of an int.
unfoldable pub low_bits : ℕ → ℤ
low_bits m = if ltb m (2 ^ 31) then pos m else sub_ℕ m (2 ^ 32)

unfoldable pub to_int32 : ℤ → ℤ
unfolding low_bits
to_int32 (pos n) = low_bits (n % 2 ^ 32)
to_int32 (negsuc n) = low_bits ((2 ^ 32 - suc n % 2 ^ 32) % 2 ^ 32)
