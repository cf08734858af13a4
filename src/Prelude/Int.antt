-- ===== src/Prelude/Int.antt =====
-- Signed integers over the native numbers, and the casts of C between the widths.
use Prim.Native.Nat.{ℕ, suc, ◌+◌, ◌-◌, ◌/◌, ◌%◌, ◌≤◌}
use mathlib.Core.Bool.{Bool}
use esp_tsdb.Prelude.Tests.{ltb, leb, if◌then◌else◌}

-- `negsuc n` is -(n + 1).
pub data ℤ : Type 0 where
  pos : ℕ → ℤ
  negsuc : ℕ → ℤ

abbrev pub pos_part : ℤ → ℕ
pos_part (pos n) = n
pos_part (negsuc n) = 0

abbrev pub neg_part : ℤ → ℕ
neg_part (pos n) = 0
neg_part (negsuc n) = suc n

-- a - b, as an integer.
abbrev pub sub_ℕ : ℕ → ℕ → ℤ
sub_ℕ a b = if leb b a then pos (a - b) else negsuc (b - a - 1)

infixl 65 ◌+ℤ◌
unfoldable pub ◌+ℤ◌ : ℤ → ℤ → ℤ
a +ℤ b = sub_ℕ (pos_part a + pos_part b) (neg_part a + neg_part b)

infix 50 ◌≤ℤ◌
abbrev pub ◌≤ℤ◌ : ℤ → ℤ → Type 0
a ≤ℤ b = pos_part a + neg_part b ≤ pos_part b + neg_part a

abbrev pub ltb_ℤ : ℤ → ℤ → Bool
ltb_ℤ a b = ltb (pos_part a + neg_part b) (pos_part b + neg_part a)

-- The number that 16 or 32 bits stand for.
unfoldable pub signed16 : ℕ → ℤ
signed16 v = if ltb v 32768 then pos v else sub_ℕ v 65536

unfoldable pub signed32 : ℕ → ℤ
signed32 v = if ltb v 2147483648 then pos v else sub_ℕ v 4294967296

-- (int32_t) of an integer.
unfoldable pub to_int32 : ℤ → ℤ
to_int32 (pos n) = signed32 (n % 4294967296)
to_int32 (negsuc n) = signed32 (4294967295 - n % 4294967296)

-- Division by a positive number, toward 0.
unfoldable pub quotient : ℤ → ℕ → ℤ
quotient (pos n) d = pos (n / d)
quotient (negsuc n) d = sub_ℕ 0 ((n + 1) / d)
