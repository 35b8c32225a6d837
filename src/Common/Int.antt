-- ===== src/Common/Int.antt =====
-- Signed integers over the native numbers, under the library's names.
use Prim.Native.Nat.{ℕ, suc, ◌+◌, ◌-◌, ◌≤◌}
use mathlib.Core.Path.{◌≡◌}
use native.Mathlib.Omega.{arith}
use mathlib.Core.Bool.{Bool}
use lawn_eve_intel_dashboard.Common.Tests.{leb, if◌then◌else◌}

-- `negsuc n` is -(n + 1).
pub data ℤ : Type 0 where
  pos : ℕ → ℤ
  negsuc : ℕ → ℤ

abbrev pub pos_part : ℤ → ℕ
pos_part (pos n) = n
pos_part (negsuc n) = 0

abbrev pub neg_part : ℤ → ℕ
neg_part (pos n) = 0
neg_part (negsuc n) = suc n

-- a - b, as an integer.
abbrev pub sub_ℕ : ℕ → ℕ → ℤ
sub_ℕ a b = if leb b a then pos (a - b) else negsuc (b - a - 1)

infixl 65 ◌+ℤ◌ ◌-ℤ◌
unfoldable pub ◌+ℤ◌ : ℤ → ℤ → ℤ
a +ℤ b = sub_ℕ (pos_part a + pos_part b) (neg_part a + neg_part b)

unfoldable pub ◌-ℤ◌ : ℤ → ℤ → ℤ
a -ℤ b = sub_ℕ (pos_part a + neg_part b) (neg_part a + pos_part b)

infix 50 ◌≤ℤ◌
abbrev pub ◌≤ℤ◌ : ℤ → ℤ → Type 0
a ≤ℤ b = pos_part a + neg_part b ≤ pos_part b + neg_part a

abbrev pub leb_ℤ : ℤ → ℤ → Bool
leb_ℤ a b = leb (pos_part a + neg_part b) (pos_part b + neg_part a)

-- What the parts of a sum and of a difference are.
pub sub_ℕ-parts : (a b : ℕ) → pos_part (sub_ℕ a b) + b ≡ a + neg_part (sub_ℕ a b)
sub_ℕ-parts a b = ground arith

pub add-parts :
    (a b : ℤ)
    → pos_part (a +ℤ b) + (neg_part a + neg_part b) ≡ pos_part a + pos_part b + neg_part (a +ℤ b)
unfolding ◌+ℤ◌
add-parts a b = sub_ℕ-parts (pos_part a + pos_part b) (neg_part a + neg_part b)

pub minus-parts :
    (a b : ℤ)
    → pos_part (a -ℤ b) + (neg_part a + pos_part b) ≡ pos_part a + neg_part b + neg_part (a -ℤ b)
unfolding ◌-ℤ◌
minus-parts a b = sub_ℕ-parts (pos_part a + neg_part b) (neg_part a + pos_part b)
