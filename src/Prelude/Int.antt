-- ===== src/Prelude/Int.antt =====
-- Signed integers over the native numbers, and `i64` with its two's complement wrap-around.
use Prim.Native.Nat.{ℕ, suc, ◌+◌, ◌-◌, ◌*◌, ◌/◌, ◌%◌, ◌^◌, ◌≤◌, ◌<◌}
use mathlib.Core.Path.{◌≡◌}
use mathlib.Core.Bool.{Bool, false}
use native.Mathlib.Omega.{arith}
use brane.Prelude.Tests.{ltb, leb, ◌==◌, if◌then◌else◌}

-- `negsuc n` is -(n + 1).
pub data ℤ : Type 0 where
  pos : ℕ → ℤ
  negsuc : ℕ → ℤ

abbrev pub pos_part : ℤ → ℕ
pos_part (pos n) = n
pos_part (negsuc n) = 0

abbrev pub neg_part : ℤ → ℕ
neg_part (pos n) = 0
neg_part (negsuc n) = suc n

-- a - b, as an integer
abbrev pub sub_ℕ : ℕ → ℕ → ℤ
sub_ℕ a b = if leb b a then pos (a - b) else negsuc (b - a - 1)

infixl 65 ◌+ℤ◌ ◌-ℤ◌
infixl 70 ◌*ℤ◌
infix 50 ◌≤ℤ◌
unfoldable pub ◌+ℤ◌ : ℤ → ℤ → ℤ
a +ℤ b = sub_ℕ (pos_part a + pos_part b) (neg_part a + neg_part b)

unfoldable pub ◌-ℤ◌ : ℤ → ℤ → ℤ
a -ℤ b = sub_ℕ (pos_part a + neg_part b) (neg_part a + pos_part b)

unfoldable pub ◌*ℤ◌ : ℤ → ℤ → ℤ
a *ℤ b =
    sub_ℕ (pos_part a * pos_part b + neg_part a * neg_part b)
      (pos_part a * neg_part b + neg_part a * pos_part b)

abbrev pub ◌≤ℤ◌ : ℤ → ℤ → Type 0
a ≤ℤ b = pos_part a + neg_part b ≤ pos_part b + neg_part a

abbrev pub ltb_ℤ : ℤ → ℤ → Bool
ltb_ℤ a b = ltb (pos_part a + neg_part b) (pos_part b + neg_part a)

abbrev pub eqb_ℤ : ℤ → ℤ → Bool
eqb_ℤ (pos a) (pos b) = a == b
eqb_ℤ (negsuc a) (negsuc b) = a == b
eqb_ℤ _ _ = false

-- The magnitudes of the quotient; `/` on `i64` rounds towards zero.
unfoldable pub quot_ℤ : ℤ → ℤ → ℤ
quot_ℤ (pos a) b = sub_ℕ (a / pos_part b) (a / neg_part b)
quot_ℤ (negsuc a) b = sub_ℕ (suc a / neg_part b) (suc a / pos_part b)

-- The 64-bit pattern of an integer, and the `i64` that a pattern stands for.
abbrev pub u64_mod : ℕ
u64_mod = 2 ^ 64

unfoldable pub to_bits : ℤ → ℕ
to_bits (pos n) = n % u64_mod
to_bits (negsuc n) = u64_mod - 1 - n % u64_mod

unfoldable pub from_bits : ℕ → ℤ
from_bits u = if ltb u (2 ^ 63) then pos u else negsuc (u64_mod - 1 - u)

-- the value of an `i64` operation that wraps around
unfoldable pub wrap : ℤ → ℤ
unfolding to_bits from_bits
wrap z = from_bits (to_bits z)

abbrev pub IsI64 : ℤ → Type 0
IsI64 z = (pos_part z < 2 ^ 63) × (neg_part z ≤ 2 ^ 63)

pub wrap-IsI64 : (z : ℤ) → IsI64 (wrap z)
unfolding wrap
wrap-IsI64 z = ground arith

-- Wrapping changes nothing where the result fits.
pub wrap-eq_of_IsI64 : (z : ℤ) → IsI64 z → wrap z ≡ z
unfolding wrap
wrap-eq_of_IsI64 (pos n) h = ground arith
wrap-eq_of_IsI64 (negsuc n) h = ground arith
