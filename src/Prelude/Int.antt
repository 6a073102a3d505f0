-- ===== src/Prelude/Int.antt =====
-- Signed integers over the native numbers, for Go's int32 counters and int64 times and durations
-- (the library's ℤ stands on the unary numbers).
use Prim.Native.Nat.{ℕ, suc, ◌+◌, ◌-◌, ◌%◌, ◌^◌, ◌≤◌, ◌<◌}
use mathlib.Core.Path.{◌≡◌}
use mathlib.Core.Bool.{Bool, true, false}
use native.Mathlib.Omega.{arith}
use konductor.Prelude.Tests.{ltb, leb, ◌==◌, if◌then◌else◌}

-- `negsuc n` is -(n + 1).
pub data ℤ : Type 0 where
  pos : ℕ → ℤ
  negsuc : ℕ → ℤ

abbrev pub pos_part : ℤ → ℕ
pos_part (pos n) = n
pos_part (negsuc n) = 0

abbrev pub neg_part : ℤ → ℕ
neg_part (pos n) = 0
neg_part (negsuc n) = suc n

-- a - b, as an integer.
abbrev pub sub_ℕ : ℕ → ℕ → ℤ
sub_ℕ a b = if leb b a then pos (a - b) else negsuc (b - a - 1)

infixl 65 ◌+ℤ◌ ◌-ℤ◌
infix 50 ◌≤ℤ◌ ◌<ℤ◌
unfoldable pub ◌+ℤ◌ : ℤ → ℤ → ℤ
a +ℤ b = sub_ℕ (pos_part a + pos_part b) (neg_part a + neg_part b)

unfoldable pub ◌-ℤ◌ : ℤ → ℤ → ℤ
a -ℤ b = sub_ℕ (pos_part a + neg_part b) (neg_part a + pos_part b)

abbrev pub ◌≤ℤ◌ : ℤ → ℤ → Type 0
a ≤ℤ b = pos_part a + neg_part b ≤ pos_part b + neg_part a

abbrev pub ◌<ℤ◌ : ℤ → ℤ → Type 0
a <ℤ b = pos_part a + neg_part b < pos_part b + neg_part a

abbrev pub ltb_ℤ : ℤ → ℤ → Bool
ltb_ℤ a b = ltb (pos_part a + neg_part b) (pos_part b + neg_part a)

abbrev pub leb_ℤ : ℤ → ℤ → Bool
leb_ℤ a b = leb (pos_part a + neg_part b) (pos_part b + neg_part a)

abbrev pub eqb_ℤ : ℤ → ℤ → Bool
eqb_ℤ a b = (pos_part a + neg_part b) == (pos_part b + neg_part a)

pub lt_of_ltb : (a b : ℤ) → ltb_ℤ a b ≡ true → a <ℤ b
lt_of_ltb a b h = ground arith

pub le_of_not_ltb : (a b : ℤ) → ltb_ℤ a b ≡ false → b ≤ℤ a
le_of_not_ltb a b h = ground arith

pub +ℤ_parts :
    (a b : ℤ)
    → pos_part (a +ℤ b) + neg_part a + neg_part b ≡ neg_part (a +ℤ b) + pos_part a + pos_part b
unfolding ◌+ℤ◌
+ℤ_parts a b = ground arith

pub -ℤ_parts :
    (a b : ℤ)
    → pos_part (a -ℤ b) + neg_part a + pos_part b ≡ neg_part (a -ℤ b) + pos_part a + neg_part b
unfolding ◌-ℤ◌
-ℤ_parts a b = ground arith

pub eq_of_parts : (a b : ℤ) → pos_part a + neg_part b ≡ pos_part b + neg_part a → a ≡ b
eq_of_parts a b h = ground arith

pub ruleset int_laws = (arith, +ℤ_parts, -ℤ_parts, eq_of_parts)

-- The value that an int32 holds after a conversion or an operation: the residue modulo 2^32 that
-- lies from -2^31 to 2^31 - 1.
unfoldable pub int32 : ℤ → ℤ
int32 a = sub_ℕ ((pos_part a + 2 ^ 31 + (2 ^ 32 - neg_part a % 2 ^ 32)) % 2 ^ 32) (2 ^ 31)

abbrev pub IsInt32 : ℤ → Type 0
IsInt32 a = (neg_part a ≤ 2 ^ 31) × (pos_part a < 2 ^ 31)

pub int32-IsInt32 : (a : ℤ) → IsInt32 (int32 a)
unfolding int32
int32-IsInt32 a = ground arith

pub int32_of_IsInt32 : (a : ℤ) → IsInt32 a → int32 a ≡ a
unfolding int32
int32_of_IsInt32 a h = eq_of_parts _ _ (ground arith)

-- A difference that is negative is in range when its parts are.
pub sub_negative :
    (a : ℤ) (n : ℕ)
    → pos 0 ≤ℤ a
    → a <ℤ pos n
    → n < 2 ^ 31
    → IsInt32 (a -ℤ pos n) × (a -ℤ pos n <ℤ pos 0)
unfolding ◌-ℤ◌
sub_negative a n sign less small = ground arith
