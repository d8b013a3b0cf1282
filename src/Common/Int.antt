-- ===== src/Common/Int.antt =====
-- Signed machine integers over the native numbers: `LONG` and `long long` values. Sums and
-- orders go through the two parts of an integer, which are numbers.
use Prim.Native.Nat.{ℕ, suc, ◌+◌, ◌-◌, ◌%◌, ◌^◌, ◌≤◌, ◌<◌}
use mathlib.Core.Path.{◌≡◌}
use mathlib.Core.Bool.{Bool}
use native.Mathlib.Omega.{arith}
use win_kernel_http.Common.Tests.{ltb, leb, if◌then◌else◌}

-- `negsuc n` is -(n + 1).
pub data ℤ : Type 0 where
  pos : ℕ → ℤ
  negsuc : ℕ → ℤ

abbrev pub pos_part : ℤ → ℕ
pos_part (pos n) = n
pos_part (negsuc n) = 0

abbrev pub neg_part : ℤ → ℕ
neg_part (pos n) = 0
neg_part (negsuc n) = suc n

-- a - b, as an integer.
unfoldable pub sub_ℕ : ℕ → ℕ → ℤ
sub_ℕ a b = if leb b a then pos (a - b) else negsuc (b - a - 1)

infixl 65 ◌+ℤ◌ ◌-ℤ◌
infix 50 ◌≤ℤ◌
unfoldable pub ◌+ℤ◌ : ℤ → ℤ → ℤ
unfolding sub_ℕ
a +ℤ b = sub_ℕ (pos_part a + pos_part b) (neg_part a + neg_part b)

unfoldable pub ◌-ℤ◌ : ℤ → ℤ → ℤ
unfolding sub_ℕ
a -ℤ b = sub_ℕ (pos_part a + neg_part b) (neg_part a + pos_part b)

abbrev pub ◌≤ℤ◌ : ℤ → ℤ → Type 0
a ≤ℤ b = pos_part a + neg_part b ≤ pos_part b + neg_part a

abbrev pub leb_ℤ : ℤ → ℤ → Bool
leb_ℤ a b = leb (pos_part a + neg_part b) (pos_part b + neg_part a)

-- The `LONG` with a given 32-bit pattern: `static_cast<LONG>` of a `ULONG`.
unfoldable pub long_of_ulong : ℕ → ℤ
long_of_ulong w = if ltb w (2 ^ 31) then pos w else negsuc (2 ^ 32 - w - 1)

-- An exact result cut to a `LONG`, as the machine wraps it.
unfoldable pub wrap_long : ℤ → ℤ
unfolding long_of_ulong
wrap_long (pos n) = long_of_ulong (n % 2 ^ 32)
wrap_long (negsuc n) = long_of_ulong (2 ^ 32 - 1 - n % 2 ^ 32)

-- `static_cast<SIZE_T>` of a `LONG`, on a 64-bit machine.
unfoldable pub size_of_long : ℤ → ℕ
size_of_long (pos n) = n
size_of_long (negsuc n) = 2 ^ 64 - 1 - n

pub +ℤ_parts :
    (a b : ℤ)
    → pos_part (a +ℤ b) + neg_part a + neg_part b ≡ neg_part (a +ℤ b) + pos_part a + pos_part b
unfolding ◌+ℤ◌
+ℤ_parts a b = ground arith

pub -ℤ_parts :
    (a b : ℤ)
    → pos_part (a -ℤ b) + neg_part a + pos_part b ≡ neg_part (a -ℤ b) + pos_part a + neg_part b
unfolding ◌-ℤ◌
-ℤ_parts a b = ground arith

pub eq_of_parts : (a b : ℤ) → pos_part a + neg_part b ≡ pos_part b + neg_part a → a ≡ b
eq_of_parts a b h = ground arith

pub ruleset int_laws = (arith, +ℤ_parts, -ℤ_parts, eq_of_parts)

pub long_of_ulong_small : (n : ℕ) → n < 2 ^ 31 → long_of_ulong n ≡ pos n
unfolding long_of_ulong
long_of_ulong_small n h = ground arith

-- A value that fits a `LONG` is not changed by the cut.
pub wrap_long_exact : (z : ℤ) → pos_part z < 2 ^ 31 → neg_part z ≤ 2 ^ 31 → wrap_long z ≡ z
unfolding wrap_long
wrap_long_exact (pos n) hi lo = ground arith
wrap_long_exact (negsuc n) hi lo = ground arith
