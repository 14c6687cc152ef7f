-- ===== src/Base/Int.antt =====
-- Signed integers over the native numbers, and the C integer types as ranges of them.
use Prim.Native.Nat.{ℕ, zero, suc, ◌+◌, ◌-◌, ◌*◌, ◌/◌, ◌%◌, ◌^◌, ◌≤◌}
use mathlib.Core.Path.{◌≡◌}
use mathlib.Core.Bool.{Bool}
use native.Mathlib.Omega.{arith}
use package.uni_orion_os.Base.Tests.{ltb, leb, if◌then◌else◌}

-- `negsuc n` is -(n + 1)
pub data ℤ : Type 0 where
  pos : ℕ → ℤ
  negsuc : ℕ → ℤ

abbrev pub pos_part : ℤ → ℕ
pos_part (pos n) = n
pos_part (negsuc n) = 0

abbrev pub neg_part : ℤ → ℕ
neg_part (pos n) = 0
neg_part (negsuc n) = suc n

-- a - b, as an integer
abbrev pub sub_ℕ : ℕ → ℕ → ℤ
sub_ℕ a b = if leb b a then pos (a - b) else negsuc (b - a - 1)

infixl 65 ◌+ℤ◌ ◌-ℤ◌
infixl 70 ◌*ℤ◌ ◌/ℤ◌
infix 50 ◌≤ℤ◌
abbrev pub ◌+ℤ◌ : ℤ → ℤ → ℤ
a +ℤ b = sub_ℕ (pos_part a + pos_part b) (neg_part a + neg_part b)

abbrev pub ◌-ℤ◌ : ℤ → ℤ → ℤ
a -ℤ b = sub_ℕ (pos_part a + neg_part b) (neg_part a + pos_part b)

-- the product and the quotient go by absolute values and the sign
abbrev pub neg_ℕ : ℕ → ℤ
neg_ℕ zero = pos 0
neg_ℕ (suc n) = negsuc n

abbrev pub ◌*ℤ◌ : ℤ → ℤ → ℤ
pos n *ℤ pos m = pos (n * m)
pos n *ℤ negsuc m = neg_ℕ (n * suc m)
negsuc n *ℤ pos m = neg_ℕ (suc n * m)
negsuc n *ℤ negsuc m = pos (suc n * suc m)

-- C's division: it rounds to zero
abbrev pub ◌/ℤ◌ : ℤ → ℤ → ℤ
pos n /ℤ pos m = pos (n / m)
pos n /ℤ negsuc m = neg_ℕ (n / suc m)
negsuc n /ℤ pos m = neg_ℕ (suc n / m)
negsuc n /ℤ negsuc m = pos (suc n / suc m)

abbrev pub ◌≤ℤ◌ : ℤ → ℤ → Type 0
a ≤ℤ b = pos_part a + neg_part b ≤ pos_part b + neg_part a

abbrev pub leb_ℤ : ℤ → ℤ → Bool
leb_ℤ a b = leb (pos_part a + neg_part b) (pos_part b + neg_part a)

abbrev pub ltb_ℤ : ℤ → ℤ → Bool
ltb_ℤ a b = ltb (pos_part a + neg_part b) (pos_part b + neg_part a)

-- the value of a two's complement word of `2 * half` values
abbrev pub signed : ℕ → ℕ → ℤ
signed half w = if ltb w half then pos w else negsuc (2 * half - w - 1)

abbrev pub wrap : ℕ → ℤ → ℤ
wrap half (pos n) = signed half (n % (2 * half))
wrap half (negsuc n) = signed half (2 * half - 1 - n % (2 * half))

-- what the machine keeps of an integer in an `int64_t` and in an `int`
unfoldable pub int64 : ℤ → ℤ
int64 z = wrap (2 ^ 63) z

unfoldable pub int32 : ℤ → ℤ
int32 z = wrap (2 ^ 31) z

pub record Fits64 (z : ℤ) : Type 0 where
  pub above : neg_part z ≤ 2 ^ 63
  pub below : pos_part z ≤ 2 ^ 63 - 1

pub record Fits32 (z : ℤ) : Type 0 where
  pub above : neg_part z ≤ 2 ^ 31
  pub below : pos_part z ≤ 2 ^ 31 - 1

-- A value of the type is kept.
pub int64-id : (z : ℤ) → Fits64 z → int64 z ≡ z
unfolding int64
int64-id (pos n) h = ground arith
int64-id (negsuc n) h = ground arith

pub int32-id : (z : ℤ) → Fits32 z → int32 z ≡ z
unfolding int32
int32-id (pos n) h = ground arith
int32-id (negsuc n) h = ground arith

pub int32-Fits32 : (z : ℤ) → Fits32 (int32 z)
unfolding int32
int32-Fits32 (pos n) = ground arith
int32-Fits32 (negsuc n) = ground arith
