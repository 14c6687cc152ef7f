-- ===== src/Base/Bits.antt =====
-- The binary digits of a word, and what `&`, `|` and `^` do to each of them.
mod Step
use Step.{or_lowest, xor_lowest}
pub use Step.{and_lowest}
use Prim.Native.Nat.{ℕ, zero, suc, ◌+◌, ◌-◌, ◌*◌, ◌/◌, ◌%◌, ◌^◌, ◌≤◌, ◌<◌, differ}
use Prim.Native.Nat.{bit_and, bit_or, bit_xor, bit_and-bitwise}
use mathlib.Core.Path.{◌≡◌, refl, ◌∙◌, ap}
use mathlib.Core.Bool.{Bool, true, false, not, ◌&&◌, ◌||◌, xor}
use native.Mathlib.Omega.{arith}
use native.Mathlib.Nat.{pow-suc, one-le-pow}
use package.uni_orion_os.Base.Tests.{◌==◌, if◌then◌else◌}

-- digit `k` of `w`
abbrev pub bit : ℕ → ℕ → Bool
bit w zero = w % 2 == 1
bit w (suc k) = bit (w / 2) k

pub bit-bit_or : (k a b : ℕ) → bit (bit_or a b) k ≡ (bit a k || bit b k)
bit-bit_or zero a b = ground (arith, or_lowest a b)
bit-bit_or (suc k) a b =
    ap (λ w. bit w k) (omega (arith, or_lowest a b)) ∙ bit-bit_or k (a / 2) (b / 2)

pub bit-bit_and : (k a b : ℕ) → bit (bit_and a b) k ≡ (bit a k && bit b k)
bit-bit_and zero a b = ground (arith, and_lowest a b)
bit-bit_and (suc k) a b =
    ap (λ w. bit w k) (omega (arith, and_lowest a b)) ∙ bit-bit_and k (a / 2) (b / 2)

differ-le : (x y : ℕ) → x < 2 → y < 2 → differ x y ≤ 1
differ-le zero y h k = omega arith
differ-le (suc zero) zero h k = omega arith
differ-le (suc zero) (suc y) h k = omega arith
differ-le (suc (suc x)) y h k = absurd (omega arith)

differ_digit : (x y : ℕ) → x < 2 → y < 2 → (differ x y == 1) ≡ xor (x == 1) (y == 1)
unfolding xor
differ_digit zero zero h k = refl
differ_digit zero (suc zero) h k = refl
differ_digit zero (suc (suc y)) h k = absurd (omega arith)
differ_digit (suc zero) zero h k = refl
differ_digit (suc zero) (suc zero) h k = refl
differ_digit (suc zero) (suc (suc y)) h k = absurd (omega arith)
differ_digit (suc (suc x)) y h k = absurd (omega arith)

pub bit-bit_xor : (k a b : ℕ) → bit (bit_xor a b) k ≡ xor (bit a k) (bit b k)
bit-bit_xor zero a b =
    ap (λ d. d == 1)
      (omega (arith, xor_lowest a b, differ-le (a % 2) (b % 2) (omega arith) (omega arith)))
    ∙ differ_digit (a % 2) (b % 2) (omega arith) (omega arith)
bit-bit_xor (suc k) a b =
    ap (λ w. bit w k)
      (omega (arith, xor_lowest a b, differ-le (a % 2) (b % 2) (omega arith) (omega arith)))
    ∙ bit-bit_xor k (a / 2) (b / 2)

zero_bit : (k : ℕ) → bit 0 k ≡ false
zero_bit zero = refl
zero_bit (suc k) = zero_bit k

-- `1 << n` has one digit
pub bit-two_pow : (n k : ℕ) → bit (2 ^ n) k ≡ (n == k)
bit-two_pow zero zero = refl
bit-two_pow zero (suc k) = zero_bit k ∙ ground arith
bit-two_pow (suc n) zero = ground (arith, pow-suc 2 n)
bit-two_pow (suc n) (suc k) =
    ap (λ w. bit w k) (omega (arith, pow-suc 2 n)) ∙ bit-two_pow n k ∙ ground arith

-- the complement of `m` in a word of `n` digits
pub bit-complement : (n k m : ℕ) → k < n → m < 2 ^ n → bit (2 ^ n - 1 - m) k ≡ not (bit m k)
bit-complement zero k m h l = absurd (omega arith)
bit-complement (suc n) zero m h l = ground (arith, pow-suc 2 n, one-le-pow n 2)
bit-complement (suc n) (suc k) m h l =
    ap (λ w. bit w k) (omega (arith, pow-suc 2 n))
    ∙ bit-complement n k (m / 2) (omega arith) (omega (arith, pow-suc 2 n))

no_digit : (w n : ℕ) → w ≤ n → bit_and w 0 ≡ 0
no_digit zero n h = refl
no_digit (suc w) zero h = absurd (omega arith)
no_digit (suc w) (suc n) h =
    omega (arith, and_lowest (suc w) 0, no_digit (suc w / 2) n (omega arith))

-- masking with `1 << k` isolates digit `k`
pub bit_and-two_pow : (k w : ℕ) → bit_and w (2 ^ k) ≡ (if bit w k then 2 ^ k else 0)
bit_and-two_pow zero w = ground (arith, and_lowest w 1, no_digit (w / 2) (w / 2))
bit_and-two_pow (suc k) w =
    ground (arith, and_lowest w (2 ^ suc k), pow-suc 2 k, bit_and-two_pow k (w / 2))

bit_and-le_fuel : (fuel a b : ℕ) → a ≤ fuel → bit_and a b ≤ b
bit_and-le_fuel zero zero b h =
    let nothing : bit_and 0 b ≡ 0 = simp bit_and-bitwise refl in omega (arith, nothing)
bit_and-le_fuel zero (suc a) b h = absurd (omega arith)
bit_and-le_fuel (suc fuel) a b h =
    omega (arith, and_lowest a b, bit_and-le_fuel fuel (a / 2) (b / 2) (omega arith))

pub bit_and-le : (a b : ℕ) → bit_and a b ≤ b
bit_and-le a b = bit_and-le_fuel a a b (omega arith)
