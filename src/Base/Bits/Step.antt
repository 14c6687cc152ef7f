-- ===== src/Base/Bits/Step.antt =====
-- The lowest digit of `&`, `|` and `^`, apart from the other digits.
use Prim.Native.Nat.{ℕ, zero, suc, ◌+◌, ◌*◌, ◌/◌, ◌%◌, ◌≤◌, min, max, differ}
use Prim.Native.Nat.{bit_and, bit_or, bit_xor, digits, bitwise}
use Prim.Native.Nat.{bit_and-bitwise, bit_or-bitwise, bit_xor-bitwise}
use mathlib.Core.Path.{◌≡◌, refl, sym, ◌∙◌, ap}
use native.Mathlib.Decide.{ℕ_discrete}
use native.Mathlib.Omega.{arith}

abbrev Digits : Type 0
Digits = ℕ → ℕ → ℕ → ℕ

module _ (rest : ℕ → ℕ) (op : ℕ → ℕ → ℕ) where
  abbrev run : Digits
  run = digits rest op

  -- One more unit of fuel than the first operand changes nothing.
  run-suc : (fuel a b : ℕ) → a ≤ fuel → run (suc fuel) a b ≡ run fuel a b
  run-suc (suc fuel) (suc a) b h =
      ap (λ high. high * 2 + op (suc a % 2) (b % 2))
        (run-suc fuel (suc a / 2) (b / 2) (omega arith))
  run-suc (suc _) zero b h = refl
  run-suc zero zero b h = refl
  run-suc zero (suc _) b h = absurd (omega arith)

  run-le : (fuel a b m : ℕ) → m ≤ fuel → a ≤ m → run fuel a b ≡ run m a b
  run-le (suc fuel) a b m h k = elim (ℕ_discrete m (suc fuel)) [
    | yes e ↦ ap (λ n. run n a b) (sym e)
    | no ne ↦ run-suc fuel a b (omega arith) ∙ run-le fuel a b m (omega arith) k
  ]
  run-le zero a b zero h k = refl
  run-le zero a b (suc _) h k = absurd (omega arith)

  -- `rest` is what remains of the second operand once the first is used up
  lowest :
      ((b : ℕ) → rest b ≡ op 0 (b % 2) + 2 * rest (b / 2))
      → (a b : ℕ) → bitwise rest op a b ≡ op (a % 2) (b % 2) + 2 * bitwise rest op (a / 2) (b / 2)
  lowest ends zero b = ends b
  lowest ends (suc a) b =
      omega (arith, run-le a (suc a / 2) (b / 2) (suc a / 2) (omega arith) (omega arith))

pub or_lowest : (a b : ℕ) → bit_or a b ≡ max (a % 2) (b % 2) + 2 * bit_or (a / 2) (b / 2)
or_lowest a b = simp bit_or-bitwise (lowest (λ y. y) max (λ y. omega arith) a b)

pub and_lowest : (a b : ℕ) → bit_and a b ≡ min (a % 2) (b % 2) + 2 * bit_and (a / 2) (b / 2)
and_lowest a b = simp bit_and-bitwise (lowest (λ _. 0) min (λ y. omega arith) a b)

pub xor_lowest : (a b : ℕ) → bit_xor a b ≡ differ (a % 2) (b % 2) + 2 * bit_xor (a / 2) (b / 2)
xor_lowest a b = simp bit_xor-bitwise (lowest (λ y. y) differ (λ y. omega arith) a b)
