-- ===== src/Kernel/Bitmap/View.antt =====
-- A bitmap stands for a function from indices to Booleans: what one read or write does to it.
use mathlib.Core.Bool.{xor}
use native.Mathlib.Decide.{ℕ_discrete}
use native.Mathlib.Nat.{pow-le-pow_right, one-le-pow}
use uni_orion_os.Base.{
  ℕ, ◌-◌, ◌*◌, ◌/◌, ◌%◌, ◌^◌, ◌≤◌, ◌<◌, ◌≡◌, refl, ap, Bool, true, false, not, Option, some, arith,
  ◌==◌, if◌then◌else◌, length, get_elem?, get_or, set, length-set, get_elem?-eq-get_or,
  get_or-set_self, get_or-set_ne, lt→ltb,
}
use uni_orion_os.Base.Bits.{
  bit, bit-bit_or, bit-bit_and, bit-bit_xor, bit-two_pow, bit-complement, bit_and-two_pow,
}
use uni_orion_os.Kernel.Bitmap.{
  Bitmap, bit_mask, update_word, bitmap_mark, bitmap_reset, bitmap_flip, bitmap_set, bitmap_test,
}

abbrev pub view : Bitmap → ℕ → Bool
view b i = bit (get_or b.bits (i / 32) 0) (i % 32)

-- The words hold all the bits, and the sizes of the words fit `size_t`.
pub record IsValid (b : Bitmap) : Type 0 where
  pub words : b.bit_cnt ≤ 32 * length b.bits
  pub small : b.bit_cnt < 2 ^ 32 - 32

-- `b'` has the size of `b` and the bits `f`
pub record Becomes (b : Bitmap) (f : ℕ → Bool) (b' : Bitmap) : Type 0 where
  pub valid : IsValid b'
  pub size : b'.bit_cnt ≡ b.bit_cnt
  pub bits : (i : ℕ) → view b' i ≡ f i

-- `m` goes on without a panic, to a bitmap of the same size with the bits `f`
abbrev pub Yields : Bitmap → (ℕ → Bool) → Option Bitmap → Type 0
Yields b f m = (b' : Bitmap) × (m ≡ some b') × Becomes b f b'

-- what a word operation does to digit `k`, if it acts by `g` on the digit of `idx` alone
abbrev ActsAt : ℕ → (Bool → Bool) → (ℕ → ℕ) → Type 0
ActsAt idx g f = (w k : ℕ) → k < 32 → bit (f w) k ≡ (if idx % 32 == k then g (bit w k) else bit w k)

same_place : (i j : ℕ) → i / 32 ≡ j / 32 → (i % 32 == j % 32) ≡ (i == j)
same_place i j h = ground arith

module _ {b : Bitmap} {idx : ℕ} (valid : IsValid b) (inside : idx < b.bit_cnt) where
  word_lem : get_elem? b.bits (idx / 32) ≡ some (get_or b.bits (idx / 32) 0)
  word_lem = get_elem?-eq-get_or b.bits (idx / 32) 0 (omega arith)

  update_word-Yields :
      (f : ℕ → ℕ) (g : Bool → Bool)
      → ActsAt idx g f
      → Yields b (λ j. if idx == j then g (view b j) else view b j) (update_word f b idx)
  unfolding update_word
  update_word-Yields f g acts = (
    after,
    rw word_lem refl,
    record {
      valid = omega (arith, length-set b.bits (idx / 32) (f word));
      size = refl;
      bits = bits;
    },
  )
    where
      word : ℕ
      word = get_or b.bits (idx / 32) 0

      after : Bitmap
      after = record b { bits = set b.bits (idx / 32) (f word) }

      bits : (j : ℕ) → view after j ≡ (if idx == j then g (view b j) else view b j)
      bits j = elim (ℕ_discrete (idx / 32) (j / 32)) [
        | yes e ↦
            rw (← e, get_or-set_self b.bits (idx / 32) (f word) 0 (omega arith))
              (rw (← same_place idx j e) (acts word (j % 32) (omega arith)))
        | no ne ↦
            let apart : (idx == j) ≡ false = ground arith in
            rw (get_or-set_ne b.bits (f word) 0 ne) (rw apart refl)
      ]

  mask_lem : (k : ℕ) → bit (bit_mask idx) k ≡ (idx % 32 == k)
  mask_lem k = bit-two_pow (idx % 32) k

  mask-lt : bit_mask idx < 2 ^ 32
  mask-lt =
      omega (arith, pow-le-pow_right {n = 2} (omega arith) {i = idx % 32} {j = 31} (omega arith))

  -- marking sets the bit, and no other
  pub mark-Yields : Yields b (λ j. if idx == j then true else view b j) (bitmap_mark b idx)
  unfolding bitmap_mark
  mark-Yields =
      update_word-Yields _ (λ _. true)
        λ w k h. ground (arith, bit-bit_or k w (bit_mask idx), mask_lem k)

  -- resetting clears the bit, and no other
  pub reset-Yields : Yields b (λ j. if idx == j then false else view b j) (bitmap_reset b idx)
  unfolding bitmap_reset
  reset-Yields =
      update_word-Yields _ (λ _. false)
        λ w k h. ground (
          arith,
          bit-bit_and k w (2 ^ 32 - 1 - bit_mask idx),
          bit-complement 32 k (bit_mask idx) h mask-lt,
          mask_lem k,
        )

  -- flipping negates the bit, and no other
  pub flip-Yields :
      Yields b (λ j. if idx == j then not (view b j) else view b j) (bitmap_flip b idx)
  unfolding bitmap_flip xor
  flip-Yields =
      update_word-Yields _ not λ w k h. ground (arith, bit-bit_xor k w (bit_mask idx), mask_lem k)

  -- On a valid bitmap and an index inside it, bitmap_set does not panic, gives the bit the
  -- value, changes no other bit, and keeps the bitmap valid and its size.
  pub set-Yields :
      (value : Bool) → Yields b (λ j. if idx == j then value else view b j) (bitmap_set b idx value)
  unfolding bitmap_set
  set-Yields true = rw (lt→ltb idx b.bit_cnt inside) mark-Yields
  set-Yields false = rw (lt→ltb idx b.bit_cnt inside) reset-Yields

  -- testing reads the bit
  pub test-view : bitmap_test b idx ≡ some (view b idx)
  unfolding bitmap_test
  test-view =
      rw (lt→ltb idx b.bit_cnt inside, word_lem)
        (ap some (
          ground (
            arith,
            bit_and-two_pow (idx % 32) (get_or b.bits (idx / 32) 0),
            one-le-pow (idx % 32) 2,
          )))
