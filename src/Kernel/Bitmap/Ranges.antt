-- ===== src/Kernel/Bitmap/Ranges.antt =====
-- The operations on many bits: `bitmap_set_multiple`, `bitmap_contains` and `bitmap_count`.
use native.Mathlib.Decide.{ℕ_discrete}
use uni_orion_os.Base.{
  ℕ, zero, suc, ◌+◌, ◌≤◌, ◌<◌, ◌≡◌, refl, inl, inr, Bool, true, false, not, ◌&&◌, some, List, arith,
  ltb, leb, bool_eq, length, ◌*◌, ◌-◌, ◌^◌, if◌then◌else◌, le→leb, Bool-cases, ◌∙◌, ap,
}
use uni_orion_os.Kernel.Bitmap.{
  Bitmap, add_size, range_ok, set_loop, bitmap_set_multiple, contains_loop, bitmap_contains,
  count_loop, bitmap_count, bitmap_set_all, bitmap_create, bitmap_all,
}
use uni_orion_os.Kernel.Bitmap.View.{view, IsValid, Yields, set-Yields, test-view}

-- Whether one of the `cnt` bits from `start` on has the value.
pub data Search (b : Bitmap) (start cnt : ℕ) (value : Bool) : Bool → Type 0 where
  found : (i : ℕ) → start ≤ i → i < start + cnt → view b i ≡ value → Search b start cnt value true
  absent :
      ((i : ℕ) → start ≤ i → i < start + cnt → view b i ≡ not value)
      → Search b start cnt value false

-- how many of the `cnt` bits of `f` from `start` on have the value
pub tally : (ℕ → Bool) → (cnt start : ℕ) → Bool → ℕ
tally f zero start value = 0
tally f (suc cnt) start value =
    let rest = tally f cnt (start + 1) value in if bool_eq (f start) value then rest + 1 else rest

-- `i` is one of the `cnt` indices from `start` on
abbrev pub in_range : ℕ → ℕ → ℕ → Bool
in_range start cnt i = leb start i && ltb i (start + cnt)

set_loop-Yields :
    (rounds : ℕ) (b : Bitmap) (at : ℕ) (value : Bool)
    → IsValid b
    → at + rounds ≤ b.bit_cnt
    → Yields b (λ i. if in_range at rounds i then value else view b i) (set_loop rounds b at value)
unfolding set_loop
set_loop-Yields zero b at value valid fits =
    (b, refl, record { valid = valid; size = refl; bits = λ i. ground arith })
set_loop-Yields (suc rounds) b at value valid fits =
    let (b₁, e₁, now) = set-Yields {b = b} {idx = at} valid (omega arith) value in
    let (b₂, e₂, rest) =
      set_loop-Yields rounds b₁ (at + 1) value now.valid (omega (arith, now.size)) in
    (
      b₂,
      rw e₁ e₂,
      record {
        valid = rest.valid;
        size = rest.size ∙ now.size;
        bits = λ i. ground (arith, rest.bits i, now.bits i);
      },
    )

module _ (b : Bitmap) (start cnt : ℕ) (valid : IsValid b) (fits : start + cnt ≤ b.bit_cnt) where
  range_ok_lem : range_ok b start cnt ≡ some tt
  unfolding range_ok
  range_ok_lem = rw (
    le→leb start b.bit_cnt (omega arith),
    le→leb (add_size start cnt) b.bit_cnt (omega (arith, valid.small)),
  )

  -- On a valid bitmap and a range inside it, bitmap_set_multiple does not panic, gives every bit
  -- of the range the value, changes no other bit, and keeps the bitmap valid and its size.
  pub set_multiple-Yields :
      (value : Bool)
      → Yields b
          (λ i. if in_range start cnt i then value else view b i)
          (bitmap_set_multiple b start cnt value)
  unfolding bitmap_set_multiple
  set_multiple-Yields value = rw range_ok_lem (set_loop-Yields cnt b start value valid fits)

bool_eq→eq : (a b : Bool) → bool_eq a b ≡ true → a ≡ b
bool_eq→eq a b h = ground arith

bool_ne→eq : (a b : Bool) → bool_eq a b ≡ false → a ≡ not b
bool_ne→eq a b h = ground arith

Search-step :
    {b : Bitmap} {rounds at : ℕ} {value r : Bool}
    → bool_eq (view b at) value ≡ false
    → Search b (at + 1) rounds value r
    → Search b at (suc rounds) value r
Search-step miss (found i h k e) = found i (omega arith) (omega arith) e
Search-step {b} {at} {value} miss (absent none_in) = absent λ i h k. elim (ℕ_discrete at i) [
  | yes e ↦ rw (← e) (bool_ne→eq (view b at) value miss)
  | no ne ↦ none_in i (omega arith) (omega arith)
]

contains_loop-Search :
    (rounds : ℕ) (b : Bitmap) (at : ℕ) (value : Bool)
    → IsValid b
    → at + rounds ≤ b.bit_cnt
    → (r : Bool) × (contains_loop rounds b at value ≡ some r) × Search b at rounds value r
unfolding contains_loop
contains_loop-Search zero b at value valid fits =
    (false, refl, absent (λ i h k. absurd (omega arith)))
contains_loop-Search (suc rounds) b at value valid fits =
    elim (Bool-cases (bool_eq (view b at) value)) [
      | inl hit ↦ (
        true,
        rw (test-view {b = b} {idx = at} valid (omega arith)) (rw hit refl),
        found at (omega arith) (omega arith) (bool_eq→eq (view b at) value hit),
      )
      | inr miss ↦
          let (r, e, rest) = contains_loop-Search rounds b (at + 1) value valid (omega arith) in
          (
            r,
            rw (test-view {b = b} {idx = at} valid (omega arith)) (rw miss e),
            Search-step miss rest,
          )
    ]

count_loop-tally :
    (rounds : ℕ) (b : Bitmap) (at : ℕ) (value : Bool) (acc : ℕ)
    → IsValid b
    → at + rounds ≤ b.bit_cnt
    → count_loop rounds b at value acc ≡ some (acc + tally (view b) rounds at value)
unfolding count_loop tally
count_loop-tally zero b at value acc valid fits = ap some (omega arith)
count_loop-tally (suc rounds) b at value acc valid fits =
    rw (test-view {b = b} {idx = at} valid (omega arith))
      (count_loop-tally rounds b (at + 1) value _ valid (omega arith) ∙ ap some (ground arith))

-- Each bit is counted once: for one of the two values.
tally-total :
    (f : ℕ → Bool) (cnt start : ℕ) → tally f cnt start true + tally f cnt start false ≡ cnt
unfolding tally
tally-total f zero start = refl
tally-total f (suc cnt) start = ground (arith, tally-total f cnt (start + 1))

module _ (b : Bitmap) (start cnt : ℕ) (valid : IsValid b) (fits : start + cnt ≤ b.bit_cnt) where
  -- On a valid bitmap and a range inside it, bitmap_contains does not panic; it returns true
  -- only if some bit of the range has the value, and false only if every bit of the range has
  -- the other value.
  pub contains-Search :
      (value : Bool)
      → (r : Bool) × (bitmap_contains b start cnt value ≡ some r) × Search b start cnt value r
  unfolding bitmap_contains
  contains-Search value =
      let (r, e, s) = contains_loop-Search cnt b start value valid fits in
      (r, rw (range_ok_lem b start cnt valid fits) e, s)

  -- `bitmap_count` counts
  pub count-tally :
      (value : Bool) → bitmap_count b start cnt value ≡ some (tally (view b) cnt start value)
  unfolding bitmap_count
  count-tally value =
      rw (range_ok_lem b start cnt valid fits)
        (count_loop-tally cnt b start value 0 valid fits ∙ ap some (omega arith))

  -- On a valid bitmap and a range inside it, what bitmap_count returns for true and what it
  -- returns for false add up to the length of the range.
  pub count_both :
      (n m : ℕ)
      → bitmap_count b start cnt true ≡ some n
      → bitmap_count b start cnt false ≡ some m
      → n + m ≡ cnt
  count_both n m h k =
      ground (arith, count-tally true, count-tally false, tally-total (view b) cnt start)

-- A bitmap that was just made: every bit is clear.
pub record Fresh (n : ℕ) (b : Bitmap) : Type 0 where
  pub valid : IsValid b
  pub size : b.bit_cnt ≡ n
  pub clear : (i : ℕ) → i < n → view b i ≡ false

-- When both allocations succeed, the block has room for all words and the size is below 2^32 -
-- 32, bitmap_create does not panic and gives a valid bitmap of that size with every bit false,
-- whatever the block held.
pub create-Fresh :
    (n : ℕ) (words : List ℕ)
    → n ≤ 32 * length words
    → n < 2 ^ 32 - 32
    → (b : Bitmap) × (bitmap_create true (some words) n ≡ some (some b)) × Fresh n b
unfolding bitmap_create bitmap_set_all
create-Fresh n words enough small =
    let blank : Bitmap = record { bit_cnt = n; bits = words } in
    let (b, e, done) =
      set_multiple-Yields blank 0 n (record { words = enough; small = small }) (omega arith)
        false in
    (
      b,
      rw e refl,
      record { valid = done.valid; size = done.size; clear = λ i h. done.bits i ∙ ground arith },
    )

-- `bitmap_all` looks for a clear bit.
pub all-contains :
    (b : Bitmap) (start cnt : ℕ) {r : Bool}
    → bitmap_contains b start cnt false ≡ some r
    → bitmap_all b start cnt ≡ some (not r)
unfolding bitmap_all
all-contains b start cnt e = rw e refl
