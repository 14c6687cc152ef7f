-- ===== src/Kernel/Hash/Sizes.antt =====
-- The number of buckets that `rehash` chooses.
use uni_orion_os.Base.{
  ℕ, zero, suc, ◌+◌, ◌*◌, ◌%◌, ◌^◌, ◌-◌, ◌/◌, ap, ◌⊎◌, ◌==◌, bit_and, ◌≤◌, ◌<◌, ◌≡◌, refl, ◌∙◌, inl,
  inr, true, false, some, ltb, if◌then◌else◌, arith, Bool-cases,
}
use uni_orion_os.Base.Bits.{bit_and-le, and_lowest}
use native.Mathlib.Nat.{pow-suc, one-le-pow}
use uni_orion_os.Kernel.Hash.{turn_off_least_1bit, is_power_of_2, power_loop, new_bucket_cnt}

and_self : (fuel m : ℕ) → m ≤ fuel → bit_and m m ≡ m
and_self zero m h = let e : m ≡ 0 = omega arith in rw e refl
and_self (suc fuel) m h = elim (Bool-cases (m == 0)) [
  | inl empty ↦ let e : m ≡ 0 = ground (arith, empty) in rw e refl
  | inr some_left ↦
      let half = and_self fuel (m / 2) (ground (arith, some_left)) in
      omega (arith, and_lowest m m, half)
]

-- the lowest 1 of an even number is that of its half
turn_off_even : (m : ℕ) → 0 < m → turn_off_least_1bit (2 * m) ≡ 2 * turn_off_least_1bit m
unfolding turn_off_least_1bit
turn_off_even m h =
    let half : (2 * m) / 2 ≡ m = omega arith in
    let below : (2 * m - 1) / 2 ≡ m - 1 = omega arith in
    let both : bit_and ((2 * m) / 2) ((2 * m - 1) / 2) ≡ bit_and m (m - 1) =
      ap (λ a. bit_and a ((2 * m - 1) / 2)) half ∙ ap (bit_and m) below in
    omega (arith, and_lowest (2 * m) (2 * m - 1), both)

turn_off_odd : (m : ℕ) → turn_off_least_1bit (2 * m + 1) ≡ 2 * m
unfolding turn_off_least_1bit
turn_off_odd m =
    let half : (2 * m + 1) / 2 ≡ m = omega arith in
    let below : (2 * m + 1 - 1) / 2 ≡ m = omega arith in
    let both : bit_and ((2 * m + 1) / 2) ((2 * m + 1 - 1) / 2) ≡ bit_and m m =
      ap (λ a. bit_and a ((2 * m + 1 - 1) / 2)) half ∙ ap (bit_and m) below in
    omega (arith, and_lowest (2 * m + 1) (2 * m + 1 - 1), both, and_self m m (omega arith))

halves : (n : ℕ) → (m : ℕ) × ((n ≡ 2 * m) ⊎ (n ≡ 2 * m + 1))
halves n = elim (Bool-cases (n % 2 == 0)) [
  | inl even ↦ (n / 2, inl (ground (arith, even)))
  | inr odd ↦ (n / 2, inr (ground (arith, odd)))
]

-- a number with one 1 is a power of two
power_lem : (fuel n : ℕ) → n ≤ fuel → 0 < n → turn_off_least_1bit n ≡ 0 → (k : ℕ) × (n ≡ 2 ^ k)
power_lem zero n h l e = absurd (omega arith)
power_lem (suc fuel) n h l e =
    let (m, cases) = halves n in
    elim cases [
      | inl even ↦
          let same : turn_off_least_1bit n ≡ 2 * turn_off_least_1bit m =
            ap turn_off_least_1bit even ∙ turn_off_even m (omega arith) in
          let (k, p) = power_lem fuel m (omega arith) (omega arith) (omega arith) in
          (suc k, even ∙ ap (λ x. 2 * x) p ∙ two_pow_suc k)
      | inr odd ↦
          let same : turn_off_least_1bit n ≡ 2 * m = ap turn_off_least_1bit odd ∙ turn_off_odd m in
          (0, omega arith)
    ]
  where
    two_pow_suc : (k : ℕ) → 2 * 2 ^ k ≡ 2 ^ suc k
    two_pow_suc k = omega arith

-- a lower 1 is turned off before the highest one
turn_off-highest :
    (fuel n k : ℕ)
    → n ≤ fuel
    → 2 ^ k ≤ n
    → 0 < turn_off_least_1bit n
    → 2 ^ k ≤ turn_off_least_1bit n
turn_off-highest fuel n zero h l e = e
turn_off-highest zero n (suc k) h l e =
    absurd (omega (arith, l, one-le-pow (suc k) 2 (omega arith)))
turn_off-highest (suc fuel) n (suc k) h l e =
    let (m, cases) = halves n in
    elim cases [
      | inl even ↦
          let positive : 0 < 2 ^ suc k = one-le-pow (suc k) 2 (omega arith) in
          let same : turn_off_least_1bit n ≡ 2 * turn_off_least_1bit m =
            ap turn_off_least_1bit even ∙ turn_off_even m (omega arith) in
          let below =
            turn_off-highest fuel m k (omega arith) (omega (arith, pow-suc 2 k)) (omega arith) in
          omega (arith, below, same, pow-suc 2 k)
      | inr odd ↦
          let same : turn_off_least_1bit n ≡ 2 * m = ap turn_off_least_1bit odd ∙ turn_off_odd m in
          omega (arith, same, pow-suc 2 k)
    ]

is_power-turn_off : (n : ℕ) → is_power_of_2 n ≡ true → turn_off_least_1bit n ≡ 0
unfolding is_power_of_2
is_power-turn_off n e = ground (arith, e)

turn_off-lt : (n : ℕ) → 0 < n → turn_off_least_1bit n < n
unfolding turn_off_least_1bit
turn_off-lt n h = omega (arith, bit_and-le n (n - 1))

turn_off-pos : (n : ℕ) → 0 < n → is_power_of_2 n ≡ false → 0 < turn_off_least_1bit n
unfolding is_power_of_2
turn_off-pos n h e = ground (arith, h, e)

stops : (fuel n : ℕ) → is_power_of_2 n ≡ true → power_loop (suc fuel) n ≡ some n
unfolding power_loop
stops fuel n e = rw e refl

goes_on :
    (fuel n : ℕ)
    → is_power_of_2 n ≡ false
    → power_loop (suc fuel) n ≡ power_loop fuel (turn_off_least_1bit n)
unfolding power_loop
goes_on fuel n e = rw e refl

-- the greatest power of two that is not greater than `n`
pub record IsCount (n cnt : ℕ) : Type 0 where
  pub power : (k : ℕ) × (cnt ≡ 2 ^ k)
  pub pos : 0 < cnt
  pub bound : cnt ≤ n
  pub greatest : (k : ℕ) → 2 ^ k ≤ n → 2 ^ k ≤ cnt

power_loop-IsCount :
    (fuel n : ℕ) → 0 < n → n ≤ fuel → (cnt : ℕ) × (power_loop fuel n ≡ some cnt) × IsCount n cnt
power_loop-IsCount zero n h k = absurd (omega arith)
power_loop-IsCount (suc fuel) n h k = elim (Bool-cases (is_power_of_2 n)) [
  | inl power ↦ (
    n,
    stops fuel n power,
    record {
      power = power_lem n n (omega arith) h (is_power-turn_off n power);
      pos = h;
      bound = omega arith;
      greatest = λ j l. l;
    },
  )
  | inr other ↦
      let less = turn_off-lt n h in
      let left = turn_off-pos n h other in
      let (cnt, run, c) =
        power_loop-IsCount fuel (turn_off_least_1bit n) left (omega (arith, less)) in
      (
        cnt,
        goes_on fuel n other ∙ run,
        record {
          power = c.power;
          pos = c.pos;
          bound = omega (arith, c.bound, less);
          greatest = λ j l. c.greatest j (turn_off-highest n n j (omega arith) l left);
        },
      )
]

-- For every number of elements the loop of rehash over the number of buckets ends, with the
-- greatest power of two that is at most half the number of elements, or at most 4 where that
-- half is less than 4.
pub new_bucket_cnt-IsCount :
    (elem_cnt : ℕ)
    → (cnt : ℕ) × (new_bucket_cnt elem_cnt ≡ some cnt)
      × IsCount (if ltb (elem_cnt / 2) 4 then 4 else elem_cnt / 2) cnt
unfolding new_bucket_cnt
new_bucket_cnt-IsCount elem_cnt =
    let n = if ltb (elem_cnt / 2) 4 then 4 else elem_cnt / 2 in
    power_loop-IsCount n n (ground arith) (omega arith)
