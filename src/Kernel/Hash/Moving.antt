-- ===== src/Kernel/Hash/Moving.antt =====
-- `rehash`: the elements are in other buckets, and are found as before.
use uni_orion_os.Base.{
  ℕ, zero, suc, ◌+◌, ◌-◌, ◌≤◌, ◌<◌, ◌≡◌, ◌≢◌, refl, ◌∙◌, ap, inl, inr, Bool, List, [], ◌∷◌, ◌++◌,
  ◌==◌, arith, Bool-cases, length, length-append,
}
use uni_orion_os.Base.Bits.{bit_and-le}
use uni_orion_os.Devices.Block.{update, update_self, update_ne}
use uni_orion_os.Kernel.Hash.{elements_from, bucket_idx}
use uni_orion_os.Kernel.Hash.Elements.{Apart, IsDistinct, AllIn, IsHashing, AllIn-Apart}

module _ {A : Type 0} (hash : A → ℕ) (less : A → A → Bool) where
  -- everything in the list is apart from the other one
  abbrev AllApart : List A → List A → Type 0
  AllApart [] ys = Unit
  AllApart (x ∷ xs) ys = Apart hash less x ys × AllApart xs ys

  Apart-append :
      (x : A) (xs ys : List A)
      → Apart hash less x xs
      → Apart hash less x ys
      → Apart hash less x (xs ++ ys)
  Apart-append x [] ys a b = b
  Apart-append x (y ∷ xs) ys (ne, a) b = (ne, Apart-append x xs ys a b)

  IsDistinct-append :
      (xs ys : List A)
      → IsDistinct hash less xs
      → IsDistinct hash less ys
      → AllApart xs ys
      → IsDistinct hash less (xs ++ ys)
  IsDistinct-append [] ys d e a = e
  IsDistinct-append (x ∷ xs) ys (ne, d) e (b, a) =
      (Apart-append x xs ys ne b, IsDistinct-append xs ys d e a)

  pub idx-lt : (cnt : ℕ) (x : A) → 0 < cnt → bucket_idx hash less cnt x < cnt
  idx-lt cnt x h = omega (arith, bit_and-le (hash x) (cnt - 1))

  -- one bucket that gets an element, among the elements of all
  pub length-push :
      (rounds i j : ℕ) (buckets : ℕ → List A) (ys : List A) (n : ℕ)
      → i ≤ j
      → j < i + rounds
      → length ys ≡ length (buckets j) + n
      → length (elements_from rounds i (update buckets j ys))
        ≡ length (elements_from rounds i buckets) + n
  unfolding elements_from
  length-push zero i j buckets ys n h k e = absurd (omega arith)
  length-push (suc rounds) i j buckets ys n h k e =
      let split =
        length-append (update buckets j ys i)
          (elements_from rounds (i + 1) (update buckets j ys)) in
      let was = length-append (buckets i) (elements_from rounds (i + 1) buckets) in
      elim (Bool-cases (i == j)) [
        | inl same ↦
            let at : i ≡ j = ground (arith, same) in
            let here : length (update buckets j ys i) ≡ length ys =
              ap (λ k. length (update buckets j ys k)) at ∙ ap length (update_self buckets j ys) in
            let there : length (buckets i) ≡ length (buckets j) = ap (λ k. length (buckets k)) at in
            let later = length-behind rounds (i + 1) j buckets ys (omega (arith, at)) in
            omega (arith, split, was, here, there, later, e)
        | inr other ↦
            let ne : i ≢ j = λ q. ground (arith, q, other) in
            let here : length (update buckets j ys i) ≡ length (buckets i) =
              ap length (update_ne buckets j ys i ne) in
            let later =
              length-push rounds (i + 1) j buckets ys n (ground (arith, other, h)) (omega arith)
                e in
            omega (arith, split, was, here, later)
      ]
    where
      length-behind :
          (rounds i j : ℕ) (buckets : ℕ → List A) (ys : List A)
          → j < i
          → length (elements_from rounds i (update buckets j ys))
            ≡ length (elements_from rounds i buckets)
      length-behind zero i j buckets ys h = refl
      length-behind (suc rounds) i j buckets ys h =
          let split =
            length-append (update buckets j ys i)
              (elements_from rounds (i + 1) (update buckets j ys)) in
          let was = length-append (buckets i) (elements_from rounds (i + 1) buckets) in
          let here : length (update buckets j ys i) ≡ length (buckets i) =
            ap length (update_ne buckets j ys i (λ q. omega (arith, q, h))) in
          omega (arith, split, was, here, length-behind rounds (i + 1) j buckets ys (omega arith))

  module _ (law : IsHashing hash less) (cnt : ℕ) where
    module _ (buckets : ℕ → List A) (placed : (i : ℕ) → i < cnt → AllIn hash less cnt i (buckets i))
        (distinct : (i : ℕ) → i < cnt → IsDistinct hash less (buckets i)) where
      later_Apart :
          (rounds i : ℕ) (k : A)
          → i + rounds ≤ cnt
          → bucket_idx hash less cnt k < i
          → Apart hash less k (elements_from rounds i buckets)
      unfolding elements_from
      later_Apart zero i k h less_than = tt
      later_Apart (suc rounds) i k h less_than =
          Apart-append k (buckets i) (elements_from rounds (i + 1) buckets)
            (AllIn-Apart hash less law cnt i k (buckets i) (placed i (omega arith))
              (λ e. omega (arith, e, less_than)))
            (later_Apart rounds (i + 1) k (omega arith) (omega arith))

      later_AllApart :
          (rounds i : ℕ) (xs : List A)
          → i + 1 + rounds ≤ cnt
          → AllIn hash less cnt i xs
          → AllApart xs (elements_from rounds (i + 1) buckets)
      later_AllApart rounds i [] h a = tt
      later_AllApart rounds i (x ∷ xs) h (at, a) =
          (later_Apart rounds (i + 1) x h (omega (arith, at)), later_AllApart rounds i xs h a)

      -- No two elements of the table are equal.
      pub IsDistinct-elements_from :
          (rounds i : ℕ) → i + rounds ≤ cnt → IsDistinct hash less (elements_from rounds i buckets)
      unfolding elements_from
      IsDistinct-elements_from zero i h = tt
      IsDistinct-elements_from (suc rounds) i h =
          IsDistinct-append (buckets i) (elements_from rounds (i + 1) buckets)
            (distinct i (omega arith)) (IsDistinct-elements_from rounds (i + 1) (omega arith))
            (later_AllApart rounds i (buckets i) (omega arith) (placed i (omega arith)))
