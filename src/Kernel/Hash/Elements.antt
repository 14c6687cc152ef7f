-- ===== src/Kernel/Hash/Elements.antt =====
-- The elements of all buckets, and which of them is found.
use uni_orion_os.Base.{
  ℕ, zero, suc, bit_and, ◌+◌, ◌-◌, ◌≤◌, ◌<◌, ◌≡◌, ◌≢◌, refl, ◌∙◌, sym, ap, inl, inr, Bool, true,
  false, Option, none, some, List, [], ◌∷◌, ◌++◌, ◌==◌, arith, Bool-cases, length,
}
use uni_orion_os.Kernel.Hash.{Hash, elements_from, hash_apply, bucket_idx, equal, find_elem}

-- the first of two results
abbrev pub or_else {ℓ} : {A : Type ℓ} → Option A → Option A → Option A
or_else none o = o
or_else (some a) o = some a

module _ {A : Type 0} (hash : A → ℕ) (less : A → A → Bool) where
  -- no element of the list equals `e`
  abbrev pub Apart : A → List A → Type 0
  Apart e [] = Unit
  Apart e (x ∷ xs) = (equal hash less x e ≡ false) × Apart e xs

  -- no two elements of the list are equal
  abbrev pub IsDistinct : List A → Type 0
  IsDistinct [] = Unit
  IsDistinct (x ∷ xs) = Apart x xs × IsDistinct xs

  pub find_elem-append :
      (xs ys : List A) (e : A)
      → find_elem hash less (xs ++ ys) e
        ≡ or_else (find_elem hash less xs e) (find_elem hash less ys e)
  unfolding find_elem
  find_elem-append [] ys e = refl
  find_elem-append (x ∷ xs) ys e = elim (Bool-cases (equal hash less x e)) [
    | inl same ↦ rw same refl
    | inr other ↦ rw other (find_elem-append xs ys e)
  ]

  -- every element of the list has bucket `i`
  abbrev pub AllIn : (cnt i : ℕ) → List A → Type 0
  AllIn cnt i [] = Unit
  AllIn cnt i (x ∷ xs) = (bucket_idx hash less cnt x ≡ i) × AllIn cnt i xs

-- What the table asks of the two functions: equal elements are an equivalence, and have one hash.
pub record IsHashing {A : Type 0} (hash : A → ℕ) (less : A → A → Bool) : Type 0 where
  pub self : (x : A) → equal hash less x x ≡ true
  pub trans :
      (x y z : A)
      → equal hash less x y ≡ true
      → equal hash less y z ≡ true
      → equal hash less x z ≡ true
  pub same_hash : (x y : A) → equal hash less x y ≡ true → hash x ≡ hash y

-- The table is well formed.
pub record IsTable {A : Type 0} (hash : A → ℕ) (less : A → A → Bool) (h : Hash A) : Type 0 where
  pub some_bucket : 0 < h.bucket_cnt
  pub placed : (i : ℕ) → i < h.bucket_cnt → AllIn hash less h.bucket_cnt i (h.buckets i)
  pub distinct : (i : ℕ) → i < h.bucket_cnt → IsDistinct hash less (h.buckets i)
  pub count : h.elem_cnt ≡ length (hash_apply h)

module _ {A : Type 0} (hash : A → ℕ) (less : A → A → Bool) (law : IsHashing hash less) where
  pub equal-sym : (x y : A) → equal hash less x y ≡ true → equal hash less y x ≡ true
  equal-sym x y h = ground (arith, h)

  pub same_idx :
      (cnt : ℕ) (x y : A)
      → equal hash less x y ≡ true
      → bucket_idx hash less cnt x ≡ bucket_idx hash less cnt y
  same_idx cnt x y h = ap (λ n. bit_and n (cnt - 1)) (law.same_hash x y h)

  -- what is not equal to an element is not equal to an equal one
  pub not_equal :
      (x y z : A)
      → equal hash less x y ≡ false
      → equal hash less y z ≡ true
      → equal hash less x z ≡ false
  not_equal x y z h k = elim (Bool-cases (equal hash less x z)) [
    | inl same ↦ let clash = law.trans x z y same (equal-sym y z k) in ground (arith, clash, h)
    | inr other ↦ other
  ]

  pub Apart-none :
      (x k : A) (xs : List A)
      → Apart hash less x xs
      → equal hash less x k ≡ true
      → find_elem hash less xs k ≡ none
  unfolding find_elem
  Apart-none x k [] a e = refl
  Apart-none x k (y ∷ xs) (ne, a) e =
      let other : equal hash less y k ≡ false = not_equal y x k ne e in
      rw other (Apart-none x k xs a e)

  -- in another bucket there is no equal element
  pub AllIn-none :
      (cnt i : ℕ) (k : A) (xs : List A)
      → AllIn hash less cnt i xs
      → bucket_idx hash less cnt k ≢ i
      → find_elem hash less xs k ≡ none
  unfolding find_elem
  AllIn-none cnt i k [] a ne = refl
  AllIn-none cnt i k (x ∷ xs) (at, a) ne = elim (Bool-cases (equal hash less x k)) [
    | inl same ↦ absurd (ne (sym (same_idx cnt x k same) ∙ at))
    | inr other ↦ rw other (AllIn-none cnt i k xs a ne)
  ]

  pub AllIn-Apart :
      (cnt i : ℕ) (k : A) (xs : List A)
      → AllIn hash less cnt i xs
      → bucket_idx hash less cnt k ≢ i
      → Apart hash less k xs
  AllIn-Apart cnt i k [] a ne = tt
  AllIn-Apart cnt i k (x ∷ xs) (at, a) ne = elim (Bool-cases (equal hash less x k)) [
    | inl same ↦ absurd (ne (sym (same_idx cnt x k same) ∙ at))
    | inr other ↦ (other, AllIn-Apart cnt i k xs a ne)
  ]

  pub or_else-none : (o : Option A) → or_else o none ≡ o
  or_else-none none = refl
  or_else-none (some a) = refl

  module _ (cnt : ℕ) (buckets : ℕ → List A)
      (placed : (i : ℕ) → i < cnt → AllIn hash less cnt i (buckets i)) where
    later_none :
        (rounds i : ℕ) (k : A)
        → i + rounds ≤ cnt
        → bucket_idx hash less cnt k < i
        → find_elem hash less (elements_from rounds i buckets) k ≡ none
    unfolding elements_from find_elem
    later_none zero i k h less_than = refl
    later_none (suc rounds) i k h less_than =
        find_elem-append hash less (buckets i) (elements_from rounds (i + 1) buckets) k
        ∙ ap (λ o. or_else o (find_elem hash less (elements_from rounds (i + 1) buckets) k))
            (AllIn-none cnt i k (buckets i) (placed i (omega arith))
              (λ e. omega (arith, e, less_than)))
        ∙ later_none rounds (i + 1) k (omega arith) (omega arith)

    -- Looking in the bucket of an element is looking in all of them.
    pub find_elem-elements_from :
        (rounds i : ℕ) (k : A)
        → i + rounds ≤ cnt
        → i ≤ bucket_idx hash less cnt k
        → bucket_idx hash less cnt k < i + rounds
        → find_elem hash less (elements_from rounds i buckets) k
          ≡ find_elem hash less (buckets (bucket_idx hash less cnt k)) k
    unfolding elements_from
    find_elem-elements_from zero i k h lo hi = absurd (omega arith)
    find_elem-elements_from (suc rounds) i k h lo hi =
        find_elem-append hash less (buckets i) (elements_from rounds (i + 1) buckets) k
        ∙ elim (Bool-cases (bucket_idx hash less cnt k == i)) [
          | inl same ↦
              let at : bucket_idx hash less cnt k ≡ i = ground (arith, same) in
              ap (or_else (find_elem hash less (buckets i) k))
                (later_none rounds (i + 1) k (omega arith) (omega (arith, at)))
              ∙ or_else-none (find_elem hash less (buckets i) k)
              ∙ ap (λ j. find_elem hash less (buckets j) k) (sym at)
          | inr other ↦
              ap (λ o. or_else o (find_elem hash less (elements_from rounds (i + 1) buckets) k))
                (AllIn-none cnt i k (buckets i) (placed i (omega arith))
                  (λ e. ground (arith, e, other)))
              ∙ find_elem-elements_from rounds (i + 1) k (omega arith) (ground (arith, other, lo))
                  (omega arith)
        ]
