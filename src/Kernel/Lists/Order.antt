-- ===== src/Kernel/Lists/Order.antt =====
-- Ordered lists, and what merging two of them gives.
use mathlib.Core.List.{Perm, perm_middle}
use mathlib.Core.List.Perm
use uni_orion_os.Base.{◌≡◌, inl, inr, Bool, true, false, List, [], ◌∷◌, ◌++◌, arith, Bool-cases}
use uni_orion_os.Kernel.Lists.{sorted_from, is_sorted, merge_one, merge_runs}

abbrev pub All : {A : Type 0} → (A → Type 0) → List A → Type 0
All P [] = Unit
All P (x ∷ xs) = P x × All P xs

-- `less` orders the elements up to ties
pub record StrictWeak {A : Type 0} (less : A → A → Bool) : Type 0 where
  pub asym : (a b : A) → less a b ≡ true → less b a ≡ false
  pub trans : (a b c : A) → less b a ≡ false → less c b ≡ false → less c a ≡ false

module _ {A : Type 0} (less : A → A → Bool) where
  -- no element of the list is less than `a`
  abbrev pub Above : A → List A → Type 0
  Above a = All (λ b. less b a ≡ false)

  -- no element is less than one before it
  abbrev pub IsOrdered : List A → Type 0
  IsOrdered [] = Unit
  IsOrdered (a ∷ xs) = Above a xs × IsOrdered xs

module _ {A : Type 0} {less : A → A → Bool} (laws : StrictWeak less) where
  pub Above-trans : (a b : A) (xs : List A) → less b a ≡ false → Above less b xs → Above less a xs
  Above-trans a b [] h k = tt
  Above-trans a b (c ∷ xs) h k = (laws.trans a b c h k.0, Above-trans a b xs h k.1)

  pub sorted_from-IsOrdered :
      (a : A) (xs : List A) → sorted_from less a xs ≡ true → IsOrdered less (a ∷ xs)
  unfolding sorted_from
  sorted_from-IsOrdered a [] h = (tt, tt)
  sorted_from-IsOrdered a (b ∷ xs) h =
      let first : less b a ≡ false = ground arith in
      let rest : sorted_from less b xs ≡ true = ground arith in
      let ordered = sorted_from-IsOrdered b xs rest in
      ((first, Above-trans a b xs first ordered.0), ordered)

  pub is_sorted-IsOrdered : (xs : List A) → is_sorted less xs ≡ true → IsOrdered less xs
  unfolding is_sorted
  is_sorted-IsOrdered [] h = tt
  is_sorted-IsOrdered (a ∷ xs) h = sorted_from-IsOrdered a xs h

module _ {A : Type 0} (less : A → A → Bool) (P : A → Type 0) where
  All-merge_one :
      (a : A) (go_on : List A → List A)
      → P a
      → ((zs : List A) → All P zs → All P (go_on zs))
      → (ys : List A) → All P ys
      → All P (merge_one less a go_on ys)
  unfolding merge_one
  All-merge_one a go_on pa rest [] h = (pa, rest [] tt)
  All-merge_one a go_on pa rest (b ∷ ys) h = elim (Bool-cases (less b a)) [
    | inl lt ↦ rw lt (h.0, All-merge_one a go_on pa rest ys h.1)
    | inr ge ↦ rw ge (pa, rest (b ∷ ys) h)
  ]

  pub All-merge_runs : (xs ys : List A) → All P xs → All P ys → All P (merge_runs less xs ys)
  unfolding merge_runs
  All-merge_runs [] ys h k = k
  All-merge_runs (a ∷ xs) ys h k =
      All-merge_one a (merge_runs less xs) h.0 (λ zs l. All-merge_runs xs zs h.1 l) ys k

module _ {A : Type 0} {less : A → A → Bool} (laws : StrictWeak less) where
  IsOrdered-merge_one :
      (a : A) (xs : List A)
      → Above less a xs
      → ((zs : List A) → IsOrdered less zs → IsOrdered less (merge_runs less xs zs))
      → (ys : List A) → IsOrdered less ys
      → IsOrdered less (merge_one less a (merge_runs less xs) ys)
  unfolding merge_one
  IsOrdered-merge_one a xs above rest [] h =
      (All-merge_runs less (λ b. less b a ≡ false) xs [] above tt, rest [] tt)
  IsOrdered-merge_one a xs above rest (b ∷ ys) h = elim (Bool-cases (less b a)) [
    | inl lt ↦ rw lt (
      All-merge_one less (λ c. less c b ≡ false) a (merge_runs less xs) (laws.asym b a lt)
          (λ zs l.
            All-merge_runs less (λ c. less c b ≡ false) xs zs
              (Above-trans laws b a xs (laws.asym b a lt) above) l)
          ys h.0,
      IsOrdered-merge_one a xs above rest ys h.1,
    )
    | inr ge ↦ rw ge (
      All-merge_runs less (λ c. less c a ≡ false) xs (b ∷ ys) above
          (ge, Above-trans laws a b ys ge h.0),
      rest (b ∷ ys) h,
    )
  ]

  pub IsOrdered-merge_runs :
      (xs ys : List A)
      → IsOrdered less xs
      → IsOrdered less ys
      → IsOrdered less (merge_runs less xs ys)
  unfolding merge_runs
  IsOrdered-merge_runs [] ys h k = k
  IsOrdered-merge_runs (a ∷ xs) ys h k =
      IsOrdered-merge_one a xs h.0 (λ zs l. IsOrdered-merge_runs xs zs h.1 l) ys k

module _ {A : Type 0} (less : A → A → Bool) where
  merge_one-perm :
      (a : A) (xs : List A)
      → ((zs : List A) → Perm (merge_runs less xs zs) (xs ++ zs))
      → (ys : List A) → Perm (merge_one less a (merge_runs less xs) ys) ((a ∷ xs) ++ ys)
  unfolding merge_one
  merge_one-perm a xs rest [] = Perm.cons a (rest [])
  merge_one-perm a xs rest (b ∷ ys) = elim (Bool-cases (less b a)) [
    | inl lt ↦ rw lt (
        Perm.trans (Perm.cons b (merge_one-perm a xs rest ys))
          (Perm.symm (perm_middle (a ∷ xs) ys)))
    | inr ge ↦ rw ge (Perm.cons a (rest (b ∷ ys)))
  ]

  pub merge_runs-perm : (xs ys : List A) → Perm (merge_runs less xs ys) (xs ++ ys)
  unfolding merge_runs
  merge_runs-perm [] ys = Perm.refl ys
  merge_runs-perm (a ∷ xs) ys = merge_one-perm a xs (λ zs. merge_runs-perm xs zs) ys
