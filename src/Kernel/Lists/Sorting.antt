-- ===== src/Kernel/Lists/Sorting.antt =====
-- `list_sort`: its passes, until one run is left.
use mathlib.Core.List.{Perm, Mem, mem-cons_self, mem-cons_of_mem}
use mathlib.Core.List.Perm
use uni_orion_os.Base.{
  ℕ, zero, suc, ◌+◌, ◌≤◌, ◌<◌, ◌≡◌, refl, inl, inr, Bool, true, false, List, [], ◌∷◌, arith,
  if◌then◌else◌, Bool-cases, some, length, ltb,
}
use uni_orion_os.Kernel.Lists.{
  sorted_from, is_sorted, sort_loop, list_sort, list_insert_ordered, max_from, list_max,
}
use uni_orion_os.Kernel.Lists.Order.{All, StrictWeak, Above-trans, IsOrdered, is_sorted-IsOrdered}
use uni_orion_os.Kernel.Lists.Passes.{
  descents_from, descents, bridged, merge_pass-Pass, bridged-length,
}

-- What `list_sort` gives for `xs`.
pub record Sorted {A : Type 0} (less : A → A → Bool) (xs : List A) (out : List A) : Type 0 where
  pub perm : Perm out xs
  pub ordered : IsOrdered less out

module _ {A : Type 0} (less : A → A → Bool) where
  is_sorted_of_descents : (xs : List A) → bridged less xs ≤ 1 → is_sorted less xs ≡ true
  unfolding is_sorted descents sorted_from descents_from
  is_sorted_of_descents [] h = refl
  is_sorted_of_descents (a ∷ xs) h = from a xs (omega arith)
    where
      from : (a : A) (xs : List A) → descents_from less a xs ≡ 0 → sorted_from less a xs ≡ true
      from a [] h = refl
      from a (b ∷ xs) h = elim (Bool-cases (less b a)) [
        | inl lt ↦ absurd (ground arith)
        | inr ge ↦ ground (arith, from b xs (ground arith))
      ]

module _ {A : Type 0} {less : A → A → Bool} (laws : StrictWeak less) where
  sort_loop-Sorted :
      (fuel : ℕ) (xs : List A)
      → bridged less xs ≤ fuel
      → 0 < fuel
      → (out : List A) × (sort_loop less fuel xs ≡ some out) × Sorted less xs out
  unfolding sort_loop
  sort_loop-Sorted zero xs h k = absurd (omega arith)
  sort_loop-Sorted (suc fuel) xs h k =
      let (n, out, run, pass) = merge_pass-Pass laws (length xs) xs (omega arith) in
      elim (Bool-cases (ltb 1 n)) [
        | inl more ↦
            let (sorted, go_on, result) =
              sort_loop-Sorted fuel out (ground (arith, pass.few, pass.fewer))
                (ground (arith, pass.few, pass.fewer)) in
            (
              sorted,
              rw (run, more) go_on,
              record { perm = Perm.trans result.perm pass.perm; ordered = result.ordered },
            )
        | inr done ↦
            let sorted = is_sorted_of_descents less out (ground (arith, pass.few)) in
            (
              out,
              rw (run, done, sorted) refl,
              record { perm = pass.perm; ordered = is_sorted-IsOrdered laws out sorted },
            )
      ]

  -- If the comparison is a strict weak order, list_sort on any list ends without a failed
  -- assertion, and gives a permutation of the list in which no element is less than one before
  -- it.
  pub list_sort-Sorted :
      (xs : List A) → (out : List A) × (list_sort less xs ≡ some out) × Sorted less xs out
  unfolding list_sort
  list_sort-Sorted xs =
      sort_loop-Sorted (length xs + 1) xs (omega (arith, bridged-length less xs)) (omega arith)

  All-list_insert_ordered :
      (P : A → Type 0) (xs : List A) (elem : A)
      → All P xs
      → P elem
      → All P (list_insert_ordered less xs elem)
  unfolding list_insert_ordered
  All-list_insert_ordered P [] elem h p = (p, tt)
  All-list_insert_ordered P (e ∷ xs) elem h p = elim (Bool-cases (less elem e)) [
    | inl lt ↦ rw lt (p, h)
    | inr ge ↦ rw ge (h.0, All-list_insert_ordered P xs elem h.1 p)
  ]

  list_insert_ordered-perm :
      (xs : List A) (elem : A) → Perm (list_insert_ordered less xs elem) (elem ∷ xs)
  unfolding list_insert_ordered
  list_insert_ordered-perm [] elem = Perm.refl _
  list_insert_ordered-perm (e ∷ xs) elem = elim (Bool-cases (less elem e)) [
    | inl lt ↦ rw lt (Perm.refl _)
    | inr ge ↦ rw ge (Perm.trans (Perm.cons e (list_insert_ordered-perm xs elem)) (Perm.swap _ _ _))
  ]

  list_insert_ordered-IsOrdered :
      (xs : List A) (elem : A)
      → IsOrdered less xs
      → IsOrdered less (list_insert_ordered less xs elem)
  unfolding list_insert_ordered
  list_insert_ordered-IsOrdered [] elem h = (tt, tt)
  list_insert_ordered-IsOrdered (e ∷ xs) elem h = elim (Bool-cases (less elem e)) [
    | inl lt ↦
        let after = laws.asym elem e lt in rw lt ((after, Above-trans laws elem e xs after h.0), h)
    | inr ge ↦ rw ge (
      All-list_insert_ordered (λ b. less b e ≡ false) xs elem h.0 ge,
      list_insert_ordered-IsOrdered xs elem h.1,
    )
  ]

  -- If the comparison is a strict weak order and the list is ordered, list_insert_ordered gives
  -- an ordered permutation of the list with the new element.
  pub list_insert_ordered-Sorted :
      (xs : List A) (elem : A)
      → IsOrdered less xs
      → Sorted less (elem ∷ xs) (list_insert_ordered less xs elem)
  list_insert_ordered-Sorted xs elem h = record {
    perm = list_insert_ordered-perm xs elem;
    ordered = list_insert_ordered-IsOrdered xs elem h;
  }

  irreflexive : (m : A) → less m m ≡ false
  irreflexive m = elim (Bool-cases (less m m)) [ inl lt ↦ laws.asym m m lt | inr ge ↦ ge ]

  max_from-All : (m : A) (xs : List A) → All (λ x. less (max_from less m xs) x ≡ false) (m ∷ xs)
  unfolding max_from
  max_from-All m [] = (irreflexive m, tt)
  max_from-All m (e ∷ xs) = go (max_from-All e xs) (max_from-All m xs) (less m e) refl
    where
      go :
          All (λ x. less (max_from less e xs) x ≡ false) (e ∷ xs)
          → All (λ x. less (max_from less m xs) x ≡ false) (m ∷ xs)
          → (b : Bool) → less m e ≡ b
          → All (λ x. less (max_from less (if b then e else m) xs) x ≡ false) (m ∷ e ∷ xs)
      go h k true lt = (laws.trans m e (max_from less e xs) (laws.asym m e lt) h.0, h)
      go h k false ge = (k.0, (laws.trans e m (max_from less m xs) ge k.0, k.1))

  max_from-Mem : (m : A) (xs : List A) → Mem (max_from less m xs) (m ∷ xs)
  unfolding max_from
  max_from-Mem m [] = mem-cons_self
  max_from-Mem m (e ∷ xs) = go (max_from-Mem e xs) (max_from-Mem m xs) (less m e)
    where
      go :
          Mem (max_from less e xs) (e ∷ xs)
          → Mem (max_from less m xs) (m ∷ xs)
          → (b : Bool) → Mem (max_from less (if b then e else m) xs) (m ∷ e ∷ xs)
      go h k true = mem-cons_of_mem m h
      go h k false = (Perm.mem_iff (Perm.swap m e xs)).0 (mem-cons_of_mem e k)

  -- If the comparison is a strict weak order, list_max of a list that is not empty gives an
  -- element of the list that is less than no element of it.
  pub list_max-IsMax :
      (x : A) (xs : List A)
      → (m : A) × (list_max less (x ∷ xs) ≡ some m)
        × Mem m (x ∷ xs)
        × All (λ y. less m y ≡ false) (x ∷ xs)
  unfolding list_max
  list_max-IsMax x xs = (max_from less x xs, refl, max_from-Mem x xs, max_from-All x xs)
