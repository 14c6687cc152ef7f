-- ===== src/Kernel/Hash/Removing.antt =====
-- A bucket without the element that was found.
use uni_orion_os.Base.{
  ℕ, ◌+◌, ◌≡◌, refl, ◌∙◌, sym, inl, inr, Bool, true, false, none, some, List, [], ◌∷◌,
  if◌then◌else◌, arith, Bool-cases, length,
}
use uni_orion_os.Kernel.Hash.{remove_found, equal, find_elem}
use uni_orion_os.Kernel.Hash.Elements.{
  Apart, IsDistinct, AllIn, IsHashing, Apart-none, equal-sym, not_equal,
}

module _ {A : Type 0} (hash : A → ℕ) (less : A → A → Bool) (law : IsHashing hash less) where
  pub none-Apart : (xs : List A) (e : A) → find_elem hash less xs e ≡ none → Apart hash less e xs
  unfolding find_elem
  none-Apart [] e h = tt
  none-Apart (x ∷ xs) e h = elim (Bool-cases (equal hash less x e)) [
    | inl same ↦ let clash : some x ≡ none = sym (rw same refl) ∙ h in cc
    | inr other ↦ (other, none-Apart xs e (sym (rw other refl) ∙ h))
  ]

  -- equal elements are found alike
  pub find_elem-same :
      (xs : List A) (e k : A)
      → equal hash less e k ≡ true
      → find_elem hash less xs e ≡ find_elem hash less xs k
  unfolding find_elem
  find_elem-same [] e k same = refl
  find_elem-same (x ∷ xs) e k same = elim (Bool-cases (equal hash less x e)) [
    | inl at ↦ rw (at, law.trans x e k at same) refl
    | inr other ↦ rw (other, not_equal hash less law x e k other same) (find_elem-same xs e k same)
  ]

  Apart-remove_found :
      (x : A) (xs : List A) (e : A)
      → Apart hash less x xs
      → Apart hash less x (remove_found hash less xs e)
  unfolding remove_found
  Apart-remove_found x [] e a = tt
  Apart-remove_found x (y ∷ xs) e (ne, a) = elim (Bool-cases (equal hash less y e)) [
    | inl same ↦ rw same a
    | inr other ↦ rw other (ne, Apart-remove_found x xs e a)
  ]

  pub IsDistinct-remove_found :
      (xs : List A) (e : A)
      → IsDistinct hash less xs
      → IsDistinct hash less (remove_found hash less xs e)
  unfolding remove_found
  IsDistinct-remove_found [] e d = tt
  IsDistinct-remove_found (x ∷ xs) e (a, d) = elim (Bool-cases (equal hash less x e)) [
    | inl same ↦ rw same d
    | inr other ↦ rw other (Apart-remove_found x xs e a, IsDistinct-remove_found xs e d)
  ]

  pub AllIn-remove_found :
      (cnt i : ℕ) (xs : List A) (e : A)
      → AllIn hash less cnt i xs
      → AllIn hash less cnt i (remove_found hash less xs e)
  unfolding remove_found
  AllIn-remove_found cnt i [] e a = tt
  AllIn-remove_found cnt i (x ∷ xs) e (at, a) = elim (Bool-cases (equal hash less x e)) [
    | inl same ↦ rw same a
    | inr other ↦ rw other (at, AllIn-remove_found cnt i xs e a)
  ]

  pub length-remove_found :
      (xs : List A) (e : A) {x : A}
      → find_elem hash less xs e ≡ some x
      → length xs ≡ length (remove_found hash less xs e) + 1
  unfolding remove_found find_elem
  length-remove_found [] e h = cc
  length-remove_found (y ∷ xs) e h = elim (Bool-cases (equal hash less y e)) [
    | inl same ↦ rw same (omega arith)
    | inr other ↦
        let later = length-remove_found xs e (sym (rw other refl) ∙ h) in
        rw other (omega (arith, later))
  ]

  pub find_elem-remove_found :
      (xs : List A) (e k : A)
      → IsDistinct hash less xs
      → find_elem hash less (remove_found hash less xs e) k
        ≡ (if equal hash less e k then none else find_elem hash less xs k)
  unfolding remove_found find_elem
  find_elem-remove_found [] e k d = elim (Bool-cases (equal hash less e k)) [
    | inl same ↦ rw same refl
    | inr other ↦ rw other refl
  ]
  find_elem-remove_found (x ∷ xs) e k (a, d) = elim (Bool-cases (equal hash less x e)) [
    | inl found ↦ elim (Bool-cases (equal hash less e k)) [
      | inl same ↦ rw (found, same) (Apart-none hash less law x k xs a (law.trans x e k found same))
      | inr other ↦
          let apart : equal hash less x k ≡ false = elim (Bool-cases (equal hash less x k)) [
            | inl at ↦
                let clash = law.trans e x k (equal-sym hash less law x e found) at in
                ground (arith, clash, other)
            | inr ne ↦ ne
          ] in
          rw (found, other, apart) refl
    ]
    | inr passed ↦ elim (Bool-cases (equal hash less x k)) [
      | inl at ↦
          let apart : equal hash less e k ≡ false = elim (Bool-cases (equal hash less e k)) [
            | inl same ↦
                let clash = law.trans x k e at (equal-sym hash less law e k same) in
                ground (arith, clash, passed)
            | inr ne ↦ ne
          ] in
          rw (passed, at, apart) refl
      | inr ne ↦ rw (passed, ne) (find_elem-remove_found xs e k d)
    ]
  ]
