-- ===== src/Kernel/Hash/Finding.antt =====
-- `rehash`: the elements are in other buckets, and are found as before.
use uni_orion_os.Base.{
  ℕ, ◌+◌, ◌<◌, ◌≡◌, refl, ◌∙◌, sym, ap, inl, inr, Bool, false, Option, some, List, [], ◌∷◌,
  if◌then◌else◌, arith, Bool-cases, length,
}
use mathlib.Core.Path.{subst}
use uni_orion_os.Devices.Block.{update, update-cases}
use uni_orion_os.Kernel.Hash.{
  Hash, elements_from, bucket_idx, equal, find_elem, hash_find, move_all,
}
use uni_orion_os.Kernel.Hash.Elements.{
  or_else, Apart, IsDistinct, AllIn, IsHashing, IsTable, Apart-none, equal-sym, same_idx,
}
use uni_orion_os.Kernel.Hash.Moving.{idx-lt, length-push}

-- The table is well formed and finds what `g` says.
pub record Finds {A : Type 0} (hash : A → ℕ) (less : A → A → Bool) (h' : Hash A) (g : A → Option A)
    : Type 0 where
  pub table : IsTable hash less h'
  pub find : (k : A) → hash_find hash less h' k ≡ g k

module _ {A : Type 0} (hash : A → ℕ) (less : A → A → Bool) (law : IsHashing hash less)
    (cnt : ℕ) where
  abbrev pub idx : A → ℕ
  idx = bucket_idx hash less cnt

  abbrev pub push : (ℕ → List A) → A → ℕ → List A
  push buckets x = update buckets (idx x) (x ∷ buckets (idx x))

  pub find_push :
      (buckets : ℕ → List A) (x k : A)
      → find_elem hash less (push buckets x (idx k)) k
        ≡ (if equal hash less x k then some x else find_elem hash less (buckets (idx k)) k)
  unfolding find_elem
  find_push buckets x k = elim (update-cases buckets (idx x) (x ∷ buckets (idx x)) (idx k)) [
    | inl (at, now) ↦
        ap (λ xs. find_elem hash less xs k) now
        ∙ ap (λ i. if equal hash less x k then some x else find_elem hash less (buckets i) k)
            (sym at)
    | inr (ne, now) ↦
        let other : equal hash less x k ≡ false = elim (Bool-cases (equal hash less x k)) [
          | inl same ↦ absurd (ne (sym (same_idx hash less law cnt x k same)))
          | inr other ↦ other
        ] in
        ap (λ xs. find_elem hash less xs k) now
        ∙ sym (ap (λ b. if b then some x else find_elem hash less (buckets (idx k)) k) other)
  ]

  pub find-cons :
      (x k : A) (xs : List A)
      → find_elem hash less (x ∷ xs) k
        ≡ (if equal hash less x k then some x else find_elem hash less xs k)
  unfolding find_elem
  find-cons x k xs = refl

  pub find_elem-move_all :
      (xs : List A) (buckets : ℕ → List A) (k : A)
      → IsDistinct hash less xs
      → find_elem hash less (move_all hash less cnt xs buckets (idx k)) k
        ≡ or_else (find_elem hash less xs k) (find_elem hash less (buckets (idx k)) k)
  unfolding move_all find_elem
  find_elem-move_all [] buckets k d = refl
  find_elem-move_all (x ∷ xs) buckets k (a, d) =
      find_elem-move_all xs (push buckets x) k d
      ∙ ap (or_else (find_elem hash less xs k)) (find_push buckets x k)
      ∙ elim (Bool-cases (equal hash less x k)) [
        | inl same ↦ rw (same, Apart-none hash less law x k xs a same) refl
        | inr other ↦ rw other refl
      ]

  pub AllIn-move_all :
      (xs : List A) (buckets : ℕ → List A)
      → ((i : ℕ) → AllIn hash less cnt i (buckets i))
      → (i : ℕ) → AllIn hash less cnt i (move_all hash less cnt xs buckets i)
  unfolding move_all
  AllIn-move_all [] buckets placed i = placed i
  AllIn-move_all (x ∷ xs) buckets placed i = AllIn-move_all xs (push buckets x) pushed i
    where
      pushed : (i : ℕ) → AllIn hash less cnt i (push buckets x i)
      pushed i = elim (update-cases buckets (idx x) (x ∷ buckets (idx x)) i) [
        | inl (at, now) ↦
            let front : AllIn hash less cnt i (x ∷ buckets (idx x)) =
              (sym at, subst (λ j. AllIn hash less cnt i (buckets j)) at (placed i)) in
            subst (AllIn hash less cnt i) (sym now) front
        | inr (ne, now) ↦ subst (AllIn hash less cnt i) (sym now) (placed i)
      ]

  -- every element of the list is apart from what is in the buckets
  abbrev pub Free : List A → (ℕ → List A) → Type 0
  Free [] buckets = Unit
  Free (x ∷ xs) buckets = ((i : ℕ) → Apart hash less x (buckets i)) × Free xs buckets

  Free-push :
      (x : A) (xs : List A) (buckets : ℕ → List A)
      → Apart hash less x xs
      → Free xs buckets
      → Free xs (push buckets x)
  Free-push x [] buckets a f = tt
  Free-push x (y ∷ xs) buckets (ne, a) (f, g) = (pushed, Free-push x xs buckets a g)
    where
      turned : equal hash less x y ≡ false
      turned = elim (Bool-cases (equal hash less x y)) [
        | inl same ↦ let clash = equal-sym hash less law x y same in ground (arith, clash, ne)
        | inr other ↦ other
      ]

      pushed : (i : ℕ) → Apart hash less y (push buckets x i)
      pushed i = elim (update-cases buckets (idx x) (x ∷ buckets (idx x)) i) [
        | inl (at, now) ↦
            let front : Apart hash less y (x ∷ buckets (idx x)) = (turned, f (idx x)) in
            subst (Apart hash less y) (sym now) front
        | inr (other, now) ↦ subst (Apart hash less y) (sym now) (f i)
      ]

  pub IsDistinct-move_all :
      (xs : List A) (buckets : ℕ → List A)
      → IsDistinct hash less xs
      → ((i : ℕ) → IsDistinct hash less (buckets i))
      → Free xs buckets
      → (i : ℕ) → IsDistinct hash less (move_all hash less cnt xs buckets i)
  unfolding move_all
  IsDistinct-move_all [] buckets d e f i = e i
  IsDistinct-move_all (x ∷ xs) buckets (a, d) e (f, g) i =
      IsDistinct-move_all xs (push buckets x) d pushed (Free-push x xs buckets a g) i
    where
      pushed : (i : ℕ) → IsDistinct hash less (push buckets x i)
      pushed i = elim (update-cases buckets (idx x) (x ∷ buckets (idx x)) i) [
        | inl (at, now) ↦
            let front : IsDistinct hash less (x ∷ buckets (idx x)) = (f (idx x), e (idx x)) in
            subst (IsDistinct hash less) (sym now) front
        | inr (other, now) ↦ subst (IsDistinct hash less) (sym now) (e i)
      ]

  pub length-move_all :
      (xs : List A) (buckets : ℕ → List A)
      → 0 < cnt
      → length (elements_from cnt 0 (move_all hash less cnt xs buckets))
        ≡ length xs + length (elements_from cnt 0 buckets)
  unfolding move_all
  length-move_all [] buckets h = omega arith
  length-move_all (x ∷ xs) buckets h =
      let inside = idx-lt hash less cnt x h in
      let more : length (elements_from cnt 0 (push buckets x))
          ≡ length (elements_from cnt 0 buckets) + 1 =
        length-push hash less cnt 0 (idx x) buckets (x ∷ buckets (idx x)) 1 (omega arith)
          (omega (arith, inside)) (omega arith) in
      omega (arith, length-move_all xs (push buckets x) h, more)
