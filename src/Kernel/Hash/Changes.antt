-- ===== src/Kernel/Hash/Changes.antt =====
-- The table as a finite map from keys to elements: what each operation makes of it.
use uni_orion_os.Base.{
  ℕ, zero, suc, ◌+◌, ◌<◌, ◌≡◌, refl, ◌∙◌, sym, ap, inl, inr, Bool, false, Option, none, some, List,
  [], ◌∷◌, ◌==◌, if◌then◌else◌, arith, Bool-cases, length, fun_ext,
}
use mathlib.Core.Path.{subst}
use uni_orion_os.Devices.Block.{update, update_self, update_ne, update-cases}
use uni_orion_os.Kernel.Hash.{
  remove_found, insert_elem, remove_elem, Hash, elements_from, hash_apply, no_elements, bucket_idx,
  equal, find_elem, hash_find, rehashed, rehash,
}
use uni_orion_os.Kernel.Hash.Sizes.{new_bucket_cnt-IsCount}
use uni_orion_os.Kernel.Hash.Elements.{
  or_else-none, IsDistinct, AllIn, IsHashing, IsTable, find_elem-elements_from, same_idx,
}
use uni_orion_os.Kernel.Hash.Moving.{idx-lt, length-push, IsDistinct-elements_from}
use uni_orion_os.Kernel.Hash.Finding.{
  Finds, find_push, find_elem-move_all, AllIn-move_all, IsDistinct-move_all, length-move_all, Free,
}
use uni_orion_os.Kernel.Hash.Removing.{
  none-Apart, IsDistinct-remove_found, AllIn-remove_found, length-remove_found,
  find_elem-remove_found,
}

nothing : {A : Type 0} (rounds i : ℕ) → elements_from {A = A} rounds i no_elements ≡ []
unfolding elements_from
nothing zero i = refl
nothing (suc rounds) i = nothing rounds (i + 1)

module _ {A : Type 0} (hash : A → ℕ) (less : A → A → Bool) (law : IsHashing hash less) where
  free : (cnt : ℕ) (xs : List A) → Free hash less law cnt xs no_elements
  free cnt [] = tt
  free cnt (x ∷ xs) = ((λ i. tt), free cnt xs)

  -- one lookup, in all elements
  find-all :
      (h : Hash A) (k : A)
      → IsTable hash less h
      → find_elem hash less (hash_apply h) k ≡ hash_find hash less h k
  unfolding hash_apply hash_find
  find-all h k t =
      find_elem-elements_from hash less law h.bucket_cnt h.buckets t.placed h.bucket_cnt 0 k
        (omega arith) (omega arith) (omega (arith, idx-lt hash less h.bucket_cnt k t.some_bucket))

  all-IsDistinct : (h : Hash A) → IsTable hash less h → IsDistinct hash less (hash_apply h)
  unfolding hash_apply
  all-IsDistinct h t =
      IsDistinct-elements_from hash less law h.bucket_cnt h.buckets t.placed t.distinct h.bucket_cnt
        0 (omega arith)

  rehashed-Finds :
      (h : Hash A) (cnt : ℕ)
      → IsTable hash less h
      → 0 < cnt
      → Finds hash less (rehashed hash less h cnt) (hash_find hash less h)
  unfolding hash_find hash_apply find_elem
  rehashed-Finds h cnt t pos =
      let all = hash_apply h in
      let d = all-IsDistinct h t in
      record {
        table = record {
          some_bucket = pos;
          placed = λ i l. AllIn-move_all hash less law cnt all no_elements (λ j. tt) i;
          distinct = λ i l.
              IsDistinct-move_all hash less law cnt all no_elements d (λ j. tt) (free cnt all) i;
          count =
              t.count
              ∙ omega (
                arith,
                length-move_all hash less law cnt all no_elements pos,
                ap length (nothing {A = A} cnt 0),
              );
        };
        find = λ k.
            find_elem-move_all hash less law cnt all no_elements k d
            ∙ or_else-none hash less law (find_elem hash less all k)
            ∙ find-all h k t;
      }

  same :
      (h : Hash A) (g : A → Option A)
      → Finds hash less h g
      → Finds hash less h (hash_find hash less h)
  same h g f = record { table = f.table; find = λ k. refl }

  pub rehash-Finds :
      (h : Hash A) (memory : Bool) (g : A → Option A)
      → Finds hash less h g
      → (h' : Hash A) × (rehash hash less h memory ≡ some h') × Finds hash less h' g
  unfolding rehash
  rehash-Finds h memory g f =
      let (cnt, run, c) = new_bucket_cnt-IsCount h.elem_cnt in
      let moved = rehashed-Finds h cnt f.table c.pos in
      elim (Bool-cases (cnt == h.bucket_cnt)) [
        | inl stays ↦ (h, rw (run, stays) refl, f)
        | inr other ↦ elim (Bool-cases memory) [
          | inr short ↦ (h, rw (run, other, short) refl, f)
          | inl given ↦ (
            rehashed hash less h cnt,
            rw (run, other, given) refl,
            record { table = moved.table; find = λ k. moved.find k ∙ f.find k },
          )
        ]
      ]

  module _ (h : Hash A) (t : IsTable hash less h) (e : A) where
    abbrev i : ℕ
    i = bucket_idx hash less h.bucket_cnt e

    inside : i < h.bucket_cnt
    inside = idx-lt hash less h.bucket_cnt e t.some_bucket

    -- one bucket is another
    AllIn-update :
        (xs : List A)
        → AllIn hash less h.bucket_cnt i xs
        → (j : ℕ) → j < h.bucket_cnt
        → AllIn hash less h.bucket_cnt j (update h.buckets i xs j)
    AllIn-update xs a j l = elim (update-cases h.buckets i xs j) [
      | inl (at, now) ↦
          subst (AllIn hash less h.bucket_cnt j) (sym now)
            (subst (λ m. AllIn hash less h.bucket_cnt m xs) (sym at) a)
      | inr (ne, now) ↦ subst (AllIn hash less h.bucket_cnt j) (sym now) (t.placed j l)
    ]

    IsDistinct-update :
        (xs : List A)
        → IsDistinct hash less xs
        → (j : ℕ) → j < h.bucket_cnt
        → IsDistinct hash less (update h.buckets i xs j)
    IsDistinct-update xs d j l = elim (update-cases h.buckets i xs j) [
      | inl (at, now) ↦ subst (IsDistinct hash less) (sym now) d
      | inr (ne, now) ↦ subst (IsDistinct hash less) (sym now) (t.distinct j l)
    ]

    pub insert_elem-Finds :
        hash_find hash less h e ≡ none
        → Finds hash less
            (insert_elem hash less h e)
            (λ k. if equal hash less e k then some e else hash_find hash less h k)
    unfolding hash_find hash_apply
    insert_elem-Finds absent = record {
      table = record {
        some_bucket = t.some_bucket;
        placed = AllIn-update (e ∷ h.buckets i) (refl, t.placed i inside);
        distinct =
            IsDistinct-update (e ∷ h.buckets i)
              (none-Apart hash less law (h.buckets i) e absent, t.distinct i inside);
        count = omega (
          arith,
          t.count,
          length-push hash less h.bucket_cnt 0 i h.buckets (e ∷ h.buckets i) 1 (omega arith)
              (omega (arith, inside)) (omega arith),
        );
      };
      find = λ k. find_push hash less law h.bucket_cnt h.buckets e k;
    }

    -- putting the bucket back
    put_back : (xs : List A) → update (update h.buckets i xs) i (h.buckets i) ≡ h.buckets
    put_back xs = fun_ext (λ j. elim (update-cases (update h.buckets i xs) i (h.buckets i) j) [
      | inl (at, now) ↦ now ∙ ap h.buckets (sym at)
      | inr (ne, now) ↦ now ∙ update_ne h.buckets i xs j ne
    ])

    pub remove_elem-Finds :
        {old : A}
        → hash_find hash less h e ≡ some old
        → Finds hash less
            (remove_elem hash less h e)
            (λ k. if equal hash less e k then none else hash_find hash less h k)
    unfolding hash_find hash_apply
    remove_elem-Finds found =
        let xs = remove_found hash less (h.buckets i) e in
        let now : update h.buckets i xs i ≡ xs = update_self h.buckets i xs in
        let shorter : length (h.buckets i) ≡ length (update h.buckets i xs i) + 1 =
          length-remove_found hash less law (h.buckets i) e found
          ∙ ap (λ ys. length ys + 1) (sym now) in
        let back =
          length-push hash less h.bucket_cnt 0 i (update h.buckets i xs) (h.buckets i) 1
            (omega arith) (omega (arith, inside)) shorter in
        let restored = ap (λ b. length (elements_from h.bucket_cnt 0 b)) (put_back xs) in
        record {
          table = record {
            some_bucket = t.some_bucket;
            placed = AllIn-update xs (
                AllIn-remove_found hash less law h.bucket_cnt i (h.buckets i) e
                  (t.placed i inside));
            distinct =
                IsDistinct-update xs
                  (IsDistinct-remove_found hash less law (h.buckets i) e (t.distinct i inside));
            count = omega (arith, t.count, back, restored);
          };
          find = λ k. elim (update-cases h.buckets i xs (bucket_idx hash less h.bucket_cnt k)) [
            | inl (at, here) ↦
                ap (λ ys. find_elem hash less ys k) here
                ∙ find_elem-remove_found hash less law (h.buckets i) e k (t.distinct i inside)
                ∙ ap
                    (λ j. if equal hash less e k then none else find_elem hash less (h.buckets j) k)
                    (sym at)
            | inr (ne, here) ↦
                let apart : equal hash less e k ≡ false = elim (Bool-cases (equal hash less e k)) [
                  | inl eq ↦ absurd (ne (sym (same_idx hash less law h.bucket_cnt e k eq)))
                  | inr other ↦ other
                ] in
                ap (λ ys. find_elem hash less ys k) here
                ∙ sym (ap (λ b. if b then none else hash_find hash less h k) apart)
          ];
        }
