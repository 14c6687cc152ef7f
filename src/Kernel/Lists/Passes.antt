-- ===== src/Kernel/Lists/Passes.antt =====
-- One pass of `list_sort`: it merges neighbouring runs, and the descents of the list get fewer.
use mathlib.Core.List.{Perm, append_assoc, append-nil}
use mathlib.Core.List.Perm
use uni_orion_os.Base.{
  ℕ, zero, suc, ◌+◌, ◌≤◌, ◌≡◌, refl, ◌∙◌, sym, ap, ◌⊎◌, inl, inr, Bool, true, false, List, [], ◌∷◌,
  ◌++◌, arith, if◌then◌else◌, Bool-cases, some, length,
}
use uni_orion_os.Kernel.Lists.{
  sorted_from, is_sorted, find_end_of_run, merge_runs, inplace_merge, merge_next, merge_pass,
}
use uni_orion_os.Kernel.Lists.Order.{
  StrictWeak, IsOrdered, is_sorted-IsOrdered, IsOrdered-merge_runs, merge_runs-perm,
}

module _ {A : Type 0} (less : A → A → Bool) where
  -- how often an element of the list behind `a` is less than its predecessor
  unfoldable pub descents_from : A → List A → ℕ
  descents_from a [] = 0
  descents_from a (b ∷ xs) = let rest = descents_from b xs in if less b a then rest + 1 else rest

  unfoldable pub descents : List A → ℕ
  unfolding descents_from
  descents [] = 0
  descents (a ∷ xs) = descents_from a xs

  -- the descents of a list that another run precedes, that to its head included
  abbrev pub bridged : List A → ℕ
  bridged [] = 0
  bridged (b ∷ ys) = suc (descents (b ∷ ys))

  pub bridged-length : (xs : List A) → bridged xs ≤ length xs
  unfolding descents
  bridged-length [] = omega arith
  bridged-length (a ∷ xs) = omega (arith, from a xs)
    where
      from : (a : A) (xs : List A) → descents_from a xs ≤ length xs
      from a [] = omega arith
      from a (b ∷ xs) = ground (arith, from b xs)

  -- What `find_end_of_run` returns: a run and the rest, with a descent between them.
  pub record IsRun (a : A) (xs : List A) (r : List A × List A) : Type 0 where
    pub whole : r.0 ++ r.1 ≡ a ∷ xs
    pub others : List A
    pub starts : r.0 ≡ a ∷ others
    pub sorted : sorted_from less a others ≡ true
    pub count : descents (a ∷ xs) ≡ bridged r.1
    pub shorter : length r.1 ≤ length xs

  IsRun-cons :
      (a b : A) (xs : List A) {r : List A × List A}
      → less b a ≡ false
      → IsRun b xs r
      → IsRun a (b ∷ xs) (a ∷ r.0, r.1)
  unfolding descents sorted_from
  IsRun-cons a b xs {r} ge run = record {
    whole = ap (λ l. a ∷ l) run.whole;
    others = r.0;
    starts = refl;
    sorted = rw run.starts (rw (ge, run.sorted) refl);
    count = rw ge run.count;
    shorter = omega (arith, run.shorter);
  }

  pub find-IsRun : (a : A) (xs : List A) → IsRun a xs (find_end_of_run less a xs)
  unfolding find_end_of_run descents sorted_from
  find-IsRun a [] = record {
    whole = refl;
    others = [];
    starts = refl;
    sorted = refl;
    count = refl;
    shorter = omega arith;
  }
  find-IsRun a (b ∷ xs) = elim (Bool-cases (less b a)) [
    | inl lt ↦ rw lt (record {
      whole = refl;
      others = [];
      starts = refl;
      sorted = refl;
      count = rw lt (omega arith);
      shorter = omega arith;
    })
    | inr ge ↦ rw ge (IsRun-cons a b xs ge (find-IsRun b xs))
  ]

  IsRun-is_sorted :
      {a : A} {xs : List A} {r : List A × List A} → IsRun a xs r → is_sorted less r.0 ≡ true
  unfolding is_sorted
  IsRun-is_sorted run = rw run.starts run.sorted

  bridged-append : (xs ys : List A) → bridged (xs ++ ys) ≤ bridged xs + bridged ys
  unfolding descents
  bridged-append [] ys = omega arith
  bridged-append (a ∷ xs) ys = omega (arith, from a xs ys)
    where
      from : (a : A) (xs ys : List A) → descents_from a (xs ++ ys) ≤ descents_from a xs + bridged ys
      from a [] [] = omega arith
      from a [] (b ∷ ys) = ground arith
      from a (b ∷ xs) ys = ground (arith, from b xs ys)

  descents_of_IsOrdered : (xs : List A) → IsOrdered less xs → descents xs ≡ 0
  unfolding descents
  descents_of_IsOrdered [] h = refl
  descents_of_IsOrdered (a ∷ xs) h = from a xs h
    where
      from : (a : A) (xs : List A) → IsOrdered less (a ∷ xs) → descents_from a xs ≡ 0
      from a [] h = refl
      from a (b ∷ xs) h = rw h.0.0 (from b xs h.1)

  bridged_of_IsOrdered : (xs : List A) → IsOrdered less xs → bridged xs ≤ 1
  bridged_of_IsOrdered [] h = omega arith
  bridged_of_IsOrdered (a ∷ xs) h = omega (arith, descents_of_IsOrdered (a ∷ xs) h)

-- The outcome of a pass with `n` output runs.
pub record Pass {A : Type 0} (less : A → A → Bool) (xs : List A) (n : ℕ) (out : List A)
    : Type 0 where
  pub perm : Perm out xs
  pub few : bridged less out ≤ n
  pub fewer : n + n ≤ bridged less xs + 1

module _ {A : Type 0} {less : A → A → Bool} (laws : StrictWeak less) where
  merged :
      {a b : A} {xs ys : List A} {r s : List A × List A}
      → IsRun less a xs r
      → IsRun less b ys s
      → (inplace_merge less r.0 s.0 ≡ some (merge_runs less r.0 s.0))
        × IsOrdered less (merge_runs less r.0 s.0)
  unfolding inplace_merge
  merged {r} {s} one two =
      let p = IsRun-is_sorted less one in
      let q = IsRun-is_sorted less two in
      (
        rw (p, q) refl,
        IsOrdered-merge_runs laws r.0 s.0 (is_sorted-IsOrdered laws r.0 p)
            (is_sorted-IsOrdered laws s.0 q),
      )

  -- the pass when the list is one run, and when another run follows
  merge_pass-last :
      (fuel : ℕ) (a : A) (xs : List A)
      → (find_end_of_run less a xs).1 ≡ []
      → merge_pass less (suc fuel) (a ∷ xs) ≡ some (1, (find_end_of_run less a xs).0)
  unfolding merge_pass merge_next
  merge_pass-last fuel a xs e = rw e refl

  merge_pass-next :
      (fuel : ℕ) (a : A) (xs : List A) {b : A} {ys out : List A} {n : ℕ}
      → (find_end_of_run less a xs).1 ≡ b ∷ ys
      → merge_pass less fuel (find_end_of_run less b ys).1 ≡ some (n, out)
      → merge_pass less (suc fuel) (a ∷ xs)
        ≡ some (
          n + 1,
          merge_runs less (find_end_of_run less a xs).0 (find_end_of_run less b ys).0 ++ out,
        )
  unfolding merge_pass merge_next
  merge_pass-next fuel a xs {b} {ys} e go_on =
      let first = (merged (find-IsRun less a xs) (find-IsRun less b ys)).0 in
      rw (e, go_on, first) refl

  perm_of_eq : {u v : List A} → u ≡ v → Perm u v
  perm_of_eq {u} e = rw e (Perm.refl _)

  last-Pass :
      {a : A} {xs : List A} {r : List A × List A}
      → IsRun less a xs r
      → r.1 ≡ []
      → Pass less (a ∷ xs) 1 r.0
  last-Pass {a} {xs} {r} run e =
      let all : r.0 ≡ a ∷ xs = sym (append-nil r.0) ∙ ap (λ l. r.0 ++ l) (sym e) ∙ run.whole in
      let none_left : descents less (a ∷ xs) ≡ 0 = run.count ∙ ap (bridged less) e in
      let same : bridged less r.0 ≡ suc (descents less (a ∷ xs)) = ap (bridged less) all in
      record { perm = perm_of_eq all; few = omega (arith, same, none_left); fewer = omega arith }

  next-perm :
      {a b : A} {xs ys out : List A} {r s : List A × List A}
      → IsRun less a xs r
      → r.1 ≡ b ∷ ys
      → IsRun less b ys s
      → Perm out s.1
      → Perm (merge_runs less r.0 s.0 ++ out) (a ∷ xs)
  next-perm {a} {b} {xs} {ys} {out} {r} {s} one e two later =
      let whole : (r.0 ++ s.0) ++ s.1 ≡ a ∷ xs =
        append_assoc r.0 s.0 s.1 ∙ ap (λ l. r.0 ++ l) (two.whole ∙ sym e) ∙ one.whole in
      Perm.trans (Perm.append (merge_runs-perm less r.0 s.0) later) (perm_of_eq whole)

  next-Pass :
      {a b : A} {xs ys out : List A} {n : ℕ} {r s : List A × List A}
      → IsRun less a xs r
      → r.1 ≡ b ∷ ys
      → IsRun less b ys s
      → Pass less s.1 n out
      → Pass less (a ∷ xs) (n + 1) (merge_runs less r.0 s.0 ++ out)
  next-Pass {a} {b} {xs} {ys} {out} {n} {r} {s} one e two later =
      let one_run = bridged_of_IsOrdered less (merge_runs less r.0 s.0) (merged one two).1 in
      let split = bridged-append less (merge_runs less r.0 s.0) out in
      let first : descents less (a ∷ xs) ≡ suc (descents less (b ∷ ys)) =
        one.count ∙ ap (bridged less) e in
      record {
        perm = next-perm one e two later.perm;
        few = omega (arith, one_run, split, later.few);
        fewer = omega (arith, first, two.count, later.fewer);
      }

  list-cases : (xs : List A) → (xs ≡ []) ⊎ ((b : A) × (ys : List A) × (xs ≡ b ∷ ys))
  list-cases [] = inl refl
  list-cases (b ∷ ys) = inr (b, ys, refl)

  pub merge_pass-Pass :
      (fuel : ℕ) (xs : List A)
      → length xs ≤ fuel
      → (n : ℕ) × (out : List A) × (merge_pass less fuel xs ≡ some (n, out)) × Pass less xs n out
  unfolding merge_pass descents
  merge_pass-Pass zero [] h =
      (0, [], refl, record { perm = Perm.refl []; few = omega arith; fewer = omega arith })
  merge_pass-Pass (suc fuel) [] h =
      (0, [], refl, record { perm = Perm.refl []; few = omega arith; fewer = omega arith })
  merge_pass-Pass zero (a ∷ xs) h = absurd (omega arith)
  merge_pass-Pass (suc fuel) (a ∷ xs) h =
      let one = find-IsRun less a xs in
      elim (list-cases (find_end_of_run less a xs).1) [
        | inl e ↦ (1, _, merge_pass-last fuel a xs e, last-Pass one e)
        | inr (b, ys, e) ↦
            let two = find-IsRun less b ys in
            let len : length (find_end_of_run less a xs).1 ≡ suc (length ys) = ap length e in
            let (n, out, run, pass) =
              merge_pass-Pass fuel (find_end_of_run less b ys).1
                (omega (arith, one.shorter, two.shorter)) in
            (n + 1, _, merge_pass-next fuel a xs e run, next-Pass one e two pass)
      ]
