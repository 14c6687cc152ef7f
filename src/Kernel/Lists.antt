-- ===== src/Kernel/Lists.antt =====
-- lib/kernel/list.c: a doubly linked list is the sequence of its elements, front first. `less` is
-- the comparison that the source passes with its auxiliary data; `none` is a failed ASSERT.
pub mod Order
pub mod Passes
pub mod Sorting
mod Tests
use uni_orion_os.Base.{
  ℕ, zero, suc, ◌+◌, Bool, true, false, not, ◌&&◌, Option, none, some, List, [], ◌∷◌, ◌++◌, ltb,
  if◌then◌else◌, length,
}
use uni_orion_os.Base.Panic.{◌>>=◌, ◌>>◌, ensure}

module _ {A : Type 0} where
  unfoldable pub list_push_back : List A → A → List A
  list_push_back xs a = xs ++ (a ∷ [])

  unfoldable pub list_pop_front : List A → Option (A × List A)
  list_pop_front [] = none
  list_pop_front (x ∷ xs) = some (x, xs)

module _ {A : Type 0} (less : A → A → Bool) where
  -- before the first element that `elem` is less than
  unfoldable pub list_insert_ordered : List A → A → List A
  list_insert_ordered [] elem = elem ∷ []
  list_insert_ordered (e ∷ xs) elem =
      if less elem e then elem ∷ e ∷ xs else e ∷ list_insert_ordered xs elem

  -- whether no element of the list behind `a` is less than its predecessor
  unfoldable pub sorted_from : A → List A → Bool
  sorted_from a [] = true
  sorted_from a (b ∷ xs) = not (less b a) && sorted_from b xs

  unfoldable pub is_sorted : List A → Bool
  unfolding sorted_from
  is_sorted [] = true
  is_sorted (a ∷ xs) = sorted_from a xs

  -- the run that starts at `a`, and what follows it
  unfoldable pub find_end_of_run : A → List A → List A × List A
  find_end_of_run a [] = (a ∷ [], [])
  find_end_of_run a (b ∷ xs) =
      let (run, rest) = find_end_of_run b xs in
      if less b a then (a ∷ [], b ∷ xs) else (a ∷ run, rest)

  -- one element of the first run against the second run; `go_on` merges what is behind it
  unfoldable pub merge_one : A → (List A → List A) → List A → List A
  merge_one a go_on [] = a ∷ go_on []
  merge_one a go_on (b ∷ ys) =
      if not (less b a) then a ∷ go_on (b ∷ ys) else b ∷ merge_one a go_on ys

  unfoldable pub merge_runs : List A → List A → List A
  merge_runs [] ys = ys
  merge_runs (a ∷ xs) ys = merge_one a (merge_runs xs) ys

  unfoldable pub inplace_merge : List A → List A → Option (List A)
  inplace_merge xs ys = do ensure (is_sorted xs); ensure (is_sorted ys); some (merge_runs xs ys)

  -- the run `first` with the run behind it, if there is one; `go_on` is the rest of the pass
  unfoldable pub merge_next :
      (List A → Option (ℕ × List A)) → (first rest : List A) → Option (ℕ × List A)
  merge_next go_on first [] = some (1, first)
  merge_next go_on first (b ∷ ys) =
      let (second, others) = find_end_of_run b ys in
      do
        merged ← inplace_merge first second
        (runs, out) ← go_on others
        some (runs + 1, merged ++ out)

  -- one pass of `list_sort`: the number of output runs, and the list
  unfoldable pub merge_pass : (fuel : ℕ) → List A → Option (ℕ × List A)
  merge_pass fuel [] = some (0, [])
  merge_pass zero (a ∷ xs) = none
  merge_pass (suc fuel) (a ∷ xs) =
      let (first, rest) = find_end_of_run a xs in merge_next (merge_pass fuel) first rest

  -- `none` without a failed ASSERT would be a lack of fuel
  unfoldable pub sort_loop : (fuel : ℕ) → List A → Option (List A)
  sort_loop zero xs = none
  sort_loop (suc fuel) xs = do
    (output_run_cnt, out) ← merge_pass (length xs) xs
    let again = sort_loop fuel out
    if ltb 1 output_run_cnt then again else (do ensure (is_sorted out); some out)

  unfoldable pub list_sort : List A → Option (List A)
  list_sort xs = sort_loop (length xs + 1) xs

  unique_from : A → List A → List A × List A
  unique_from elem [] = (elem ∷ [], [])
  unique_from elem (next ∷ xs) =
      let (kept, dropped) = unique_from (if same elem next then elem else next) xs in
      if same elem next then (kept, next ∷ dropped) else (elem ∷ kept, dropped)
    where
      same : A → A → Bool
      same a b = not (less a b) && not (less b a)

  unfoldable pub max_from : A → List A → A
  max_from max [] = max
  max_from max (e ∷ xs) = max_from (if less max e then e else max) xs

  min_from : A → List A → A
  min_from min [] = min
  min_from min (e ∷ xs) = min_from (if less e min then e else min) xs

  -- on an empty list the source returns the tail, `none`
  unfoldable pub list_max : List A → Option A
  unfolding max_from
  list_max [] = none
  list_max (x ∷ xs) = some (max_from x xs)

  unfoldable pub list_min : List A → Option A
  unfolding min_from
  list_min [] = none
  list_min (x ∷ xs) = some (min_from x xs)

  -- the list without repeated neighbours, and what was taken out
  unfoldable pub list_unique : List A → List A × List A
  unfolding unique_from
  list_unique [] = ([], [])
  list_unique (x ∷ xs) = unique_from x xs
