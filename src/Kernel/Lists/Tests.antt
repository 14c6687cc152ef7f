-- ===== src/Kernel/Lists/Tests.antt =====
-- Runs of the list operations, and the theorems at concrete lists.
use uni_orion_os.Base.{ℕ, ◌≡◌, refl, some, List, [], ◌∷◌, ltb, arith}
use uni_orion_os.Kernel.Lists.{
  list_sort, list_unique, list_min, sort_loop, merge_pass, merge_next, find_end_of_run,
  inplace_merge, is_sorted, merge_runs, merge_one,
}
use uni_orion_os.Kernel.Lists.Order.{StrictWeak}
use uni_orion_os.Kernel.Lists.Sorting.{Sorted, list_sort-Sorted}

sort_test : list_sort ltb (3 ∷ 1 ∷ 2 ∷ 2 ∷ 0 ∷ []) ≡ some (0 ∷ 1 ∷ 2 ∷ 2 ∷ 3 ∷ [])
unfolding list_sort sort_loop merge_pass merge_next find_end_of_run inplace_merge is_sorted
    merge_runs merge_one
sort_test = refl

unique_test : list_unique ltb (1 ∷ 1 ∷ 2 ∷ 1 ∷ []) ≡ (1 ∷ 2 ∷ 1 ∷ [], 1 ∷ [])
unfolding list_unique
unique_test = refl

min_test : list_min ltb (3 ∷ 1 ∷ 2 ∷ []) ≡ some 1
unfolding list_min
min_test = refl

ltb-StrictWeak : StrictWeak ltb
ltb-StrictWeak = record { asym = λ a b h. ground arith; trans = λ a b c h k. ground arith }

list_sort-Sorted_example :
    (out : List ℕ) × (list_sort ltb (3 ∷ 1 ∷ 2 ∷ 1 ∷ []) ≡ some out)
    × Sorted ltb (3 ∷ 1 ∷ 2 ∷ 1 ∷ []) out
list_sort-Sorted_example = list_sort-Sorted ltb-StrictWeak (3 ∷ 1 ∷ 2 ∷ 1 ∷ [])
