-- ===== src/Filesys/Path/Tests.antt =====
-- Paths from the tests in filesys/path.c, with `a` as 97 and so on.
use uni_orion_os.Base.{
  ℕ, ◌+◌, ◌≡◌, inl, refl, false, some, List, [], ◌∷◌, ◌++◌, arith, length, replicate,
}
use uni_orion_os.Filesys.Path.{
  slash, skip_slashes, copy_entry, path_next_entry, split_step, split_loop, path_split_last,
  path_is_relative,
}
use uni_orion_os.Filesys.Path.Splitting.{path_next_entry-IsName, path_split_last-ends}

-- "/ab//c"
abbrev path : List ℕ
path = 47 ∷ 97 ∷ 98 ∷ 47 ∷ 47 ∷ 99 ∷ []

relative_test : path_is_relative path ≡ false
unfolding path_is_relative
relative_test = refl

split_test : path_split_last 7 path 14 ≡ some (47 ∷ 97 ∷ 98 ∷ 47 ∷ [], 99 ∷ [])
unfolding path_split_last split_loop split_step path_next_entry skip_slashes copy_entry
split_test = refl

path_next_entry-IsName_example :
    path_next_entry (replicate 1 slash ++ ((97 ∷ 98 ∷ []) ++ (replicate 2 slash ++ (99 ∷ [])))) 14 0
    ≡ (97 ∷ 98 ∷ [], 0 + 1 + length {A = ℕ} (97 ∷ 98 ∷ []) + 2)
path_next_entry-IsName_example =
    path_next_entry-IsName 1 2 0 14 (97 ∷ 98 ∷ []) (99 ∷ []) (refl, (refl, tt)) (omega arith)
      (omega arith) refl (inl (omega arith))

path_split_last-ends_example :
    (result : List ℕ × List ℕ) × (path_split_last (length path + 1) path 14 ≡ some result)
path_split_last-ends_example = path_split_last-ends path 14 (omega arith)
