-- ===== src/Kernel/Hash/Tests.antt =====
-- A table of numbers, of which the last two decimal digits are the key.
use uni_orion_os.Base.{
  ℕ, ◌/◌, ◌%◌, ◌≡◌, refl, inl, inr, Bool, true, some, [], ◌∷◌, ◌==◌, ltb, if◌then◌else◌, arith,
  Bool-cases,
}
use uni_orion_os.Kernel.Hash.{
  Hash, elements_from, hash_apply, find_elem, hash_find, hash_insert, hash_replace, hash_delete,
  new_bucket_cnt, power_loop, is_power_of_2, turn_off_least_1bit, hash_bytes, hash_string,
}
use uni_orion_os.Kernel.Hash.Sizes.{IsCount, new_bucket_cnt-IsCount}
use uni_orion_os.Kernel.Hash.Elements.{IsHashing, IsTable}
use uni_orion_os.Kernel.Hash.Finding.{Finds}
use uni_orion_os.Kernel.Hash.Maps.{
  kept_or_with, with_element, without_element, hash_insert-Finds, hash_delete-Finds,
  hash_replace-Finds,
}

abbrev key : ℕ → ℕ
key n = n % 100

abbrev by_key : ℕ → ℕ → Bool
by_key a b = ltb (key a) (key b)

law : IsHashing key by_key
law = record {
  self = λ x. ground arith;
  trans = λ x y z h k. ground (arith, h, k);
  same_hash = λ x y h. ground (arith, h);
}

abbrev table : Hash ℕ
table = record { elem_cnt = 1; bucket_cnt = 4; buckets = λ i. if i == 1 then 305 ∷ [] else [] }

table-IsTable : IsTable key by_key table
unfolding hash_apply elements_from
table-IsTable = record {
  some_bucket = omega arith;
  placed = λ i h. elim (Bool-cases (i == 1)) [
    | inl at ↦ let one : 1 ≡ i = ground (arith, at) in rw at (one, tt)
    | inr other ↦ rw other tt
  ];
  distinct =
      λ i h. elim (Bool-cases (i == 1)) [ inl at ↦ rw at (tt, tt) | inr other ↦ rw other tt ];
  count = refl;
}

ten_buckets : new_bucket_cnt 27 ≡ some 8
unfolding new_bucket_cnt power_loop is_power_of_2 turn_off_least_1bit
ten_buckets = refl

-- the published hash of the string "a" for the variant that multiplies first
hash_of_a : hash_bytes (97 ∷ []) ≡ 84696446
unfolding hash_bytes
hash_of_a = refl

same_hash_of_strings : hash_string (97 ∷ 98 ∷ 0 ∷ 99 ∷ []) ≡ hash_bytes (97 ∷ 98 ∷ [])
unfolding hash_string hash_bytes
same_hash_of_strings = refl

found : hash_find key by_key table 5 ≡ some 305
unfolding hash_find find_elem
found = refl

new_bucket_cnt-IsCount_example :
    (cnt : ℕ) × (new_bucket_cnt 27 ≡ some cnt) × IsCount (if ltb (27 / 2) 4 then 4 else 27 / 2) cnt
new_bucket_cnt-IsCount_example = new_bucket_cnt-IsCount 27

hash_insert-Finds_example :
    (h' : Hash ℕ) × (hash_insert key by_key table 7 true ≡ some (hash_find key by_key table 7, h'))
    × Finds key by_key h'
        (kept_or_with key by_key law table table-IsTable 7 true (hash_find key by_key table 7))
hash_insert-Finds_example = hash_insert-Finds key by_key law table table-IsTable 7 true

hash_delete-Finds_example :
    (h' : Hash ℕ) × (hash_delete key by_key table 105 true
      ≡ some (hash_find key by_key table 105, h'))
    × Finds key by_key h' (without_element key by_key law table table-IsTable 105 true)
hash_delete-Finds_example = hash_delete-Finds key by_key law table table-IsTable 105 true

hash_replace-Finds_example :
    (h' : Hash ℕ) × (hash_replace key by_key table 105 true
      ≡ some (hash_find key by_key table 105, h'))
    × Finds key by_key h' (with_element key by_key law table table-IsTable 105 true)
hash_replace-Finds_example = hash_replace-Finds key by_key law table table-IsTable 105 true
