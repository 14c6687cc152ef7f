-- ===== src/Filesys/FreeMap/Tests.antt =====
-- A device of forty sectors, and the theorems about its free map.
use uni_orion_os.Base.{ℕ, ◌≡◌, refl, true, Option, none, some, [], ◌∷◌, arith, ltb}
use uni_orion_os.Kernel.Bitmap.{
  bitmap_scan_and_flip, bitmap_scan, bitmap_contains, bitmap_test, bitmap_set_multiple, bitmap_set,
  bitmap_mark, bitmap_reset, update_word,
}
use uni_orion_os.Kernel.Bitmap.View.{IsValid}
use uni_orion_os.Filesys.FreeMap.{FreeMap, MapFile, free_map_allocate, free_map_release}
use uni_orion_os.Filesys.FreeMap.Sectors.{in_use, Allocation, allocate-Allocation, release-allocate}

-- a file whose writes succeed while a budget lasts
abbrev budget : MapFile ℕ
budget = record { bitmap_write = λ b n. (ltb 0 n, 0); bitmap_read = λ b n. some (true, b) }

-- sectors 0 and 1 are in use
abbrev start : FreeMap ℕ
start = record { free_map = record { bit_cnt = 40; bits = 3 ∷ 0 ∷ [] }; is_open = true; world = 1 }

start-IsValid : IsValid start.free_map
start-IsValid = omega arith

abbrev after_five : FreeMap ℕ
after_five = record {
  free_map = record { bit_cnt = 40; bits = 0x7f ∷ 0 ∷ [] };
  is_open = true;
  world = 0;
}

-- five sectors go from 2 on
allocate_five : free_map_allocate budget start 5 ≡ some (some 2, after_five)
unfolding free_map_allocate bitmap_scan_and_flip bitmap_scan bitmap_contains bitmap_test
    bitmap_set_multiple bitmap_set bitmap_mark bitmap_reset update_word
allocate_five = refl

-- with the budget used up the write fails, and the bits are taken back
allocate_fails : free_map_allocate budget after_five 5 ≡ some (none, after_five)
unfolding free_map_allocate bitmap_scan_and_flip bitmap_scan bitmap_contains bitmap_test
    bitmap_set_multiple bitmap_set bitmap_mark bitmap_reset update_word
allocate_fails = refl

-- a second allocation by another file
abbrev always : MapFile ℕ
always = record { bitmap_write = λ b n. (true, 0); bitmap_read = λ b n. some (true, b) }

allocate_two :
    free_map_allocate always start 2
    ≡ some (
      some 2,
      record { free_map = record { bit_cnt = 40; bits = 0xf ∷ 0 ∷ [] }; is_open = true; world = 0 },
    )
unfolding free_map_allocate bitmap_scan_and_flip bitmap_scan bitmap_contains bitmap_test
    bitmap_set_multiple bitmap_set bitmap_mark bitmap_reset update_word
allocate_two = refl

allocate_three :
    free_map_allocate always
      (record {
        free_map = record { bit_cnt = 40; bits = 0xf ∷ 0 ∷ [] };
        is_open = true;
        world = 0;
      })
      3
    ≡ some (some 4, after_five)
unfolding free_map_allocate bitmap_scan_and_flip bitmap_scan bitmap_contains bitmap_test
    bitmap_set_multiple bitmap_set bitmap_mark bitmap_reset update_word
allocate_three = refl

allocate-Allocation_example :
    (r : Option ℕ) × (s' : FreeMap ℕ) × (free_map_allocate budget start 5 ≡ some (r, s'))
    × Allocation budget start 5 r s'
allocate-Allocation_example = allocate-Allocation budget start 5 start-IsValid

release-allocate_example :
    (s'' : FreeMap ℕ) × (free_map_release budget after_five 2 5 ≡ some s'')
    × ((i : ℕ) → in_use s'' i ≡ in_use start i)
release-allocate_example = release-allocate budget start 5 start-IsValid refl allocate_five
