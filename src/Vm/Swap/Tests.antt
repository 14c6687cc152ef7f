-- ===== src/Vm/Swap/Tests.antt =====
-- A swap space of two slots over a device of sixteen sectors.
use uni_orion_os.Base.{ℕ, zero, suc, ◌+◌, ◌<◌, ◌≡◌, refl, Option, none, some, [], ◌∷◌, arith}
use uni_orion_os.Kernel.Bitmap.{
  bitmap_scan_and_flip, bitmap_scan, bitmap_contains, bitmap_test, bitmap_set_multiple, bitmap_set,
  bitmap_mark, update_word,
}
use uni_orion_os.Devices.Block
use uni_orion_os.Devices.Block.{Block, after_write, block_read, block_write}
use uni_orion_os.Vm.Swap.{Page, Swap, swap_in, swap_out}
use uni_orion_os.Vm.Swap.Slots.{used, IsValid, Outcome, swap_out-Outcome, swap_in-swap_out}

abbrev device : Block ℕ
device = record { kind = Block.swap; size = 16; sectors = λ i. 0; read_cnt = 0; write_cnt = 0 }

-- slot 0 is taken
abbrev half_full : Swap ℕ
half_full = record { swap_table = record { bit_cnt = 2; bits = 1 ∷ [] }; swap_block = device }

abbrev numbers : Page ℕ
numbers i = 100 + i

half_full-IsValid : IsValid half_full
half_full-IsValid = record {
  table = omega arith;
  room = omega arith;
  small = omega arith;
  own = refl;
}

abbrev written : ℕ → Block ℕ
written n = elim n [ zero ↦ device | suc (k → b) ↦ after_write b (8 + k) (100 + k) ]

abbrev all_full : Swap ℕ
all_full = record { swap_table = record { bit_cnt = 2; bits = 3 ∷ [] }; swap_block = written 8 }

second_slot : swap_out half_full numbers ≡ some (some 1, all_full)
unfolding swap_out bitmap_scan_and_flip bitmap_scan bitmap_contains bitmap_test bitmap_set_multiple
    bitmap_set bitmap_mark update_word block_write
second_slot = refl

no_slot : swap_out all_full numbers ≡ some (none, all_full)
unfolding swap_out bitmap_scan_and_flip bitmap_scan bitmap_contains bitmap_test
no_slot = refl

swap_out-Outcome_example :
    (r : Option ℕ) × (s' : Swap ℕ) × (swap_out half_full numbers ≡ some (r, s'))
    × Outcome half_full numbers r s'
swap_out-Outcome_example = swap_out-Outcome half_full numbers half_full-IsValid

swap_in-swap_out_example :
    (page' : Page ℕ) × (s'' : Swap ℕ) × (swap_in all_full (λ i. 0) 1 ≡ some (page', s''))
    × ((k : ℕ) → k < 8 → page' k ≡ 100 + k)
    × ((j : ℕ) → used s'' j ≡ used half_full j)
swap_in-swap_out_example = swap_in-swap_out half_full numbers (λ i. 0) half_full-IsValid second_slot
