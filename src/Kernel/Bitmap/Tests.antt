-- ===== src/Kernel/Bitmap/Tests.antt =====
-- The operations of bitmap.c on small bitmaps, and the theorems about them at these inputs.
use uni_orion_os.Base.{ℕ, ◌≡◌, refl, true, false, none, some, [], ◌∷◌, arith}
use uni_orion_os.Kernel.Bitmap.{
  Bitmap, bitmap_error, bitmap_set, bitmap_set_multiple, bitmap_test, bitmap_count, bitmap_contains,
  bitmap_scan, bitmap_scan_and_flip, update_word, bitmap_reset, bitmap_flip, last_mask,
}
use uni_orion_os.Kernel.Bitmap.View.{IsValid}
use uni_orion_os.Kernel.Bitmap.Scan.{FlipOutcome, scan_and_flip-FlipOutcome}

-- bits 0, 1 and 3 of ten are set
abbrev small : Bitmap
small = record { bit_cnt = 10; bits = 11 ∷ [] }

-- forty bits in two words, the first all set
abbrev wide : Bitmap
wide = record { bit_cnt = 40; bits = 0xffff_ffff ∷ 0 ∷ [] }

small-IsValid : IsValid small
small-IsValid = omega arith

wide-IsValid : IsValid wide
wide-IsValid = omega arith

flip_across_words :
    bitmap_flip wide 33 ≡ some (record { bit_cnt = 40; bits = 0xffff_ffff ∷ 2 ∷ [] })
unfolding bitmap_flip update_word
flip_across_words = refl

set_across_words :
    bitmap_set_multiple wide 30 5 false
    ≡ some (record { bit_cnt = 40; bits = 0x3fff_ffff ∷ 0 ∷ [] })
unfolding bitmap_set_multiple bitmap_set bitmap_reset update_word
set_across_words = refl

test_past_end : bitmap_test small 10 ≡ none
unfolding bitmap_test
test_past_end = refl

mask_of_last_word : last_mask wide ≡ 0xff
unfolding last_mask
mask_of_last_word = refl

scan_small : bitmap_scan small 0 2 false ≡ some 4
unfolding bitmap_scan bitmap_contains bitmap_test
scan_small = refl

scan_full : bitmap_scan small 0 9 true ≡ some bitmap_error
unfolding bitmap_scan bitmap_contains bitmap_test
scan_full = refl

count_true : bitmap_count small 0 10 true ≡ some 3
unfolding bitmap_count bitmap_test
count_true = refl

count_false : bitmap_count small 0 10 false ≡ some 7
unfolding bitmap_count bitmap_test
count_false = refl

scan_and_flip-FlipOutcome_example :
    (r : ℕ) × (b' : Bitmap) × (bitmap_scan_and_flip small 0 2 false ≡ some (r, b'))
    × FlipOutcome small 0 2 false r b'
scan_and_flip-FlipOutcome_example =
    scan_and_flip-FlipOutcome small 0 2 false small-IsValid (omega arith)
