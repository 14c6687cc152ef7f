-- ===== src/Kernel/Bitmap.antt =====
-- lib/kernel/bitmap.c: an array of bits in 32-bit words. `none` is a failed ASSERT or an access
-- outside the array of words.
pub mod View
pub mod Ranges
pub mod Scan
mod Tests
use uni_orion_os.Base.{
  ℕ, zero, suc, ◌+◌, ◌-◌, ◌*◌, ◌/◌, ◌%◌, ◌^◌, bit_and, bit_or, bit_xor, Bool, true, false, not,
  ◌||◌, Option, none, some, List, [], ltb, leb, ◌==◌, bool_eq, if◌then◌else◌, length, get_elem?,
  set,
}
use uni_orion_os.Base.Panic.{◌>>=◌, ◌>>◌, ensure}

-- `sizeof (elem_type) * CHAR_BIT` for the 32-bit `unsigned long` of the i386
abbrev pub elem_bits : ℕ
elem_bits = 32

-- `BITMAP_ERROR` is `SIZE_MAX`
abbrev pub bitmap_error : ℕ
bitmap_error = 2 ^ 32 - 1

-- `size_t` addition
abbrev pub add_size : ℕ → ℕ → ℕ
add_size a b = (a + b) % 2 ^ 32

pub record Bitmap : Type 0 where
  pub bit_cnt : ℕ
  pub bits : List ℕ

abbrev pub elem_idx : ℕ → ℕ
elem_idx bit_idx = bit_idx / elem_bits

abbrev pub bit_mask : ℕ → ℕ
bit_mask bit_idx = 2 ^ (bit_idx % elem_bits)

-- DIV_ROUND_UP
abbrev pub elem_cnt : ℕ → ℕ
elem_cnt bit_cnt = (bit_cnt + elem_bits - 1) % 2 ^ 32 / elem_bits

abbrev pub byte_cnt : ℕ → ℕ
byte_cnt bit_cnt = 4 * elem_cnt bit_cnt % 2 ^ 32

unfoldable pub last_mask : Bitmap → ℕ
last_mask b =
    let last_bits = b.bit_cnt % elem_bits in
    if last_bits == 0 then 2 ^ 32 - 1 else 2 ^ last_bits - 1

-- sizeof (struct bitmap) is 8
unfoldable pub bitmap_buf_size : ℕ → ℕ
bitmap_buf_size bit_cnt = add_size 8 (byte_cnt bit_cnt)

abbrev pub bitmap_size : Bitmap → ℕ
bitmap_size b = b.bit_cnt

-- one read-modify-write instruction on the word that holds a bit
unfoldable pub update_word : (ℕ → ℕ) → Bitmap → ℕ → Option Bitmap
update_word f b bit_idx = do
  let idx = elem_idx bit_idx
  word ← get_elem? b.bits idx
  some (record b { bits = set b.bits idx (f word) })

-- `orl`
unfoldable pub bitmap_mark : Bitmap → ℕ → Option Bitmap
bitmap_mark b bit_idx = update_word (λ w. bit_or w (bit_mask bit_idx)) b bit_idx

-- `andl` with the complement of the mask
unfoldable pub bitmap_reset : Bitmap → ℕ → Option Bitmap
bitmap_reset b bit_idx = update_word (λ w. bit_and w (2 ^ 32 - 1 - bit_mask bit_idx)) b bit_idx

-- `xorl`
unfoldable pub bitmap_flip : Bitmap → ℕ → Option Bitmap
bitmap_flip b bit_idx = update_word (λ w. bit_xor w (bit_mask bit_idx)) b bit_idx

unfoldable pub bitmap_set : Bitmap → ℕ → Bool → Option Bitmap
bitmap_set b idx value = do
  ensure (ltb idx b.bit_cnt)
  if value then bitmap_mark b idx else bitmap_reset b idx

unfoldable pub bitmap_test : Bitmap → ℕ → Option Bool
bitmap_test b idx = do
  ensure (ltb idx b.bit_cnt)
  word ← get_elem? b.bits (elem_idx idx)
  some (not (bit_and word (bit_mask idx) == 0))

-- the loop of `bitmap_set_multiple`, with the rounds that are left and the index `start + i`
set_loop : (rounds : ℕ) → Bitmap → ℕ → Bool → Option Bitmap
set_loop zero b at value = some b
set_loop (suc rounds) b at value = do b' ← bitmap_set b at value; set_loop rounds b' (at + 1) value

range_ok : Bitmap → ℕ → ℕ → Option (Unit {0})
range_ok b start cnt = do ensure (leb start b.bit_cnt); ensure (leb (add_size start cnt) b.bit_cnt)

unfoldable pub bitmap_set_multiple : Bitmap → ℕ → ℕ → Bool → Option Bitmap
unfolding set_loop range_ok
bitmap_set_multiple b start cnt value = do range_ok b start cnt; set_loop cnt b start value

unfoldable pub bitmap_set_all : Bitmap → Bool → Option Bitmap
bitmap_set_all b value = bitmap_set_multiple b 0 (bitmap_size b) value

-- `header_ok` says whether `malloc` gave the struct, `block` is what it gave for the words
unfoldable pub bitmap_create :
    (header_ok : Bool) → (block : Option (List ℕ)) → ℕ → Option (Option Bitmap)
bitmap_create false block bit_cnt = some none
bitmap_create true (some words) bit_cnt = do
  b ← bitmap_set_all (record { bit_cnt = bit_cnt; bits = words }) false
  some (some b)
bitmap_create true none bit_cnt =
    if bit_cnt == 0
    then (do b ← bitmap_set_all (record { bit_cnt = 0; bits = [] }) false; some (some b))
    else some none

unfoldable pub bitmap_create_in_buf : ℕ → List ℕ → (block_size : ℕ) → Option Bitmap
bitmap_create_in_buf bit_cnt block block_size = do
  ensure (leb (bitmap_buf_size bit_cnt) block_size)
  bitmap_set_all (record { bit_cnt = bit_cnt; bits = block }) false

count_loop : (rounds : ℕ) → Bitmap → ℕ → Bool → ℕ → Option ℕ
count_loop zero b at value value_cnt = some value_cnt
count_loop (suc rounds) b at value value_cnt = do
  found ← bitmap_test b at
  count_loop rounds b (at + 1) value (if bool_eq found value then value_cnt + 1 else value_cnt)

unfoldable pub bitmap_count : Bitmap → ℕ → ℕ → Bool → Option ℕ
unfolding count_loop range_ok
bitmap_count b start cnt value = do range_ok b start cnt; count_loop cnt b start value 0

contains_loop : (rounds : ℕ) → Bitmap → ℕ → Bool → Option Bool
contains_loop zero b at value = some false
contains_loop (suc rounds) b at value = do
  found ← bitmap_test b at
  if bool_eq found value then some true else contains_loop rounds b (at + 1) value

unfoldable pub bitmap_contains : Bitmap → ℕ → ℕ → Bool → Option Bool
unfolding contains_loop range_ok
bitmap_contains b start cnt value = do range_ok b start cnt; contains_loop cnt b start value

unfoldable pub bitmap_any : Bitmap → ℕ → ℕ → Option Bool
bitmap_any b start cnt = bitmap_contains b start cnt true

unfoldable pub bitmap_none : Bitmap → ℕ → ℕ → Option Bool
bitmap_none b start cnt = do some (not (← bitmap_contains b start cnt true))

unfoldable pub bitmap_all : Bitmap → ℕ → ℕ → Option Bool
bitmap_all b start cnt = do some (not (← bitmap_contains b start cnt false))

-- the loop of `bitmap_scan`, with the rounds that are left
scan_loop : (rounds : ℕ) → Bitmap → ℕ → ℕ → Bool → Option ℕ
scan_loop zero b i cnt value = some bitmap_error
scan_loop (suc rounds) b i cnt value = do
  other ← bitmap_contains b i cnt (not value)
  if other then scan_loop rounds b (i + 1) cnt value else some i

unfoldable pub bitmap_scan : Bitmap → ℕ → ℕ → Bool → Option ℕ
unfolding scan_loop
bitmap_scan b start cnt value = do
  ensure (leb start b.bit_cnt)
  if leb cnt b.bit_cnt
      then scan_loop (b.bit_cnt - cnt + 1 - start) b start cnt value
      else some bitmap_error

unfoldable pub bitmap_scan_and_flip : Bitmap → ℕ → ℕ → Bool → Option (ℕ × Bitmap)
bitmap_scan_and_flip b start cnt value = do
  idx ← bitmap_scan b start cnt value
  if idx == bitmap_error
      then some (idx, b)
      else (do b' ← bitmap_set_multiple b idx cnt (not value); some (idx, b'))
