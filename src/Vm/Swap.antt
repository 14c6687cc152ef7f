-- ===== src/Vm/Swap.antt =====
-- vm/swap.c: pages kept in slots of eight sectors. The locks guard single calls of the two
-- components below and leave no trace here; `none` is a PANIC or a failed ASSERT.
pub mod Slots
pub mod Pages
mod Tests
use uni_orion_os.Base.{
  ℕ, zero, suc, ◌+◌, ◌*◌, ◌/◌, ◌%◌, ◌^◌, Bool, true, false, Option, none, some, ◌==◌, if◌then◌else◌,
  List,
}
use uni_orion_os.Base.Panic.{◌>>=◌}
use uni_orion_os.Kernel.Bitmap.{
  Bitmap, bitmap_error, bitmap_create, bitmap_reset, bitmap_scan_and_flip,
}
use uni_orion_os.Devices.Block.{Block, update, block_size, block_read, block_write}

-- PGSIZE / BLOCK_SECTOR_SIZE
abbrev pub sectors_per_page : ℕ
sectors_per_page = 8

-- the memory of a page: what stands at `page_address + BLOCK_SECTOR_SIZE * i`
abbrev pub Page : Type 0 → Type 0
Page S = ℕ → S

-- `swap_table` and `swap_block`
pub record Swap (S : Type 0) : Type 0 where
  pub swap_table : Bitmap
  pub swap_block : Block S

abbrev pub slot_sector : ℕ → ℕ
slot_sector slot_number = slot_number * sectors_per_page % 2 ^ 32

abbrev pub sector_at : ℕ → ℕ → ℕ
sector_at first sector_id = (first + sector_id) % 2 ^ 32

module _ {S : Type 0} where
  -- the device is what `block_get_role (BLOCK_SWAP)` gave; a table that `malloc` refused is NULL
  unfoldable pub swap_init :
      Option (Block S) → (header_ok : Bool) → Option (List ℕ) → Option (Option (Swap S))
  swap_init none header_ok words = none
  swap_init (some block) header_ok words = do
    let swap_slots = block_size block * 512 % 2 ^ 32 / 4096
    table ← bitmap_create header_ok words swap_slots
    some
        (elim table [ none ↦ none | some t ↦ some (record { swap_table = t; swap_block = block }) ])

  -- the two loops over the sectors of a page, with the rounds that are left
  pub read_loop : (rounds sector_id : ℕ) → ℕ → Block S → Page S → Option (Page S × Block S)
  read_loop zero sector_id first block page = some (page, block)
  read_loop (suc rounds) sector_id first block page = do
    (sector, block') ← block_read block (sector_at first sector_id)
    read_loop rounds (sector_id + 1) first block' (update page sector_id sector)

  pub write_loop : (rounds sector_id : ℕ) → ℕ → Block S → Page S → Option (Block S)
  write_loop zero sector_id first block page = some block
  write_loop (suc rounds) sector_id first block page = do
    block' ← block_write block (sector_at first sector_id) (page sector_id)
    write_loop rounds (sector_id + 1) first block' page

  unfoldable pub swap_in : Swap S → Page S → ℕ → Option (Page S × Swap S)
  unfolding read_loop
  swap_in s page slot_number = do
    (page', block) ← read_loop sectors_per_page 0 (slot_sector slot_number) s.swap_block page
    table ← bitmap_reset s.swap_table slot_number
    some (page', record { swap_table = table; swap_block = block })

  -- the result `none` is the -1 of a full swap space
  unfoldable pub swap_out : Swap S → Page S → Option (Option ℕ × Swap S)
  unfolding write_loop
  swap_out s page = do
    (slot_number, table) ← bitmap_scan_and_flip s.swap_table 0 1 false
    if slot_number == bitmap_error then some (none, record s { swap_table = table }) else (do
      block ← write_loop sectors_per_page 0 (slot_sector slot_number) s.swap_block page
      some (some slot_number, record { swap_table = table; swap_block = block }))
