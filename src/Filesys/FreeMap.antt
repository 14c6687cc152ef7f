-- ===== src/Filesys/FreeMap.antt =====
-- filesys/free-map.c: one bit for each sector. `none` is a PANIC or a failed ASSERT.
-- The file that keeps the map on disk is behind an interface: writing it may fail.
pub mod Sectors
mod Tests
use uni_orion_os.Base.{
  ℕ, Bool, true, false, Option, none, some, List, ◌==◌, not, ◌&&◌, if◌then◌else◌,
}
use uni_orion_os.Base.Panic.{◌>>=◌, ◌>>◌, ensure}
use uni_orion_os.Kernel.Bitmap.{
  Bitmap, bitmap_error, bitmap_create, bitmap_mark, bitmap_all, bitmap_scan_and_flip,
  bitmap_set_multiple,
}

abbrev pub free_map_sector : ℕ
free_map_sector = 0

abbrev pub root_dir_sector : ℕ
root_dir_sector = 1

-- The rest of the file system, as `bitmap_write` and `bitmap_read` see it: whether all bytes were
-- moved, and the state after it.
pub record MapFile (W : Type 0) : Type 0 where
  pub bitmap_write : Bitmap → W → Bool × W
  pub bitmap_read : Bitmap → W → Option (Bool × Bitmap)

-- the two statics; `is_open` says whether `free_map_file` is not NULL
pub record FreeMap (W : Type 0) : Type 0 where
  pub free_map : Bitmap
  pub is_open : Bool
  pub world : W

module _ {W : Type 0} where
  unfoldable pub free_map_init :
      (device_size : ℕ) → (header_ok : Bool) → Option (List ℕ) → W → Option (FreeMap W)
  free_map_init device_size header_ok words world = do
    created ← bitmap_create header_ok words device_size
    map ← created
    map ← bitmap_mark map free_map_sector
    map ← bitmap_mark map root_dir_sector
    some (record { free_map = map; is_open = false; world = world })

module _ {W : Type 0} (io : MapFile W) where
  -- the inner result is `*SECTORP`, or `none` where the function returns false
  unfoldable pub free_map_allocate : FreeMap W → (cnt : ℕ) → Option (Option ℕ × FreeMap W)
  free_map_allocate s cnt = do
    (sector, map) ← bitmap_scan_and_flip s.free_map 0 cnt false
    if sector == bitmap_error
        then some (none, record s { free_map = map })
        else (if not s.is_open then some (some sector, record s { free_map = map }) else (do
          let (written, world) = io.bitmap_write map s.world
          if written then some (some sector, record s { free_map = map; world = world }) else (do
            map ← bitmap_set_multiple map sector cnt false
            some (none, record s { free_map = map; world = world }))))

  -- writing to a file that is not open is a fault
  unfoldable pub free_map_release : FreeMap W → (sector cnt : ℕ) → Option (FreeMap W)
  free_map_release s sector cnt = do
    all ← bitmap_all s.free_map sector cnt
    ensure all
    map ← bitmap_set_multiple s.free_map sector cnt false
    ensure s.is_open
    let (_, world) = io.bitmap_write map s.world
    some (record s { free_map = map; world = world })

  -- `opened` says whether `file_open (inode_open (FREE_MAP_SECTOR))` gave a file
  unfoldable pub free_map_open : FreeMap W → (opened : Bool) → Option (FreeMap W)
  free_map_open s opened = do
    ensure opened
    (success, map) ← io.bitmap_read s.free_map s.world
    ensure success
    some (record s { free_map = map; is_open = true })

  -- `created` says whether `inode_create` made the file
  unfoldable pub free_map_create : FreeMap W → (created opened : Bool) → Option (FreeMap W)
  free_map_create s created opened = do
    ensure created
    ensure opened
    let (written, world) = io.bitmap_write s.free_map s.world
    ensure written
    some (record s { is_open = true; world = world })
