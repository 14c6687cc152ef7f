-- ===== src/Filesys/Inode.antt =====
-- filesys/inode.c, as it is built with FILESYS_USE_CACHE and FILESYS_SUBDIRS. An inode in memory is
-- known by its address, so that all its openers see one state. `none` is a failed ASSERT, a PANIC
-- or a use of freed memory. Sizes and offsets are not negative.
pub mod Contents
pub mod Copies
pub mod Reading
pub mod Writing
pub mod Writes
pub mod Encoding
pub mod Opening
pub mod Openers
mod Tests
use uni_orion_os.Base.{
  ℕ, zero, suc, ◌+◌, ◌-◌, ◌*◌, ◌/◌, ◌%◌, ◌^◌, min, Bool, true, false, not, ◌&&◌, Option, none, some,
  List, [], ◌∷◌, ◌++◌, ◌==◌, ltb, leb, if◌then◌else◌, take, drop, replicate,
}
use uni_orion_os.Base.Panic.{◌>>=◌, ◌>>◌, ensure}
use uni_orion_os.Base.Slices.{byte_of}
use uni_orion_os.Devices.Block.{update}
use uni_orion_os.Filesys.Cache.{Cache, cache_read, cache_write}
use uni_orion_os.Filesys.FreeMap.{FreeMap, MapFile, free_map_allocate, free_map_release}

abbrev pub block_sector_size : ℕ
block_sector_size = 512

abbrev inode_magic : ℕ
inode_magic = 1229868868

-- `struct inode_disk`
pub record InodeDisk : Type 0 where
  pub start : ℕ
  pub length : ℕ
  pub unused : List ℕ
  pub parent_dir_inode : ℕ
  pub magic : ℕ

-- `struct inode`; `content` is its field `data`
pub record Inode : Type 0 where
  pub sector : ℕ
  pub open_cnt : ℕ
  pub removed : Bool
  pub deny_write_cnt : ℕ
  pub content : InodeDisk

-- the inodes in memory, the free map, and the cache, which is what the free map's file is behind
pub record Inodes : Type 0 where
  pub open_inodes : List ℕ
  pub inode : ℕ → Inode
  pub volume : FreeMap Cache

-- a word of 32 bits as it lies in memory, and the word that four bytes are
abbrev pub word_bytes : ℕ → List ℕ
word_bytes w = w % 256 ∷ w / 256 % 256 ∷ w / 65536 % 256 ∷ w / 16777216 % 256 ∷ []

abbrev pub word_at : List ℕ → ℕ → ℕ
word_at bytes i =
    byte_of bytes i
    + byte_of bytes (i + 1) * 256
    + byte_of bytes (i + 2) * 65536
    + byte_of bytes (i + 3) * 16777216

-- `struct inode_disk` as the sector it is, and back
unfoldable pub inode_disk_bytes : InodeDisk → List ℕ
inode_disk_bytes d =
    word_bytes d.start
    ++ (word_bytes d.length ++ (d.unused ++ (word_bytes d.parent_dir_inode ++ word_bytes d.magic)))

unfoldable pub inode_disk_of : List ℕ → InodeDisk
inode_disk_of bytes = record {
  start = word_at bytes 0;
  length = word_at bytes 4;
  unused = take 496 (drop 8 bytes);
  parent_dir_inode = word_at bytes 504;
  magic = word_at bytes 508;
}

abbrev pub bytes_to_sectors : ℕ → ℕ
bytes_to_sectors size = (size + block_sector_size - 1) / block_sector_size

-- the -1 is the greatest `block_sector_t`
unfoldable pub byte_to_sector : InodeDisk → (pos : ℕ) → ℕ
byte_to_sector d pos =
    if ltb pos d.length then (d.start + pos / block_sector_size) % 2 ^ 32 else 2 ^ 32 - 1

abbrev pub with_inode : Inodes → ℕ → Inode → Inodes
with_inode s at i = record s { inode = update s.inode at i }

abbrev pub with_cache : Inodes → Cache → Inodes
with_cache s c = record s { volume = record s.volume { world = c } }

unfoldable pub inode_init : Inodes → Inodes
inode_init s = record s { open_inodes = [] }

-- the sectors of a new file are zeroed
unfoldable pub zero_loop : (rounds sector : ℕ) → Cache → Option Cache
zero_loop zero sector c = some c
zero_loop (suc rounds) sector c = do
  c ← cache_write c sector (replicate block_sector_size 0) 0 block_sector_size
  zero_loop rounds (sector + 1) c

create_in :
    Inodes → (sector length parent_sector : ℕ) → Option ℕ × FreeMap Cache → Option (Bool × Inodes)
create_in s sector length parent_sector (none, volume) = some (false, record s { volume = volume })
create_in s sector length parent_sector (some start, volume) = do
  let disk_inode : InodeDisk = record {
    start = start;
    length = length;
    unused = replicate 496 0;
    parent_dir_inode = parent_sector;
    magic = inode_magic;
  }
  c ← cache_write volume.world sector (inode_disk_bytes disk_inode) 0 block_sector_size
  c ← zero_loop (bytes_to_sectors length) start c
  some (true, with_cache (record s { volume = volume }) c)

-- `memory` says whether `calloc` gave a block
unfoldable pub inode_create :
    MapFile Cache
    → Inodes
    → (memory : Bool) → (sector length parent_sector : ℕ) → Option (Bool × Inodes)
unfolding create_in
inode_create io s memory sector length parent_sector = if not memory then some (false, s) else (do
  allocated ← free_map_allocate io s.volume (bytes_to_sectors length)
  create_in s sector length parent_sector allocated)

-- the open inode of the sector
unfoldable pub find_open : (ℕ → Inode) → List ℕ → (sector : ℕ) → Option ℕ
find_open inode [] sector = none
find_open inode (a ∷ rest) sector =
    let later = find_open inode rest sector in if (inode a).sector == sector then some a else later

unfoldable pub inode_reopen : Inodes → ℕ → Inodes
inode_reopen s a = with_inode s a (record (s.inode a) { open_cnt = (s.inode a).open_cnt + 1 })

unfoldable open_new : Inodes → (sector : ℕ) → (memory : Option ℕ) → Option (Option ℕ × Inodes)
open_new s sector none = some (none, s)
open_new s sector (some a) = do
  (bytes, c) ← cache_read s.volume.world sector 0 block_sector_size
  let inode : Inode = record {
    sector = sector;
    open_cnt = 1;
    removed = false;
    deny_write_cnt = 0;
    content = inode_disk_of bytes;
  }
  some (some a, with_cache (with_inode (record s { open_inodes = a ∷ s.open_inodes }) a inode) c)

open_found : Inodes → (sector : ℕ) → (memory : Option ℕ) → Option ℕ → Option (Option ℕ × Inodes)
unfolding open_new
open_found s sector memory (some a) = some (some a, inode_reopen s a)
open_found s sector memory none = open_new s sector memory

-- `memory` is the address that `malloc` gives, `none` for NULL
unfoldable pub inode_open : Inodes → (sector : ℕ) → (memory : Option ℕ) → Option (Option ℕ × Inodes)
unfolding open_found
inode_open s sector memory = open_found s sector memory (find_open s.inode s.open_inodes sector)

unfoldable pub inode_parent : Inodes → ℕ → (memory : Option ℕ) → Option (Option ℕ × Inodes)
inode_parent s a memory = inode_open s (s.inode a).content.parent_dir_inode memory

unfoldable pub inode_get_inumber : Inode → ℕ
inode_get_inumber i = i.sector

unfoldable pub inode_open_cnt : Inode → ℕ
inode_open_cnt i = i.open_cnt

-- `list_remove` of an element that is in the list once
unfoldable pub unlisted : ℕ → List ℕ → List ℕ
unlisted a [] = []
unlisted a (b ∷ rest) = if b == a then rest else b ∷ unlisted a rest

-- the blocks of a removed inode
release_blocks : MapFile Cache → Inode → FreeMap Cache → Option (FreeMap Cache)
release_blocks io i volume =
    if i.removed
    then (do
      volume ← free_map_release io volume i.sector 1
      free_map_release io volume i.content.start (bytes_to_sectors i.content.length))
    else some volume

close_last : MapFile Cache → Inodes → ℕ → Option Inodes
unfolding release_blocks
close_last io s a = do
  let i = s.inode a
  c ← cache_write s.volume.world i.sector (inode_disk_bytes i.content) 0 block_sector_size
  volume ← release_blocks io i (record s.volume { world = c })
  some (record s { open_inodes = unlisted a s.open_inodes; volume = volume })

-- An inode that nobody has open was freed.
close_some : MapFile Cache → Inodes → ℕ → Option Inodes
unfolding close_last
close_some io s a = do
  ensure (ltb 0 (s.inode a).open_cnt)
  let count = (s.inode a).open_cnt - 1
  let s' = with_inode s a (record (s.inode a) { open_cnt = count })
  if count == 0 then close_last io s' a else some s'

unfoldable pub inode_close : MapFile Cache → Inodes → Option ℕ → Option Inodes
unfolding close_some
inode_close io s none = some s
inode_close io s (some a) = close_some io s a

unfoldable pub inode_remove : Inodes → ℕ → Inodes
inode_remove s a = with_inode s a (record (s.inode a) { removed = true })

unfoldable pub inode_length : Inode → ℕ
inode_length i = i.content.length

-- how many bytes of a sector one round moves; 0 where the source's number is not positive
unfoldable pub chunk_size : InodeDisk → (size offset : ℕ) → ℕ
chunk_size d size offset =
    min size (min (d.length - offset) (block_sector_size - offset % block_sector_size))

-- the bytes in `buffer`, and their number
unfoldable pub read_rounds :
    (fuel : ℕ) → InodeDisk → (size offset : ℕ) → Cache → Option (ℕ × List ℕ × Cache)
read_rounds zero d size offset c = none
read_rounds (suc fuel) d size offset c =
    let chunk = chunk_size d size offset in
    if not (ltb 0 size && ltb 0 chunk) then some (0, [], c) else (do
      (bytes, c) ← cache_read c (byte_to_sector d offset) (offset % block_sector_size) chunk
      (more, rest, c) ← read_rounds fuel d (size - chunk) (offset + chunk) c
      some (chunk + more, bytes ++ rest, c))

-- each round moves a byte at least
unfoldable pub inode_read_at : Inode → (size offset : ℕ) → Cache → Option (ℕ × List ℕ × Cache)
inode_read_at i size offset c = read_rounds (size + 1) i.content size offset c

unfoldable pub write_rounds :
    (fuel : ℕ) → InodeDisk → (buffer : List ℕ) → (size offset : ℕ) → Cache → Option (ℕ × Cache)
write_rounds zero d buffer size offset c = none
write_rounds (suc fuel) d buffer size offset c =
    let chunk = chunk_size d size offset in
    if not (ltb 0 size && ltb 0 chunk) then some (0, c) else (do
      c ← cache_write c (byte_to_sector d offset) buffer (offset % block_sector_size) chunk
      (more, c) ← write_rounds fuel d (drop chunk buffer) (size - chunk) (offset + chunk) c
      some (chunk + more, c))

unfoldable pub inode_write_at :
    Inode → (buffer : List ℕ) → (size offset : ℕ) → Cache → Option (ℕ × Cache)
inode_write_at i buffer size offset c =
    if not (i.deny_write_cnt == 0)
    then some (0, c)
    else write_rounds (size + 1) i.content buffer size offset c

unfoldable pub inode_deny_write : Inodes → ℕ → Option Inodes
inode_deny_write s a = do
  let count = (s.inode a).deny_write_cnt + 1
  ensure (leb count (s.inode a).open_cnt)
  some (with_inode s a (record (s.inode a) { deny_write_cnt = count }))

unfoldable pub inode_allow_write : Inodes → ℕ → Option Inodes
inode_allow_write s a = do
  ensure (ltb 0 (s.inode a).deny_write_cnt)
  ensure (leb (s.inode a).deny_write_cnt (s.inode a).open_cnt)
  some (with_inode s a (record (s.inode a) { deny_write_cnt = (s.inode a).deny_write_cnt - 1 }))
