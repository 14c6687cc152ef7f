-- ===== src/Filesys/Inode/Tests.antt =====
-- A file of 600 bytes from sector 10 on, on a device of zeros.
use uni_orion_os.Base.{
  ℕ, ◌≡◌, refl, inl, inr, true, false, none, some, List, [], ◌∷◌, arith, take, replicate,
  length-replicate, get_or-replicate,
}
use uni_orion_os.Base.Slices.{tabulate}
use uni_orion_os.Devices.Block.{filesys}
use uni_orion_os.Filesys.Cache.{Cache, empty_supl, cache_init}
use uni_orion_os.Filesys.Cache.Refinement.{IsCoherent, Accessed}
use uni_orion_os.Filesys.Cache.History.{cache_init-IsCoherent}
use uni_orion_os.Filesys.FreeMap.{MapFile}
use uni_orion_os.Filesys.Inode.{Inode, InodeDisk, Inodes, inode_read_at, inode_write_at}
use uni_orion_os.Filesys.Inode.Contents.{IsFull, IsPlaced, file_byte, moved}
use uni_orion_os.Filesys.Inode.Reading.{inode_read_at-file_byte}
use uni_orion_os.Filesys.Inode.Writing.{Written}
use uni_orion_os.Filesys.Inode.Writes.{
  written, write_then_read, inode_write_at-Written, inode_read_at-inode_write_at,
}
use uni_orion_os.Filesys.Inode.Opening.{IsLive}
use uni_orion_os.Filesys.Inode.Openers.{open_then_close, Restored, inode_close-inode_open}

abbrev zeros : ℕ → List ℕ
zeros s = replicate 512 0

abbrev raw_cache : Cache
raw_cache = record {
  cache = zeros;
  cache_aux = λ i. empty_supl;
  lru_cursor = 0;
  read_ahead_list = [];
  wake_ups = 0;
  holds_ahead_lock = false;
  fs_device = record { kind = filesys; size = 200; sectors = zeros; read_cnt = 0; write_cnt = 0 };
}

abbrev cache : Cache
cache = cache_init raw_cache

full : IsFull zeros
full s = length-replicate {A = ℕ} 512 0

coherent : IsCoherent cache zeros
coherent = cache_init-IsCoherent raw_cache refl

abbrev disk_inode : InodeDisk
disk_inode = record {
  start = 10;
  length = 600;
  unused = replicate 496 0;
  parent_dir_inode = 1;
  magic = 1229868868;
}

abbrev file : Inode
file = record {
  sector = 9;
  open_cnt = 1;
  removed = false;
  deny_write_cnt = 0;
  content = disk_inode;
}

placed : IsPlaced disk_inode cache.fs_device.size
unfolding cache_init
placed = record { fits = omega arith; word = omega arith }

abbrev buffer : List ℕ
buffer = 1 ∷ 2 ∷ 3 ∷ []

inode_read_at-file_byte_example :
    (c' : Cache) × (inode_read_at file 100 550 cache
      ≡ some (
        moved disk_inode 100 550,
        tabulate (file_byte zeros disk_inode) 550 (moved disk_inode 100 550),
        c',
      ))
    × Accessed cache c' zeros
inode_read_at-file_byte_example =
    inode_read_at-file_byte file zeros 100 550 cache full coherent placed

inode_write_at-Written_example :
    (c' : Cache) × (f' : ℕ → List ℕ) × (inode_write_at file buffer 3 511 cache
      ≡ some (written file 3 511, c'))
    × Accessed cache c' f'
    × Written zeros f' disk_inode buffer 511 (written file 3 511)
inode_write_at-Written_example =
    inode_write_at-Written file zeros buffer 3 511 cache full coherent placed (omega arith)

inode_read_at-inode_write_at_example :
    (c' : Cache) × (write_then_read file buffer 3 511 cache ≡ some (3, 3, take 3 buffer, c'))
inode_read_at-inode_write_at_example =
    inode_read_at-inode_write_at file zeros buffer 3 511 cache full coherent placed (omega arith)
      refl (omega arith)

abbrev io : MapFile Cache
io = record { bitmap_write = λ b c. (true, c); bitmap_read = λ b c. none }

abbrev store : Inodes
store = record {
  open_inodes = 7 ∷ [];
  inode = λ a. file;
  volume = record { free_map = record { bit_cnt = 0; bits = [] }; is_open = false; world = cache };
}

live : IsLive store
live a h = omega arith

inode_close-inode_open_example :
    (s' : Inodes) × (open_then_close io store 5 (some 8) ≡ some s') × Restored store s' zeros
unfolding cache_init
inode_close-inode_open_example =
    inode_close-inode_open io store zeros 5 (some 8) full
      (λ i. let e = get_or-replicate {A = ℕ} 512 0 i in omega (arith, e)) coherent (omega arith)
      live (λ a e h. elim h [ inl at ↦ fresh a e at | inr gone ↦ gone ])
  where
    fresh : (a : ℕ) → some 8 ≡ some a → 7 ≡ a → ⊥
    fresh a e at = let eight : 8 ≡ a = cc in omega (arith, eight, at)
