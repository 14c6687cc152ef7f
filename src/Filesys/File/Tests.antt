-- ===== src/Filesys/File/Tests.antt =====
-- An open file over a file of 600 bytes.
use uni_orion_os.Base.{
  ℕ, ◌+◌, ◌≡◌, refl, false, some, List, [], ◌∷◌, arith, replicate, length-replicate,
}
use uni_orion_os.Devices.Block.{filesys}
use uni_orion_os.Filesys.Cache.{Cache, empty_supl, cache_init}
use uni_orion_os.Filesys.Cache.Refinement.{Accessed}
use uni_orion_os.Filesys.Cache.History.{cache_init-IsCoherent}
use uni_orion_os.Filesys.Inode.{Inodes, InodeDisk}
use uni_orion_os.Filesys.Inode.Contents.{IsPlaced}
use uni_orion_os.Filesys.File.{File, file_read}
use uni_orion_os.Filesys.File.Positions.{
  read_twice, read_twice-once, denied_write, denied_write-nothing,
}

abbrev zeros : ℕ → List ℕ
zeros s = replicate 512 0

abbrev raw_cache : Cache
raw_cache = record {
  cache = zeros;
  cache_aux = λ i. empty_supl;
  lru_cursor = 0;
  read_ahead_list = [];
  wake_ups = 0;
  holds_ahead_lock = false;
  fs_device = record { kind = filesys; size = 200; sectors = zeros; read_cnt = 0; write_cnt = 0 };
}

abbrev disk_inode : InodeDisk
disk_inode = record {
  start = 10;
  length = 600;
  unused = replicate 496 0;
  parent_dir_inode = 1;
  magic = 1229868868;
}

abbrev store : Inodes
store = record {
  open_inodes = 7 ∷ [];
  inode = λ a. record {
    sector = 9;
    open_cnt = 1;
    removed = false;
    deny_write_cnt = 0;
    content = disk_inode;
  };
  volume = record {
    free_map = record { bit_cnt = 0; bits = [] };
    is_open = false;
    world = cache_init raw_cache;
  };
}

abbrev file : File
file = record { inode = 7; pos = 500; deny_write = false }

placed : IsPlaced disk_inode store.volume.world.fs_device.size
unfolding cache_init
placed = record { fits = omega arith; word = omega arith }

read_twice-once_example :
    (count : ℕ) × (bytes : List ℕ) × (file' : File) × (s1 : Inodes) × (s2 : Inodes) × (file_read
        store file
        (20 + 30)
      ≡ some (count, bytes, file', s1))
    × (read_twice store file 20 30 ≡ some (count, bytes, file', s2))
    × Accessed store.volume.world s1.volume.world zeros
    × Accessed store.volume.world s2.volume.world zeros
read_twice-once_example =
    read_twice-once store zeros file 20 30 (λ s. length-replicate {A = ℕ} 512 0)
      (cache_init-IsCoherent raw_cache refl) placed

denied_write-nothing_example :
    (s' : Inodes) × (denied_write store file (1 ∷ []) 1 ≡ some (0, file, s'))
    × ((a : ℕ) → s'.inode a ≡ store.inode a)
    × (s'.open_inodes ≡ store.open_inodes)
    × (s'.volume ≡ store.volume)
denied_write-nothing_example = denied_write-nothing store file (1 ∷ []) 1 refl (omega arith)
