-- ===== src/Filesys/Directory/Tests.antt =====
-- A directory of two entries that are not in use.
use uni_orion_os.Base.{
  ℕ, ◌≡◌, refl, Bool, true, false, none, some, List, [], ◌∷◌, arith, replicate, length-replicate,
}
use uni_orion_os.Devices.Block.{filesys}
use uni_orion_os.Filesys.Cache.{Cache, empty_supl, cache_init}
use uni_orion_os.Filesys.Cache.Refinement.{Accessed}
use uni_orion_os.Filesys.Cache.History.{cache_init-IsCoherent}
use uni_orion_os.Filesys.FreeMap.{MapFile}
use uni_orion_os.Filesys.Inode.{Inodes, InodeDisk, with_cache, inode_reopen, find_open}
use uni_orion_os.Filesys.Inode.Contents.{IsFull, IsPlaced}
use uni_orion_os.Filesys.Directory.{Dir, dir_add, dir_remove}
use uni_orion_os.Filesys.Directory.Entries.{find_entry}
use uni_orion_os.Filesys.Directory.Adding.{Added, entry_in, dir_add-Added}
use uni_orion_os.Filesys.Directory.Removing.{dir_remove-inode_reopen}

-- the sectors; the first entry of the directory of `listing` has the name "a" and sector 9
abbrev zeros : ℕ → List ℕ
zeros s = replicate 512 0

abbrev listing : ℕ → List ℕ
listing s =
    9
    ∷ 0
    ∷ 0
    ∷ 0
    ∷ 97
    ∷ 0
    ∷ 0
    ∷ 0
    ∷ 0
    ∷ 0
    ∷ 0
    ∷ 0
    ∷ 0
    ∷ 0
    ∷ 0
    ∷ 0
    ∷ 0
    ∷ 0
    ∷ 0
    ∷ 0
    ∷ 0
    ∷ 0
    ∷ 1
    ∷ replicate 489 0

abbrev cache_of : (ℕ → List ℕ) → Cache
cache_of f = record {
  cache = zeros;
  cache_aux = λ i. empty_supl;
  lru_cursor = 0;
  read_ahead_list = [];
  wake_ups = 0;
  holds_ahead_lock = false;
  fs_device = record { kind = filesys; size = 200; sectors = f; read_cnt = 0; write_cnt = 0 };
}

abbrev disk_inode : InodeDisk
disk_inode = record {
  start = 10;
  length = 48;
  unused = replicate 496 0;
  parent_dir_inode = 1;
  magic = 1229868868;
}

abbrev store : (ℕ → List ℕ) → Inodes
store f = record {
  open_inodes = 7 ∷ [];
  inode = λ a. record {
    sector = 9;
    open_cnt = 1;
    removed = false;
    deny_write_cnt = 0;
    content = disk_inode;
  };
  volume = record {
    free_map = record { bit_cnt = 0; bits = [] };
    is_open = false;
    world = cache_init (cache_of f);
  };
}

abbrev dir : Dir
dir = record { inode = 7; pos = 0 }

abbrev io : MapFile Cache
io = record { bitmap_write = λ b c. (true, c); bitmap_read = λ b c. none }

placed : (f : ℕ → List ℕ) → IsPlaced disk_inode (store f).volume.world.fs_device.size
unfolding cache_init
placed f = record { fits = omega arith; word = omega arith }

IsFull-listing : IsFull listing
IsFull-listing s = let l = length-replicate {A = ℕ} 489 0 in omega (arith, l)

abbrev first_entry : List ℕ
first_entry =
    9 ∷ 0 ∷ 0 ∷ 0 ∷ 97 ∷ 0 ∷ 0 ∷ 0 ∷ 0 ∷ 0 ∷ 0 ∷ 0 ∷ 0 ∷ 0 ∷ 0 ∷ 0 ∷ 0 ∷ 0 ∷ 0 ∷ 0 ∷ 0 ∷ 0 ∷ 1 ∷ 0
    ∷ []

found_first : entry_in listing ((store listing).inode 7) (97 ∷ []) ≡ some (first_entry, 0)
unfolding find_entry
found_first = refl

open_seven : find_open (store listing).inode (7 ∷ []) 9 ≡ some 7
unfolding find_open
open_seven = refl

dir_add-Added_example :
    (success : Bool) × (c' : Cache) × (f' : ℕ → List ℕ) × (dir_add
        (store zeros)
        dir
        (replicate 24 0)
        (97 ∷ 98 ∷ [])
        5
        true
      ≡ some (success, with_cache (store zeros) c'))
    × Accessed (store zeros).volume.world c' f'
    × IsFull f'
    × Added zeros f' ((store zeros).inode 7) (97 ∷ 98 ∷ []) 5 true success
dir_add-Added_example =
    dir_add-Added (store zeros) dir (replicate 24 0) (97 ∷ 98 ∷ []) 5 true zeros
      (λ s. length-replicate {A = ℕ} 512 0) (cache_init-IsCoherent (cache_of zeros) refl)
      (placed zeros) (length-replicate {A = ℕ} 24 0) (omega arith) (omega arith) refl (omega arith)

dir_remove-inode_reopen_example :
    (c' : Cache) × (dir_remove io (store listing) dir (97 ∷ []) (some 8)
      ≡ some (false, inode_reopen (with_cache (store listing) c') 7))
    × (((inode_reopen (with_cache (store listing) c') 7).inode 7).open_cnt ≡ 2)
    × Accessed (store listing).volume.world c' listing
dir_remove-inode_reopen_example =
    dir_remove-inode_reopen io (store listing) dir listing (97 ∷ []) (some 8) first_entry 0 7
      IsFull-listing (cache_init-IsCoherent (cache_of listing) refl) (placed listing) found_first
      open_seven (omega arith)
