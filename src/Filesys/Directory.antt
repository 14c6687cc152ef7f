-- ===== src/Filesys/Directory.antt =====
-- filesys/directory.c, as it is built with FILESYS_SUBDIRS: a directory is a file of entries of 24
-- bytes. A name is its characters, without the terminating 0. `none` is a failed ASSERT, a PANIC or
-- a loop without end.
pub mod Entries
pub mod Fields
pub mod Lookups
pub mod Adding
pub mod Removing
mod Tests
use uni_orion_os.Base.{
  ℕ, zero, suc, ◌+◌, ◌-◌, ◌*◌, Bool, true, false, not, ◌&&◌, ◌||◌, Option, none, some, List, [],
  ◌∷◌, ◌++◌, ◌==◌, ltb, leb, if◌then◌else◌, length, take, drop,
}
use uni_orion_os.Base.Panic.{◌>>=◌}
use uni_orion_os.Base.Slices.{byte_of}
use uni_orion_os.Filesys.Cache.{Cache}
use uni_orion_os.Filesys.FreeMap.{MapFile}
use uni_orion_os.Filesys.Inode.{
  Inode, Inodes, with_cache, word_bytes, word_at, inode_create, inode_open, inode_open_cnt,
  inode_close, inode_remove, inode_reopen, inode_get_inumber, inode_read_at, inode_write_at,
}

abbrev pub name_max : ℕ
name_max = 16

abbrev pub entry_size : ℕ
entry_size = 24

-- the places of the fields `name`, `is_directory` and `in_use` in `struct dir_entry`
abbrev pub name_at : ℕ
name_at = 4

abbrev pub is_directory_at : ℕ
is_directory_at = 21

abbrev pub in_use_at : ℕ
in_use_at = 22

-- `struct dir`; `inode` is the inode's address
pub record Dir : Type 0 where
  pub inode : ℕ
  pub pos : ℕ

-- the characters before the first 0
abbrev pub c_string : List ℕ → List ℕ
c_string [] = []
c_string (b ∷ bytes) = let rest = b ∷ c_string bytes in if b == 0 then [] else rest

-- `strcmp` gives 0
abbrev pub same_string : List ℕ → List ℕ → Bool
same_string [] [] = true
same_string [] (b ∷ t) = false
same_string (a ∷ s) [] = false
same_string (a ∷ s) (b ∷ t) = a == b && same_string s t

abbrev pub inode_sector : List ℕ → ℕ
inode_sector e = word_at e 0

abbrev pub is_in_use : List ℕ → Bool
is_in_use e = not (byte_of e in_use_at == 0)

abbrev pub is_directory : List ℕ → Bool
is_directory e = not (byte_of e is_directory_at == 0)

-- the name of an entry that has a 0 in it
abbrev pub entry_name : List ℕ → List ℕ
entry_name e = c_string (drop name_at e)

abbrev pub matches : List ℕ → (name : List ℕ) → Bool
matches e name = is_in_use e && same_string name (entry_name e)

-- the entry's bytes and its offset
unfoldable pub lookup :
    (fuel : ℕ) → Inode → (name : List ℕ) → (ofs : ℕ) → Cache → Option (Option (List ℕ × ℕ) × Cache)
lookup zero i name ofs c = none
lookup (suc fuel) i name ofs c = do
  (n, e, c) ← inode_read_at i entry_size ofs c
  if n == entry_size
      then (if matches e name
          then some (some (e, ofs), c)
          else lookup fuel i name (ofs + entry_size) c)
      else some (none, c)

-- an entry takes a byte at least
abbrev pub look_up : Inodes → Dir → (name : List ℕ) → Option (Option (List ℕ × ℕ) × Cache)
look_up s dir name =
    let i = s.inode dir.inode in lookup (i.content.length + 1) i name 0 s.volume.world

open_entry : Inodes → (memory : Option ℕ) → Option (List ℕ × ℕ) → Option (Option ℕ × Inodes)
open_entry s memory none = some (none, s)
open_entry s memory (some (e, ofs)) = inode_open s (inode_sector e) memory

-- `*inode`
unfoldable pub dir_lookup :
    Inodes → Dir → (name : List ℕ) → (memory : Option ℕ) → Option (Option ℕ × Inodes)
unfolding open_entry
dir_lookup s dir name memory = do
  (found, c) ← look_up s dir name
  open_entry (with_cache s c) memory found

-- the first entry that is not in use, or the end; `e` is what the variable holds
unfoldable pub free_slot :
    (fuel : ℕ) → Inode → (e : List ℕ) → (ofs : ℕ) → Cache → Option (List ℕ × ℕ × Cache)
free_slot zero i e ofs c = none
free_slot (suc fuel) i e ofs c = do
  (n, bytes, c) ← inode_read_at i entry_size ofs c
  let e' = bytes ++ drop n e
  if n == entry_size
      then (if is_in_use e' then free_slot fuel i e' (ofs + entry_size) c else some (e', ofs, c))
      else some (e', ofs, c)

-- the entry's fields set; `strlcpy` leaves what is behind the terminating 0
unfoldable pub set_entry : (e name : List ℕ) → (sector : ℕ) → (is_dir : Bool) → List ℕ
set_entry e name sector is_dir =
    word_bytes sector
    ++ (name
        ++ (0
            ∷ (drop (length name + 1) (take 17 (drop name_at e))
                ++ ((if is_dir then 1 else 0) ∷ 1 ∷ drop 23 e))))

add_new :
    Inode
    → (e name : List ℕ) → (sector : ℕ) → (is_dir : Bool) → Option (List ℕ × ℕ)
    → Cache
    → Option (Bool × Cache)
add_new i e name sector is_dir (some found) c = some (false, c)
add_new i e name sector is_dir none c = do
  (e, ofs, c) ← free_slot (i.content.length + 1) i e 0 c
  (n, c) ← inode_write_at i (set_entry e name sector is_dir) entry_size ofs c
  some (n == entry_size, c)

-- `e` is the variable before it is set
unfoldable pub dir_add :
    Inodes → Dir → (e name : List ℕ) → (inode_sector : ℕ) → (is_dir : Bool) → Option (Bool × Inodes)
unfolding add_new
dir_add s dir e name inode_sector is_dir =
    if length name == 0 || ltb name_max (length name) then some (false, s) else (do
      (found, c) ← look_up s dir name
      (success, c) ← add_new (s.inode dir.inode) e name inode_sector is_dir found c
      some (success, with_cache s c))

-- the entry with `in_use` cleared
abbrev pub erased : List ℕ → List ℕ
erased e = take in_use_at e ++ (0 ∷ drop (in_use_at + 1) e)

-- The inode is left open where the file has other openers.
erase_opened :
    MapFile Cache
    → Inodes
    → Dir
    → (e : List ℕ) → (ofs : ℕ) → (inode : Option ℕ) → Option (Bool × Inodes)
erase_opened io s dir e ofs none = do s ← inode_close io s none; some (false, s)
erase_opened io s dir e ofs (some a) =
    if ltb 1 (inode_open_cnt (s.inode a)) then some (false, s) else (do
      (n, c) ← inode_write_at (s.inode dir.inode) (erased e) entry_size ofs s.volume.world
      let s = with_cache s c
      let s = if n == entry_size then inode_remove s a else s
      s ← inode_close io s (some a)
      some (n == entry_size, s))

remove_entry :
    MapFile Cache
    → Inodes
    → Dir
    → (memory : Option ℕ) → Option (List ℕ × ℕ)
    → Option (Bool × Inodes)
unfolding erase_opened
remove_entry io s dir memory none = do s ← inode_close io s none; some (false, s)
remove_entry io s dir memory (some (e, ofs)) = do
  (inode, s) ← inode_open s (inode_sector e) memory
  erase_opened io s dir e ofs inode

unfoldable pub dir_remove :
    MapFile Cache → Inodes → Dir → (name : List ℕ) → (memory : Option ℕ) → Option (Bool × Inodes)
unfolding remove_entry
dir_remove io s dir name memory = do
  (found, c) ← look_up s dir name
  remove_entry io (with_cache s c) dir memory found

-- the name that is found, and the position behind its entry
readdir_loop : (fuel : ℕ) → Inode → (pos : ℕ) → Cache → Option (Option (List ℕ) × ℕ × Cache)
readdir_loop zero i pos c = none
readdir_loop (suc fuel) i pos c = do
  (n, e, c) ← inode_read_at i entry_size pos c
  if n == entry_size
      then (if is_in_use e
          then some (some (take name_max (entry_name e)), pos + entry_size, c)
          else readdir_loop fuel i (pos + entry_size) c)
      else some (none, pos, c)

unfoldable pub dir_readdir : Inodes → Dir → Option (Option (List ℕ) × Dir × Inodes)
unfolding readdir_loop
dir_readdir s dir = do
  let i = s.inode dir.inode
  (name, pos, c) ← readdir_loop (i.content.length + 1) i dir.pos s.volume.world
  some (name, record dir { pos = pos }, with_cache s c)

unfoldable pub dir_create :
    MapFile Cache
    → Inodes
    → (memory : Bool) → (sector entry_count parent : ℕ) → Option (Bool × Inodes)
dir_create io s memory sector entry_count parent =
    inode_create io s memory sector (entry_count * entry_size) parent

-- `memory` says whether `calloc` gives a block, `more` is what `malloc` gives to `inode_open`; the
-- inode that is passed stays open
unfoldable pub dir_open :
    MapFile Cache
    → Inodes
    → (inode : Option ℕ) → (memory : Bool) → (more : Option ℕ)
    → Option (Option (Option ℕ × ℕ) × Inodes)
dir_open io s none memory more = do s ← inode_close io s none; some (none, s)
dir_open io s (some a) false more = do s ← inode_close io s (some a); some (none, s)
dir_open io s (some a) true more = do
  (inode, s) ← inode_open s (inode_get_inumber (s.inode a)) more
  some (some (inode, 0), s)

unfoldable pub dir_reopen :
    MapFile Cache
    → Inodes
    → Dir
    → (memory : Bool) → (more : Option ℕ) → Option (Option (Option ℕ × ℕ) × Inodes)
dir_reopen io s dir memory more =
    dir_open io (inode_reopen s dir.inode) (some dir.inode) memory more
