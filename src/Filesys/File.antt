-- ===== src/Filesys/File.antt =====
-- filesys/file.c: an open file over its inode. Positions and sizes are not negative. `none` is a
-- failed ASSERT, a PANIC or a use of freed memory.
pub mod Positions
mod Tests
use uni_orion_os.Base.{ℕ, ◌+◌, ◌-◌, Bool, true, false, not, Option, none, some, List, if◌then◌else◌}
use uni_orion_os.Base.Panic.{◌>>=◌, ◌>>◌, ensure}
use uni_orion_os.Filesys.Cache.{Cache}
use uni_orion_os.Filesys.FreeMap.{MapFile}
use uni_orion_os.Filesys.Inode.{
  Inodes, with_cache, inode_reopen, inode_close, inode_read_at, inode_write_at, inode_deny_write,
  inode_allow_write, inode_length,
}

-- `struct file`; `inode` is the inode's address
pub record File : Type 0 where
  pub inode : ℕ
  pub pos : ℕ
  pub deny_write : Bool

-- `memory` says whether `calloc` gave a block
unfoldable pub file_open :
    MapFile Cache → Inodes → (inode : Option ℕ) → (memory : Bool) → Option (Option File × Inodes)
file_open io s (some a) true = some (some (record { inode = a; pos = 0; deny_write = false }), s)
file_open io s (some a) false = do s ← inode_close io s (some a); some (none, s)
file_open io s none memory = do s ← inode_close io s none; some (none, s)

unfoldable pub file_reopen :
    MapFile Cache → Inodes → File → (memory : Bool) → Option (Option File × Inodes)
file_reopen io s file memory = file_open io (inode_reopen s file.inode) (some file.inode) memory

unfoldable pub file_deny_write : Inodes → File → Option (File × Inodes)
file_deny_write s file =
    if not file.deny_write
    then (do s ← inode_deny_write s file.inode; some (record file { deny_write = true }, s))
    else some (file, s)

unfoldable pub file_allow_write : Inodes → File → Option (File × Inodes)
file_allow_write s file =
    if file.deny_write
    then (do s ← inode_allow_write s file.inode; some (record file { deny_write = false }, s))
    else some (file, s)

unfoldable pub file_close : MapFile Cache → Inodes → Option File → Option Inodes
file_close io s none = some s
file_close io s (some file) = do
  (file, s) ← file_allow_write s file
  inode_close io s (some file.inode)

-- the number of bytes, the bytes, the file and the inodes
unfoldable pub file_read : Inodes → File → (size : ℕ) → Option (ℕ × List ℕ × File × Inodes)
file_read s file size = do
  (bytes_read, bytes, c) ← inode_read_at (s.inode file.inode) size file.pos s.volume.world
  some (bytes_read, bytes, record file { pos = file.pos + bytes_read }, with_cache s c)

unfoldable pub file_read_at : Inodes → File → (size file_ofs : ℕ) → Option (ℕ × List ℕ × Inodes)
file_read_at s file size file_ofs = do
  (bytes_read, bytes, c) ← inode_read_at (s.inode file.inode) size file_ofs s.volume.world
  some (bytes_read, bytes, with_cache s c)

unfoldable pub file_write :
    Inodes → File → (buffer : List ℕ) → (size : ℕ) → Option (ℕ × File × Inodes)
file_write s file buffer size = do
  (bytes_written, c) ← inode_write_at (s.inode file.inode) buffer size file.pos s.volume.world
  some (bytes_written, record file { pos = file.pos + bytes_written }, with_cache s c)

unfoldable pub file_write_at :
    Inodes → File → (buffer : List ℕ) → (size file_ofs : ℕ) → Option (ℕ × Inodes)
file_write_at s file buffer size file_ofs = do
  (bytes_written, c) ← inode_write_at (s.inode file.inode) buffer size file_ofs s.volume.world
  some (bytes_written, with_cache s c)

unfoldable pub file_length : Inodes → File → ℕ
file_length s file = inode_length (s.inode file.inode)

unfoldable pub file_seek : File → (new_pos : ℕ) → File
file_seek file new_pos = record file { pos = new_pos }

unfoldable pub file_tell : File → ℕ
file_tell file = file.pos
