-- ===== src/Filesys/Fd.antt =====
-- filesys/fd.c: the file descriptors of the running process, as its list of links, front first.
-- A descriptor is a
-- natural number: no link has a negative one.
pub mod Numbers
mod Tests
use uni_orion_os.Base.{
  ℕ, zero, suc, ◌+◌, Bool, true, false, not, ◌||◌, ◌&&◌, Option, none, some, List, [], ◌∷◌, ◌==◌,
  ltb, if◌then◌else◌, bit_and,
}
use uni_orion_os.Base.Int.{ℤ, pos, negsuc}

abbrev pub stdin : ℕ
stdin = 0

abbrev pub stdout : ℕ
stdout = 1

abbrev pub read : ℕ
read = 1

abbrev pub write : ℕ
write = 2

-- `P` is the type of pointers: `target` is the union of `file` and `dir`.
pub record FdLink (P : Type 0) : Type 0 where
  pub fd : ℕ
  pub is_directory : Bool
  pub target : P

module _ {P : Type 0} where
  unfoldable pub max_fd : ℕ → List (FdLink P) → ℕ
  max_fd m [] = m
  max_fd m (link ∷ links) = max_fd (if ltb m link.fd then link.fd else m) links

  unfoldable pub fd_create : List (FdLink P) → ℕ
  fd_create links = max_fd 2 links + 1

  unfoldable pub fd_close : List (FdLink P) → (fd : ℕ) → List (FdLink P)
  fd_close [] fd = []
  fd_close (link ∷ links) fd =
      let rest = fd_close links fd in if link.fd == fd then links else link ∷ rest

  unfoldable pub fd_get_link : List (FdLink P) → (fd : ℕ) → Option (FdLink P)
  fd_get_link [] fd = none
  fd_get_link (link ∷ links) fd =
      let rest = fd_get_link links fd in if link.fd == fd then some link else rest

  unfoldable pub is_open : List (FdLink P) → (fd : ℕ) → Bool
  is_open [] fd = false
  is_open (link ∷ links) fd = let rest = is_open links fd in if link.fd == fd then true else rest

  unfoldable pub fd_is_valid : List (FdLink P) → (fd direction : ℕ) → Bool
  fd_is_valid links fd direction =
      if fd == stdout && not (bit_and direction write == 0)
      then true
      else if fd == stdin && not (bit_and direction read == 0)
      then true
      else is_open links fd

  unfoldable pub fd_get_file : List (FdLink P) → (fd : ℕ) → Option P
  fd_get_file [] fd = none
  fd_get_file (link ∷ links) fd =
      let rest = fd_get_file links fd in if link.fd == fd then some link.target else rest

  unfoldable pub fd_is_directory : List (FdLink P) → (fd : ℕ) → Bool
  fd_is_directory links fd = elim (fd_get_link links fd) [
    | none ↦ false
    | some entry ↦ entry.is_directory
  ]

  unfoldable pub fd_get_dir : List (FdLink P) → (fd : ℕ) → Option P
  fd_get_dir links fd = elim (fd_get_link links fd) [
    | none ↦ none
    | some entry ↦ if not entry.is_directory then none else some entry.target
  ]

  -- the inode numbers of a file and of a directory are in other files
  unfoldable pub fd_inode_number :
      (file_inumber dir_inumber : P → ℤ) → List (FdLink P) → (fd : ℕ) → ℤ
  fd_inode_number file_inumber dir_inumber links fd = elim (fd_get_link links fd) [
    | none ↦ negsuc 0
    | some entry ↦
        if entry.is_directory then dir_inumber entry.target else file_inumber entry.target
  ]
