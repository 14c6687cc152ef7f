-- ===== src/Filesys/Path.antt =====
-- filesys/path.c: entries of a path name. A C string is the list of its characters, and ends where
-- the list does. The buffers `entry`, `sub_path` and `last_entry` are returned as strings.
pub mod Splitting
mod Tests
use uni_orion_os.Base.{
  ℕ, zero, suc, ◌+◌, ◌-◌, Bool, true, false, not, ◌||◌, Option, none, some, List, [], ◌∷◌, ◌==◌,
  if◌then◌else◌, take, drop, length,
}
use uni_orion_os.Base.Panic.{◌>>=◌}

abbrev pub slash : ℕ
slash = 47

unfoldable pub path_is_relative : List ℕ → Bool
path_is_relative [] = true
path_is_relative (c ∷ path) = not (c == slash)

-- the string behind its leading slashes, and their number
unfoldable pub skip_slashes : List ℕ → ℕ × List ℕ
skip_slashes [] = (0, [])
skip_slashes (c ∷ path) =
    let (n, rest) = skip_slashes path in if c == slash then (n + 1, rest) else (0, c ∷ path)

-- up to `room` characters that are not slashes, their number, and the string behind them
unfoldable pub copy_entry : (room : ℕ) → List ℕ → List ℕ × ℕ × List ℕ
copy_entry room [] = ([], 0, [])
copy_entry zero (c ∷ path) = ([], 0, c ∷ path)
copy_entry (suc room) (c ∷ path) =
    let (entry, n, rest) = copy_entry room path in
    if c == slash then ([], 0, c ∷ path) else (c ∷ entry, n + 1, rest)

-- the entry and the new value of `*offset`
unfoldable pub path_next_entry : (path : List ℕ) → (max_entry_length offset : ℕ) → List ℕ × ℕ
path_next_entry path max_entry_length offset =
    let (leading, path) = skip_slashes path in
    let (entry, copied, path) = copy_entry max_entry_length path in
    let (trailing, path) = skip_slashes path in (entry, offset + leading + copied + trailing)

-- one round of the loop of `path_split_last` at the rest of the path; `go_on` is the loop
unfoldable pub split_step :
    (go_on : List ℕ → ℕ → ℕ → Option (List ℕ × ℕ))
    → (rest : List ℕ) → (max_entry_length : ℕ) → (entry : List ℕ) → (offset last_offset : ℕ)
    → Option (List ℕ × ℕ)
split_step go_on [] max_entry_length entry offset last_offset = some (entry, last_offset)
split_step go_on (c ∷ rest) max_entry_length entry offset last_offset =
    let (next, new_offset) = path_next_entry (c ∷ rest) max_entry_length offset in
    go_on next new_offset offset

-- the last entry and `last_offset`; `none` is a lack of fuel
unfoldable pub split_loop :
    (fuel : ℕ)
    → (path : List ℕ) → (max_entry_length : ℕ) → (entry : List ℕ) → (offset last_offset : ℕ)
    → Option (List ℕ × ℕ)
split_loop zero path max_entry_length entry offset last_offset = none
split_loop (suc fuel) path max_entry_length entry offset last_offset =
    split_step (split_loop fuel path max_entry_length) (drop offset path) max_entry_length entry
      offset last_offset

-- `strlcpy`: at most `size - 1` characters
abbrev pub strlcpy : List ℕ → ℕ → List ℕ
strlcpy src size = take (size - 1) src

-- `sub_path` and `last_entry`
unfoldable pub path_split_last :
    (fuel : ℕ) → (path : List ℕ) → (max_entry_length : ℕ) → Option (List ℕ × List ℕ)
path_split_last fuel path max_entry_length = do
  (entry, last_offset) ← split_loop fuel path max_entry_length [] 0 0
  let last_offset = if last_offset == 0 then 1 else last_offset
  some (strlcpy path last_offset, strlcpy entry max_entry_length)
