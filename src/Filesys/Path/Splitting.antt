-- ===== src/Filesys/Path/Splitting.antt =====
-- One step of a path, and the loop that splits off the last entry.
use uni_orion_os.Base.{
  ℕ, zero, suc, ◌+◌, ◌-◌, ◌≤◌, ◌<◌, ◌≡◌, refl, ap, ◌⊎◌, inl, inr, true, false, some, List, [], ◌∷◌,
  ◌++◌, ◌==◌, if◌then◌else◌, arith, Bool-cases, length, drop, replicate,
}
use uni_orion_os.Filesys.Path.{
  strlcpy, slash, skip_slashes, copy_entry, path_next_entry, split_step, split_loop,
  path_split_last,
}

-- no character of the name is a slash
abbrev pub IsName : List ℕ → Type 0
IsName [] = Unit
IsName (c ∷ name) = ((c == slash) ≡ false) × IsName name

-- a rest of a path that does not go on with slashes
abbrev pub NextName : List ℕ → Type 0
NextName [] = Unit
NextName (c ∷ path) = (c == slash) ≡ false

-- a rest of a path at which an entry ends
abbrev pub EntryEnd : List ℕ → Type 0
EntryEnd [] = Unit
EntryEnd (c ∷ path) = (c == slash) ≡ true

skip_none : (path : List ℕ) → NextName path → skip_slashes path ≡ (0, path)
unfolding skip_slashes
skip_none [] h = refl
skip_none (c ∷ path) h = rw h refl

skip_slashes-replicate :
    (k : ℕ) (path : List ℕ) → NextName path → skip_slashes (replicate k slash ++ path) ≡ (k, path)
unfolding skip_slashes
skip_slashes-replicate zero path h = skip_none path h
skip_slashes-replicate (suc k) path h =
    rw (skip_slashes-replicate k path h) (ap (λ n. (n, path)) (omega arith))

copy_entry-append :
    (room : ℕ) (name path : List ℕ)
    → IsName name
    → length name ≤ room
    → EntryEnd path
    → copy_entry room (name ++ path) ≡ (name, length name, path)
unfolding copy_entry
copy_entry-append room [] [] h k e = refl
copy_entry-append zero [] (c ∷ path) h k e = refl
copy_entry-append (suc room) [] (c ∷ path) h k e = rw e refl
copy_entry-append zero (c ∷ name) path h k e = absurd (omega arith)
copy_entry-append (suc room) (c ∷ name) path h k e =
    rw (h.0, copy_entry-append room name path h.1 (omega arith) e)
      (ap (λ n. (c ∷ name, n, path)) (omega arith))

after : (j : ℕ) (path : List ℕ) → (1 ≤ j) ⊎ (path ≡ []) → EntryEnd (replicate j slash ++ path)
after zero path (inl h) = absurd (omega arith)
after zero path (inr e) = rw e tt
after (suc j) path h = refl

-- On a path of K slashes, a name without slashes that is not empty and fits the limit, J slashes
-- and a rest that does not begin with a slash, with J at least 1 or the rest empty,
-- path_next_entry gives the name and advances the offset behind the J slashes.
pub path_next_entry-IsName :
    (k j offset room : ℕ) (name path : List ℕ)
    → IsName name
    → 1 ≤ length name
    → length name ≤ room
    → NextName path
    → (1 ≤ j) ⊎ (path ≡ [])
    → path_next_entry (replicate k slash ++ (name ++ (replicate j slash ++ path))) room offset
      ≡ (name, offset + k + length name + j)
unfolding path_next_entry
path_next_entry-IsName k j offset room [] path h one fits next e = absurd (omega arith)
path_next_entry-IsName k j offset room (c ∷ name) path h one fits next e =
    rw
      (
        skip_slashes-replicate k ((c ∷ name) ++ (replicate j slash ++ path)) h.0,
        copy_entry-append room (c ∷ name) (replicate j slash ++ path) h fits (after j path e),
        skip_slashes-replicate j path next,
      )
      refl

-- a step goes on inside the path
length-skip_slashes :
    (path : List ℕ) → (skip_slashes path).0 + length (skip_slashes path).1 ≡ length path
unfolding skip_slashes
length-skip_slashes [] = refl
length-skip_slashes (c ∷ path) = elim (Bool-cases (c == slash)) [
  | inl same ↦ rw same (omega (arith, length-skip_slashes path))
  | inr other ↦ rw other (omega arith)
]

length-copy_entry :
    (room : ℕ) (path : List ℕ)
    → (copy_entry room path).1 + length (copy_entry room path).2 ≡ length path
unfolding copy_entry
length-copy_entry room [] = refl
length-copy_entry zero (c ∷ path) = omega arith
length-copy_entry (suc room) (c ∷ path) = elim (Bool-cases (c == slash)) [
  | inl same ↦ rw same (omega arith)
  | inr other ↦ rw other (omega (arith, length-copy_entry room path))
]

copies_one :
    (room c : ℕ) (path : List ℕ)
    → 1 ≤ room
    → (c == slash) ≡ false
    → 1 ≤ (copy_entry room (c ∷ path)).1
unfolding copy_entry
copies_one zero c path h e = absurd (omega arith)
copies_one (suc room) c path h e = rw e (omega arith)

skips_one :
    (c : ℕ) (path : List ℕ)
    → ((c == slash) ≡ true × 1 ≤ (skip_slashes (c ∷ path)).0)
      ⊎ ((c == slash) ≡ false × (skip_slashes (c ∷ path) ≡ (0, c ∷ path)))
unfolding skip_slashes
skips_one c path = elim (Bool-cases (c == slash)) [
  | inl same ↦ rw same (inl (refl, omega arith))
  | inr other ↦ rw other (inr (refl, refl))
]

moves_on :
    (c : ℕ) (path : List ℕ) (room : ℕ)
    → 1 ≤ room
    → 1 ≤ (skip_slashes (c ∷ path)).0 + (copy_entry room (skip_slashes (c ∷ path)).1).1
moves_on c path room h = elim (skips_one c path) [
  | inl (same, one) ↦ omega (arith, one)
  | inr (other, none_skipped) ↦ rw none_skipped (omega (arith, copies_one room c path h other))
]

-- the new offset lies behind the old one, and not behind the end of the path
progress :
    (c : ℕ) (path : List ℕ) (room offset : ℕ)
    → 1 ≤ room
    → offset < (path_next_entry (c ∷ path) room offset).1
      × ((path_next_entry (c ∷ path) room offset).1 ≤ offset + length (c ∷ path))
unfolding path_next_entry
progress c path room offset h =
    let leading = skip_slashes (c ∷ path) in
    let one = moves_on c path room h in
    let all = length-skip_slashes (c ∷ path) in
    let entry = length-copy_entry room leading.1 in
    let trailing = length-skip_slashes (copy_entry room leading.1).2 in
    (omega (arith, one), omega (arith, all, entry, trailing))

length-drop : (n : ℕ) (path : List ℕ) → length (drop n path) ≡ length path - n
length-drop zero path = omega arith
length-drop (suc n) [] = omega arith
length-drop (suc n) (c ∷ path) = omega (arith, length-drop n path)

split_loop-ends :
    (fuel : ℕ) (path : List ℕ) (room : ℕ) (entry : List ℕ) (offset last : ℕ)
    → 1 ≤ room
    → offset ≤ length path
    → length path < fuel + offset
    → (result : List ℕ × ℕ) × (split_loop fuel path room entry offset last ≡ some result)
unfolding split_loop split_step
split_loop-ends zero path room entry offset last h i k = absurd (omega arith)
split_loop-ends (suc fuel) path room entry offset last h i k =
    go (drop offset path) (length-drop offset path)
      (λ next new. split_loop-ends fuel path room next new offset h)
  where
    go :
        (rest : List ℕ)
        → length rest ≡ length path - offset
        → ((next : List ℕ) (new : ℕ)
            → new ≤ length path
            → length path < fuel + new
            → (result : List ℕ × ℕ) × (split_loop fuel path room next new offset ≡ some result))
        → (result : List ℕ × ℕ) × (split_step
              (split_loop fuel path room)
              rest
              room
              entry
              offset
              last
            ≡ some result)
    go [] e later = ((entry, last), refl)
    go (c ∷ rest) e later =
        let (on, inside) = progress c rest room offset h in
        later (path_next_entry (c ∷ rest) room offset).0 (path_next_entry (c ∷ rest) room offset).1
          (omega (arith, inside)) (omega (arith, on))

-- If the limit on entries is at least 1, the loop of path_split_last ends on every path within
-- one round more than the path has characters.
pub path_split_last-ends :
    (path : List ℕ) (max_entry_length : ℕ)
    → 1 ≤ max_entry_length
    → (result : List ℕ × List ℕ) × (path_split_last (length path + 1) path max_entry_length
        ≡ some result)
unfolding path_split_last
path_split_last-ends path max_entry_length h =
    let (r, run) =
      split_loop-ends (length path + 1) path max_entry_length [] 0 0 h (omega arith)
        (omega arith) in
    ((strlcpy path (if r.1 == 0 then 1 else r.1), strlcpy r.0 max_entry_length), rw run refl)
