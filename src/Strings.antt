-- ===== src/Strings.antt =====
-- lib/string.c. The functions on blocks work on a memory of bytes, with addresses as numbers, so
-- that blocks may overlap; the address 0 is NULL, and `none` is a failed ASSERT. A string that is
-- only read is given by its characters before the terminating 0, and so by a pointer that is not
-- NULL; a pointer into it is the number of characters before it. The string that `strlcat` extends
-- stands in the memory.
pub mod Blocks
pub mod Searching
pub mod Tokens
pub mod Copying
mod Tests
use uni_orion_os.Base.{
  ℕ, zero, suc, ◌+◌, ◌-◌, ◌%◌, min, Bool, true, false, not, ◌&&◌, Option, none, some, List, [], ◌∷◌,
  ◌==◌, ltb, leb, if◌then◌else◌, length, take, drop, ◌||◌,
}
use uni_orion_os.Base.Panic.{◌>>=◌, ◌>>◌, ensure}
use uni_orion_os.Devices.Block.{update}

abbrev pub Memory : Type 0
Memory = ℕ → ℕ

-- from the first byte on
unfoldable pub copy_up : (size : ℕ) → Memory → (dst src : ℕ) → Memory
copy_up zero m dst src = m
copy_up (suc size) m dst src = copy_up size (update m dst (m src)) (dst + 1) (src + 1)

-- from the last byte on
unfoldable pub copy_down : (size : ℕ) → Memory → (dst src : ℕ) → Memory
copy_down zero m dst src = m
copy_down (suc size) m dst src = copy_down size (update m (dst + size) (m (src + size))) dst src

-- the pointer is not NULL, or the block has no bytes
abbrev pub is_block : (pointer size : ℕ) → Bool
is_block pointer size = not (pointer == 0) || size == 0

unfoldable pub memcpy : Memory → (dst src size : ℕ) → Option (ℕ × Memory)
memcpy m dst src size = do
  ensure (is_block dst size)
  ensure (is_block src size)
  some (dst, copy_up size m dst src)

-- the pointer that is returned is the one that the loops move
unfoldable pub memmove : Memory → (dst src size : ℕ) → Option (ℕ × Memory)
memmove m dst src size = do
  ensure (is_block dst size)
  ensure (is_block src size)
  some (
      if ltb dst src then (dst + size, copy_up size m dst src) else (dst, copy_down size m dst src))

unfoldable pub set_up : (size : ℕ) → Memory → (dst value : ℕ) → Memory
set_up zero m dst value = m
set_up (suc size) m dst value = set_up size (update m dst (value % 256)) (dst + 1) value

unfoldable pub memset : Memory → (dst value size : ℕ) → Option (ℕ × Memory)
memset m dst value size = do ensure (is_block dst size); some (dst, set_up size m dst value)

-- the sign of what `memcmp` and `strcmp` return
pub data Sign : Type 0 where
  negative zero_sign positive : Sign

unfoldable pub compare_up : (size : ℕ) → Memory → (a b : ℕ) → Sign
compare_up zero m a b = zero_sign
compare_up (suc size) m a b =
    let later = compare_up size m (a + 1) (b + 1) in
    if not (m a == m b) then (if ltb (m b) (m a) then positive else negative) else later

unfoldable pub memcmp : Memory → (a b size : ℕ) → Option Sign
memcmp m a b size = do
  ensure (is_block a size)
  ensure (is_block b size)
  some (compare_up size m a b)

-- the address of the byte, or NULL
unfoldable pub search_up : (size : ℕ) → Memory → (block ch : ℕ) → ℕ
search_up zero m block ch = 0
search_up (suc size) m block ch =
    let later = search_up size m (block + 1) ch in if m block == ch % 256 then block else later

unfoldable pub memchr : Memory → (block ch size : ℕ) → Option ℕ
memchr m block ch size = do ensure (is_block block size); some (search_up size m block ch)

unfoldable pub strlen : List ℕ → ℕ
strlen string = length string

unfoldable pub strnlen : List ℕ → (maxlen : ℕ) → ℕ
strnlen [] maxlen = 0
strnlen (c ∷ string) zero = 0
strnlen (c ∷ string) (suc maxlen) = suc (strnlen string maxlen)

unfoldable pub strcmp : List ℕ → List ℕ → Sign
strcmp [] [] = zero_sign
strcmp [] (b ∷ t) = negative
strcmp (a ∷ s) [] = positive
strcmp (a ∷ s) (b ∷ t) =
    let later = strcmp s t in if a == b then later else (if ltb a b then negative else positive)

-- the terminating 0 is found at the end
unfoldable pub strchr : List ℕ → (c : ℕ) → Option ℕ
strchr [] c = if c == 0 then some 0 else none
strchr (a ∷ string) c = let later = strchr string c in if a == c then some 0 else next later
  where
    next : Option ℕ → Option ℕ
    next none = none
    next (some i) = some (suc i)

abbrev is_some : Option ℕ → Bool
is_some none = false
is_some (some i) = true

abbrev pub contains : List ℕ → (c : ℕ) → Bool
contains string c = is_some (strchr string c)

unfoldable pub strcspn : List ℕ → (stop : List ℕ) → ℕ
strcspn [] stop = 0
strcspn (c ∷ string) stop =
    let later = strcspn string stop in if contains stop c then 0 else suc later

unfoldable pub strspn : List ℕ → (skip : List ℕ) → ℕ
strspn [] skip = 0
strspn (c ∷ string) skip =
    let later = strspn string skip in if contains skip c then suc later else 0

unfoldable pub strpbrk : List ℕ → (stop : List ℕ) → Option ℕ
strpbrk string stop =
    if ltb (strcspn string stop) (length string) then some (strcspn string stop) else none

-- the characters of the first string are the first ones of the second; `memcmp` gives 0
abbrev pub starts : (needle haystack : List ℕ) → Bool
starts [] haystack = true
starts (n ∷ needle) [] = false
starts (n ∷ needle) (h ∷ haystack) = n == h && starts needle haystack

-- the rounds of `strstr`, from `i` on
unfoldable pub search : (rounds i : ℕ) → (haystack needle : List ℕ) → Option ℕ
search zero i haystack needle = none
search (suc rounds) i haystack needle =
    let later = search rounds (i + 1) haystack needle in
    if starts needle (drop i haystack) then some i else later

unfoldable pub strstr : (haystack needle : List ℕ) → Option ℕ
strstr haystack needle =
    if leb (strlen needle) (strlen haystack)
    then search (strlen haystack - strlen needle + 1) 0 haystack needle
    else none

-- where `strtok_r` goes on: at S, or at the saved position where S is NULL
abbrev pub start_of : (s : Option (List ℕ)) → (save : List ℕ) → List ℕ
start_of none save = save
start_of (some s) save = s

-- The token that is found, or NULL, and the saved position. The 0 that the code writes over the
-- delimiter behind the token is the end of the token here, and the saved position is behind it.
unfoldable pub strtok_r :
    (s : Option (List ℕ)) → (delimiters save : List ℕ) → Option (List ℕ) × List ℕ
strtok_r start delimiters save =
    let from = start_of start save in
    let s = drop (strspn from delimiters) from in
    let n = strcspn s delimiters in
    if length s == 0 then (none, []) else (some (take n s), drop (n + 1) s)

unfoldable pub strrchr : List ℕ → (c : ℕ) → Option ℕ
strrchr string c = last_from string 0
  where
    last_from : List ℕ → ℕ → Option ℕ
    last_from [] i = none
    last_from (a ∷ rest) i =
        let later = last_from rest (i + 1) in
        elim later [ some k ↦ some k | none ↦ if a == c then some i else none ]

-- the bytes of a string, which is not where the target is, and its terminating 0
unfoldable pub store : List ℕ → Memory → (dst : ℕ) → Memory
store [] m dst = update m dst 0
store (c ∷ string) m dst = store string (update m dst c) (dst + 1)

unfoldable pub strlcpy : Memory → (dst : ℕ) → (src : List ℕ) → (size : ℕ) → Option (ℕ × Memory)
strlcpy m dst src size = do
  ensure (not (dst == 0))
  let dst_len = if ltb (strlen src) (size - 1) then strlen src else size - 1
  some (strlen src, if ltb 0 size then store (take dst_len src) m dst else m)

-- `strlen` of the string that stands at an address, on fuel
unfoldable pub strlen_at : (fuel : ℕ) → Memory → (string : ℕ) → Option ℕ
strlen_at zero m string = none
strlen_at (suc fuel) m string =
    let rest = strlen_at fuel m (string + 1) in
    if m string == 0 then some 0 else (do n ← rest; some (suc n))

-- The target is a string in the memory; `none` is also a string longer than the fuel.
unfoldable pub strlcat :
    (fuel : ℕ) → Memory → (dst : ℕ) → (src : List ℕ) → (size : ℕ) → Option (ℕ × Memory)
strlcat fuel m dst src size = do
  ensure (not (dst == 0))
  dst_len ← strlen_at fuel m dst
  let copy_cnt = if ltb (strlen src) (size - dst_len - 1) then strlen src else size - dst_len - 1
  some (
    strlen src + dst_len,
    if ltb 0 size && ltb dst_len size then store (take copy_cnt src) m (dst + dst_len) else m,
  )
