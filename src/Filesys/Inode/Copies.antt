-- ===== src/Filesys/Inode/Copies.antt =====
-- What `memcpy` into a sector leaves at each place of it.
use uni_orion_os.Base.{
  ℕ, ◌+◌, ◌-◌, ◌≤◌, ◌<◌, ◌≡◌, ◌∙◌, ap, List, ◌++◌, arith, length, take, drop, length-append,
}
use uni_orion_os.Base.Slices.{
  byte_of, length-take, length-drop, byte_of-drop, byte_of-take, byte_of-left, byte_of-right,
}
use uni_orion_os.Filesys.Cache.{copy_into}

module _ (t : List ℕ) (o : ℕ) (b : List ℕ) (n : ℕ) (fits : o + n ≤ length t)
    (given : n ≤ length b) where
  front : length (take o t) ≡ o
  front = length-take t o (omega arith)

  middle : length (take n b) ≡ n
  middle = length-take b n given

  pub length-copy_into : length (copy_into t o b n) ≡ length t
  length-copy_into =
      let outer = length-append (take o t) (take n b ++ drop (o + n) t) in
      let inner = length-append (take n b) (drop (o + n) t) in
      omega (arith, outer, inner, front, middle, length-drop t (o + n))

  pub copy_into-before : (i : ℕ) → i < o → byte_of (copy_into t o b n) i ≡ byte_of t i
  copy_into-before i h =
      byte_of-left (take o t) (take n b ++ drop (o + n) t) i (omega (arith, front))
      ∙ byte_of-take t o i h

  -- behind the first part
  behind : (k : ℕ) → byte_of (copy_into t o b n) (o + k) ≡ byte_of (take n b ++ drop (o + n) t) k
  behind k =
      let place : o + k ≡ length (take o t) + k = omega (arith, front) in
      ap (byte_of (copy_into t o b n)) place
      ∙ byte_of-right (take o t) (take n b ++ drop (o + n) t) k

  pub copy_into-new : (k : ℕ) → k < n → byte_of (copy_into t o b n) (o + k) ≡ byte_of b k
  copy_into-new k h =
      behind k
      ∙ byte_of-left (take n b) (drop (o + n) t) k (omega (arith, middle))
      ∙ byte_of-take b n k h

  pub copy_into-after : (i : ℕ) → o + n ≤ i → byte_of (copy_into t o b n) i ≡ byte_of t i
  copy_into-after i h =
      let k = i - o - n in
      let place : i ≡ o + (n + k) = omega arith in
      let inner : n + k ≡ length (take n b) + k = omega (arith, middle) in
      let back : o + n + k ≡ i = omega arith in
      ap (byte_of (copy_into t o b n)) place
      ∙ behind (n + k)
      ∙ ap (byte_of (take n b ++ drop (o + n) t)) inner
      ∙ byte_of-right (take n b) (drop (o + n) t) k
      ∙ byte_of-drop t (o + n) k
      ∙ ap (byte_of t) back
