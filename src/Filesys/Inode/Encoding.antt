-- ===== src/Filesys/Inode/Encoding.antt =====
-- An inode on the disk is read as it was written.
use uni_orion_os.Base.{
  ℕ, ◌+◌, ◌*◌, ◌/◌, ◌%◌, ◌^◌, ◌<◌, ◌≡◌, refl, ◌∙◌, sym, ap, List, [], ◌∷◌, ◌++◌, arith, length,
  take,
}
use uni_orion_os.Base.Slices.{byte_of, tabulate, tabulate-append, slice-tabulate, byte_of-right}
use uni_orion_os.Filesys.Inode.{
  InodeDisk, block_sector_size, word_bytes, word_at, inode_disk_bytes, inode_disk_of,
}

-- the numbers are bytes
abbrev pub AllBytes : List ℕ → Type 0
AllBytes xs = (i : ℕ) → byte_of xs i < 256

-- `struct inode_disk` has words of 32 bits, and the size of a sector
pub record IsWords (d : InodeDisk) : Type 0 where
  pub start : d.start < 2 ^ 32
  pub size : d.length < 2 ^ 32
  pub unused : length d.unused ≡ 496
  pub parent : d.parent_dir_inode < 2 ^ 32
  pub magic : d.magic < 2 ^ 32

word_bytes-word_at :
    (xs : List ℕ) (i : ℕ) → AllBytes xs → word_bytes (word_at xs i) ≡ tabulate (byte_of xs) i 4
word_bytes-word_at xs i h =
    let b0 = h i in
    let b1 = h (i + 1) in
    let b2 = h (i + 2) in
    let b3 = h (i + 3) in
    let e0 : word_at xs i % 256 ≡ byte_of xs i = omega (arith, b0, b1, b2, b3) in
    let e1 : word_at xs i / 256 % 256 ≡ byte_of xs (i + 1) = omega (arith, b0, b1, b2, b3) in
    let e2 : word_at xs i / 65536 % 256 ≡ byte_of xs (i + 2) = omega (arith, b0, b1, b2, b3) in
    let e3 : word_at xs i / 16777216 % 256 ≡ byte_of xs (i + 3) = omega (arith, b0, b1, b2, b3) in
    let i2 : i + 2 ≡ i + 1 + 1 = omega arith in
    let i3 : i + 3 ≡ i + 1 + 1 + 1 = omega arith in rw (e0, e1, e2, e3, i2, i3) refl

join_same :
    {a a' b b' u u' c c' d d' : List ℕ}
    → a ≡ a'
    → b ≡ b'
    → u ≡ u'
    → c ≡ c'
    → d ≡ d'
    → a ++ (b ++ (u ++ (c ++ d))) ≡ a' ++ (b' ++ (u' ++ (c' ++ d')))
join_same a b u c d = cc

-- A sector of 512 bytes is written back as it was read.
pub inode_disk_bytes-inode_disk_of :
    (xs : List ℕ)
    → AllBytes xs
    → length xs ≡ block_sector_size
    → inode_disk_bytes (inode_disk_of xs) ≡ tabulate (byte_of xs) 0 block_sector_size
unfolding inode_disk_bytes inode_disk_of
inode_disk_bytes-inode_disk_of xs h size =
    let g = byte_of xs in
    join_same (word_bytes-word_at xs 0 h) (word_bytes-word_at xs 4 h)
      (slice-tabulate xs 8 496 (omega (arith, size))) (word_bytes-word_at xs 504 h)
      (word_bytes-word_at xs 508 h)
    ∙ sym (
        tabulate-append g 0 4 508
        ∙ ap (λ ys. tabulate g 0 4 ++ ys)
            (tabulate-append g 4 4 504
              ∙ ap (λ ys. tabulate g 4 4 ++ ys)
                  (tabulate-append g 8 496 8
                    ∙ ap (λ ys. tabulate g 8 496 ++ ys) (tabulate-append g 504 4 4))))

word_at-right :
    (xs ys : List ℕ) (n i : ℕ) → length xs ≡ n → word_at (xs ++ ys) (n + i) ≡ word_at ys i
word_at-right xs ys n i size =
    let at = λ (k : ℕ). ap (λ m. byte_of (xs ++ ys) (m + k)) (sym size) ∙ byte_of-right xs ys k in
    let i1 : n + i + 1 ≡ n + (i + 1) = omega arith in
    let i2 : n + i + 2 ≡ n + (i + 2) = omega arith in
    let i3 : n + i + 3 ≡ n + (i + 3) = omega arith in
    rw (i1, i2, i3, at i, at (i + 1), at (i + 2), at (i + 3)) refl

pub word_at-word_bytes : (w : ℕ) (ys : List ℕ) → w < 2 ^ 32 → word_at (word_bytes w ++ ys) 0 ≡ w
word_at-word_bytes w ys h =
    let split : w % 256
          + w / 256 % 256 * 256
          + w / 65536 % 256 * 65536
          + w / 16777216 % 256 * 16777216
        ≡ w =
      omega arith in
    split

take_behind : (xs ys : List ℕ) → take (length xs) (xs ++ ys) ≡ xs
take_behind [] ys = refl
take_behind (x ∷ xs) ys = ap (λ zs. x ∷ zs) (take_behind xs ys)

-- If the fields of an inode on the disk are words of 32 bits and the unused part has 496 bytes,
-- it is read as it was written.
pub inode_disk_of-inode_disk_bytes :
    (d : InodeDisk) → IsWords d → inode_disk_of (inode_disk_bytes d) ≡ d
unfolding inode_disk_bytes inode_disk_of
inode_disk_of-inode_disk_bytes d w =
    let last = word_bytes d.parent_dir_inode ++ word_bytes d.magic in
    let third = d.unused ++ last in
    let second = word_bytes d.length ++ third in
    let start : word_at (word_bytes d.start ++ second) 0 ≡ d.start =
      word_at-word_bytes d.start second w.start in
    let size : word_at (word_bytes d.start ++ second) 4 ≡ d.length =
      word_at-right (word_bytes d.start) second 4 0 refl
      ∙ word_at-word_bytes d.length third w.size in
    let unused : take 496 third ≡ d.unused =
      ap (λ n. take n third) (sym w.unused) ∙ take_behind d.unused last in
    let parent : word_at (word_bytes d.start ++ second) 504 ≡ d.parent_dir_inode =
      word_at-right (word_bytes d.start) second 4 500 refl
      ∙ word_at-right (word_bytes d.length) third 4 496 refl
      ∙ word_at-right d.unused last 496 0 w.unused
      ∙ word_at-word_bytes d.parent_dir_inode (word_bytes d.magic) w.parent in
    let magic : word_at (word_bytes d.start ++ second) 508 ≡ d.magic =
      word_at-right (word_bytes d.start) second 4 504 refl
      ∙ word_at-right (word_bytes d.length) third 4 500 refl
      ∙ word_at-right d.unused last 496 4 w.unused
      ∙ word_at-right (word_bytes d.parent_dir_inode) (word_bytes d.magic) 4 0 refl
      ∙ word_at-word_bytes d.magic [] w.magic in
    ap
      (λ n. record {
        start = n;
        length = word_at (word_bytes d.start ++ second) 4;
        unused = take 496 third;
        parent_dir_inode = word_at (word_bytes d.start ++ second) 504;
        magic = word_at (word_bytes d.start ++ second) 508;
      })
      start
    ∙ ap
        (λ n. record {
          start = d.start;
          length = n;
          unused = take 496 third;
          parent_dir_inode = word_at (word_bytes d.start ++ second) 504;
          magic = word_at (word_bytes d.start ++ second) 508;
        })
        size
    ∙ ap
        (λ n. record {
          start = d.start;
          length = d.length;
          unused = n;
          parent_dir_inode = word_at (word_bytes d.start ++ second) 504;
          magic = word_at (word_bytes d.start ++ second) 508;
        })
        unused
    ∙ ap
        (λ n. record d { parent_dir_inode = n; magic = word_at (word_bytes d.start ++ second) 508 })
        parent
    ∙ ap (λ n. record d { magic = n }) magic
