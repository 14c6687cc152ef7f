-- ===== src/Filesys/File/Positions.antt =====
-- Reading a file in two parts, and a write between `file_deny_write` and `file_allow_write`.
use uni_orion_os.Base.{
  ℕ, ◌+◌, ◌-◌, ◌≤◌, ◌<◌, ◌≡◌, refl, ◌∙◌, sym, ap, inl, inr, true, false, Option, some, List, ◌++◌,
  ltb, leb, arith,
}
use uni_orion_os.Base.Panic.{◌>>=◌}
use uni_orion_os.Base.Slices.{tabulate, tabulate-append}
use uni_orion_os.Devices.Block.{update_self, update_ne, update-cases}
use uni_orion_os.Filesys.Cache.{Cache}
use uni_orion_os.Filesys.Cache.Refinement.{IsCoherent, Accessed}
use uni_orion_os.Filesys.Inode.{
  Inode, Inodes, with_inode, with_cache, inode_deny_write, inode_allow_write, inode_read_at,
  inode_write_at,
}
use uni_orion_os.Filesys.Inode.Contents.{IsFull, IsPlaced, file_byte, moved}
use uni_orion_os.Filesys.Inode.Reading.{inode_read_at-file_byte}
use uni_orion_os.Filesys.Inode.Writes.{write_denied}
use uni_orion_os.Filesys.File.{File, file_read, file_deny_write, file_write, file_allow_write}

-- `file_read` twice
unfoldable pub read_twice : Inodes → File → (m n : ℕ) → Option (ℕ × List ℕ × File × Inodes)
read_twice s file m n = do
  (first, front, file, s) ← file_read s file m
  (second, back, file, s) ← file_read s file n
  some (first + second, front ++ back, file, s)

read_step :
    (s : Inodes) (file : File) (size : ℕ) {n : ℕ} {bytes : List ℕ} {c : Cache}
    → inode_read_at (s.inode file.inode) size file.pos s.volume.world ≡ some (n, bytes, c)
    → file_read s file size ≡ some (n, bytes, record file { pos = file.pos + n }, with_cache s c)
unfolding file_read
read_step s file size e = rw e refl

twice_step :
    (s : Inodes) (file : File) (m n : ℕ) {a b : ℕ} {xs ys : List ℕ} {file1 file2 : File}
    {s1 s2 : Inodes}
    → file_read s file m ≡ some (a, xs, file1, s1)
    → file_read s1 file1 n ≡ some (b, ys, file2, s2)
    → read_twice s file m n ≡ some (a + b, xs ++ ys, file2, s2)
unfolding read_twice
twice_step s file m n e h = rw (e, h) refl

-- If no thread is inside an access, the cache over its disk shows sectors of 512 bytes each and
-- the file lies on the disk, then two file_read in a row and one file_read of both sizes
-- succeed, deliver the same bytes and number of bytes, and leave the file at the same position;
-- the sectors stay the same.
pub read_twice-once :
    (s : Inodes) (f : ℕ → List ℕ) (file : File) (m n : ℕ)
    → IsFull f
    → IsCoherent s.volume.world f
    → IsPlaced (s.inode file.inode).content s.volume.world.fs_device.size
    → (count : ℕ) × (bytes : List ℕ) × (file' : File) × (s1 : Inodes) × (s2 : Inodes) × (file_read s
          file
          (m + n)
        ≡ some (count, bytes, file', s1))
      × (read_twice s file m n ≡ some (count, bytes, file', s2))
      × Accessed s.volume.world s1.volume.world f
      × Accessed s.volume.world s2.volume.world f
read_twice-once s f file m n full coherent placed =
    let i = s.inode file.inode in
    let d = i.content in
    let g = file_byte f d in
    let a = moved d m file.pos in
    let b = moved d n (file.pos + a) in
    let (c1, e1, x1) = inode_read_at-file_byte i f m file.pos s.volume.world full coherent placed in
    let (c2, e2, x2) =
      inode_read_at-file_byte i f n (file.pos + a) c1 full x1.coherent (rw x1.size placed) in
    let (c3, e3, x3) =
      inode_read_at-file_byte i f (m + n) file.pos s.volume.world full coherent placed in
    let all : moved d (m + n) file.pos ≡ a + b = omega arith in
    let place : file.pos + a + b ≡ file.pos + (a + b) = omega arith in
    let file1 = record file { pos = file.pos + a } in
    let s1 = with_cache s c1 in
    (
      a + b,
      tabulate g file.pos (a + b),
      record file { pos = file.pos + (a + b) },
      with_cache s c3,
      with_cache s c2,
      read_step s file (m + n) e3
          ∙ ap
              (λ k.
                some
                  (k, tabulate g file.pos k, record file { pos = file.pos + k }, with_cache s c3))
              all,
      twice_step s file m n (read_step s file m e1) (read_step s1 file1 n e2)
          ∙ ap (λ xs. some (a + b, xs, record file { pos = file.pos + a + b }, with_cache s c2))
              (sym (tabulate-append g file.pos a b))
          ∙ ap
              (λ p.
                some (a + b, tabulate g file.pos (a + b), record file { pos = p }, with_cache s c2))
              place,
      x3,
      record { coherent = x2.coherent; size = x2.size ∙ x1.size },
    )

-- a file that denies writes, a write to it, and the end of the denial
unfoldable pub denied_write :
    Inodes → File → (buffer : List ℕ) → (size : ℕ) → Option (ℕ × File × Inodes)
denied_write s file buffer size = do
  (file, s) ← file_deny_write s file
  (n, file, s) ← file_write s file buffer size
  (file, s) ← file_allow_write s file
  some (n, file, s)

abbrev denying : Inodes → ℕ → Inode
denying s a = record (s.inode a) { deny_write_cnt = (s.inode a).deny_write_cnt + 1 }

deny_step :
    (s : Inodes) (file : File)
    → file.deny_write ≡ false
    → (s.inode file.inode).deny_write_cnt < (s.inode file.inode).open_cnt
    → file_deny_write s file
      ≡ some (record file { deny_write = true }, with_inode s file.inode (denying s file.inode))
unfolding file_deny_write inode_deny_write
deny_step s file e h =
    let fits : leb ((s.inode file.inode).deny_write_cnt + 1) (s.inode file.inode).open_cnt ≡ true =
      ground (arith, h) in
    rw (e, fits) refl

write_step :
    (s : Inodes) (file : File) (buffer : List ℕ) (size : ℕ) {n : ℕ} {c : Cache}
    → inode_write_at (s.inode file.inode) buffer size file.pos s.volume.world ≡ some (n, c)
    → file_write s file buffer size ≡ some (n, record file { pos = file.pos + n }, with_cache s c)
unfolding file_write
write_step s file buffer size e = rw e refl

allow_step :
    (s : Inodes) (file : File)
    → file.deny_write ≡ true
    → 0 < (s.inode file.inode).deny_write_cnt
    → (s.inode file.inode).deny_write_cnt ≤ (s.inode file.inode).open_cnt
    → file_allow_write s file
      ≡ some (
        record file { deny_write = false },
        with_inode s file.inode (record (s.inode file.inode) {
          deny_write_cnt = (s.inode file.inode).deny_write_cnt - 1;
        }),
      )
unfolding file_allow_write inode_allow_write
allow_step s file e held h =
    let some_denied : ltb 0 (s.inode file.inode).deny_write_cnt ≡ true = ground (arith, held) in
    let fits : leb (s.inode file.inode).deny_write_cnt (s.inode file.inode).open_cnt ≡ true =
      ground (arith, h) in
    rw (e, some_denied, fits) refl

denied_steps :
    (s : Inodes) (file : File) (buffer : List ℕ) (size : ℕ) {n : ℕ} {file1 file2 file3 : File}
    {s1 s2 s3 : Inodes}
    → file_deny_write s file ≡ some (file1, s1)
    → file_write s1 file1 buffer size ≡ some (n, file2, s2)
    → file_allow_write s2 file2 ≡ some (file3, s3)
    → denied_write s file buffer size ≡ some (n, file3, s3)
unfolding denied_write
denied_steps s file buffer size e h k = rw (e, h, k) refl

-- If the file has not denied writes to its inode and the inode has more openers than denials,
-- then file_deny_write, file_write and file_allow_write do not stop the kernel, the write writes
-- nothing, and the file, the cache, the free map and every inode are afterwards as before.
pub denied_write-nothing :
    (s : Inodes) (file : File) (buffer : List ℕ) (size : ℕ)
    → file.deny_write ≡ false
    → (s.inode file.inode).deny_write_cnt < (s.inode file.inode).open_cnt
    → (s' : Inodes) × (denied_write s file buffer size ≡ some (0, file, s'))
      × ((a : ℕ) → s'.inode a ≡ s.inode a)
      × (s'.open_inodes ≡ s.open_inodes)
      × (s'.volume ≡ s.volume)
denied_write-nothing s file buffer size e h =
    let a = file.inode in
    let i = denying s a in
    let s1 = with_inode s a i in
    let now : s1.inode a ≡ i = update_self s.inode a i in
    let held = ap (λ j. j.deny_write_cnt) now in
    let openers = ap (λ j. j.open_cnt) now in
    let last = record (s1.inode a) { deny_write_cnt = (s1.inode a).deny_write_cnt - 1 } in
    let back : last ≡ s.inode a =
      ap {A = Inode} (λ j. record j { deny_write_cnt = j.deny_write_cnt - 1 }) now
      ∙ ap (λ n. record (s.inode a) { deny_write_cnt = n }) (omega arith) in
    let file1 = record file { deny_write = true } in
    let file2 = record file1 { pos = file.pos + 0 } in
    let finished : record file { pos = file.pos + 0; deny_write = false } ≡ file =
      ap (λ p. record file { pos = p; deny_write = false }) (omega arith)
      ∙ ap (λ b. record file { deny_write = b }) (sym e) in
    (
      with_inode s1 a last,
      denied_steps s file buffer size (deny_step s file e h)
            (write_step s1 file1 buffer size (
              write_denied (s1.inode a) buffer size file.pos s.volume.world (ground (arith, held))))
            (allow_step s1 file2 refl (omega (arith, held)) (omega (arith, held, openers, h)))
          ∙ ap (λ t. some (0, t, with_inode s1 a last)) finished,
      (λ b. elim (update-cases s1.inode a last b) [
        | inl (b_eq, then_now) ↦ then_now ∙ back ∙ ap s.inode (sym b_eq)
        | inr (ne, then_now) ↦ then_now ∙ update_ne s.inode a i b ne
      ]),
      refl,
      refl,
    )
