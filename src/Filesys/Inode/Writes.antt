-- ===== src/Filesys/Inode/Writes.antt =====
-- All rounds of `inode_write_at`, and reading back what was written.
use uni_orion_os.Base.{
  ℕ, zero, suc, ◌+◌, ◌-◌, ◌/◌, ◌%◌, ◌≤◌, ◌<◌, ◌≡◌, refl, ◌∙◌, sym, ap, inl, inr, true, false, ◌&&◌,
  Option, some, List, ◌==◌, ltb, if◌then◌else◌, arith, Bool-cases, length, take, drop,
}
use uni_orion_os.Base.Panic.{◌>>=◌}
use uni_orion_os.Base.Slices.{byte_of, length-drop, tabulate, tabulate-same, slice-tabulate}
use uni_orion_os.Filesys.Cache.{Cache, cache_write}
use uni_orion_os.Filesys.Cache.Refinement.{IsCoherent, Accessed}
use uni_orion_os.Filesys.Cache.Accesses.{cache_write-Accessed}
use uni_orion_os.Filesys.Inode.{
  Inode, InodeDisk, block_sector_size, byte_to_sector, chunk_size, write_rounds, inode_write_at,
  inode_read_at,
}
use uni_orion_os.Filesys.Inode.Contents.{IsFull, file_byte, IsPlaced, moved, Round-cases}
use uni_orion_os.Filesys.Inode.Writing.{
  Written, Written-refl, Written-trans, Written-round, after_round,
}
use uni_orion_os.Filesys.Inode.Reading.{inode_read_at-file_byte}

write_stop :
    (fuel : ℕ) (d : InodeDisk) (buffer : List ℕ) (size offset : ℕ) (c : Cache)
    → (ltb 0 size && ltb 0 (chunk_size d size offset)) ≡ false
    → write_rounds (suc fuel) d buffer size offset c ≡ some (0, c)
unfolding write_rounds
write_stop fuel d buffer size offset c h = rw h refl

write_round :
    (fuel : ℕ) (d : InodeDisk) (buffer : List ℕ) (size offset : ℕ) (c : Cache) {more : ℕ}
    {c1 c2 : Cache}
    → (ltb 0 size && ltb 0 (chunk_size d size offset)) ≡ true
    → cache_write c
        (byte_to_sector d offset)
        buffer
        (offset % block_sector_size)
        (chunk_size d size offset)
      ≡ some c1
    → write_rounds fuel d
        (drop (chunk_size d size offset) buffer)
        (size - chunk_size d size offset)
        (offset + chunk_size d size offset)
        c1
      ≡ some (more, c2)
    → write_rounds (suc fuel) d buffer size offset c ≡ some (chunk_size d size offset + more, c2)
unfolding write_rounds
write_round fuel d buffer size offset c go_on write later = rw (go_on, write, later) refl

write_rounds-Written :
    (fuel : ℕ) (d : InodeDisk) (f : ℕ → List ℕ) (buffer : List ℕ) (size offset : ℕ) (c : Cache)
    → IsFull f
    → IsCoherent c f
    → IsPlaced d c.fs_device.size
    → size ≤ length buffer
    → size < fuel
    → (c' : Cache) × (f' : ℕ → List ℕ) × (write_rounds fuel d buffer size offset c
        ≡ some (moved d size offset, c'))
      × Accessed c c' f'
      × Written f f' d buffer offset (moved d size offset)
write_rounds-Written zero d f buffer size offset c full s p given h = absurd (omega arith)
write_rounds-Written (suc fuel) d f buffer size offset c full s p given h =
    elim (Round-cases d size offset c.fs_device.size p) [
      | inl (stop, nothing) ↦ (
        c,
        f,
        write_stop fuel d buffer size offset c stop ∙ ap (λ n. some (n, c)) (sym nothing),
        record { coherent = s; size = refl },
        rw nothing (Written-refl f d buffer offset full),
      )
      | inr (go_on, r) ↦
          let chunk = chunk_size d size offset in
          let at = offset % block_sector_size in
          let (c1, write, a) =
            cache_write-Accessed c f (d.start + offset / block_sector_size) buffer at chunk s
              r.inside in
          let f1 = after_round f d buffer size offset c.fs_device.size full r given in
          let w = Written-round f d buffer size offset c.fs_device.size full r given in
          let (c2, f2, later, b, v) =
            write_rounds-Written fuel d f1 (drop chunk buffer) (size - chunk) (offset + chunk) c1
              w.full a.coherent (rw a.size p) (omega (arith, length-drop buffer chunk, given))
              (omega (arith, r.some_bytes, r.no_more)) in
          let rest = moved d (size - chunk) (offset + chunk) in
          (
            c2,
            f2,
            write_round fuel d buffer size offset c go_on
                  (ap (λ i. cache_write c i buffer at chunk) r.sector ∙ write) later
                ∙ ap (λ n. some (n, c2)) (sym r.rest),
            record { coherent = b.coherent; size = b.size ∙ a.size },
            rw r.rest (Written-trans f f1 f2 d buffer offset chunk rest w v),
          )
    ]

pub write_denied :
    (i : Inode) (buffer : List ℕ) (size offset : ℕ) (c : Cache)
    → (i.deny_write_cnt == 0) ≡ false
    → inode_write_at i buffer size offset c ≡ some (0, c)
unfolding inode_write_at
write_denied i buffer size offset c h = rw h refl

write_allowed :
    (i : Inode) (buffer : List ℕ) (size offset : ℕ) (c : Cache)
    → (i.deny_write_cnt == 0) ≡ true
    → inode_write_at i buffer size offset c ≡ write_rounds (size + 1) i.content buffer size offset c
unfolding inode_write_at
write_allowed i buffer size offset c h = rw h refl

-- what `inode_write_at` writes
abbrev pub written : Inode → (size offset : ℕ) → ℕ
written i size offset = if i.deny_write_cnt == 0 then moved i.content size offset else 0

-- If no thread is inside an access, the cache over its disk shows the sectors `f` of 512 bytes
-- each, the file lies on the disk and the buffer has the bytes to write, then inode_write_at
-- succeeds and returns how many bytes it wrote, which are none if writes are denied, and else as
-- many as asked for or as there are up to the end of the file; the cache then shows sectors in
-- which the file has the buffer's bytes from the offset on, and its other bytes, and the sectors
-- outside the file, are as before.
pub inode_write_at-Written :
    (i : Inode) (f : ℕ → List ℕ) (buffer : List ℕ) (size offset : ℕ) (c : Cache)
    → IsFull f
    → IsCoherent c f
    → IsPlaced i.content c.fs_device.size
    → size ≤ length buffer
    → (c' : Cache) × (f' : ℕ → List ℕ) × (inode_write_at i buffer size offset c
        ≡ some (written i size offset, c'))
      × Accessed c c' f'
      × Written f f' i.content buffer offset (written i size offset)
inode_write_at-Written i f buffer size offset c full s p given =
    elim (Bool-cases (i.deny_write_cnt == 0)) [
      | inl allowed ↦
          let (c', f', run, a, w) =
            write_rounds-Written (size + 1) i.content f buffer size offset c full s p given
              (omega arith) in
          let count : written i size offset ≡ moved i.content size offset = rw allowed refl in
          (
            c',
            f',
            write_allowed i buffer size offset c allowed ∙ run ∙ ap (λ n. some (n, c')) (sym count),
            a,
            rw count w,
          )
      | inr denied ↦
          let count : written i size offset ≡ 0 = rw denied refl in
          (
            c,
            f,
            write_denied i buffer size offset c denied ∙ ap (λ n. some (n, c)) (sym count),
            record { coherent = s; size = refl },
            rw count (Written-refl f i.content buffer offset full),
          )
    ]

-- a write, and a read of the same bytes
unfoldable pub write_then_read :
    Inode → (buffer : List ℕ) → (size offset : ℕ) → Cache → Option (ℕ × ℕ × List ℕ × Cache)
write_then_read i buffer size offset c = do
  (n, c) ← inode_write_at i buffer size offset c
  (m, bytes, c) ← inode_read_at i size offset c
  some (n, m, bytes, c)

both :
    (i : Inode) (buffer : List ℕ) (size offset : ℕ) (c : Cache) {n m : ℕ} {bytes : List ℕ}
    {c1 c2 : Cache}
    → inode_write_at i buffer size offset c ≡ some (n, c1)
    → inode_read_at i size offset c1 ≡ some (m, bytes, c2)
    → write_then_read i buffer size offset c ≡ some (n, m, bytes, c2)
unfolding write_then_read
both i buffer size offset c write read = rw (write, read) refl

-- If no thread is inside an access, the cache over its disk shows sectors of 512 bytes each, the
-- file lies on the disk, writes are not denied, the bytes to write end inside the file and the
-- buffer has them, then inode_write_at and an inode_read_at of the same bytes succeed, both
-- return the size, and the bytes read are those of the buffer.
pub inode_read_at-inode_write_at :
    (i : Inode) (f : ℕ → List ℕ) (buffer : List ℕ) (size offset : ℕ) (c : Cache)
    → IsFull f
    → IsCoherent c f
    → IsPlaced i.content c.fs_device.size
    → size ≤ length buffer
    → i.deny_write_cnt ≡ 0
    → offset + size ≤ i.content.length
    → (c' : Cache) × (write_then_read i buffer size offset c
        ≡ some (size, size, take size buffer, c'))
inode_read_at-inode_write_at i f buffer size offset c full s p given allowed fits =
    let (c1, f1, write, a, w) = inode_write_at-Written i f buffer size offset c full s p given in
    let (c2, read, b) =
      inode_read_at-file_byte i f1 size offset c1 w.full a.coherent (rw a.size p) in
    let all : moved i.content size offset ≡ size = omega (arith, fits) in
    let count : written i size offset ≡ size = ground (arith, allowed, all) in
    let bytes : tabulate (file_byte f1 i.content) offset size ≡ take size buffer =
      tabulate-same (file_byte f1 i.content) (byte_of buffer) offset 0 size
        (λ k h. w.new k (omega (arith, count, h)) ∙ ap (byte_of buffer) (omega arith))
      ∙ sym (slice-tabulate buffer 0 size (omega (arith, given))) in
    (
      c2,
      both i buffer size offset c write read
          ∙ ap
              (λ n. some (
                n,
                moved i.content size offset,
                tabulate (file_byte f1 i.content) offset (moved i.content size offset),
                c2,
              ))
              count
          ∙ ap (λ n. some (size, n, tabulate (file_byte f1 i.content) offset n, c2)) all
          ∙ ap (λ xs. some (size, size, xs, c2)) bytes,
    )
