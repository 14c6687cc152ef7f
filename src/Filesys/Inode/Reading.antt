-- ===== src/Filesys/Inode/Reading.antt =====
-- `inode_read_at` delivers the bytes of the file.
use uni_orion_os.Base.{
  ℕ, zero, suc, ◌+◌, ◌-◌, ◌/◌, ◌%◌, ◌<◌, ◌≡◌, refl, ◌∙◌, sym, ap, inl, inr, true, false, ◌&&◌, some,
  List, [], ◌++◌, ltb, arith,
}
use uni_orion_os.Base.Slices.{tabulate, tabulate-append}
use uni_orion_os.Filesys.Cache.{Cache, cache_read}
use uni_orion_os.Filesys.Cache.Refinement.{IsCoherent, Accessed}
use uni_orion_os.Filesys.Cache.Accesses.{cache_read-Accessed}
use uni_orion_os.Filesys.Inode.{
  Inode, InodeDisk, block_sector_size, byte_to_sector, chunk_size, read_rounds, inode_read_at,
}
use uni_orion_os.Filesys.Inode.Contents.{
  IsFull, file_byte, IsPlaced, moved, Round-cases, slice-file_byte,
}

read_stop :
    (fuel : ℕ) (d : InodeDisk) (size offset : ℕ) (c : Cache)
    → (ltb 0 size && ltb 0 (chunk_size d size offset)) ≡ false
    → read_rounds (suc fuel) d size offset c ≡ some (0, [], c)
unfolding read_rounds
read_stop fuel d size offset c h = rw h refl

read_round :
    (fuel : ℕ) (d : InodeDisk) (size offset : ℕ) (c : Cache) {bytes rest : List ℕ} {more : ℕ}
    {c1 c2 : Cache}
    → (ltb 0 size && ltb 0 (chunk_size d size offset)) ≡ true
    → cache_read c (byte_to_sector d offset) (offset % block_sector_size) (chunk_size d size offset)
      ≡ some (bytes, c1)
    → read_rounds fuel d (size - chunk_size d size offset) (offset + chunk_size d size offset) c1
      ≡ some (more, rest, c2)
    → read_rounds (suc fuel) d size offset c
      ≡ some (chunk_size d size offset + more, bytes ++ rest, c2)
unfolding read_rounds
read_round fuel d size offset c go_on read later = rw (go_on, read, later) refl

read_rounds-file_byte :
    (fuel : ℕ) (d : InodeDisk) (f : ℕ → List ℕ) (size offset : ℕ) (c : Cache)
    → IsFull f
    → IsCoherent c f
    → IsPlaced d c.fs_device.size
    → size < fuel
    → (c' : Cache) × (read_rounds fuel d size offset c
        ≡ some (moved d size offset, tabulate (file_byte f d) offset (moved d size offset), c'))
      × Accessed c c' f
read_rounds-file_byte zero d f size offset c full s p h = absurd (omega arith)
read_rounds-file_byte (suc fuel) d f size offset c full s p h =
    elim (Round-cases d size offset c.fs_device.size p) [
      | inl (stop, nothing) ↦ (
        c,
        read_stop fuel d size offset c stop
            ∙ ap (λ n. some (n, tabulate (file_byte f d) offset n, c)) (sym nothing),
        record { coherent = s; size = refl },
      )
      | inr (go_on, r) ↦
          let chunk = chunk_size d size offset in
          let (c1, read, a) =
            cache_read-Accessed c f (d.start + offset / block_sector_size)
              (offset % block_sector_size) chunk s r.inside in
          let (c2, later, b) =
            read_rounds-file_byte fuel d f (size - chunk) (offset + chunk) c1 full a.coherent
              (rw a.size p) (omega (arith, r.some_bytes, r.no_more)) in
          let rest = moved d (size - chunk) (offset + chunk) in
          let bytes = slice-file_byte f d size offset c.fs_device.size full r in
          (
            c2,
            read_round fuel d size offset c go_on
                  (ap (λ i. cache_read c i (offset % block_sector_size) chunk) r.sector ∙ read)
                  later
                ∙ ap
                    (λ xs.
                      some (chunk + rest, xs ++ tabulate (file_byte f d) (offset + chunk) rest, c2))
                    bytes
                ∙ ap (λ xs. some (chunk + rest, xs, c2))
                    (sym (tabulate-append (file_byte f d) offset chunk rest))
                ∙ ap (λ n. some (n, tabulate (file_byte f d) offset n, c2)) (sym r.rest),
            record { coherent = b.coherent; size = b.size ∙ a.size },
          )
    ]

-- If no thread is inside an access, the cache over its disk shows the sectors `f` of 512 bytes
-- each, and the file lies on the disk, then inode_read_at succeeds, delivers the file's bytes
-- from the offset on, as many as asked for or as there are, and returns their number; the cache
-- shows the same sectors.
pub inode_read_at-file_byte :
    (i : Inode) (f : ℕ → List ℕ) (size offset : ℕ) (c : Cache)
    → IsFull f
    → IsCoherent c f
    → IsPlaced i.content c.fs_device.size
    → (c' : Cache) × (inode_read_at i size offset c
        ≡ some (
          moved i.content size offset,
          tabulate (file_byte f i.content) offset (moved i.content size offset),
          c',
        ))
      × Accessed c c' f
unfolding inode_read_at
inode_read_at-file_byte i f size offset c full s p =
    read_rounds-file_byte (size + 1) i.content f size offset c full s p (omega arith)
