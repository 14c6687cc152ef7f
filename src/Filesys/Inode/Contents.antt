-- ===== src/Filesys/Inode/Contents.antt =====
-- The bytes of a file, as the sectors of its inode hold them, and the part of them that one round of
-- `inode_read_at` and `inode_write_at` moves.
use uni_orion_os.Base.{
  ℕ, ◌+◌, ◌-◌, ◌/◌, ◌%◌, ◌^◌, ◌≤◌, ◌<◌, ◌≡◌, refl, ◌∙◌, ◌⊎◌, inl, inr, min, true, false, ◌&&◌, List,
  ltb, arith, Bool-cases, length, take, drop,
}
use uni_orion_os.Base.Slices.{byte_of, tabulate, tabulate-same, slice-tabulate}
use uni_orion_os.Filesys.Inode.{
  InodeDisk, block_sector_size, bytes_to_sectors, byte_to_sector, chunk_size,
}

-- every sector has its bytes
abbrev pub IsFull : (ℕ → List ℕ) → Type 0
IsFull f = (s : ℕ) → length (f s) ≡ block_sector_size

-- byte `p` of the file
abbrev pub file_byte : (ℕ → List ℕ) → InodeDisk → ℕ → ℕ
file_byte f d p = byte_of (f (d.start + p / block_sector_size)) (p % block_sector_size)

-- the file lies on a device of `size` sectors
pub record IsPlaced (d : InodeDisk) (size : ℕ) : Type 0 where
  pub fits : d.start + bytes_to_sectors d.length ≤ size
  pub word : size < 2 ^ 32

-- how many bytes there are to move
abbrev pub moved : InodeDisk → (size offset : ℕ) → ℕ
moved d size offset = min size (d.length - offset)

-- one round that moves bytes
pub record Round (d : InodeDisk) (size offset bound : ℕ) : Type 0 where
  pub some_bytes : 0 < chunk_size d size offset
  pub no_more : chunk_size d size offset ≤ size
  pub in_file : offset + chunk_size d size offset ≤ d.length
  pub in_sector : offset % block_sector_size + chunk_size d size offset ≤ block_sector_size
  pub sector : byte_to_sector d offset ≡ d.start + offset / block_sector_size
  pub inside : d.start + offset / block_sector_size < bound
  pub rest :
      moved d size offset
      ≡ chunk_size d size offset
        + moved d (size - chunk_size d size offset) (offset + chunk_size d size offset)

sector_of :
    (d : InodeDisk) (bound offset : ℕ)
    → IsPlaced d bound
    → offset < d.length
    → (byte_to_sector d offset ≡ d.start + offset / block_sector_size)
      × (d.start + offset / block_sector_size < bound)
unfolding byte_to_sector
sector_of d bound offset p h =
    let inside : d.start + offset / block_sector_size < bound = omega (arith, p.fits, h) in
    let fits : (d.start + offset / block_sector_size) % 2 ^ 32
        ≡ d.start + offset / block_sector_size =
      omega (arith, p.word, inside) in
    (ground (arith, h, fits), inside)

-- there is nothing to move, or a round moves bytes
pub Round-cases :
    (d : InodeDisk) (size offset bound : ℕ)
    → IsPlaced d bound
    → (((ltb 0 size && ltb 0 (chunk_size d size offset)) ≡ false) × (moved d size offset ≡ 0))
      ⊎ (((ltb 0 size && ltb 0 (chunk_size d size offset)) ≡ true) × Round d size offset bound)
unfolding chunk_size
Round-cases d size offset bound p =
    elim (Bool-cases (ltb 0 size && ltb 0 (chunk_size d size offset))) [
      | inl go_on ↦
          let (sector, inside) = sector_of d bound offset p (ground (arith, go_on)) in
          inr (
            go_on,
            record {
              some_bytes = ground (arith, go_on);
              no_more = omega arith;
              in_file = ground (arith, go_on);
              in_sector = omega arith;
              sector = sector;
              inside = inside;
              rest = ground (arith, go_on);
            },
          )
      | inr stop ↦ inl (stop, ground (arith, stop))
    ]

-- the bytes of a round, in the sector and in the file
pub slice-file_byte :
    (f : ℕ → List ℕ) (d : InodeDisk) (size offset bound : ℕ)
    → IsFull f
    → Round d size offset bound
    → take
        (chunk_size d size offset)
        (drop (offset % block_sector_size) (f (d.start + offset / block_sector_size)))
      ≡ tabulate (file_byte f d) offset (chunk_size d size offset)
slice-file_byte f d size offset bound full r =
    let sector = f (d.start + offset / block_sector_size) in
    slice-tabulate sector (offset % block_sector_size) (chunk_size d size offset)
      (omega (arith, r.in_sector, full (d.start + offset / block_sector_size)))
    ∙ tabulate-same (byte_of sector) (file_byte f d) (offset % block_sector_size) offset
        (chunk_size d size offset)
        (λ k h.
          let same : (offset + k) / block_sector_size ≡ offset / block_sector_size =
            omega (arith, h, r.in_sector) in
          let at : (offset + k) % block_sector_size ≡ offset % block_sector_size + k =
            omega (arith, h, r.in_sector) in
          rw (same, at) refl)
