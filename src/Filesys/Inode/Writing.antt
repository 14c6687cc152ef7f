-- ===== src/Filesys/Inode/Writing.antt =====
-- `inode_write_at` changes the bytes of the file that it writes, and no other.
use uni_orion_os.Base.{
  ℕ, ◌+◌, ◌-◌, ◌/◌, ◌%◌, ◌≤◌, ◌<◌, ◌≡◌, ◌≢◌, refl, ◌∙◌, sym, ap, ◌⊎◌, inl, inr, List, ◌==◌, ltb,
  arith, Bool-cases, length, drop,
}
use uni_orion_os.Base.Slices.{byte_of, byte_of-drop}
use uni_orion_os.Devices.Block.{update, update_self, update_ne, update-cases}
use uni_orion_os.Filesys.Cache.{copy_into}
use uni_orion_os.Filesys.Inode.{InodeDisk, block_sector_size, bytes_to_sectors, chunk_size}
use uni_orion_os.Filesys.Inode.Contents.{IsFull, file_byte, Round}
use uni_orion_os.Filesys.Inode.Copies.{
  length-copy_into, copy_into-before, copy_into-new, copy_into-after,
}

-- The sectors `f'` are `f` with `n` bytes of the buffer in the file from `offset` on.
pub record Written (f f' : ℕ → List ℕ) (d : InodeDisk) (buffer : List ℕ) (offset n : ℕ)
    : Type 0 where
  pub full : IsFull f'
  pub new : (k : ℕ) → k < n → file_byte f' d (offset + k) ≡ byte_of buffer k
  pub before : (p : ℕ) → p < offset → file_byte f' d p ≡ file_byte f d p
  pub after : (p : ℕ) → offset + n ≤ p → file_byte f' d p ≡ file_byte f d p
  pub below : (s : ℕ) → s < d.start → f' s ≡ f s
  pub above : (s : ℕ) → d.start + bytes_to_sectors d.length ≤ s → f' s ≡ f s

pub Written-refl :
    (f : ℕ → List ℕ) (d : InodeDisk) (buffer : List ℕ) (offset : ℕ)
    → IsFull f
    → Written f f d buffer offset 0
Written-refl f d buffer offset full = record {
  full = full;
  new = λ k h. absurd (omega arith);
  before = λ p h. refl;
  after = λ p h. refl;
  below = λ s h. refl;
  above = λ s h. refl;
}

pub Written-trans :
    (f f1 f2 : ℕ → List ℕ) (d : InodeDisk) (buffer : List ℕ) (offset m n : ℕ)
    → Written f f1 d buffer offset m
    → Written f1 f2 d (drop m buffer) (offset + m) n
    → Written f f2 d buffer offset (m + n)
Written-trans f f1 f2 d buffer offset m n w v = record {
  full = v.full;
  new = new;
  before = λ p h. v.before p (omega arith) ∙ w.before p h;
  after = λ p h. v.after p (omega arith) ∙ w.after p (omega arith);
  below = λ s h. v.below s h ∙ w.below s h;
  above = λ s h. v.above s h ∙ w.above s h;
}
  where
    new : (k : ℕ) → k < m + n → file_byte f2 d (offset + k) ≡ byte_of buffer k
    new k h = elim (Bool-cases (ltb k m)) [
      | inl early ↦ v.before (offset + k) (ground (arith, early)) ∙ w.new k (ground (arith, early))
      | inr late ↦
          let place : offset + k ≡ offset + m + (k - m) = ground (arith, late) in
          let back : m + (k - m) ≡ k = ground (arith, late) in
          ap (file_byte f2 d) place
          ∙ v.new (k - m) (ground (arith, late, h))
          ∙ byte_of-drop buffer m (k - m)
          ∙ ap (byte_of buffer) back
    ]

-- one round
module _ (f : ℕ → List ℕ) (d : InodeDisk) (buffer : List ℕ) (size offset bound : ℕ)
    (full : IsFull f) (r : Round d size offset bound) (given : size ≤ length buffer) where
  abbrev sector : ℕ
  sector = d.start + offset / block_sector_size

  abbrev chunk : ℕ
  chunk = chunk_size d size offset

  abbrev at : ℕ
  at = offset % block_sector_size

  abbrev pub after_round : ℕ → List ℕ
  after_round = update f sector (copy_into (f sector) at buffer chunk)

  in_sector : at + chunk ≤ length (f sector)
  in_sector = omega (arith, r.in_sector, full sector)

  in_buffer : chunk ≤ length buffer
  in_buffer = omega (arith, r.no_more, given)

  IsFull-round : IsFull after_round
  IsFull-round s = elim (update-cases f sector (copy_into (f sector) at buffer chunk) s) [
    | inl (s_eq, now) ↦
        ap length now
        ∙ length-copy_into (f sector) at buffer chunk in_sector in_buffer
        ∙ full sector
    | inr (ne, now) ↦ ap length now ∙ full s
  ]

  -- a byte of the file in the sector, and in another one
  here :
      (p : ℕ)
      → p / block_sector_size ≡ offset / block_sector_size
      → file_byte after_round d p
        ≡ byte_of (copy_into (f sector) at buffer chunk) (p % block_sector_size)
  here p same =
      ap (λ q. byte_of (after_round (d.start + q)) (p % block_sector_size)) same
      ∙ ap (λ bytes. byte_of bytes (p % block_sector_size))
          (update_self f sector (copy_into (f sector) at buffer chunk))

  elsewhere :
      (p : ℕ)
      → p / block_sector_size ≢ offset / block_sector_size
      → file_byte after_round d p ≡ file_byte f d p
  elsewhere p ne =
      ap (λ bytes. byte_of bytes (p % block_sector_size))
        (update_ne f sector (copy_into (f sector) at buffer chunk) (d.start + p / block_sector_size)
          (λ e. ne (omega (arith, e))))

  kept : (p : ℕ) → (p < offset) ⊎ (offset + chunk ≤ p) → file_byte after_round d p ≡ file_byte f d p
  kept p side = elim (Bool-cases (p / block_sector_size == offset / block_sector_size)) [
    | inr ne ↦ elsewhere p (λ e. ground (arith, e, ne))
    | inl eq ↦
        let same : p / block_sector_size ≡ offset / block_sector_size = ground (arith, eq) in
        here p same
        ∙ sides p same side
        ∙ ap (λ q. byte_of (f (d.start + q)) (p % block_sector_size)) (sym same)
  ]
    where
      sides :
          (p : ℕ)
          → p / block_sector_size ≡ offset / block_sector_size
          → (p < offset) ⊎ (offset + chunk ≤ p)
          → byte_of (copy_into (f sector) at buffer chunk) (p % block_sector_size)
            ≡ byte_of (f sector) (p % block_sector_size)
      sides p same (inl less) =
          copy_into-before (f sector) at buffer chunk in_sector in_buffer (p % block_sector_size)
            (omega (arith, same, less))
      sides p same (inr more) =
          copy_into-after (f sector) at buffer chunk in_sector in_buffer (p % block_sector_size)
            (omega (arith, same, more, r.in_sector))

  new-round : (k : ℕ) → k < chunk → file_byte after_round d (offset + k) ≡ byte_of buffer k
  new-round k h =
      let same : (offset + k) / block_sector_size ≡ offset / block_sector_size =
        omega (arith, h, r.in_sector) in
      let place : (offset + k) % block_sector_size ≡ at + k = omega (arith, h, r.in_sector) in
      here (offset + k) same
      ∙ ap (byte_of (copy_into (f sector) at buffer chunk)) place
      ∙ copy_into-new (f sector) at buffer chunk in_sector in_buffer k h

  pub Written-round : Written f after_round d buffer offset chunk
  Written-round =
      let last : d.start + offset / block_sector_size < d.start + bytes_to_sectors d.length =
        omega (arith, r.in_file, r.some_bytes) in
      record {
        full = IsFull-round;
        new = new-round;
        before = λ p h. kept p (inl h);
        after = λ p h. kept p (inr h);
        below = λ s h.
            update_ne f sector (copy_into (f sector) at buffer chunk) s (λ e. omega (arith, e, h));
        above = λ s h.
            update_ne f sector (copy_into (f sector) at buffer chunk) s
              (λ e. omega (arith, e, h, last));
      }
