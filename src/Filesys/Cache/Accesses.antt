-- ===== src/Filesys/Cache/Accesses.antt =====
-- In one thread, reads and writes through the cache are reads and writes of an array of sectors.
use uni_orion_os.Base.{
  ℕ, ◌<◌, ◌≡◌, refl, ◌∙◌, ap, inl, inr, true, false, some, List, arith, Bool-cases, take, drop,
}
use uni_orion_os.Devices.Block.{update, update_self}
use uni_orion_os.Filesys.Cache.{
  Cache, Supl, copy_into, cache_read, cache_write, cache_atomic_get_supl_data_and_pin,
  cache_atomic_set_supl_data_and_unpin,
}
use uni_orion_os.Filesys.Cache.Eviction.{Ready, get-Ready}
use uni_orion_os.Filesys.Cache.Pins.{
  pinned_at, with_pin, unpinned_at, read-hit, write-hit, set-ok, pin_count,
}
use uni_orion_os.Filesys.Cache.Refinement.{
  IsCoherent, Accessed, update-same, update-twice, disk_has, Left-Accessed,
}
use uni_orion_os.Filesys.Cache.Steps.{
  miss_info, with_sector, read_in, read-miss, written_in, write-miss, read_steps, write_steps,
}

module _ (c : Cache) (f : ℕ → List ℕ) (index i : ℕ) (c1 : Cache) (ready : Ready c f index i c1)
    (here : index < c.fs_device.size)
    (got : cache_atomic_get_supl_data_and_pin c index
      ≡ some (pinned_at c1 i, i, with_pin c1 i)) where
  unpin :
      (c2 : Cache) (info : Supl)
      → c2.cache_aux ≡ (with_pin c1 i).cache_aux
      → cache_atomic_set_supl_data_and_unpin c2 i info ≡ some (unpinned_at c2 i info)
  unpin c2 info same =
      set-ok c2 i info ready.slot.inside
        (omega (arith, ap (λ aux. (aux i).pinned) same, pin_count c1 i))

  module _ (present : (c1.cache_aux i).present ≡ true) where
    bytes_at : c1.cache (c1.cache_aux i).sector_index_in_cache ≡ f index
    bytes_at =
        ap c1.cache (ready.shows.own i ready.slot.inside present)
        ∙ ready.shows.cached i ready.slot.inside present
        ∙ ap f (ready.slot.mine present)

    read_hit :
        (offset size : ℕ)
        → (c' : Cache) × (cache_read c index offset size
            ≡ some (take size (drop offset (f index)), c'))
          × Accessed c c' f
    read_hit offset size =
        let info = record (pinned_at c1 i) { accessed = true } in
        let c' = unpinned_at (with_pin c1 i) i info in
        (
          c',
          read_steps c index offset size got
                (read-hit (with_pin c1 i) (pinned_at c1 i) i index offset size present)
                (unpin (with_pin c1 i) info refl)
              ∙ ap (λ b. some (take size (drop offset b), c')) bytes_at,
          Left-Accessed c f index i c1 ready here c' info (f index) (c1.cache_aux i).dirty f
              (record {
                present = present;
                dirt = refl;
                at = ready.shows.own i ready.slot.inside present;
                sector = ready.slot.mine present;
              })
              refl (λ clean. disk_has c f index i c1 ready here (λ p. ground (arith, clean, p.1)))
              (record {
                aux = λ k. refl;
                cache = λ k.
                    update-same c1.cache i k
                    ∙ ap (λ b. update c1.cache i b k)
                        (ready.shows.cached i ready.slot.inside present
                          ∙ ap f (ready.slot.mine present));
                sectors = λ k. refl;
                size = refl;
                kind = refl;
                cursor = refl;
                lock = refl;
              })
              (update-same f index),
        )

    write_hit :
        (buffer : List ℕ) (offset size : ℕ)
        → (c' : Cache) × (cache_write c index buffer offset size ≡ some c')
          × Accessed c c' (update f index (copy_into (f index) offset buffer size))
    write_hit buffer offset size =
        let info = record (pinned_at c1 i) { dirty = true; accessed = true } in
        let at = (c1.cache_aux i).sector_index_in_cache in
        let v = copy_into (f index) offset buffer size in
        let c2 = record (with_pin c1 i) {
          cache = update c1.cache at (copy_into (c1.cache at) offset buffer size);
        } in
        let c' = unpinned_at c2 i info in
        (
          c',
          write_steps c index buffer offset size got
              (write-hit (with_pin c1 i) (pinned_at c1 i) i index buffer offset size present)
              (unpin c2 info refl),
          Left-Accessed c f index i c1 ready here c' info v true (update f index v)
              (record {
                present = present;
                dirt = refl;
                at = ready.shows.own i ready.slot.inside present;
                sector = ready.slot.mine present;
              })
              refl (λ clean. absurd (ground (arith, clean)))
              (record {
                aux = λ k. refl;
                cache = λ k.
                    ap (λ b. update c1.cache at (copy_into b offset buffer size) k) bytes_at
                    ∙ ap (λ a. update c1.cache a v k) (ready.shows.own i ready.slot.inside present);
                sectors = λ k. refl;
                size = refl;
                kind = refl;
                cursor = refl;
                lock = refl;
              })
              (λ s. refl),
        )

  module _ (away : (c1.cache_aux i).present ≡ false) where
    on_disk_now : c1.fs_device.sectors index ≡ f index
    on_disk_now = disk_has c f index i c1 ready here (λ p. ground (arith, away, p.0))

    inside_now : index < c1.fs_device.size
    inside_now = omega (arith, ready.size, here)

    -- the sector that was read into the entry
    arrived : (with_sector (with_pin c1 i) i index).cache i ≡ f index
    arrived = update_self c1.cache i (c1.fs_device.sectors index) ∙ on_disk_now

    read_miss :
        (offset size : ℕ)
        → (c' : Cache) × (cache_read c index offset size
            ≡ some (take size (drop offset (f index)), c'))
          × Accessed c c' f
    read_miss offset size =
        let info = miss_info (pinned_at c1 i) i index false in
        let c2 = read_in (with_pin c1 i) i index in
        let c' = unpinned_at c2 i info in
        (
          c',
          read_steps c index offset size got
                (read-miss (with_pin c1 i) (pinned_at c1 i) i index offset size away inside_now
                  ready.quiet.lock)
                (unpin c2 info refl)
              ∙ ap (λ b. some (take size (drop offset b), c')) arrived,
          Left-Accessed c f index i c1 ready here c' info (f index) false f
              (record { present = refl; dirt = refl; at = refl; sector = refl }) refl
              (λ clean. on_disk_now)
              (record {
                aux = λ k. refl;
                cache = λ k. ap (λ b. update c1.cache i b k) on_disk_now;
                sectors = λ k. refl;
                size = refl;
                kind = refl;
                cursor = refl;
                lock = refl;
              })
              (update-same f index),
        )

    write_miss :
        (buffer : List ℕ) (offset size : ℕ)
        → (c' : Cache) × (cache_write c index buffer offset size ≡ some c')
          × Accessed c c' (update f index (copy_into (f index) offset buffer size))
    write_miss buffer offset size =
        let info = miss_info (pinned_at c1 i) i index true in
        let v = copy_into (f index) offset buffer size in
        let c2 = written_in (with_pin c1 i) i index buffer offset size in
        let c' = unpinned_at c2 i info in
        let read = c1.fs_device.sectors index in
        (
          c',
          write_steps c index buffer offset size got
              (write-miss (with_pin c1 i) (pinned_at c1 i) i index buffer offset size away
                inside_now)
              (unpin c2 info refl),
          Left-Accessed c f index i c1 ready here c' info v true (update f index v)
              (record { present = refl; dirt = refl; at = refl; sector = refl }) refl
              (λ clean. absurd (ground (arith, clean)))
              (record {
                aux = λ k. refl;
                cache = λ k.
                    update-twice c1.cache i read
                      (copy_into (update c1.cache i read i) offset buffer size) k
                    ∙ ap (λ b. update c1.cache i (copy_into b offset buffer size) k) arrived;
                sectors = λ k. refl;
                size = refl;
                kind = refl;
                cursor = refl;
                lock = refl;
              })
              (λ s. refl),
        )

-- If no thread is inside an access and the cache over its disk shows the sectors `f`, cache_read
-- of a sector of the disk succeeds, delivers the bytes of `f`, and leaves a cache that no thread is
-- inside of and that shows `f`.
pub cache_read-Accessed :
    (c : Cache) (f : ℕ → List ℕ) (index offset size : ℕ)
    → IsCoherent c f
    → index < c.fs_device.size
    → (c' : Cache) × (cache_read c index offset size ≡ some (take size (drop offset (f index)), c'))
      × Accessed c c' f
cache_read-Accessed c f index offset size s here =
    let (i, c1, got, ready) = get-Ready c f index s.shows s.quiet in
    elim (Bool-cases (c1.cache_aux i).present) [
      | inl present ↦ read_hit c f index i c1 ready here got present offset size
      | inr away ↦ read_miss c f index i c1 ready here got away offset size
    ]

-- If no thread is inside an access and the cache over its disk shows the sectors `f`, cache_write
-- to a sector of the disk succeeds and leaves a cache that no thread is inside of and that shows
-- `f` with the bytes copied into that sector.
pub cache_write-Accessed :
    (c : Cache) (f : ℕ → List ℕ) (index : ℕ) (buffer : List ℕ) (offset size : ℕ)
    → IsCoherent c f
    → index < c.fs_device.size
    → (c' : Cache) × (cache_write c index buffer offset size ≡ some c')
      × Accessed c c' (update f index (copy_into (f index) offset buffer size))
cache_write-Accessed c f index buffer offset size s here =
    let (i, c1, got, ready) = get-Ready c f index s.shows s.quiet in
    elim (Bool-cases (c1.cache_aux i).present) [
      | inl present ↦ write_hit c f index i c1 ready here got present buffer offset size
      | inr away ↦ write_miss c f index i c1 ready here got away buffer offset size
    ]
