-- ===== src/Filesys/Cache/History.antt =====
-- From `cache_init` to `cache_dump_all`: the accesses of one thread, against an array of sectors.
use uni_orion_os.Base.{
  ℕ, ◌+◌, ◌≤◌, ◌<◌, ◌≡◌, ◌∙◌, length, refl, ap, true, false, Option, some, List, [], ◌∷◌, ltb,
  if◌then◌else◌, arith, take, drop,
}
use uni_orion_os.Base.Panic.{◌>>=◌}
use uni_orion_os.Devices.Block.{is_foreign, update, update-at}
use uni_orion_os.Filesys.Cache.{
  Cache, cache_size_in_sectors, copy_into, empty_supl, cache_init, cache_read, cache_write,
  cache_dump_all,
}
use uni_orion_os.Filesys.Inode.Copies.{length-copy_into}
use uni_orion_os.Filesys.Cache.WriteBack.{cache_dump_all-Shows}
use uni_orion_os.Filesys.Cache.Refinement.{IsCoherent}
use uni_orion_os.Filesys.Cache.Accesses.{cache_read-Accessed, cache_write-Accessed}

-- an access, as a caller asks for it
pub data Access : Type 0 where
  reads : (index offset size : ℕ) → Access
  writes : (index : ℕ) → (buffer : List ℕ) → (offset size : ℕ) → Access

-- the accesses one after the other, and the bytes that the reads deliver
unfoldable pub accesses : List Access → Cache → Option (List (List ℕ) × Cache)
accesses [] c = some ([], c)
accesses (reads index offset size ∷ rest) c = do
  (bytes, c) ← cache_read c index offset size
  (delivered, c) ← accesses rest c
  some (bytes ∷ delivered, c)
accesses (writes index buffer offset size ∷ rest) c = do
  c ← cache_write c index buffer offset size
  accesses rest c

-- what the reads deliver, and what the sectors are, without a cache
unfoldable pub delivered_by : List Access → (ℕ → List ℕ) → List (List ℕ)
delivered_by [] f = []
delivered_by (reads index offset size ∷ rest) f =
    take size (drop offset (f index)) ∷ delivered_by rest f
delivered_by (writes index buffer offset size ∷ rest) f =
    delivered_by rest (update f index (copy_into (f index) offset buffer size))

unfoldable pub sectors_after : List Access → (ℕ → List ℕ) → ℕ → List ℕ
sectors_after [] f = f
sectors_after (reads index offset size ∷ rest) f = sectors_after rest f
sectors_after (writes index buffer offset size ∷ rest) f =
    sectors_after rest (update f index (copy_into (f index) offset buffer size))

-- BLOCK_SECTOR_SIZE
abbrev pub sector_size : ℕ
sector_size = 512

-- The accesses are to sectors of the disk and stay inside a sector, and the buffers have the bytes
-- that are written.
unfoldable pub AllInside : List Access → ℕ → Type 0
AllInside [] bound = Unit
AllInside (reads index offset size ∷ rest) bound =
    (index < bound) × (offset + size ≤ sector_size) × AllInside rest bound
AllInside (writes index buffer offset size ∷ rest) bound =
    (index < bound) × (offset + size ≤ sector_size) × (size ≤ length buffer) × AllInside rest bound

-- every sector has its 512 bytes
abbrev pub IsDisk : (ℕ → List ℕ) → Type 0
IsDisk f = (s : ℕ) → length (f s) ≡ sector_size

written-IsDisk :
    (f : ℕ → List ℕ) (index : ℕ) (buffer : List ℕ) (offset size : ℕ)
    → IsDisk f
    → offset + size ≤ sector_size
    → size ≤ length buffer
    → IsDisk (update f index (copy_into (f index) offset buffer size))
written-IsDisk f index buffer offset size disk fits given s =
    update-at (λ b. length b ≡ sector_size) f index (copy_into (f index) offset buffer size) s
      (λ e.
        length-copy_into (f index) offset buffer size (omega (arith, disk index, fits)) given
        ∙ disk index)
      (disk s)

sectors_after-IsDisk :
    (history : List Access) (f : ℕ → List ℕ) (bound : ℕ)
    → AllInside history bound
    → IsDisk f
    → IsDisk (sectors_after history f)
unfolding AllInside sectors_after
sectors_after-IsDisk [] f bound h disk = disk
sectors_after-IsDisk (reads index offset size ∷ rest) f bound h disk =
    sectors_after-IsDisk rest f bound h.2 disk
sectors_after-IsDisk (writes index buffer offset size ∷ rest) f bound h disk =
    sectors_after-IsDisk rest (update f index (copy_into (f index) offset buffer size)) bound h.3
      (written-IsDisk f index buffer offset size disk h.1 h.2)

-- After cache_init on a device whose type is not foreign, no thread is inside an access, and the
-- cache over its disk shows the sectors of the disk.
pub cache_init-IsCoherent :
    (c : Cache)
    → is_foreign c.fs_device.kind ≡ false
    → IsCoherent (cache_init c) c.fs_device.sectors
unfolding cache_init
cache_init-IsCoherent c own = record {
  shows = record {
    device = own;
    cached = λ i h p. absurd (clash i h p);
    stored = λ s h. refl;
    own = λ i h p. absurd (clash i h p);
    on_disk = λ i h p. absurd (clash i h p);
    used = λ i h p. absurd (ground (arith, p, ap (λ e. e.dirty) (at i h)));
    first = λ i j l h e. ap (λ e. e.present) (at j h);
  };
  quiet = record {
    unpinned = λ i h. ap (λ e. e.pinned) (at i h);
    cursor = omega arith;
    lock = refl;
  };
}
  where
    at :
        (i : ℕ)
        → i < cache_size_in_sectors
        → (if ltb i cache_size_in_sectors then empty_supl else c.cache_aux i) ≡ empty_supl
    at i h = let inside : ltb i cache_size_in_sectors ≡ true = ground (arith, h) in rw inside refl

    clash :
        (i : ℕ)
        → i < cache_size_in_sectors
        → (if ltb i cache_size_in_sectors then empty_supl else c.cache_aux i).present ≡ true
        → ⊥
    clash i h p = ground (arith, p, ap (λ e. e.present) (at i h))

read_first :
    (rest : List Access) (c : Cache) (index offset size : ℕ) {bytes : List ℕ}
    {delivered : List (List ℕ)} {c1 c2 : Cache}
    → cache_read c index offset size ≡ some (bytes, c1)
    → accesses rest c1 ≡ some (delivered, c2)
    → accesses (reads index offset size ∷ rest) c ≡ some (bytes ∷ delivered, c2)
unfolding accesses
read_first rest c index offset size e then_rest = rw (e, then_rest) refl

write_first :
    (rest : List Access) (c : Cache) (index : ℕ) (buffer : List ℕ) (offset size : ℕ)
    {delivered : List (List ℕ)} {c1 c2 : Cache}
    → cache_write c index buffer offset size ≡ some c1
    → accesses rest c1 ≡ some (delivered, c2)
    → accesses (writes index buffer offset size ∷ rest) c ≡ some (delivered, c2)
unfolding accesses
write_first rest c index buffer offset size e then_rest = rw (e, then_rest) refl

-- If no thread is inside an access and the cache over its disk shows the sectors `f`, every list
-- of reads and writes inside sectors of the disk succeeds; the reads deliver what they deliver on
-- `f` without a cache, and in the end the cache shows the sectors that the writes make of `f`.
pub accesses-delivered_by :
    (history : List Access) (c : Cache) (f : ℕ → List ℕ)
    → IsCoherent c f
    → AllInside history c.fs_device.size
    → (c' : Cache) × (accesses history c ≡ some (delivered_by history f, c'))
      × IsCoherent c' (sectors_after history f)
unfolding accesses delivered_by sectors_after AllInside
accesses-delivered_by [] c f s h = (c, refl, s)
accesses-delivered_by (reads index offset size ∷ rest) c f s (here, _, later) =
    let (c1, e, a) = cache_read-Accessed c f index offset size s here in
    let (c', e', done) = accesses-delivered_by rest c1 f a.coherent (rw a.size later) in
    (c', read_first rest c index offset size e e', done)
accesses-delivered_by (writes index buffer offset size ∷ rest) c f s (here, _, _, later) =
    let (c1, e, a) = cache_write-Accessed c f index buffer offset size s here in
    let g = update f index (copy_into (f index) offset buffer size) in
    let (c', e', done) = accesses-delivered_by rest c1 g a.coherent (rw a.size later) in
    (c', write_first rest c index buffer offset size e e', done)

-- the accesses between `cache_init` and `cache_dump_all`
unfoldable pub session : List Access → Cache → Option (List (List ℕ) × Cache)
session history c = do
  (delivered, c) ← accesses history (cache_init c)
  c ← cache_dump_all c
  some (delivered, c)

session_steps :
    (history : List Access) (c : Cache) {delivered : List (List ℕ)} {c1 c2 : Cache}
    → accesses history (cache_init c) ≡ some (delivered, c1)
    → cache_dump_all c1 ≡ some c2
    → session history c ≡ some (delivered, c2)
unfolding session
session_steps history c e d = rw (e, d) refl

-- If the device's type is not foreign and its sectors have 512 bytes, then cache_init, a list of
-- reads and writes inside sectors of the disk by one thread, of buffers that have the bytes to
-- write, and cache_dump_all succeed; the reads deliver what they deliver on the disk's sectors
-- without a cache, and in the end the disk's sectors are those that the writes make of them
-- without a cache, and have 512 bytes.
pub session-sectors_after :
    (history : List Access) (c : Cache)
    → is_foreign c.fs_device.kind ≡ false
    → IsDisk c.fs_device.sectors
    → AllInside history c.fs_device.size
    → (c' : Cache) × (session history c ≡ some (delivered_by history c.fs_device.sectors, c'))
      × ((s : ℕ) → c'.fs_device.sectors s ≡ sectors_after history c.fs_device.sectors s)
      × IsDisk c'.fs_device.sectors
unfolding cache_init
session-sectors_after history c own disk h =
    let (c1, e, s) =
      accesses-delivered_by history (cache_init c) c.fs_device.sectors (cache_init-IsCoherent c own)
        h in
    let (c2, d, shows, same) =
      cache_dump_all-Shows c1 (sectors_after history c.fs_device.sectors) s.shows in
    let sized = sectors_after-IsDisk history c.fs_device.sectors c.fs_device.size h disk in
    (c2, session_steps history c e d, same, λ s. ap length (same s) ∙ sized s)
