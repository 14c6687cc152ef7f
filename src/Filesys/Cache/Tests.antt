-- ===== src/Filesys/Cache/Tests.antt =====
-- A cache of which one entry, or all, are in use.
use uni_orion_os.Base.{
  ℕ, zero, suc, length, ap, inr, ◌+◌, ◌≡◌, refl, true, false, none, some, List, [], ◌∷◌, arith,
}
use uni_orion_os.Devices.Block.{Block, filesys}
use uni_orion_os.Filesys.Cache.{
  Cache, Supl, cache_size_in_sectors, find_sector, cache_lru, copy_into, cache_read_ahead_internal,
}
use uni_orion_os.Filesys.Cache.Entries.{IsFull, Victim, cache_lru-Victim}
use uni_orion_os.Filesys.Cache.Pins.{
  IsHit, overlapping_reads, overlapping_reads-panic, write_inside_read, write_inside_read-lost,
}
use uni_orion_os.Filesys.Cache.ReadAhead.{read_ahead-panic}
use uni_orion_os.Filesys.Cache.History.{
  Access, reads, writes, delivered_by, sectors_after, AllInside, IsDisk, session,
  session-sectors_after,
}

abbrev device : Block (List ℕ)
device = record {
  kind = filesys;
  size = 200;
  sectors = λ k. 0 ∷ 0 ∷ [];
  read_cnt = 0;
  write_cnt = 0;
}

-- every entry `i` is present, was accessed, and has sector `i + 100`
abbrev full_cache : Cache
full_cache = record {
  cache = λ i. 1 ∷ 2 ∷ 3 ∷ [];
  cache_aux = λ i. record {
    present = true;
    accessed = true;
    dirty = false;
    pinned = 0;
    sector_index_in_cache = i;
    sector_index = i + 100;
  };
  lru_cursor = 0;
  read_ahead_list = 7 ∷ [];
  wake_ups = 1;
  holds_ahead_lock = false;
  fs_device = device;
}

full : IsFull full_cache.cache_aux
full k h = record { present = refl; unpinned = refl }

hit : IsHit full_cache 101 1
unfolding find_sector
hit = record { found = refl; inside = omega arith; present = refl; unpinned = refl }

missing : find_sector cache_size_in_sectors 0 full_cache.cache_aux 7 ≡ none
unfolding find_sector
missing = refl

cache_lru-Victim_example :
    (i : ℕ) × (aux : ℕ → Supl) × (cache_lru full_cache
      ≡ some (i, record full_cache { cache_aux = aux }))
    × Victim full_cache.cache_aux i aux
cache_lru-Victim_example = cache_lru-Victim full_cache full (omega arith)

overlapping_reads-panic_example : overlapping_reads full_cache 101 0 2 ≡ none
overlapping_reads-panic_example = overlapping_reads-panic full_cache 101 1 0 2 hit

write_inside_read-lost_example :
    (bytes : List ℕ) × (c' : Cache) × (write_inside_read full_cache 101 (9 ∷ []) 0 1
      ≡ some (bytes, c'))
    × ((c'.cache_aux 1).dirty ≡ false)
    × (c'.cache 1 ≡ copy_into (1 ∷ 2 ∷ 3 ∷ []) 0 (9 ∷ []) 1)
    × (c'.fs_device ≡ device)
write_inside_read-lost_example = write_inside_read-lost full_cache 101 1 (9 ∷ []) 0 1 hit refl

read_ahead-panic_example :
    ((i : ℕ) × (c' : Cache) × (cache_lru (record full_cache { holds_ahead_lock = true })
        ≡ some (i, c')))
    × (cache_read_ahead_internal full_cache ≡ none)
read_ahead-panic_example =
    read_ahead-panic full_cache 7 [] 0 refl missing (omega arith) (omega arith)
      (inr (record { present = refl; unpinned = refl }))

-- the bytes of a sector of zeros
abbrev zeros : ℕ → List ℕ
zeros zero = []
zeros (suc n) = 0 ∷ zeros n

length-zeros : (n : ℕ) → length (zeros n) ≡ n
length-zeros zero = refl
length-zeros (suc n) = ap suc (length-zeros n)

abbrev zero_cache : Cache
zero_cache = record full_cache { fs_device = record device { sectors = λ k. zeros 512 } }

-- a read, a write of the same sector, and a read of it, over its last bytes
abbrev history : List Access
history = reads 7 510 2 ∷ writes 7 (9 ∷ []) 511 1 ∷ reads 7 510 2 ∷ []

history-AllInside : AllInside history 200
unfolding AllInside
history-AllInside = (
  omega arith,
  omega arith,
  (omega arith, omega arith, omega arith, (omega arith, omega arith, tt)),
)

history_delivered :
    delivered_by history zero_cache.fs_device.sectors ≡ (0 ∷ 0 ∷ []) ∷ (0 ∷ 9 ∷ []) ∷ []
unfolding delivered_by
history_delivered = refl

session-sectors_after_example :
    (c' : Cache) × (session history zero_cache
      ≡ some (delivered_by history zero_cache.fs_device.sectors, c'))
    × ((s : ℕ) → c'.fs_device.sectors s ≡ sectors_after history zero_cache.fs_device.sectors s)
    × IsDisk c'.fs_device.sectors
session-sectors_after_example =
    session-sectors_after history zero_cache refl (λ s. length-zeros 512) history-AllInside
