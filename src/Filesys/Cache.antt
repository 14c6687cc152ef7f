-- ===== src/Filesys/Cache.antt =====
-- filesys/cache.c: the buffer cache. The functions are cut where the source takes `ss_lock`, so that
-- an interleaving of threads is a sequence of these steps. The arrays of 64 entries are functions of
-- the index. A sector is its bytes. `none` is a failed ASSERT or a lack of fuel.
pub mod Accesses
pub mod Clock
pub mod Coherence
pub mod Entries
pub mod History
pub mod Pins
pub mod ReadAhead
pub mod Eviction
pub mod Refinement
pub mod Slots
pub mod Steps
pub mod WriteBack
mod Tests
use uni_orion_os.Base.{
  ℕ, zero, suc, ◌+◌, ◌-◌, ◌*◌, ◌%◌, Bool, true, false, not, ◌&&◌, Option, none, some, List, [], ◌∷◌,
  ◌++◌, ◌==◌, ltb, if◌then◌else◌, take, drop,
}
use uni_orion_os.Base.Panic.{◌>>=◌, ◌>>◌, ensure}
use uni_orion_os.Kernel.Lists.{list_push_back}
use uni_orion_os.Devices.Block.{Block, update, block_read, block_write}

abbrev pub cache_size_in_sectors : ℕ
cache_size_in_sectors = 64

-- `sector_supl_t`; its lock guards one `memcpy` or one dump
pub record Supl : Type 0 where
  pub present : Bool
  pub accessed : Bool
  pub dirty : Bool
  pub pinned : ℕ
  pub sector_index_in_cache : ℕ
  pub sector_index : ℕ

-- `holds_ahead_lock`: the running thread holds `gReadAheadLock`
pub record Cache : Type 0 where
  pub cache : ℕ → List ℕ
  pub cache_aux : ℕ → Supl
  pub lru_cursor : ℕ
  pub read_ahead_list : List ℕ
  pub wake_ups : ℕ
  pub holds_ahead_lock : Bool
  pub fs_device : Block (List ℕ)

-- `memcpy` into a sector at an offset. It stands for the code where the bytes end inside the sector,
-- at 512 at most, and the buffer has them; outside, the code writes into the next sector.
abbrev pub copy_into : (target : List ℕ) → (offset : ℕ) → (buffer : List ℕ) → (size : ℕ) → List ℕ
copy_into target offset buffer size =
    take offset target ++ (take size buffer ++ drop (offset + size) target)

abbrev pub empty_supl : Supl
empty_supl = record {
  present = false;
  accessed = false;
  dirty = false;
  pinned = 0;
  sector_index_in_cache = 0;
  sector_index = 0;
}

-- `cache_init`; the two threads it makes run `cache_dump_all` and `cache_read_ahead_internal`
unfoldable pub cache_init : Cache → Cache
cache_init c = record c {
  cache_aux = λ i. if ltb i cache_size_in_sectors then empty_supl else c.cache_aux i;
  lru_cursor = 0;
  read_ahead_list = [];
  wake_ups = 0;
  holds_ahead_lock = false;
}

unfoldable pub cache_dump_entry : Cache → (index : ℕ) → Option Cache
cache_dump_entry c index =
    if (c.cache_aux index).dirty
    then (do
      ensure (c.cache_aux index).present
      device ← block_write c.fs_device (c.cache_aux index).sector_index (c.cache index)
      some (record c {
        cache_aux = update c.cache_aux index (record (c.cache_aux index) { dirty = false });
        fs_device = device;
      }))
    else some c

dump_loop : (rounds i : ℕ) → Cache → Option Cache
dump_loop zero i c = some c
dump_loop (suc rounds) i c = do c ← cache_dump_entry c i; dump_loop rounds (i + 1) c

unfoldable pub cache_dump_all : Cache → Option Cache
unfolding dump_loop
cache_dump_all c = dump_loop cache_size_in_sectors 0 c

-- the entries are cleared after the dump
unfoldable pub cache_close : Cache → Option Cache
cache_close c = do
  c ← cache_dump_all c
  some (record c {
    cache_aux = λ i. if ltb i cache_size_in_sectors then empty_supl else c.cache_aux i;
  })

unfoldable pub advance : ℕ → ℕ
advance glru = (glru + 1) % cache_size_in_sectors

unfoldable pub retreat : ℕ → ℕ
retreat glru = (glru + cache_size_in_sectors - 1) % cache_size_in_sectors

-- the first of the entries from `i` on that is not present
unfoldable pub find_absent : (rounds i : ℕ) → (ℕ → Supl) → Option ℕ
find_absent zero i aux = none
find_absent (suc rounds) i aux =
    let later = find_absent rounds (i + 1) aux in if not (aux i).present then some i else later

abbrev pub is_victim : Supl → Bool
is_victim e = e.pinned == 0 && not e.accessed && e.present

-- The second loop of `cache_lru`, on fuel. Two rounds of the clock find an entry that is present and
-- not pinned. Where all entries are pinned the loop of the source does not end until another thread
-- unpins one; the fuel runs out, and `none` stands for that too.
unfoldable pub lru_loop : (fuel it : ℕ) → (ℕ → Supl) → Option (ℕ × (ℕ → Supl))
lru_loop zero it aux = none
lru_loop (suc fuel) it aux =
    let go_on = lru_loop fuel (advance it) (update aux it (record (aux it) { accessed = false })) in
    if is_victim (aux it) then some (it, aux) else go_on

abbrev pub first_absent : Option ℕ → Option (ℕ × (ℕ → Supl)) → (ℕ → Supl) → Option (ℕ × (ℕ → Supl))
first_absent (some i) looped aux = some (i, aux)
first_absent none looped aux = looped

unfoldable pub cache_lru : Cache → Option (ℕ × Cache)
cache_lru c = do
  (it, aux) ←
      first_absent (find_absent cache_size_in_sectors 0 c.cache_aux)
        (lru_loop (2 * cache_size_in_sectors + 1) c.lru_cursor c.cache_aux) c.cache_aux
  some (it, record c { cache_aux = aux })

unfoldable pub cache_evict : Cache → Option (ℕ × Cache)
cache_evict c = do
  (ev_id, c) ← cache_lru c
  c ← cache_dump_entry c ev_id
  ensure ((c.cache_aux ev_id).pinned == 0)
  some (
    ev_id,
    record c {
      cache_aux = update c.cache_aux ev_id (record (c.cache_aux ev_id) { present = false });
    },
  )

-- the first entry from `i` on for the sector
unfoldable pub find_sector : (rounds i : ℕ) → (ℕ → Supl) → (index : ℕ) → Option ℕ
find_sector zero i aux index = none
find_sector (suc rounds) i aux index =
    let later = find_sector rounds (i + 1) aux index in
    if (aux i).sector_index == index then some i else later

abbrev pub found_or_evicted : Option ℕ → Cache → Option (ℕ × Cache)
found_or_evicted (some i) c = some (i, c)
found_or_evicted none c = cache_evict c

-- the copy in `*data`, the index of the entry, and the cache
unfoldable pub cache_atomic_get_supl_data_and_pin : Cache → (index : ℕ) → Option (Supl × ℕ × Cache)
cache_atomic_get_supl_data_and_pin c index = do
  (i, c) ← found_or_evicted (find_sector cache_size_in_sectors 0 c.cache_aux index) c
  let supl = record (c.cache_aux i) { pinned = (c.cache_aux i).pinned + 1 }
  some (supl, i, record c { cache_aux = update c.cache_aux i supl })

unfoldable pub cache_atomic_set_supl_data_and_unpin : Cache → (i : ℕ) → Supl → Option Cache
cache_atomic_set_supl_data_and_unpin c i supl = do
  ensure (ltb i cache_size_in_sectors)
  ensure (not ((c.cache_aux i).pinned == 0))
  some (record c { cache_aux = update c.cache_aux i (record supl { pinned = supl.pinned - 1 }) })

unfoldable pub cache_read_internal : Cache → (i sector_index : ℕ) → Option Cache
cache_read_internal c i sector_index = do
  (bytes, device) ← block_read c.fs_device sector_index
  some (record c { cache = update c.cache i bytes; fs_device = device })

-- `lock_acquire` asserts that the running thread does not hold the lock
unfoldable pub cache_read_ahead_asynch : Cache → (index : ℕ) → Option Cache
cache_read_ahead_asynch c index = do
  ensure (not c.holds_ahead_lock)
  some (record c {
    read_ahead_list = list_push_back c.read_ahead_list index;
    wake_ups = c.wake_ups + 1;
  })

-- the part of `cache_write` between pinning and unpinning
unfoldable pub write_pinned :
    Cache
    → (info : Supl) → (i index : ℕ) → (buffer : List ℕ) → (offset size : ℕ) → Option (Supl × Cache)
write_pinned c info i index buffer offset size =
    let at = info.sector_index_in_cache in
    if info.present
    then some (
      record info { dirty = true; accessed = true },
      record c { cache = update c.cache at (copy_into (c.cache at) offset buffer size) },
    )
    else (do
      c ← cache_read_internal c i index
      some (
        record info {
          present = true;
          accessed = true;
          sector_index_in_cache = i;
          sector_index = index;
          dirty = true;
        },
        record c { cache = update c.cache i (copy_into (c.cache i) offset buffer size) },
      ))

unfoldable pub cache_write :
    Cache → (index : ℕ) → (buffer : List ℕ) → (offset size : ℕ) → Option Cache
cache_write c index buffer offset size = do
  (info, i, c) ← cache_atomic_get_supl_data_and_pin c index
  (info, c) ← write_pinned c info i index buffer offset size
  cache_atomic_set_supl_data_and_unpin c i info

-- The part of `cache_read` between pinning and unpinning, with the bytes it delivers. They stand for
-- the code where the bytes that are asked for end inside the sector.
unfoldable pub read_pinned :
    Cache → (info : Supl) → (i index offset size : ℕ) → Option (List ℕ × Supl × Cache)
read_pinned c info i index offset size =
    if info.present
    then some (
      take size (drop offset (c.cache info.sector_index_in_cache)),
      record info { accessed = true },
      c,
    )
    else (do
      c ← cache_read_internal c i index
      let bytes = take size (drop offset (c.cache i))
      c ← cache_read_ahead_asynch c (index + 1)
      some (
        bytes,
        record info {
          present = true;
          accessed = true;
          sector_index_in_cache = i;
          sector_index = index;
          dirty = false;
        },
        c,
      ))

unfoldable pub cache_read : Cache → (index offset size : ℕ) → Option (List ℕ × Cache)
cache_read c index offset size = do
  (info, i, c) ← cache_atomic_get_supl_data_and_pin c index
  (bytes, info, c) ← read_pinned c info i index offset size
  c ← cache_atomic_set_supl_data_and_unpin c i info
  some (bytes, c)

-- each queued sector is read, and only then taken off the list
unfoldable pub read_ahead_loop : List ℕ → Cache → Option Cache
read_ahead_loop [] c = some c
read_ahead_loop (sector_index ∷ links) c = do
  (bytes, c) ← cache_read c sector_index 0 16
  read_ahead_loop links (record c { read_ahead_list = links })

unfoldable pub cache_read_ahead_internal : Cache → Option Cache
cache_read_ahead_internal c = do
  ensure (not c.holds_ahead_lock)
  c ← read_ahead_loop c.read_ahead_list (record c { holds_ahead_lock = true })
  some (record c { holds_ahead_lock = false })
