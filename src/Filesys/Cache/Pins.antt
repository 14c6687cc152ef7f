-- ===== src/Filesys/Cache/Pins.antt =====
-- What two accesses to one sector do to each other.
use uni_orion_os.Base.{
  ℕ, zero, suc, ◌+◌, ◌-◌, ◌<◌, ◌≡◌, refl, ◌∙◌, sym, ap, inl, inr, true, false, Option, none, some,
  List, ◌==◌, lt→ltb, arith, Bool-cases, take, drop,
}
use uni_orion_os.Base.Panic.{◌>>=◌}
use uni_orion_os.Devices.Block.{update, update_self}
use uni_orion_os.Filesys.Cache.{
  Cache, Supl, cache_size_in_sectors, find_sector, copy_into, cache_atomic_get_supl_data_and_pin,
  cache_atomic_set_supl_data_and_unpin, read_pinned, write_pinned,
}

-- Two threads read one sector; the one that pinned the entry first also lets go of it first.
unfoldable pub overlapping_reads :
    Cache → (index offset size : ℕ) → Option (List ℕ × List ℕ × Cache)
overlapping_reads c index offset size = do
  (first_info, i, c) ← cache_atomic_get_supl_data_and_pin c index
  (second_info, j, c) ← cache_atomic_get_supl_data_and_pin c index
  (first, first_info, c) ← read_pinned c first_info i index offset size
  (second, second_info, c) ← read_pinned c second_info j index offset size
  c ← cache_atomic_set_supl_data_and_unpin c i first_info
  c ← cache_atomic_set_supl_data_and_unpin c j second_info
  some (first, second, c)

-- A thread writes a sector while another is inside `cache_read` of it.
unfoldable pub write_inside_read :
    Cache → (index : ℕ) → (buffer : List ℕ) → (offset size : ℕ) → Option (List ℕ × Cache)
write_inside_read c index buffer offset size = do
  (info, i, c) ← cache_atomic_get_supl_data_and_pin c index
  (bytes, info, c) ← read_pinned c info i index offset size
  (write_info, j, c) ← cache_atomic_get_supl_data_and_pin c index
  (write_info, c) ← write_pinned c write_info j index buffer offset size
  c ← cache_atomic_set_supl_data_and_unpin c j write_info
  c ← cache_atomic_set_supl_data_and_unpin c i info
  some (bytes, c)

-- the entry that the sector is found in is in use by no thread
pub record IsHit (c : Cache) (index i : ℕ) : Type 0 where
  pub found : find_sector cache_size_in_sectors 0 c.cache_aux index ≡ some i
  pub inside : i < cache_size_in_sectors
  pub present : (c.cache_aux i).present ≡ true
  pub unpinned : (c.cache_aux i).pinned ≡ 0

find_sector-same :
    (rounds i : ℕ) (aux aux' : ℕ → Supl) (index : ℕ)
    → ((k : ℕ) → (aux' k).sector_index ≡ (aux k).sector_index)
    → find_sector rounds i aux' index ≡ find_sector rounds i aux index
unfolding find_sector
find_sector-same zero i aux aux' index h = refl
find_sector-same (suc rounds) i aux aux' index h =
    rw (h i, find_sector-same rounds (i + 1) aux aux' index h) refl

update-same :
    (aux : ℕ → Supl) (i : ℕ) (e : Supl)
    → e.sector_index ≡ (aux i).sector_index
    → (k : ℕ) → (update aux i e k).sector_index ≡ (aux k).sector_index
update-same aux i e h k = elim (Bool-cases (i == k)) [
  | inl at ↦ let i_eq : i ≡ k = ground arith in rw at (h ∙ ap (λ j. (aux j).sector_index) i_eq)
  | inr other ↦ rw other refl
]

abbrev pub pinned_at : Cache → ℕ → Supl
pinned_at c i = record (c.cache_aux i) { pinned = (c.cache_aux i).pinned + 1 }

abbrev pub with_pin : Cache → ℕ → Cache
with_pin c i = record c { cache_aux = update c.cache_aux i (pinned_at c i) }

pub get-hit :
    (c : Cache) (index i : ℕ)
    → find_sector cache_size_in_sectors 0 c.cache_aux index ≡ some i
    → cache_atomic_get_supl_data_and_pin c index ≡ some (pinned_at c i, i, with_pin c i)
unfolding cache_atomic_get_supl_data_and_pin
get-hit c index i h = rw h refl

found_again :
    (c : Cache) (index i : ℕ)
    → find_sector cache_size_in_sectors 0 c.cache_aux index ≡ some i
    → find_sector cache_size_in_sectors 0 (with_pin c i).cache_aux index ≡ some i
found_again c index i h =
    find_sector-same cache_size_in_sectors 0 c.cache_aux (with_pin c i).cache_aux index
      (update-same c.cache_aux i (pinned_at c i) refl)
    ∙ h

pub read-hit :
    (c : Cache) (info : Supl) (i index offset size : ℕ)
    → info.present ≡ true
    → read_pinned c info i index offset size
      ≡ some (
        take size (drop offset (c.cache info.sector_index_in_cache)),
        record info { accessed = true },
        c,
      )
unfolding read_pinned
read-hit c info i index offset size h = rw h refl

pub write-hit :
    (c : Cache) (info : Supl) (i index : ℕ) (buffer : List ℕ) (offset size : ℕ)
    → info.present ≡ true
    → write_pinned c info i index buffer offset size
      ≡ some (
        record info { dirty = true; accessed = true },
        record c {
          cache =
              update c.cache info.sector_index_in_cache
                (copy_into (c.cache info.sector_index_in_cache) offset buffer size);
        },
      )
unfolding write_pinned
write-hit c info i index buffer offset size h = rw h refl

abbrev pub unpinned_at : Cache → ℕ → Supl → Cache
unpinned_at c i info = record c {
  cache_aux = update c.cache_aux i (record info { pinned = info.pinned - 1 });
}

pub set-ok :
    (c : Cache) (i : ℕ) (info : Supl)
    → i < cache_size_in_sectors
    → 0 < (c.cache_aux i).pinned
    → cache_atomic_set_supl_data_and_unpin c i info ≡ some (unpinned_at c i info)
unfolding cache_atomic_set_supl_data_and_unpin
set-ok c i info h k =
    let pin : ((c.cache_aux i).pinned == 0) ≡ false = ground arith in
    rw (lt→ltb i cache_size_in_sectors h, pin) refl

set-panic :
    (c : Cache) (i : ℕ) (info : Supl)
    → i < cache_size_in_sectors
    → (c.cache_aux i).pinned ≡ 0
    → cache_atomic_set_supl_data_and_unpin c i info ≡ none
unfolding cache_atomic_set_supl_data_and_unpin
set-panic c i info h k = rw (lt→ltb i cache_size_in_sectors h, k) refl

-- pinned once more, the entry is as present as before, and it counts one more
pub pin_present :
    (c : Cache) (i : ℕ) → ((with_pin c i).cache_aux i).present ≡ (c.cache_aux i).present
pin_present c i = ap (λ e. e.present) (update_self c.cache_aux i (pinned_at c i))

pub pin_count :
    (c : Cache) (i : ℕ) → ((with_pin c i).cache_aux i).pinned ≡ (c.cache_aux i).pinned + 1
pin_count c i = ap (λ e. e.pinned) (update_self c.cache_aux i (pinned_at c i))

unpin_count :
    (c : Cache) (i : ℕ) (info : Supl)
    → ((unpinned_at c i info).cache_aux i).pinned ≡ info.pinned - 1
unpin_count c i info =
    ap (λ e. e.pinned) (update_self c.cache_aux i (record info { pinned = info.pinned - 1 }))

-- If the sector is found in an unpinned present entry, two overlapping cache_read of it, of
-- which the one that pinned the entry first also unpins it first, stop the kernel.
pub overlapping_reads-panic :
    (c : Cache) (index i offset size : ℕ)
    → IsHit c index i
    → overlapping_reads c index offset size ≡ none
unfolding overlapping_reads
overlapping_reads-panic c index i offset size hit =
    let once = with_pin c i in
    let twice = with_pin once i in
    let first_info = record (pinned_at c i) { accessed = true } in
    let second_info = record (pinned_at once i) { accessed = true } in
    rw
      (
        get-hit c index i hit.found,
        get-hit once index i (found_again c index i hit.found),
        read-hit twice (pinned_at c i) i index offset size hit.present,
        read-hit twice (pinned_at once i) i index offset size (pin_present c i ∙ hit.present),
        set-ok twice i first_info hit.inside (omega (arith, pin_count once i)),
        set-panic (unpinned_at twice i first_info) i second_info hit.inside
            (unpin_count twice i first_info ∙ omega (arith, hit.unpinned)),
      )
      refl

-- If the sector is found in an unpinned present entry that is not dirty, a cache_write of it
-- inside a cache_read of it leaves the written bytes in the cache, but the entry not dirty and
-- the disk as it was.
pub write_inside_read-lost :
    (c : Cache) (index i : ℕ) (buffer : List ℕ) (offset size : ℕ)
    → IsHit c index i
    → (c.cache_aux i).dirty ≡ false
    → (bytes : List ℕ) × (c' : Cache) × (write_inside_read c index buffer offset size
        ≡ some (bytes, c'))
      × ((c'.cache_aux i).dirty ≡ false)
      × (c'.cache (c.cache_aux i).sector_index_in_cache
          ≡ copy_into (c.cache (c.cache_aux i).sector_index_in_cache) offset buffer size)
      × (c'.fs_device ≡ c.fs_device)
unfolding write_inside_read
write_inside_read-lost c index i buffer offset size hit clean =
    let once = with_pin c i in
    let twice = with_pin once i in
    let info = record (pinned_at c i) { accessed = true } in
    let writer = pinned_at once i in
    let at = writer.sector_index_in_cache in
    let at_eq : at ≡ (c.cache_aux i).sector_index_in_cache =
      ap (λ e. e.sector_index_in_cache) (update_self c.cache_aux i (pinned_at c i)) in
    let written = record twice {
      cache = update twice.cache at (copy_into (twice.cache at) offset buffer size);
    } in
    let wrote = record writer { dirty = true; accessed = true } in
    let released = unpinned_at written i wrote in
    let done = unpinned_at released i info in
    let one_left : 0 < (released.cache_aux i).pinned =
      omega (arith, unpin_count written i wrote, pin_count c i) in
    (
      take size (drop offset (once.cache (pinned_at c i).sector_index_in_cache)),
      done,
      rw
          (
            get-hit c index i hit.found,
            read-hit once (pinned_at c i) i index offset size hit.present,
            get-hit once index i (found_again c index i hit.found),
            write-hit twice writer i index buffer offset size (pin_present c i ∙ hit.present),
            set-ok written i wrote hit.inside (omega (arith, pin_count once i)),
            set-ok released i info hit.inside one_left,
          )
          refl,
      ap (λ e. e.dirty)
            (update_self released.cache_aux i (record info { pinned = info.pinned - 1 }))
          ∙ clean,
      ap (λ k. done.cache k) (sym at_eq)
          ∙ update_self twice.cache at (copy_into (twice.cache at) offset buffer size)
          ∙ ap (λ k. copy_into (c.cache k) offset buffer size) at_eq,
      refl,
    )
