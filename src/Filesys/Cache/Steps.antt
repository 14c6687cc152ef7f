-- ===== src/Filesys/Cache/Steps.antt =====
-- The parts of an access to a sector that is not in its entry.
use uni_orion_os.Base.{ℕ, ◌+◌, ◌<◌, ◌≡◌, refl, Bool, true, false, some, List, take, drop}
use uni_orion_os.Kernel.Lists.{list_push_back}
use uni_orion_os.Devices.Block.{update, after_read, read-ok}
use uni_orion_os.Filesys.Cache.{
  Cache, Supl, copy_into, cache_read, cache_write, read_pinned, write_pinned, cache_read_internal,
  cache_read_ahead_asynch, cache_atomic_get_supl_data_and_pin, cache_atomic_set_supl_data_and_unpin,
}
use uni_orion_os.Filesys.Cache.Pins.{}
use uni_orion_os.Filesys.Cache.Refinement.{}

abbrev pub miss_info : Supl → (i index : ℕ) → Bool → Supl
miss_info info i index dirty = record info {
  present = true;
  accessed = true;
  sector_index_in_cache = i;
  sector_index = index;
  dirty = dirty;
}

abbrev pub with_sector : Cache → ℕ → ℕ → Cache
with_sector c i index = record c {
  cache = update c.cache i (c.fs_device.sectors index);
  fs_device = after_read c.fs_device;
}

pub internal-ok :
    (c : Cache) (i index : ℕ)
    → index < c.fs_device.size
    → cache_read_internal c i index ≡ some (with_sector c i index)
unfolding cache_read_internal
internal-ok c i index h = rw (read-ok c.fs_device h) refl

abbrev pub with_ahead : Cache → ℕ → Cache
with_ahead c index = record c {
  read_ahead_list = list_push_back c.read_ahead_list index;
  wake_ups = c.wake_ups + 1;
}

pub ahead-ok :
    (c : Cache) (index : ℕ)
    → c.holds_ahead_lock ≡ false
    → cache_read_ahead_asynch c index ≡ some (with_ahead c index)
unfolding cache_read_ahead_asynch
ahead-ok c index h = rw h refl

abbrev pub read_in : Cache → ℕ → ℕ → Cache
read_in c i index = with_ahead (with_sector c i index) (index + 1)

pub read-miss :
    (c : Cache) (info : Supl) (i index offset size : ℕ)
    → info.present ≡ false
    → index < c.fs_device.size
    → c.holds_ahead_lock ≡ false
    → read_pinned c info i index offset size
      ≡ some (
        take size (drop offset ((with_sector c i index).cache i)),
        miss_info info i index false,
        read_in c i index,
      )
unfolding read_pinned
read-miss c info i index offset size away here free =
    rw (away, internal-ok c i index here, ahead-ok (with_sector c i index) (index + 1) free) refl

abbrev pub written_in : Cache → ℕ → ℕ → List ℕ → ℕ → ℕ → Cache
written_in c i index buffer offset size =
    let r = with_sector c i index in
    record r { cache = update r.cache i (copy_into (r.cache i) offset buffer size) }

pub write-miss :
    (c : Cache) (info : Supl) (i index : ℕ) (buffer : List ℕ) (offset size : ℕ)
    → info.present ≡ false
    → index < c.fs_device.size
    → write_pinned c info i index buffer offset size
      ≡ some (miss_info info i index true, written_in c i index buffer offset size)
unfolding write_pinned
write-miss c info i index buffer offset size away here = rw (away, internal-ok c i index here) refl

-- the three parts of an access, one after the other
pub read_steps :
    (c : Cache) (index offset size : ℕ) {i : ℕ} {info info' : Supl} {bytes : List ℕ}
    {c1 c2 c3 : Cache}
    → cache_atomic_get_supl_data_and_pin c index ≡ some (info, i, c1)
    → read_pinned c1 info i index offset size ≡ some (bytes, info', c2)
    → cache_atomic_set_supl_data_and_unpin c2 i info' ≡ some c3
    → cache_read c index offset size ≡ some (bytes, c3)
unfolding cache_read
read_steps c index offset size got did set = rw (got, did, set) refl

pub write_steps :
    (c : Cache) (index : ℕ) (buffer : List ℕ) (offset size : ℕ) {i : ℕ} {info info' : Supl}
    {c1 c2 c3 : Cache}
    → cache_atomic_get_supl_data_and_pin c index ≡ some (info, i, c1)
    → write_pinned c1 info i index buffer offset size ≡ some (info', c2)
    → cache_atomic_set_supl_data_and_unpin c2 i info' ≡ some c3
    → cache_write c index buffer offset size ≡ some c3
unfolding cache_write
write_steps c index buffer offset size got did set = rw (got, did, set) refl
