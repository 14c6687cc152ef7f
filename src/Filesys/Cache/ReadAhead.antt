-- ===== src/Filesys/Cache/ReadAhead.antt =====
-- Reading ahead: `cache_read_ahead_internal` holds the lock that a miss in `cache_read` takes.
use uni_orion_os.Base.{
  ℕ, ◌+◌, ◌*◌, ◌<◌, ◌≡◌, refl, ◌∙◌, ◌⊎◌, inl, inr, true, false, none, some, List, ◌∷◌, ◌==◌,
  Bool-cases, Option-cases, ap, eq→==,
}
use uni_orion_os.Devices.Block.{update, block_read, block_write}
use uni_orion_os.Filesys.Cache.{
  Cache, Supl, cache_size_in_sectors, find_sector, find_absent, lru_loop, first_absent,
  cache_atomic_get_supl_data_and_pin, read_pinned, cache_read, cache_read_internal,
  cache_read_ahead_asynch, cache_read_ahead_internal, read_ahead_loop, cache_evict, cache_lru,
  cache_dump_entry,
}
use uni_orion_os.Filesys.Cache.Entries.{IsIdle}
use uni_orion_os.Filesys.Cache.Clock.{cache_lru-ends}

-- an operation of the cache that stops the kernel, or keeps what the running thread holds
record Keeps (c c' : Cache) : Type 0 where
  pub lock : c'.holds_ahead_lock ≡ c.holds_ahead_lock

dump_entry-Keeps :
    (c : Cache) (i : ℕ)
    → (cache_dump_entry c i ≡ none) ⊎ ((c' : Cache) × (cache_dump_entry c i ≡ some c') × Keeps c c')
unfolding cache_dump_entry
dump_entry-Keeps c i =
    let e = c.cache_aux i in
    let device = block_write c.fs_device e.sector_index (c.cache i) in
    elim (Bool-cases e.dirty) [
      | inr clean ↦ inr (c, rw clean refl, record { lock = refl })
      | inl dirty ↦ elim (Bool-cases e.present) [
        | inr absent ↦ inl (rw (dirty, absent) refl)
        | inl present ↦ elim (Option-cases device) [
          | inl panic ↦ inl (rw (dirty, present, panic) refl)
          | inr (d, written) ↦ inr (
            record c {
              cache_aux = update c.cache_aux i (record e { dirty = false });
              fs_device = d;
            },
            rw (dirty, present, written) refl,
            record { lock = refl },
          )
        ]
      ]
    ]

lru-Keeps :
    (c : Cache)
    → (cache_lru c ≡ none) ⊎ ((i : ℕ) × (c' : Cache) × (cache_lru c ≡ some (i, c')) × Keeps c c')
unfolding cache_lru
lru-Keeps c =
    let chosen =
      first_absent (find_absent cache_size_in_sectors 0 c.cache_aux)
        (lru_loop (2 * cache_size_in_sectors + 1) c.lru_cursor c.cache_aux) c.cache_aux in
    elim (Option-cases chosen) [
      | inl stuck ↦ inl (rw stuck refl)
      | inr ((i, aux), e) ↦ inr (i, record c { cache_aux = aux }, rw e refl, record { lock = refl })
    ]

-- an evicted entry is not present
evict-Keeps :
    (c : Cache)
    → (cache_evict c ≡ none)
      ⊎ ((i : ℕ) × (c' : Cache) × (cache_evict c ≡ some (i, c'))
          × Keeps c c'
          × ((c'.cache_aux i).present ≡ false))
unfolding cache_evict
evict-Keeps c = elim (lru-Keeps c) [
  | inl stuck ↦ inl (rw stuck refl)
  | inr (i, c1, e1, k1) ↦ elim (dump_entry-Keeps c1 i) [
    | inl panic ↦ inl (rw (e1, panic) refl)
    | inr (c2, e2, k2) ↦ elim (Bool-cases ((c2.cache_aux i).pinned == 0)) [
      | inr pinned ↦ inl (rw (e1, e2, pinned) refl)
      | inl free ↦ inr (
        i,
        record c2 {
          cache_aux = update c2.cache_aux i (record (c2.cache_aux i) { present = false });
        },
        rw (e1, e2, free) refl,
        record { lock = k2.lock ∙ k1.lock },
        absent c2 i,
      )
    ]
  ]
]
  where
    absent :
        (c2 : Cache) (i : ℕ)
        → (update c2.cache_aux i (record (c2.cache_aux i) { present = false }) i).present ≡ false
    absent c2 i = rw (eq→== i i refl) refl

read_pinned-panic :
    (c : Cache) (info : Supl) (i index offset size : ℕ)
    → info.present ≡ false
    → c.holds_ahead_lock ≡ true
    → read_pinned c info i index offset size ≡ none
unfolding read_pinned cache_read_internal cache_read_ahead_asynch
read_pinned-panic c info i index offset size absent held =
    elim (Option-cases (block_read c.fs_device index)) [
      | inl panic ↦ rw (absent, panic) refl
      | inr ((bytes, d), e) ↦ rw (absent, e, held) refl
    ]

cache_read-panic :
    (c : Cache) (index offset size : ℕ)
    → find_sector cache_size_in_sectors 0 c.cache_aux index ≡ none
    → c.holds_ahead_lock ≡ true
    → cache_read c index offset size ≡ none
unfolding cache_read cache_atomic_get_supl_data_and_pin
cache_read-panic c index offset size missing held = elim (evict-Keeps c) [
  | inl panic ↦ rw (missing, panic) refl
  | inr (i, c', e, k, absent) ↦
      let info = record (c'.cache_aux i) { pinned = (c'.cache_aux i).pinned + 1 } in
      let pinned = record c' { cache_aux = update c'.cache_aux i info } in
      rw (missing, e, read_pinned-panic pinned info i index offset size absent (k.lock ∙ held)) refl
]

read_ahead_loop-panic :
    (c : Cache) (index : ℕ) (queued : List ℕ)
    → find_sector cache_size_in_sectors 0 c.cache_aux index ≡ none
    → c.holds_ahead_lock ≡ true
    → read_ahead_loop (index ∷ queued) c ≡ none
unfolding read_ahead_loop
read_ahead_loop-panic c index queued missing held =
    rw (cache_read-panic c index 0 16 missing held) refl

-- If the first sector of the read-ahead list is found in no entry of the cache, the cursor of
-- the clock is inside the cache, and an entry is absent, or present and not pinned, then
-- cache_lru ends under the lock, and cache_read_ahead_internal stops the kernel.
pub read_ahead-panic :
    (c : Cache) (index : ℕ) (queued : List ℕ) (k : ℕ)
    → c.read_ahead_list ≡ index ∷ queued
    → find_sector cache_size_in_sectors 0 c.cache_aux index ≡ none
    → k < cache_size_in_sectors
    → c.lru_cursor < cache_size_in_sectors
    → ((c.cache_aux k).present ≡ false) ⊎ IsIdle (c.cache_aux k)
    → ((i : ℕ) × (c' : Cache) × (cache_lru (record c { holds_ahead_lock = true }) ≡ some (i, c')))
      × (cache_read_ahead_internal c ≡ none)
unfolding cache_read_ahead_internal
read_ahead-panic c index queued k list missing inside cursor idle =
    let locked = record c { holds_ahead_lock = true } in
    let stops : read_ahead_loop c.read_ahead_list locked ≡ none =
      ap (λ l. read_ahead_loop l locked) list
      ∙ read_ahead_loop-panic locked index queued missing refl in
    (
      cache_lru-ends locked k inside cursor idle,
      elim (Bool-cases c.holds_ahead_lock) [
        | inl held ↦ rw held refl
        | inr unheld ↦ rw (unheld, stops) refl
      ],
    )
