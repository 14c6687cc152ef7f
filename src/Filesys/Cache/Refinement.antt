-- ===== src/Filesys/Cache/Refinement.antt =====
-- In one thread, reads and writes through the cache are reads and writes of an array of sectors.
use uni_orion_os.Base.{
  ℕ, ◌+◌, ◌-◌, ◌<◌, ◌≡◌, refl, ◌∙◌, sym, ap, inl, inr, Bool, false, List, ◌==◌, arith, Bool-cases,
}
use uni_orion_os.Devices.Block.{is_foreign, update, update-cases}
use uni_orion_os.Filesys.Cache.{Cache, Supl, cache_size_in_sectors}
use uni_orion_os.Filesys.Cache.Coherence.{
  IsPending, Shows, IsSame, IsFilled, Resembles, Shows-Resembles, fill, Shows-fill,
}
use uni_orion_os.Filesys.Cache.Pins.{pinned_at}
use uni_orion_os.Filesys.Cache.Slots.{IsQuiet}
use uni_orion_os.Filesys.Cache.Eviction.{Ready}

-- A cache that no thread uses shows the sectors `f`.
pub record IsCoherent (c : Cache) (f : ℕ → List ℕ) : Type 0 where
  pub shows : Shows c f
  pub quiet : IsQuiet c

-- The cache after an access: it shows `f`, on the same device.
pub record Accessed (c c' : Cache) (f : ℕ → List ℕ) : Type 0 where
  pub coherent : IsCoherent c' f
  pub size : c'.fs_device.size ≡ c.fs_device.size

-- an entry that is pinned, and then unpinned as `info`
abbrev pub released : (ℕ → Supl) → ℕ → Supl → Supl → ℕ → Supl
released aux i pinned info =
    update (update aux i pinned) i (record info { pinned = info.pinned - 1 })

released_at :
    (aux : ℕ → Supl) (i : ℕ) (pinned info : Supl) (k : ℕ)
    → released aux i pinned info k ≡ update aux i (record info { pinned = info.pinned - 1 }) k
released_at aux i pinned info k = elim (Bool-cases (i == k)) [
  | inl same ↦ rw same refl
  | inr ne ↦ rw ne refl
]

-- the caches agree but for counters and the read-ahead list; entry `i` is `info`, unpinned, with the
-- sector `v`
pub record Left (c : Cache) (i : ℕ) (info : Supl) (v : List ℕ) (c' : Cache) : Type 0 where
  pub aux : (k : ℕ) → c'.cache_aux k ≡ released c.cache_aux i (pinned_at c i) info k
  pub cache : (k : ℕ) → c'.cache k ≡ update c.cache i v k
  pub sectors : (s : ℕ) → c'.fs_device.sectors s ≡ c.fs_device.sectors s
  pub size : c'.fs_device.size ≡ c.fs_device.size
  pub kind : is_foreign c'.fs_device.kind ≡ is_foreign c.fs_device.kind
  pub cursor : c'.lru_cursor ≡ c.lru_cursor
  pub lock : c'.holds_ahead_lock ≡ c.holds_ahead_lock

IsSame-eq : {e e' : Supl} → e' ≡ e → IsSame e e'
IsSame-eq h = record {
  present = ap (λ u. u.present) h;
  dirty = ap (λ u. u.dirty) h;
  at = ap (λ u. u.sector_index_in_cache) h;
  sector = ap (λ u. u.sector_index) h;
}

pub update-same : (f : ℕ → List ℕ) (i s : ℕ) → f s ≡ update f i (f i) s
update-same f i s = elim (update-cases f i (f i) s) [
  | inl (same, now) ↦ ap f same ∙ sym now
  | inr (ne, now) ↦ sym now
]

pub update-twice :
    (f : ℕ → List ℕ) (i : ℕ) (a b : List ℕ) (k : ℕ) → update (update f i a) i b k ≡ update f i b k
update-twice f i a b k = elim (Bool-cases (i == k)) [
  | inl same ↦ rw same refl
  | inr ne ↦ rw ne refl
]

module _ (c : Cache) (f : ℕ → List ℕ) (index i : ℕ) (c1 : Cache) (ready : Ready c f index i c1)
    (here : index < c.fs_device.size) where
  -- the pins are those of before the access
  released-unpinned :
      (info : Supl)
      → info.pinned ≡ (c1.cache_aux i).pinned + 1
      → (k : ℕ) → k < cache_size_in_sectors
      → (released c1.cache_aux i (pinned_at c1 i) info k).pinned ≡ 0
  released-unpinned info count k h =
      ap (λ u. u.pinned) (released_at c1.cache_aux i (pinned_at c1 i) info k)
      ∙ elim (update-cases c1.cache_aux i (record info { pinned = info.pinned - 1 }) k) [
        | inl (k_eq, now) ↦
            ap (λ u. u.pinned) now ∙ omega (arith, count, ready.quiet.unpinned i ready.slot.inside)
        | inr (ne, now) ↦ ap (λ u. u.pinned) now ∙ ready.quiet.unpinned k h
      ]

  -- without a write to come, the disk has the sector
  pub disk_has : ¬ IsPending (c1.cache_aux i) index → c1.fs_device.sectors index ≡ f index
  disk_has idle = ready.shows.stored index (λ j h p. elim (Bool-cases (j == i)) [
    | inl same ↦
        let j_eq : j ≡ i = ground (arith, same) in
        idle (
          ap (λ m. (c1.cache_aux m).present) (sym j_eq) ∙ p.0,
          ap (λ m. (c1.cache_aux m).dirty) (sym j_eq) ∙ p.1,
          ap (λ m. (c1.cache_aux m).sector_index) (sym j_eq) ∙ p.2,
        )
    | inr ne ↦ ready.slot.other j h (λ e. ground (arith, e, ne)) p.0 p.2
  ])

  pub Left-Accessed :
      (c' : Cache) (info : Supl) (v : List ℕ) (dirty : Bool) (g : ℕ → List ℕ)
      → IsFilled info i index dirty
      → info.pinned ≡ (c1.cache_aux i).pinned + 1
      → (dirty ≡ false → c1.fs_device.sectors index ≡ v)
      → Left c1 i info v c'
      → ((s : ℕ) → g s ≡ update f index v s)
      → Accessed c c' g
  Left-Accessed c' info v dirty g filled count clean left same =
      let e = record info { pinned = info.pinned - 1 } in
      let done : IsFilled e i index dirty = record {
        present = filled.present;
        dirt = filled.dirt;
        at = filled.at;
        sector = filled.sector;
      } in
      let inside : index < c1.fs_device.size = omega (arith, ready.size, here) in
      let shows = Shows-fill c1 f i index e v dirty ready.shows ready.slot done inside clean in
      record {
        coherent = record {
          shows =
              Shows-Resembles (fill c1 f i index e v dirty ready.shows ready.slot done inside) c'
                (update f index v) g shows
                (record {
                  entries = λ k.
                      IsSame-eq (left.aux k ∙ released_at c1.cache_aux i (pinned_at c1 i) info k);
                  cache = left.cache;
                  sectors = left.sectors;
                  size = left.size;
                  kind = left.kind;
                })
                same;
          quiet = record {
            unpinned = λ k h. ap (λ u. u.pinned) (left.aux k) ∙ released-unpinned info count k h;
            cursor = omega (arith, left.cursor, ready.quiet.cursor);
            lock = left.lock ∙ ready.quiet.lock;
          };
        };
        size = left.size ∙ ready.size;
      }

Resembles-refl : (c : Cache) → Resembles c c
Resembles-refl c = record {
  entries = λ k. record { present = refl; dirty = refl; at = refl; sector = refl };
  cache = λ k. refl;
  sectors = λ s. refl;
  size = refl;
  kind = refl;
}

-- The sectors that a cache shows may be given by any function with the same values.
pub IsCoherent-same :
    (c : Cache) (f g : ℕ → List ℕ) → ((s : ℕ) → g s ≡ f s) → IsCoherent c f → IsCoherent c g
IsCoherent-same c f g same h = record {
  shows = Shows-Resembles c c f g h.shows (Resembles-refl c) same;
  quiet = h.quiet;
}
