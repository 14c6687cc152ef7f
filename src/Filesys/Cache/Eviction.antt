-- ===== src/Filesys/Cache/Eviction.antt =====
-- An access gets an entry that it may use for its sector, and the contents stay the same.
use uni_orion_os.Base.{
  ℕ, ◌≤◌, ◌<◌, ◌≡◌, ◌≢◌, refl, ◌∙◌, sym, ap, inl, inr, true, false, Option, none, some, List, ◌==◌,
  ltb, arith, Bool-cases,
}
use uni_orion_os.Devices.Block.{update, update_self, update-cases}
use uni_orion_os.Filesys.Cache.{
  Cache, cache_size_in_sectors, cache_dump_entry, find_sector, cache_lru, cache_evict,
  cache_atomic_get_supl_data_and_pin,
}
use uni_orion_os.Filesys.Cache.Coherence.{IsPending, Shows, IsSlot, Shows-Resembles}
use uni_orion_os.Filesys.Cache.Pins.{pinned_at, with_pin, get-hit}
use uni_orion_os.Filesys.Cache.WriteBack.{cache_dump_entry-IsDumped}
use uni_orion_os.Filesys.Cache.Slots.{
  IsQuiet, Lookup, nowhere, found, find_sector-Lookup, lru-Cleared,
}

abbrev dropped : Cache → ℕ → Cache
dropped c i = record c {
  cache_aux = update c.cache_aux i (record (c.cache_aux i) { present = false });
}

module _ (c : Cache) (i : ℕ) where
  -- a present entry of `dropped c i` is another entry than `i`
  other_entry :
      (k : ℕ)
      → ((dropped c i).cache_aux k).present ≡ true
      → (k ≢ i) × ((dropped c i).cache_aux k ≡ c.cache_aux k)
  other_entry k p =
      elim (update-cases c.cache_aux i (record (c.cache_aux i) { present = false }) k) [
        | inl (k_eq, now) ↦ absurd (ground (arith, ap (λ u. u.present) now, p))
        | inr both ↦ both
      ]

  dropped_sector : (k : ℕ) → ((dropped c i).cache_aux k).sector_index ≡ (c.cache_aux k).sector_index
  dropped_sector k =
      elim (update-cases c.cache_aux i (record (c.cache_aux i) { present = false }) k) [
        | inl (k_eq, now) ↦
            ap (λ u. u.sector_index) now ∙ ap (λ j. (c.cache_aux j).sector_index) (sym k_eq)
        | inr (ne, now) ↦ ap (λ u. u.sector_index) now
      ]

  dropped_pinned : (k : ℕ) → ((dropped c i).cache_aux k).pinned ≡ (c.cache_aux k).pinned
  dropped_pinned k =
      elim (update-cases c.cache_aux i (record (c.cache_aux i) { present = false }) k) [
        | inl (k_eq, now) ↦ ap (λ u. u.pinned) now ∙ ap (λ j. (c.cache_aux j).pinned) (sym k_eq)
        | inr (ne, now) ↦ ap (λ u. u.pinned) now
      ]

  dropped_absent : ((dropped c i).cache_aux i).present ≡ false
  dropped_absent = ap (λ u. u.present) (update_self c.cache_aux i _)

  module _ (f : ℕ → List ℕ) (s : Shows c f) (clean : (c.cache_aux i).dirty ≡ false) where
    -- an entry that is dirty is another entry than `i`
    dropped-used :
        (k : ℕ)
        → k < cache_size_in_sectors
        → ((dropped c i).cache_aux k).dirty ≡ true
        → ((dropped c i).cache_aux k).present ≡ true
    dropped-used k h q =
        elim (update-cases c.cache_aux i (record (c.cache_aux i) { present = false }) k) [
          | inl (k_eq, now) ↦ absurd (ground (arith, ap (λ u. u.dirty) now, q, clean))
          | inr (ne, now) ↦ ap (λ u. u.present) now ∙ s.used k h (ap (λ u. u.dirty) (sym now) ∙ q)
        ]

    dropped-IsPending :
        (j k : ℕ) → IsPending (c.cache_aux j) k → IsPending ((dropped c i).cache_aux j) k
    dropped-IsPending j k q =
        elim (update-cases c.cache_aux i (record (c.cache_aux i) { present = false }) j) [
          | inl (j_eq, now) ↦
              let dirty : (c.cache_aux i).dirty ≡ true =
                ap (λ m. (c.cache_aux m).dirty) (sym j_eq) ∙ q.1 in
              absurd (ground (arith, dirty, clean))
          | inr (ne, now) ↦ (
            ap (λ u. u.present) now ∙ q.0,
            ap (λ u. u.dirty) now ∙ q.1,
            ap (λ u. u.sector_index) now ∙ q.2,
          )
        ]

    dropped-first :
        (j k : ℕ)
        → j < k
        → k < cache_size_in_sectors
        → ((dropped c i).cache_aux j).sector_index ≡ ((dropped c i).cache_aux k).sector_index
        → ((dropped c i).cache_aux k).present ≡ false
    dropped-first j k l h e =
        let gone : (c.cache_aux k).present ≡ false =
          s.first j k l h (sym (dropped_sector j) ∙ e ∙ dropped_sector k) in
        elim (Bool-cases ((dropped c i).cache_aux k).present) [
          | inl p ↦ absurd (ground (arith, ap (λ u. u.present) (other_entry k p).1, p, gone))
          | inr away ↦ away
        ]

    dropped-Shows : Shows (dropped c i) f
    dropped-Shows = record {
      device = s.device;
      cached = λ k h p.
          let same = (other_entry k p).1 in
          s.cached k h (ap (λ u. u.present) (sym same) ∙ p) ∙ ap (λ u. f u.sector_index) (sym same);
      stored = λ k h. s.stored k (λ j l q. h j l (dropped-IsPending j k q));
      own = λ k h p.
          let same = (other_entry k p).1 in
          ap (λ u. u.sector_index_in_cache) same ∙ s.own k h (ap (λ u. u.present) (sym same) ∙ p);
      on_disk = λ k h p.
          let same = (other_entry k p).1 in
          omega (arith, dropped_sector k, s.on_disk k h (ap (λ u. u.present) (sym same) ∙ p));
      used = dropped-used;
      first = dropped-first;
    }

-- What an eviction gives: an entry that is not present, and the same contents.
record Evicted (c : Cache) (f : ℕ → List ℕ) (i : ℕ) (c' : Cache) : Type 0 where
  pub shows : Shows c' f
  pub quiet : IsQuiet c'
  pub inside : i < cache_size_in_sectors
  pub absent : (c'.cache_aux i).present ≡ false
  pub sector : (k : ℕ) → (c'.cache_aux k).sector_index ≡ (c.cache_aux k).sector_index
  pub size : c'.fs_device.size ≡ c.fs_device.size

evict_step :
    (c : Cache) {i : ℕ} {c1 c2 : Cache}
    → cache_lru c ≡ some (i, c1)
    → cache_dump_entry c1 i ≡ some c2
    → (c2.cache_aux i).pinned ≡ 0
    → cache_evict c ≡ some (i, dropped c2 i)
unfolding cache_evict
evict_step c {i} {c1} {c2} lru dumped free =
    let is : ((c2.cache_aux i).pinned == 0) ≡ true = ground (arith, free) in
    rw (lru, dumped, is) refl

cache_evict-Evicted :
    (c : Cache) (f : ℕ → List ℕ)
    → Shows c f
    → IsQuiet c
    → (i : ℕ) × (c' : Cache) × (cache_evict c ≡ some (i, c')) × Evicted c f i c'
cache_evict-Evicted c f s q =
    let (i, aux, lru, inside, cleared) = lru-Cleared c q in
    let c1 = record c { cache_aux = aux } in
    let shows1 : Shows c1 f =
      Shows-Resembles c c1 f f s
        (record {
          entries = λ k. record {
            present = cleared.present k;
            dirty = cleared.dirty k;
            at = cleared.at k;
            sector = cleared.sector k;
          };
          cache = λ k. refl;
          sectors = λ k. refl;
          size = refl;
          kind = refl;
        })
        (λ k. refl) in
    let (c2, dump, d) = cache_dump_entry-IsDumped c1 f i shows1 inside in
    let free =
      λ (k : ℕ) (h : k < cache_size_in_sectors). d.pinned k ∙ cleared.pinned k ∙ q.unpinned k h in
    (
      i,
      dropped c2 i,
      evict_step c lru dump (free i inside),
      record {
        shows = dropped-Shows c2 i f d.shows d.cleaned;
        quiet = record {
          unpinned = λ k h. dropped_pinned c2 i k ∙ free k h;
          cursor = omega (arith, d.cursor, q.cursor);
          lock = d.lock ∙ q.lock;
        };
        inside = inside;
        absent = dropped_absent c2 i;
        sector = λ k. dropped_sector c2 i k ∙ d.sector k ∙ cleared.sector k;
        size = d.size;
      },
    )

-- What an access works on: the cache before the pin, and the entry.
pub record Ready (c : Cache) (f : ℕ → List ℕ) (index i : ℕ) (c' : Cache) : Type 0 where
  pub shows : Shows c' f
  pub quiet : IsQuiet c'
  pub slot : IsSlot c' i index
  pub size : c'.fs_device.size ≡ c.fs_device.size

get-miss :
    (c : Cache) (index : ℕ) {i : ℕ} {c' : Cache}
    → find_sector cache_size_in_sectors 0 c.cache_aux index ≡ none
    → cache_evict c ≡ some (i, c')
    → cache_atomic_get_supl_data_and_pin c index ≡ some (pinned_at c' i, i, with_pin c' i)
unfolding cache_atomic_get_supl_data_and_pin
get-miss c index missing evicted = rw (missing, evicted) refl

pub get-Ready :
    (c : Cache) (f : ℕ → List ℕ) (index : ℕ)
    → Shows c f
    → IsQuiet c
    → (i : ℕ) × (c' : Cache) × (cache_atomic_get_supl_data_and_pin c index
        ≡ some (pinned_at c' i, i, with_pin c' i))
      × Ready c f index i c'
get-Ready c f index s q =
    go (find_sector cache_size_in_sectors 0 c.cache_aux index) refl
      (find_sector-Lookup cache_size_in_sectors 0 c.cache_aux index)
  where
    others :
        {i : ℕ}
        → (c.cache_aux i).sector_index ≡ index
        → ((j : ℕ) → 0 ≤ j → j < i → (c.cache_aux j).sector_index ≢ index)
        → (j : ℕ) → j < cache_size_in_sectors
        → j ≢ i
        → (c.cache_aux j).present ≡ true
        → (c.cache_aux j).sector_index ≢ index
    others {i} at before j h ne p e = elim (Bool-cases (ltb j i)) [
      | inl less ↦ before j (omega arith) (ground (arith, less)) e
      | inr more ↦
          let gone = s.first i j (ground (arith, more, ne)) h (at ∙ sym e) in
          ground (arith, p, gone)
    ]

    go :
        (o : Option ℕ)
        → find_sector cache_size_in_sectors 0 c.cache_aux index ≡ o
        → Lookup c.cache_aux index 0 cache_size_in_sectors o
        → (i : ℕ) × (c' : Cache) × (cache_atomic_get_supl_data_and_pin c index
            ≡ some (pinned_at c' i, i, with_pin c' i))
          × Ready c f index i c'
    go none e (nowhere away) =
        let (i, c', run, v) = cache_evict-Evicted c f s q in
        (
          i,
          c',
          get-miss c index e run,
          record {
            shows = v.shows;
            quiet = v.quiet;
            slot = record {
              inside = v.inside;
              before =
                  λ j h at. away j (omega arith) (omega (arith, v.inside)) (sym (v.sector j) ∙ at);
              other = λ j h ne p at. away j (omega arith) (omega arith) (sym (v.sector j) ∙ at);
              mine = λ p. absurd (ground (arith, p, v.absent));
            };
            size = v.size;
          },
        )
    go (some i) e (found h at before) = (
      i,
      c,
      get-hit c index i e,
      record {
        shows = s;
        quiet = q;
        slot = record {
          inside = omega arith;
          before = λ j l. before j (omega arith) l;
          other = others at before;
          mine = λ p. at;
        };
        size = refl;
      },
    )
