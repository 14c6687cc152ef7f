-- ===== src/Filesys/Cache/WriteBack.antt =====
-- Writing an entry back, and taking one out of the cache, change nothing of what is shown.
use uni_orion_os.Base.{
  ℕ, zero, suc, ◌+◌, ◌<◌, ◌≡◌, ◌≢◌, refl, ◌∙◌, sym, ap, inl, inr, true, false, some, List, ◌==◌,
  arith, Bool-cases,
}
use uni_orion_os.Devices.Block.{
  is_foreign, update, update_self, update-cases, after_write, write-ok,
}
use uni_orion_os.Filesys.Cache.{
  Cache, Supl, cache_size_in_sectors, cache_dump_entry, dump_loop, cache_dump_all,
}
use uni_orion_os.Filesys.Cache.Coherence.{IsPending, Shows}

-- the state after an entry was written back
abbrev clean_entry : Cache → ℕ → Supl
clean_entry c i = record (c.cache_aux i) { dirty = false }

abbrev written_back : Cache → ℕ → Cache
written_back c i = record c {
  cache_aux = update c.cache_aux i (clean_entry c i);
  fs_device = after_write c.fs_device (c.cache_aux i).sector_index (c.cache i);
}

-- What `cache_dump_entry` leaves: the same contents, an entry that is not dirty, and the entries as
-- they were but for that.
pub record IsDumped (c : Cache) (f : ℕ → List ℕ) (i : ℕ) (c' : Cache) : Type 0 where
  pub shows : Shows c' f
  pub cleaned : (c'.cache_aux i).dirty ≡ false
  pub dirty : (k : ℕ) → (c.cache_aux k).dirty ≡ false → (c'.cache_aux k).dirty ≡ false
  pub present : (k : ℕ) → (c'.cache_aux k).present ≡ (c.cache_aux k).present
  pub pinned : (k : ℕ) → (c'.cache_aux k).pinned ≡ (c.cache_aux k).pinned
  pub sector : (k : ℕ) → (c'.cache_aux k).sector_index ≡ (c.cache_aux k).sector_index
  pub size : c'.fs_device.size ≡ c.fs_device.size
  pub cursor : c'.lru_cursor ≡ c.lru_cursor
  pub lock : c'.holds_ahead_lock ≡ c.holds_ahead_lock

-- the fields of the entries of `written_back c i`
module _ (c : Cache) (i : ℕ) where
  kept :
      {B : Type 0} (field : Supl → B)
      → ((e : Supl) → field (record e { dirty = false }) ≡ field e)
      → (k : ℕ) → field ((written_back c i).cache_aux k) ≡ field (c.cache_aux k)
  kept field same k = elim (update-cases c.cache_aux i (clean_entry c i) k) [
    | inl (k_eq, now) ↦
        ap field now ∙ same (c.cache_aux i) ∙ ap (λ j. field (c.cache_aux j)) (sym k_eq)
    | inr (ne, now) ↦ ap field now
  ]

  stays_clean :
      (k : ℕ) → (c.cache_aux k).dirty ≡ false → ((written_back c i).cache_aux k).dirty ≡ false
  stays_clean k h = elim (update-cases c.cache_aux i (clean_entry c i) k) [
    | inl (k_eq, now) ↦ ap (λ u. u.dirty) now
    | inr (ne, now) ↦ ap (λ u. u.dirty) now ∙ h
  ]

  clean_here : ((written_back c i).cache_aux i).dirty ≡ false
  clean_here = ap (λ u. u.dirty) (update_self c.cache_aux i (clean_entry c i))

  was_dirty : (k : ℕ) → ((written_back c i).cache_aux k).dirty ≡ true → (c.cache_aux k).dirty ≡ true
  was_dirty k q = elim (Bool-cases (c.cache_aux k).dirty) [
    | inl dirty ↦ dirty
    | inr clean ↦ absurd (ground (arith, q, stays_clean k clean))
  ]

  module _ (f : ℕ → List ℕ) (s : Shows c f) (h : i < cache_size_in_sectors)
      (p : (c.cache_aux i).present ≡ true) where
    written_back-stored :
        (k : ℕ)
        → ((j : ℕ) → j < cache_size_in_sectors → ¬ IsPending ((written_back c i).cache_aux j) k)
        → (written_back c i).fs_device.sectors k ≡ f k
    written_back-stored k none_pending =
        elim (update-cases c.fs_device.sectors (c.cache_aux i).sector_index (c.cache i) k) [
          | inl (k_eq, now) ↦ now ∙ s.cached i h p ∙ ap f (sym k_eq)
          | inr (ne, now) ↦ now ∙ s.stored k (λ j l q. none_pending j l (still j k ne q))
        ]
      where
        still :
            (j k : ℕ)
            → k ≢ (c.cache_aux i).sector_index
            → IsPending (c.cache_aux j) k
            → IsPending ((written_back c i).cache_aux j) k
        still j k ne q = elim (update-cases c.cache_aux i (clean_entry c i) j) [
          | inl (j_eq, now) ↦ absurd (ne (sym q.2 ∙ ap (λ m. (c.cache_aux m).sector_index) j_eq))
          | inr (other, now) ↦ (
            ap (λ u. u.present) now ∙ q.0,
            ap (λ u. u.dirty) now ∙ q.1,
            ap (λ u. u.sector_index) now ∙ q.2,
          )
        ]

    written_back-Shows : Shows (written_back c i) f
    written_back-Shows = record {
      device = s.device;
      cached = λ k l q.
          s.cached k l (sym (kept (λ u. u.present) (λ u. refl) k) ∙ q)
          ∙ ap f (sym (kept (λ u. u.sector_index) (λ u. refl) k));
      stored = written_back-stored;
      own = λ k l q.
          kept (λ u. u.sector_index_in_cache) (λ u. refl) k
          ∙ s.own k l (sym (kept (λ u. u.present) (λ u. refl) k) ∙ q);
      on_disk = λ k l q. omega (
        arith,
        kept (λ u. u.sector_index) (λ u. refl) k,
        s.on_disk k l (sym (kept (λ u. u.present) (λ u. refl) k) ∙ q),
      );
      used = λ k l q. kept (λ u. u.present) (λ u. refl) k ∙ s.used k l (was_dirty k q);
      first = λ j k l m e.
          kept (λ u. u.present) (λ u. refl) k
          ∙ s.first j k l m (
              sym (kept (λ u. u.sector_index) (λ u. refl) j)
              ∙ e
              ∙ kept (λ u. u.sector_index) (λ u. refl) k);
    }

dump_dirty :
    (c : Cache) (i : ℕ)
    → (c.cache_aux i).dirty ≡ true
    → (c.cache_aux i).present ≡ true
    → (c.cache_aux i).sector_index < c.fs_device.size
    → is_foreign c.fs_device.kind ≡ false
    → cache_dump_entry c i ≡ some (written_back c i)
unfolding cache_dump_entry
dump_dirty c i dirty present here device =
    rw (dirty, present, write-ok c.fs_device here (c.cache i) device) refl

dump_clean : (c : Cache) (i : ℕ) → (c.cache_aux i).dirty ≡ false → cache_dump_entry c i ≡ some c
unfolding cache_dump_entry
dump_clean c i clean = rw clean refl

pub cache_dump_entry-IsDumped :
    (c : Cache) (f : ℕ → List ℕ) (i : ℕ)
    → Shows c f
    → i < cache_size_in_sectors
    → (c' : Cache) × (cache_dump_entry c i ≡ some c') × IsDumped c f i c'
cache_dump_entry-IsDumped c f i s h = elim (Bool-cases (c.cache_aux i).dirty) [
  | inl dirty ↦
      let present = s.used i h dirty in
      (
        written_back c i,
        dump_dirty c i dirty present (s.on_disk i h present) s.device,
        record {
          shows = written_back-Shows c i f s h present;
          cleaned = clean_here c i;
          dirty = stays_clean c i;
          present = kept c i (λ u. u.present) (λ u. refl);
          pinned = kept c i (λ u. u.pinned) (λ u. refl);
          sector = kept c i (λ u. u.sector_index) (λ u. refl);
          size = refl;
          cursor = refl;
          lock = refl;
        },
      )
  | inr clean ↦ (
    c,
    dump_clean c i clean,
    record {
      shows = s;
      cleaned = clean;
      dirty = λ k q. q;
      present = λ k. refl;
      pinned = λ k. refl;
      sector = λ k. refl;
      size = refl;
      cursor = refl;
      lock = refl;
    },
  )
]

-- the entries from `i` on are not dirty
dump_loop-Shows :
    (rounds i : ℕ) (c : Cache) (f : ℕ → List ℕ)
    → Shows c f
    → i + rounds ≡ cache_size_in_sectors
    → ((k : ℕ) → k < i → (c.cache_aux k).dirty ≡ false)
    → (c' : Cache) × (dump_loop rounds i c ≡ some c')
      × Shows c' f
      × ((k : ℕ) → k < cache_size_in_sectors → (c'.cache_aux k).dirty ≡ false)
unfolding dump_loop
dump_loop-Shows zero i c f s h done = (c, refl, s, λ k l. done k (omega arith))
dump_loop-Shows (suc rounds) i c f s h done =
    let (c1, e1, d) = cache_dump_entry-IsDumped c f i s (omega arith) in
    let (c', e, shows, clean) =
      dump_loop-Shows rounds (i + 1) c1 f d.shows (omega arith) (λ k l. up_to c1 d k l) in
    (c', rw e1 e, shows, clean)
  where
    up_to : (c1 : Cache) → IsDumped c f i c1 → (k : ℕ) → k < i + 1 → (c1.cache_aux k).dirty ≡ false
    up_to c1 d k l = elim (Bool-cases (k == i)) [
      | inl same ↦
          let k_eq : k ≡ i = ground arith in ap (λ j. (c1.cache_aux j).dirty) k_eq ∙ d.cleaned
      | inr ne ↦ d.dirty k (done k (ground arith))
    ]

pub cache_dump_all-Shows :
    (c : Cache) (f : ℕ → List ℕ)
    → Shows c f
    → (c' : Cache) × (cache_dump_all c ≡ some c')
      × Shows c' f
      × ((s : ℕ) → c'.fs_device.sectors s ≡ f s)
unfolding cache_dump_all
cache_dump_all-Shows c f s =
    let (c', e, shows, clean) =
      dump_loop-Shows cache_size_in_sectors 0 c f s refl (λ k l. absurd (omega arith)) in
    (c', e, shows, λ k. shows.stored k (λ i h p. absurd (ground (arith, p.1, clean i h))))
