-- ===== src/Filesys/Cache/Coherence.antt =====
-- What the cache and the disk hold together, as one array of sectors, and what filling an entry does
-- to it.
use uni_orion_os.Base.{
  ℕ, ◌<◌, ◌≡◌, ◌≢◌, ◌∙◌, sym, ap, inl, inr, Bool, true, false, List, arith, Bool-cases,
}
use uni_orion_os.Devices.Block.{is_foreign, update, update_self, update_ne, update-cases}
use uni_orion_os.Filesys.Cache.{Cache, Supl, cache_size_in_sectors}

-- `e` is in use for the sector and was not written back
abbrev pub IsPending : Supl → ℕ → Type 0
IsPending e s = (e.present ≡ true) × (e.dirty ≡ true) × (e.sector_index ≡ s)

-- The cache over its disk is the array of sectors `f`.
pub record Shows (c : Cache) (f : ℕ → List ℕ) : Type 0 where
  pub device : is_foreign c.fs_device.kind ≡ false
  pub cached :
      (i : ℕ)
      → i < cache_size_in_sectors
      → (c.cache_aux i).present ≡ true
      → c.cache i ≡ f (c.cache_aux i).sector_index
  pub stored :
      (s : ℕ)
      → ((i : ℕ) → i < cache_size_in_sectors → ¬ IsPending (c.cache_aux i) s)
      → c.fs_device.sectors s ≡ f s
  pub own :
      (i : ℕ)
      → i < cache_size_in_sectors
      → (c.cache_aux i).present ≡ true
      → (c.cache_aux i).sector_index_in_cache ≡ i
  pub on_disk :
      (i : ℕ)
      → i < cache_size_in_sectors
      → (c.cache_aux i).present ≡ true
      → (c.cache_aux i).sector_index < c.fs_device.size
  pub used :
      (i : ℕ)
      → i < cache_size_in_sectors
      → (c.cache_aux i).dirty ≡ true
      → (c.cache_aux i).present ≡ true
  pub first :
      (i j : ℕ)
      → i < j
      → j < cache_size_in_sectors
      → (c.cache_aux i).sector_index ≡ (c.cache_aux j).sector_index
      → (c.cache_aux j).present ≡ false

-- the entries have the same part in the contents
pub record IsSame (e e' : Supl) : Type 0 where
  pub present : e'.present ≡ e.present
  pub dirty : e'.dirty ≡ e.dirty
  pub at : e'.sector_index_in_cache ≡ e.sector_index_in_cache
  pub sector : e'.sector_index ≡ e.sector_index

-- Entry `i` may be used for the sector.
pub record IsSlot (c : Cache) (i index : ℕ) : Type 0 where
  pub inside : i < cache_size_in_sectors
  pub before : (j : ℕ) → j < i → (c.cache_aux j).sector_index ≢ index
  pub other :
      (j : ℕ)
      → j < cache_size_in_sectors
      → j ≢ i
      → (c.cache_aux j).present ≡ true
      → (c.cache_aux j).sector_index ≢ index
  pub mine : (c.cache_aux i).present ≡ true → (c.cache_aux i).sector_index ≡ index

-- The two caches have the same part in the contents.
pub record Resembles (c c' : Cache) : Type 0 where
  pub entries : (k : ℕ) → IsSame (c.cache_aux k) (c'.cache_aux k)
  pub cache : (k : ℕ) → c'.cache k ≡ c.cache k
  pub sectors : (s : ℕ) → c'.fs_device.sectors s ≡ c.fs_device.sectors s
  pub size : c'.fs_device.size ≡ c.fs_device.size
  pub kind : is_foreign c'.fs_device.kind ≡ is_foreign c.fs_device.kind

pub Shows-Resembles :
    (c c' : Cache) (f g : ℕ → List ℕ)
    → Shows c f
    → Resembles c c'
    → ((s : ℕ) → g s ≡ f s)
    → Shows c' g
Shows-Resembles c c' f g s r same = record {
  device = r.kind ∙ s.device;
  cached = λ i h p.
      r.cache i
      ∙ s.cached i h (sym (r.entries i).present ∙ p)
      ∙ ap f (sym (r.entries i).sector)
      ∙ sym (same (c'.cache_aux i).sector_index);
  stored = λ k h.
      r.sectors k
      ∙ s.stored k (λ i l p.
        h i l ((r.entries i).present ∙ p.0, (r.entries i).dirty ∙ p.1, (r.entries i).sector ∙ p.2))
      ∙ sym (same k);
  own = λ i h p. (r.entries i).at ∙ s.own i h (sym (r.entries i).present ∙ p);
  on_disk = λ i h p.
      omega (arith, (r.entries i).sector, r.size, s.on_disk i h (sym (r.entries i).present ∙ p));
  used = λ i h p. (r.entries i).present ∙ s.used i h (sym (r.entries i).dirty ∙ p);
  first = λ i j l h e.
      (r.entries j).present ∙ s.first i j l h (sym (r.entries i).sector ∙ e ∙ (r.entries j).sector);
}

-- the entry that `cache_read` and `cache_write` leave
pub record IsFilled (e : Supl) (i index : ℕ) (dirty : Bool) : Type 0 where
  pub present : e.present ≡ true
  pub dirt : e.dirty ≡ dirty
  pub at : e.sector_index_in_cache ≡ i
  pub sector : e.sector_index ≡ index

module _ (c : Cache) (f : ℕ → List ℕ) (i index : ℕ) (e : Supl) (v : List ℕ) (dirty : Bool)
    (s : Shows c f) (slot : IsSlot c i index) (filled : IsFilled e i index dirty)
    (here : index < c.fs_device.size) where
  abbrev pub fill : Cache
  fill = record c { cache_aux = update c.cache_aux i e; cache = update c.cache i v }

  fill-cached :
      (k : ℕ)
      → k < cache_size_in_sectors
      → (fill.cache_aux k).present ≡ true
      → fill.cache k ≡ update f index v (fill.cache_aux k).sector_index
  fill-cached k h p = elim (update-cases c.cache_aux i e k) [
    | inl (k_eq, now) ↦
        ap (update c.cache i v) k_eq
        ∙ update_self c.cache i v
        ∙ sym (update_self f index v)
        ∙ ap (update f index v) (sym (ap (λ u. u.sector_index) now ∙ filled.sector))
    | inr (ne, now) ↦
        let was : (c.cache_aux k).present ≡ true = ap (λ u. u.present) (sym now) ∙ p in
        update_ne c.cache i v k ne
        ∙ s.cached k h was
        ∙ sym (update_ne f index v (c.cache_aux k).sector_index (slot.other k h ne was))
        ∙ ap (λ u. update f index v u.sector_index) (sym now)
  ]

  fill-stored :
      (dirty ≡ false → c.fs_device.sectors index ≡ v)
      → (k : ℕ) → ((j : ℕ) → j < cache_size_in_sectors → ¬ IsPending (fill.cache_aux j) k)
      → c.fs_device.sectors k ≡ update f index v k
  fill-stored clean k h = elim (update-cases f index v k) [
    | inl (k_eq, now) ↦ elim (Bool-cases dirty) [
      | inl is_dirty ↦
          let self = update_self c.cache_aux i e in
          absurd (
            h i slot.inside (
              ap (λ u. u.present) self ∙ filled.present,
              ap (λ u. u.dirty) self ∙ filled.dirt ∙ is_dirty,
              ap (λ u. u.sector_index) self ∙ filled.sector ∙ sym k_eq,
            ))
      | inr is_clean ↦ ap c.fs_device.sectors k_eq ∙ clean is_clean ∙ sym now
    ]
    | inr (ne, now) ↦ s.stored k (λ j l p. others j l k ne h p) ∙ sym now
  ]
    where
      others :
          (j : ℕ)
          → j < cache_size_in_sectors
          → (k : ℕ) → k ≢ index
          → ((j : ℕ) → j < cache_size_in_sectors → ¬ IsPending (fill.cache_aux j) k)
          → ¬ IsPending (c.cache_aux j) k
      others j l k ne h p = elim (update-cases c.cache_aux i e j) [
        | inl (j_eq, now) ↦
            let at : (c.cache_aux j).sector_index ≡ index =
              ap (λ m. (c.cache_aux m).sector_index) j_eq
              ∙ slot.mine (ap (λ m. (c.cache_aux m).present) (sym j_eq) ∙ p.0) in
            ne (sym p.2 ∙ at)
        | inr (other, now) ↦ h j l (
          ap (λ u. u.present) now ∙ p.0,
          ap (λ u. u.dirty) now ∙ p.1,
          ap (λ u. u.sector_index) now ∙ p.2,
        )
      ]

  fill-first :
      (j k : ℕ)
      → j < k
      → k < cache_size_in_sectors
      → (fill.cache_aux j).sector_index ≡ (fill.cache_aux k).sector_index
      → (fill.cache_aux k).present ≡ false
  fill-first j k l h eq = elim (update-cases c.cache_aux i e k) [
    | inl (k_eq, now) ↦
        let ne : j ≢ i = λ j_eq. omega (arith, k_eq, j_eq) in
        let at : (c.cache_aux j).sector_index ≡ index =
          ap (λ u. u.sector_index) (sym (update_ne c.cache_aux i e j ne))
          ∙ eq
          ∙ ap (λ u. u.sector_index) now
          ∙ filled.sector in
        absurd (slot.before j (omega (arith, k_eq)) at)
    | inr (ne, now) ↦ ap (λ u. u.present) now ∙ elim (update-cases c.cache_aux i e j) [
      | inl (j_eq, then_now) ↦
          let at : (c.cache_aux k).sector_index ≡ index =
            ap (λ u. u.sector_index) (sym now)
            ∙ sym eq
            ∙ ap (λ u. u.sector_index) then_now
            ∙ filled.sector in
          absent k h ne at
      | inr (other, then_now) ↦
          s.first j k l h
            (ap (λ u. u.sector_index) (sym then_now) ∙ eq ∙ ap (λ u. u.sector_index) now)
    ]
  ]
    where
      absent :
          (k : ℕ)
          → k < cache_size_in_sectors
          → k ≢ i
          → (c.cache_aux k).sector_index ≡ index
          → (c.cache_aux k).present ≡ false
      absent k h ne at = elim (Bool-cases (c.cache_aux k).present) [
        | inl present ↦ absurd (slot.other k h ne present at)
        | inr away ↦ away
      ]

  fill-own :
      (k : ℕ)
      → k < cache_size_in_sectors
      → (fill.cache_aux k).present ≡ true
      → (fill.cache_aux k).sector_index_in_cache ≡ k
  fill-own k h p = elim (update-cases c.cache_aux i e k) [
    | inl (k_eq, now) ↦ ap (λ u. u.sector_index_in_cache) now ∙ filled.at ∙ sym k_eq
    | inr (ne, now) ↦
        ap (λ u. u.sector_index_in_cache) now ∙ s.own k h (ap (λ u. u.present) (sym now) ∙ p)
  ]

  fill-on_disk :
      (k : ℕ)
      → k < cache_size_in_sectors
      → (fill.cache_aux k).present ≡ true
      → (fill.cache_aux k).sector_index < c.fs_device.size
  fill-on_disk k h p = elim (update-cases c.cache_aux i e k) [
    | inl (k_eq, now) ↦
        let at : (fill.cache_aux k).sector_index ≡ index =
          ap (λ u. u.sector_index) now ∙ filled.sector in
        omega (arith, at, here)
    | inr (ne, now) ↦
        let at : (fill.cache_aux k).sector_index ≡ (c.cache_aux k).sector_index =
          ap (λ u. u.sector_index) now in
        omega (arith, at, s.on_disk k h (ap (λ u. u.present) (sym now) ∙ p))
  ]

  fill-used :
      (k : ℕ)
      → k < cache_size_in_sectors
      → (fill.cache_aux k).dirty ≡ true
      → (fill.cache_aux k).present ≡ true
  fill-used k h p = elim (update-cases c.cache_aux i e k) [
    | inl (k_eq, now) ↦ ap (λ u. u.present) now ∙ filled.present
    | inr (ne, now) ↦ ap (λ u. u.present) now ∙ s.used k h (ap (λ u. u.dirty) (sym now) ∙ p)
  ]

  pub Shows-fill : (dirty ≡ false → c.fs_device.sectors index ≡ v) → Shows fill (update f index v)
  Shows-fill clean = record {
    device = s.device;
    cached = fill-cached;
    stored = fill-stored clean;
    own = fill-own;
    on_disk = fill-on_disk;
    used = fill-used;
    first = fill-first;
  }
