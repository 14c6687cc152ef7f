-- ===== src/Filesys/FreeMap/Sectors.antt =====
-- Which sectors an allocation takes and a release gives back.
use mathlib.Core.Path.{subst₂}
use uni_orion_os.Base.{
  ℕ, ◌+◌, ◌-◌, ◌*◌, ◌^◌, ◌≤◌, ◌<◌, ◌≡◌, inl, inr, refl, ◌∙◌, sym, ap, Bool, true, false, not,
  Option, none, some, List, arith, ltb, ◌==◌, eq→==, if◌then◌else◌, Bool-cases, length,
}
use uni_orion_os.Kernel.Bitmap.{Bitmap, bitmap_error, bitmap_scan_and_flip, bitmap_all}
use uni_orion_os.Kernel.Bitmap.View.{view, IsValid, Becomes, mark-Yields}
use uni_orion_os.Kernel.Bitmap.Ranges.{
  in_range, Search, found, absent, contains-Search, set_multiple-Yields, create-Fresh, all-contains,
}
use uni_orion_os.Kernel.Bitmap.Scan.{
  Group, Mixed, FlipOutcome, taken, failed, scan_and_flip-FlipOutcome,
}
use uni_orion_os.Filesys.FreeMap.{
  FreeMap, MapFile, free_map_init, free_map_allocate, free_map_release,
}

abbrev pub in_use : {W : Type 0} → FreeMap W → ℕ → Bool
in_use s = view s.free_map

-- `cnt` free sectors were taken, from `sector` on, and no other.
pub record Granted {W : Type 0} (s : FreeMap W) (cnt sector : ℕ) (s' : FreeMap W) : Type 0 where
  pub inside : sector + cnt ≤ s.free_map.bit_cnt
  pub were_free : Group s.free_map sector cnt false
  pub now_used :
      Becomes s.free_map (λ i. if in_range sector cnt i then true else in_use s i) s'.free_map
  pub still_open : s'.is_open ≡ s.is_open

module _ {W : Type 0} (io : MapFile W) where
  -- What `free_map_allocate` may do. A refusal has a reason, and leaves every bit as it was.
  pub data Allocation (s : FreeMap W) (cnt : ℕ) : Option ℕ → FreeMap W → Type 0 where
    granted :
        {sector : ℕ} {s' : FreeMap W} → Granted s cnt sector s' → Allocation s cnt (some sector) s'
    no_room :
        ((j : ℕ) → j + cnt ≤ s.free_map.bit_cnt → Mixed s.free_map j cnt false)
        → Allocation s cnt none s
    not_written :
        {map : Bitmap} {s' : FreeMap W}
        → s.is_open ≡ true
        → (io.bitmap_write map s.world).0 ≡ false
        → Becomes s.free_map (in_use s) s'.free_map
        → Allocation s cnt none s'

module _ {W : Type 0} (io : MapFile W) where
  -- On a valid free map, free_map_allocate does not panic. Either it grants CNT consecutive
  -- sectors of the device that were all free, and exactly these become used; or it refuses
  -- because no such group is free, and the state is unchanged; or it refuses because the open
  -- map file could not be written, and every bit is as before.
  pub allocate-Allocation :
      (s : FreeMap W) (cnt : ℕ)
      → IsValid s.free_map
      → (r : Option ℕ) × (s' : FreeMap W) × (free_map_allocate io s cnt ≡ some (r, s'))
        × Allocation io s cnt r s'
  unfolding free_map_allocate
  allocate-Allocation s cnt valid =
      let (r, map, e, f) = scan_and_flip-FlipOutcome s.free_map 0 cnt false valid (omega arith) in
      go r map e f
    where
      Result : Type 0
      Result =
          (r : Option ℕ) × (s' : FreeMap W) × (free_map_allocate io s cnt ≡ some (r, s'))
          × Allocation io s cnt r s'

      go :
          (r : ℕ) (map : Bitmap)
          → bitmap_scan_and_flip s.free_map 0 cnt false ≡ some (r, map)
          → FlipOutcome s.free_map 0 cnt false r map
          → Result
      go r map e (failed gone mixed same) = (
        none,
        s,
        rw (e, eq→== r bitmap_error gone) (ap (λ t. some (none, record s { free_map = t })) same),
        no_room (λ j h. mixed j (omega arith) h),
      )
      go r map e (taken here scan fits group done) =
          let apart : (r == bitmap_error) ≡ false = ground arith in
          elim (Bool-cases s.is_open) [
            | inr shut ↦ (
              some r,
              record s { free_map = map },
              rw (e, apart, shut) refl,
              granted
                  (record { inside = fits; were_free = group; now_used = done; still_open = refl }),
            )
            | inl opened ↦ elim (Bool-cases (io.bitmap_write map s.world).0) [
              | inl written ↦ (
                some r,
                record s { free_map = map; world = (io.bitmap_write map s.world).1 },
                rw (e, apart, opened, written) refl,
                granted (record {
                  inside = fits;
                  were_free = group;
                  now_used = done;
                  still_open = refl;
                }),
              )
              | inr not_done ↦
                  let (map', e', undone) =
                    set_multiple-Yields map r cnt done.valid (omega (arith, done.size)) false in
                  (
                    none,
                    record s { free_map = map'; world = (io.bitmap_write map s.world).1 },
                    rw (e, apart, opened, not_done) (rw e' refl),
                    not_written opened not_done (record {
                      valid = undone.valid;
                      size = undone.size ∙ done.size;
                      bits = λ i. undone.bits i ∙ ground (arith, done.bits i, group i);
                    }),
                  )
            ]
          ]

  -- On a valid free map whose file is open, free_map_release of a range of sectors that are all
  -- in use does not panic, frees exactly these sectors, and leaves the map valid and its file
  -- open.
  pub release-Becomes :
      (s : FreeMap W) (sector cnt : ℕ)
      → IsValid s.free_map
      → s.is_open ≡ true
      → sector + cnt ≤ s.free_map.bit_cnt
      → Group s.free_map sector cnt true
      → (s' : FreeMap W) × (free_map_release io s sector cnt ≡ some s')
        × Becomes s.free_map (λ i. if in_range sector cnt i then false else in_use s i) s'.free_map
        × (s'.is_open ≡ true)
  unfolding free_map_release
  release-Becomes s sector cnt valid opened fits group =
      let (r, e, found_or_not) = contains-Search s.free_map sector cnt valid fits false in
      let none_free : r ≡ false = no_free found_or_not in
      let (map, e', done) = set_multiple-Yields s.free_map sector cnt valid fits false in
      let all : bitmap_all s.free_map sector cnt ≡ some true =
        all-contains s.free_map sector cnt e ∙ ap (λ b. some (not b)) none_free in
      (
        record s { free_map = map; world = (io.bitmap_write map s.world).1 },
        rw all (rw e' (rw opened refl)),
        done,
        opened,
      )
    where
      no_free : {r : Bool} → Search s.free_map sector cnt false r → r ≡ false
      no_free (found i h k e) = cc (group i h k)
      no_free (absent _) = refl

  -- On a valid free map, free_map_release of a range of the device that contains a free sector
  -- stops the kernel.
  pub release-panic :
      (s : FreeMap W) (sector cnt i : ℕ)
      → IsValid s.free_map
      → sector + cnt ≤ s.free_map.bit_cnt
      → sector ≤ i
      → i < sector + cnt
      → in_use s i ≡ false
      → free_map_release io s sector cnt ≡ none
  unfolding free_map_release
  release-panic s sector cnt i valid fits h k free =
      let (r, e, found_or_not) = contains-Search s.free_map sector cnt valid fits false in
      let some_free : r ≡ true = a_free found_or_not in
      let not_all : bitmap_all s.free_map sector cnt ≡ some false =
        all-contains s.free_map sector cnt e ∙ ap (λ b. some (not b)) some_free in
      rw not_all refl
    where
      a_free : {r : Bool} → Search s.free_map sector cnt false r → r ≡ true
      a_free (found j _ _ e) = refl
      a_free (absent none_in) = cc (none_in i h k)

  allocate-Granted :
      (s : FreeMap W) (cnt : ℕ) {sector : ℕ} {s' : FreeMap W}
      → IsValid s.free_map
      → free_map_allocate io s cnt ≡ some (some sector, s')
      → Granted s cnt sector s'
  allocate-Granted s cnt {sector} {s'} valid e =
      let (r, t, e', a) = allocate-Allocation s cnt valid in go r t (sym e' ∙ e) a
    where
      go :
          (r : Option ℕ) (t : FreeMap W)
          → ◌≡◌ {A = Option (Option ℕ × FreeMap W)} (some (r, t)) (some (some sector, s'))
          → Allocation io s cnt r t
          → Granted s cnt sector s'
      go r t same (no_room _) = cc
      go r t same (not_written _ _ _) = cc
      go r t same (granted {sector = n} g) =
          let n_eq : n ≡ sector = cc in
          let t_eq : t ≡ s' = cc in subst₂ (λ k u. Granted s cnt k u) n_eq t_eq g

  -- On a valid free map whose file is open, releasing what an allocation granted does not panic,
  -- and the sectors in use are again those of before the allocation.
  pub release-allocate :
      (s : FreeMap W) (cnt : ℕ) {sector : ℕ} {s' : FreeMap W}
      → IsValid s.free_map
      → s.is_open ≡ true
      → free_map_allocate io s cnt ≡ some (some sector, s')
      → (s'' : FreeMap W) × (free_map_release io s' sector cnt ≡ some s'')
        × ((i : ℕ) → in_use s'' i ≡ in_use s i)
  release-allocate s cnt {sector} {s'} valid opened e =
      let g = allocate-Granted s cnt valid e in
      let (s'', e', back, _) =
        release-Becomes s' sector cnt g.now_used.valid (g.still_open ∙ opened)
          (omega (arith, g.now_used.size, g.inside)) (λ i h k. g.now_used.bits i ∙ ground arith) in
      (s'', e', λ i. back.bits i ∙ ground (arith, g.now_used.bits i, g.were_free i))

  -- On a valid free map, two allocations in a row that are both granted share no sector.
  pub allocate-disjoint :
      (s : FreeMap W) (n m i : ℕ) {a b : ℕ} {s₁ s₂ : FreeMap W}
      → IsValid s.free_map
      → free_map_allocate io s n ≡ some (some a, s₁)
      → free_map_allocate io s₁ m ≡ some (some b, s₂)
      → in_range a n i ≡ true
      → in_range b m i ≡ false
  allocate-disjoint s n m i {s₁} valid e₁ e₂ h =
      let g = allocate-Granted s n valid e₁ in
      let g' = allocate-Granted s₁ m g.now_used.valid e₂ in
      ground (arith, g.now_used.bits i, g'.were_free i)

-- For a device of at least two sectors, when the memory for the bitmap is given, free_map_init
-- does not panic and gives a valid map of the size of the device, in which exactly sectors 0 and
-- 1 are in use.
pub init-in_use :
    {W : Type 0} (n : ℕ) (words : List ℕ) (world : W)
    → 2 ≤ n
    → n ≤ 32 * length words
    → n < 2 ^ 32 - 32
    → (s : FreeMap W) × (free_map_init n true (some words) world ≡ some s)
      × IsValid s.free_map
      × (s.free_map.bit_cnt ≡ n)
      × ((i : ℕ) → i < n → in_use s i ≡ ltb i 2)
unfolding free_map_init
init-in_use n words world two enough small =
    let (b, e, fresh) = create-Fresh n words enough small in
    let (b₁, e₁, one) = mark-Yields {b = b} {idx = 0} fresh.valid (omega (arith, fresh.size)) in
    let (b₂, e₂, both) =
      mark-Yields {b = b₁} {idx = 1} one.valid (omega (arith, one.size, fresh.size)) in
    (
      record { free_map = b₂; is_open = false; world = world },
      rw e (rw e₁ (rw e₂ refl)),
      both.valid,
      both.size ∙ one.size ∙ fresh.size,
      λ i h. ground (arith, both.bits i, one.bits i, fresh.clear i h),
    )
