-- ===== src/Filesys/Cache/Clock.antt =====
-- The rounds of the clock of `cache_lru`, against its fuel.
use uni_orion_os.Base.{
  ℕ, zero, suc, ◌+◌, ◌-◌, ◌*◌, ◌%◌, ◌≤◌, ◌<◌, ◌≡◌, refl, ◌∙◌, ap, ◌⊎◌, inl, inr, true, false, some,
  ◌==◌, arith, Bool-cases, Option-cases,
}
use uni_orion_os.Devices.Block.{update_self, update-at}
use uni_orion_os.Filesys.Cache.{
  Cache, Supl, cache_size_in_sectors, advance, is_victim, lru_loop, find_absent, cache_lru,
}
use uni_orion_os.Filesys.Cache.Entries.{IsIdle, clear}

clear-IsIdle : (aux : ℕ → Supl) (it k : ℕ) → IsIdle (aux k) → IsIdle (clear aux it k)
clear-IsIdle aux it k idle =
    update-at IsIdle aux it (record (aux it) { accessed = false }) k
      (λ e.
        let idle_it : IsIdle (aux it) = rw e idle in
        record { present = idle_it.present; unpinned = idle_it.unpinned })
      idle

clear_unaccessed :
    (aux : ℕ → Supl) (it k : ℕ) → (aux k).accessed ≡ false → (clear aux it k).accessed ≡ false
clear_unaccessed aux it k h =
    update-at (λ e. e.accessed ≡ false) aux it (record (aux it) { accessed = false }) k (λ e. refl)
      h

victim_now :
    (fuel it : ℕ) (aux : ℕ → Supl)
    → is_victim (aux it) ≡ true
    → lru_loop (suc fuel) it aux ≡ some (it, aux)
unfolding lru_loop
victim_now fuel it aux h = rw h refl

passed :
    (fuel it : ℕ) (aux : ℕ → Supl)
    → is_victim (aux it) ≡ false
    → lru_loop (suc fuel) it aux ≡ lru_loop fuel ((it + 1) % cache_size_in_sectors) (clear aux it)
unfolding lru_loop advance
passed fuel it aux h = rw h refl

-- an idle entry without its mark, `d` entries ahead
reaches_unmarked :
    (d fuel it k : ℕ) (aux : ℕ → Supl)
    → k < cache_size_in_sectors
    → it < cache_size_in_sectors
    → (it + d) % cache_size_in_sectors ≡ k
    → d < fuel
    → IsIdle (aux k)
    → (aux k).accessed ≡ false
    → (i : ℕ) × (aux' : ℕ → Supl) × (lru_loop fuel it aux ≡ some (i, aux'))
reaches_unmarked d zero it k aux inside h there enough idle mark = absurd (omega arith)
reaches_unmarked zero (suc fuel) it k aux inside h there enough idle mark =
    let here : it ≡ k = omega (arith, there, h) in
    let victim : is_victim (aux k) ≡ true = ground (arith, idle.present, idle.unpinned, mark) in
    (it, aux, victim_now fuel it aux (rw here victim))
reaches_unmarked (suc d) (suc fuel) it k aux inside h there enough idle mark =
    elim (Bool-cases (is_victim (aux it))) [
      | inl victim ↦ (it, aux, victim_now fuel it aux victim)
      | inr other ↦
          let (i, aux', run) =
            reaches_unmarked d fuel ((it + 1) % cache_size_in_sectors) k (clear aux it) inside
              (omega arith) (omega (arith, there)) (omega (arith, enough))
              (clear-IsIdle aux it k idle) (clear_unaccessed aux it k mark) in
          (i, aux', passed fuel it aux other ∙ run)
    ]

cleared_here : (aux : ℕ → Supl) (it k : ℕ) → it ≡ k → (clear aux it k).accessed ≡ false
cleared_here aux it k here = rw (← here) (ap (λ e. e.accessed) (update_self aux it _))

-- an idle entry `d` entries ahead, which loses its mark when the clock first passes it
reaches_idle :
    (d fuel it k : ℕ) (aux : ℕ → Supl)
    → k < cache_size_in_sectors
    → it < cache_size_in_sectors
    → (it + d) % cache_size_in_sectors ≡ k
    → d + cache_size_in_sectors < fuel
    → IsIdle (aux k)
    → (i : ℕ) × (aux' : ℕ → Supl) × (lru_loop fuel it aux ≡ some (i, aux'))
reaches_idle d zero it k aux inside h there enough idle = absurd (omega arith)
reaches_idle zero (suc fuel) it k aux inside h there enough idle =
    elim (Bool-cases (is_victim (aux it))) [
      | inl victim ↦ (it, aux, victim_now fuel it aux victim)
      | inr other ↦
          let here : it ≡ k = omega (arith, there, h) in
          let (i, aux', run) =
            reaches_unmarked 63 fuel ((it + 1) % cache_size_in_sectors) k (clear aux it) inside
              (omega arith) (omega (arith, here, h)) (omega (arith, enough))
              (clear-IsIdle aux it k idle) (cleared_here aux it k here) in
          (i, aux', passed fuel it aux other ∙ run)
    ]
reaches_idle (suc d) (suc fuel) it k aux inside h there enough idle =
    elim (Bool-cases (is_victim (aux it))) [
      | inl victim ↦ (it, aux, victim_now fuel it aux victim)
      | inr other ↦
          let (i, aux', run) =
            reaches_idle d fuel ((it + 1) % cache_size_in_sectors) k (clear aux it) inside
              (omega arith) (omega (arith, there)) (omega (arith, enough))
              (clear-IsIdle aux it k idle) in
          (i, aux', passed fuel it aux other ∙ run)
    ]

found_absent :
    (rounds i k : ℕ) (aux : ℕ → Supl)
    → i ≤ k
    → k < i + rounds
    → (aux k).present ≡ false
    → (j : ℕ) × (find_absent rounds i aux ≡ some j)
unfolding find_absent
found_absent zero i k aux h l away = absurd (omega arith)
found_absent (suc rounds) i k aux h l away = elim (Bool-cases (aux i).present) [
  | inr absent ↦ (i, rw absent refl)
  | inl present ↦ elim (Bool-cases (i == k)) [
    | inl same ↦
        let here : i ≡ k = ground (arith, same) in
        let clash : (aux i).present ≡ false = rw here away in
        absurd (ground (arith, clash, present))
    | inr other ↦
        let (j, run) =
          found_absent rounds (i + 1) k aux (ground (arith, h, other)) (omega arith) away in
        (j, rw present run)
  ]
]

-- If an entry of the cache is absent, or is present and not pinned, cache_lru ends and gives an
-- entry.
pub cache_lru-ends :
    (c : Cache) (k : ℕ)
    → k < cache_size_in_sectors
    → c.lru_cursor < cache_size_in_sectors
    → ((c.cache_aux k).present ≡ false) ⊎ IsIdle (c.cache_aux k)
    → (i : ℕ) × (c' : Cache) × (cache_lru c ≡ some (i, c'))
unfolding cache_lru
cache_lru-ends c k inside cursor (inl absent) =
    let (j, run) =
      found_absent cache_size_in_sectors 0 k c.cache_aux (omega arith) (omega arith) absent in
    (j, c, rw run refl)
cache_lru-ends c k inside cursor (inr idle) =
    let (i, aux, run) =
      reaches_idle ((k + cache_size_in_sectors - c.lru_cursor) % cache_size_in_sectors)
        (2 * cache_size_in_sectors + 1) c.lru_cursor k c.cache_aux inside cursor
        (omega (arith, inside, cursor)) (omega arith) idle in
    elim (Option-cases (find_absent cache_size_in_sectors 0 c.cache_aux)) [
      | inl all ↦ (i, record c { cache_aux = aux }, rw (all, run) refl)
      | inr (j, found) ↦ (j, c, rw found refl)
    ]
