-- ===== src/Filesys/Cache/Entries.antt =====
-- Eviction: the clock of `cache_lru`.
use uni_orion_os.Base.{
  ℕ, zero, suc, ◌+◌, ◌*◌, ◌%◌, ◌≤◌, ◌<◌, ◌≡◌, refl, ◌∙◌, sym, ap, inl, inr, true, false, none, some,
  ◌==◌, if◌then◌else◌, arith, Bool-cases,
}
use uni_orion_os.Devices.Block.{update}
use uni_orion_os.Filesys.Cache.{
  Cache, Supl, cache_size_in_sectors, advance, is_victim, lru_loop, find_absent, cache_lru,
}

-- how many of the entries from `i` on were accessed
unfoldable accessed_count : (rounds i : ℕ) → (ℕ → Supl) → ℕ
accessed_count zero i aux = 0
accessed_count (suc rounds) i aux =
    let later = accessed_count rounds (i + 1) aux in if (aux i).accessed then later + 1 else later

abbrev pub clear : (ℕ → Supl) → ℕ → ℕ → Supl
clear aux it = update aux it (record (aux it) { accessed = false })

-- an entry that is in the cache and that no thread uses
pub record IsIdle (e : Supl) : Type 0 where
  pub present : e.present ≡ true
  pub unpinned : e.pinned ≡ 0

-- the entries have only lost `accessed` flags
pub record IsCleared (aux aux' : ℕ → Supl) : Type 0 where
  pub present : (k : ℕ) → (aux' k).present ≡ (aux k).present
  pub dirty : (k : ℕ) → (aux' k).dirty ≡ (aux k).dirty
  pub pinned : (k : ℕ) → (aux' k).pinned ≡ (aux k).pinned
  pub at : (k : ℕ) → (aux' k).sector_index_in_cache ≡ (aux k).sector_index_in_cache
  pub sector : (k : ℕ) → (aux' k).sector_index ≡ (aux k).sector_index

-- `cache_lru` in the case that all entries are in use: the entry and what the loop leaves
pub record Victim (aux : ℕ → Supl) (it : ℕ) (aux' : ℕ → Supl) : Type 0 where
  pub inside : it < cache_size_in_sectors
  pub accessed : (aux' it).accessed ≡ false
  pub cleared : IsCleared aux aux'

accessed_count-le : (rounds i : ℕ) (aux : ℕ → Supl) → accessed_count rounds i aux ≤ rounds
unfolding accessed_count
accessed_count-le zero i aux = omega arith
accessed_count-le (suc rounds) i aux = ground (arith, accessed_count-le rounds (i + 1) aux)

accessed_count-clear_behind :
    (rounds i : ℕ) (aux : ℕ → Supl) (it : ℕ)
    → it < i
    → accessed_count rounds i (clear aux it) ≡ accessed_count rounds i aux
unfolding accessed_count
accessed_count-clear_behind zero i aux it h = refl
accessed_count-clear_behind (suc rounds) i aux it h =
    ground (arith, accessed_count-clear_behind rounds (i + 1) aux it (omega arith))

accessed_count-clear :
    (rounds i : ℕ) (aux : ℕ → Supl) (it : ℕ)
    → i ≤ it
    → it < i + rounds
    → (aux it).accessed ≡ true
    → accessed_count rounds i aux ≡ suc (accessed_count rounds i (clear aux it))
unfolding accessed_count
accessed_count-clear zero i aux it h k e = absurd (omega arith)
accessed_count-clear (suc rounds) i aux it h k e = elim (Bool-cases (i == it)) [
  | inl same ↦
      let it_eq : it ≡ i = ground arith in
      let was : (aux i).accessed ≡ true = ap (λ j. (aux j).accessed) (sym it_eq) ∙ e in
      let behind = accessed_count-clear_behind rounds (i + 1) aux it (omega arith) in
      ground (arith, was, behind)
  | inr other ↦
      ground (arith, accessed_count-clear rounds (i + 1) aux it (ground arith) (ground arith) e)
]

pub IsCleared-refl : (aux : ℕ → Supl) → IsCleared aux aux
IsCleared-refl aux = record {
  present = λ k. refl;
  dirty = λ k. refl;
  pinned = λ k. refl;
  at = λ k. refl;
  sector = λ k. refl;
}

IsCleared-clear :
    (aux aux' : ℕ → Supl) (it : ℕ) → IsCleared (clear aux it) aux' → IsCleared aux aux'
IsCleared-clear aux aux' it c = record {
  present = λ k. c.present k ∙ kept (λ e. e.present) k (λ e. refl);
  dirty = λ k. c.dirty k ∙ kept (λ e. e.dirty) k (λ e. refl);
  pinned = λ k. c.pinned k ∙ kept (λ e. e.pinned) k (λ e. refl);
  at = λ k. c.at k ∙ kept (λ e. e.sector_index_in_cache) k (λ e. refl);
  sector = λ k. c.sector k ∙ kept (λ e. e.sector_index) k (λ e. refl);
}
  where
    kept :
        {B : Type 0} (field : Supl → B) (k : ℕ)
        → ((e : Supl) → field (record e { accessed = false }) ≡ field e)
        → field (clear aux it k) ≡ field (aux k)
    kept field k same = elim (Bool-cases (it == k)) [
      | inl at ↦
          let it_eq : it ≡ k = ground arith in rw at (same (aux it) ∙ ap (λ j. field (aux j)) it_eq)
      | inr other ↦ rw other refl
    ]

-- all entries are in the cache and none is pinned
abbrev pub IsFull : (ℕ → Supl) → Type 0
IsFull aux = (k : ℕ) → k < cache_size_in_sectors → IsIdle (aux k)

IsFull-clear : (aux : ℕ → Supl) (it : ℕ) → IsFull aux → IsFull (clear aux it)
IsFull-clear aux it full k h =
    let c = IsCleared-clear aux (clear aux it) it (IsCleared-refl (clear aux it)) in
    let idle = full k h in
    record { present = c.present k ∙ idle.present; unpinned = c.pinned k ∙ idle.unpinned }

passed_over :
    (fuel it : ℕ) (aux : ℕ → Supl)
    → (aux it).accessed ≡ true
    → lru_loop (suc fuel) it aux ≡ lru_loop fuel ((it + 1) % cache_size_in_sectors) (clear aux it)
unfolding lru_loop advance
passed_over fuel it aux was =
    let no_victim : is_victim (aux it) ≡ false = ground (arith, was) in rw no_victim refl

taken :
    (fuel it : ℕ) (aux : ℕ → Supl)
    → IsIdle (aux it)
    → (aux it).accessed ≡ false
    → lru_loop (suc fuel) it aux ≡ some (it, aux)
unfolding lru_loop
taken fuel it aux idle free =
    let victim : is_victim (aux it) ≡ true = ground (arith, idle.present, idle.unpinned, free) in
    rw victim refl

lru_loop-Victim :
    (fuel it : ℕ) (aux : ℕ → Supl)
    → IsFull aux
    → it < cache_size_in_sectors
    → accessed_count cache_size_in_sectors 0 aux < fuel
    → (i : ℕ) × (aux' : ℕ → Supl) × (lru_loop fuel it aux ≡ some (i, aux')) × Victim aux i aux'
unfolding lru_loop
lru_loop-Victim zero it aux full h k = absurd (omega arith)
lru_loop-Victim (suc fuel) it aux full h k =
    let idle = full it h in
    elim (Bool-cases (aux it).accessed) [
      | inl was ↦
          let fewer = accessed_count-clear cache_size_in_sectors 0 aux it (omega arith) h was in
          let (i, aux', run, victim) =
            lru_loop-Victim fuel ((it + 1) % cache_size_in_sectors) (clear aux it)
              (IsFull-clear aux it full) (omega arith) (omega (arith, fewer)) in
          (
            i,
            aux',
            passed_over fuel it aux was ∙ run,
            record {
              inside = victim.inside;
              accessed = victim.accessed;
              cleared = IsCleared-clear aux aux' it victim.cleared;
            },
          )
      | inr not_since ↦ (
        it,
        aux,
        taken fuel it aux idle not_since,
        record { inside = h; accessed = not_since; cleared = IsCleared-refl aux },
      )
    ]

none_absent :
    (rounds i : ℕ) (aux : ℕ → Supl)
    → ((k : ℕ) → k < i + rounds → (aux k).present ≡ true)
    → find_absent rounds i aux ≡ none
unfolding find_absent
none_absent zero i aux h = refl
none_absent (suc rounds) i aux h =
    rw (h i (omega arith)) (none_absent rounds (i + 1) aux (λ k l. h k (omega arith)))

-- If all 64 entries are present and none is pinned, and the cursor of the clock is inside the
-- cache, cache_lru ends and gives an entry that is not marked as accessed; of the entries it has
-- changed nothing but accessed marks.
pub cache_lru-Victim :
    (c : Cache)
    → IsFull c.cache_aux
    → c.lru_cursor < cache_size_in_sectors
    → (i : ℕ) × (aux : ℕ → Supl) × (cache_lru c ≡ some (i, record c { cache_aux = aux }))
      × Victim c.cache_aux i aux
unfolding cache_lru
cache_lru-Victim c full h =
    let present =
      none_absent cache_size_in_sectors 0 c.cache_aux (λ k l. (full k (omega arith)).present) in
    let (i, aux, run, victim) =
      lru_loop-Victim (2 * cache_size_in_sectors + 1) c.lru_cursor c.cache_aux full h
        (omega (arith, accessed_count-le cache_size_in_sectors 0 c.cache_aux)) in
    (i, aux, rw (present, run) refl, victim)
