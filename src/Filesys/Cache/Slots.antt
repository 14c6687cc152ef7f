-- ===== src/Filesys/Cache/Slots.antt =====
-- The entry that an access gets for its sector: the one that has it, or an evicted one.
use mathlib.Core.Path.{subst}
use uni_orion_os.Base.{
  ℕ, zero, suc, ◌+◌, ◌-◌, ◌≤◌, ◌<◌, ◌≡◌, ◌≢◌, refl, inl, inr, Bool, true, false, not, Option, none,
  some, ◌==◌, if◌then◌else◌, arith, Bool-cases,
}
use uni_orion_os.Filesys.Cache.{
  Cache, Supl, cache_size_in_sectors, find_absent, find_sector, cache_lru,
}
use uni_orion_os.Filesys.Cache.Entries.{IsCleared-refl, IsCleared, cache_lru-Victim}

-- no thread is inside an access
pub record IsQuiet (c : Cache) : Type 0 where
  pub unpinned : (i : ℕ) → i < cache_size_in_sectors → (c.cache_aux i).pinned ≡ 0
  pub cursor : c.lru_cursor < cache_size_in_sectors
  pub lock : c.holds_ahead_lock ≡ false

-- the outcome of `find_absent`
data Absent (aux : ℕ → Supl) (i rounds : ℕ) : Option ℕ → Type 0 where
  all_present :
      ((k : ℕ) → i ≤ k → k < i + rounds → (aux k).present ≡ true) → Absent aux i rounds none
  absent : {k : ℕ} → k < i + rounds → (aux k).present ≡ false → Absent aux i rounds (some k)

-- what holds at `i` and behind it
one_more :
    (P : ℕ → Type 0) (i rounds : ℕ)
    → P i
    → ((k : ℕ) → i + 1 ≤ k → k < i + 1 + rounds → P k)
    → (k : ℕ) → i ≤ k
    → k < i + suc rounds
    → P k
one_more P i rounds here later k h l = elim (Bool-cases (i == k)) [
  | inl same ↦ subst P (ground (arith, same)) here
  | inr ne ↦ later k (ground (arith, ne)) (omega arith)
]

find_absent-Absent :
    (rounds i : ℕ) (aux : ℕ → Supl) → Absent aux i rounds (find_absent rounds i aux)
unfolding find_absent
find_absent-Absent zero i aux = all_present (λ k h l. absurd (omega arith))
find_absent-Absent (suc rounds) i aux =
    go (find_absent rounds (i + 1) aux) (find_absent-Absent rounds (i + 1) aux) (aux i).present refl
  where
    go :
        (later : Option ℕ)
        → Absent aux (i + 1) rounds later
        → (b : Bool) → (aux i).present ≡ b
        → Absent aux i (suc rounds) (if not b then some i else later)
    go later a false e = absent (omega arith) e
    go none (all_present h) true e =
        all_present (one_more (λ k. (aux k).present ≡ true) i rounds e h)
    go (some k) (absent h p) true e = absent (omega arith) p

-- the outcome of `find_sector`
pub data Lookup (aux : ℕ → Supl) (index i rounds : ℕ) : Option ℕ → Type 0 where
  nowhere :
      ((k : ℕ) → i ≤ k → k < i + rounds → (aux k).sector_index ≢ index)
      → Lookup aux index i rounds none
  found :
      {k : ℕ}
      → k < i + rounds
      → (aux k).sector_index ≡ index
      → ((j : ℕ) → i ≤ j → j < k → (aux j).sector_index ≢ index)
      → Lookup aux index i rounds (some k)

pub find_sector-Lookup :
    (rounds i : ℕ) (aux : ℕ → Supl) (index : ℕ)
    → Lookup aux index i rounds (find_sector rounds i aux index)
unfolding find_sector
find_sector-Lookup zero i aux index = nowhere (λ k h l. absurd (omega arith))
find_sector-Lookup (suc rounds) i aux index =
    go (find_sector rounds (i + 1) aux index) (find_sector-Lookup rounds (i + 1) aux index)
      ((aux i).sector_index == index) refl
  where
    Away : ℕ → Type 0
    Away k = (aux k).sector_index ≢ index

    up_to :
        (k : ℕ) → Away i → ((j : ℕ) → i + 1 ≤ j → j < k → Away j) → (j : ℕ) → i ≤ j → j < k → Away j
    up_to k here later j h l =
        one_more Away i (k - i - 1) here (λ m q r. later m q (omega arith)) j h (omega arith)

    go :
        (later : Option ℕ)
        → Lookup aux index (i + 1) rounds later
        → (b : Bool) → ((aux i).sector_index == index) ≡ b
        → Lookup aux index i (suc rounds) (if b then some i else later)
    go later a true e = found (omega arith) (ground (arith, e)) (λ j h l. absurd (omega arith))
    go none (nowhere h) false e = nowhere (one_more Away i rounds (λ q. ground (arith, e, q)) h)
    go (some k) (found h at before) false e =
        found (omega arith) at (up_to k (λ q. ground (arith, e, q)) before)

lru_absent :
    (c : Cache) (i : ℕ)
    → find_absent cache_size_in_sectors 0 c.cache_aux ≡ some i
    → cache_lru c ≡ some (i, c)
unfolding cache_lru
lru_absent c i e = rw e refl

-- the entry that `cache_lru` gives
pub lru-Cleared :
    (c : Cache)
    → IsQuiet c
    → (i : ℕ) × (aux : ℕ → Supl) × (cache_lru c ≡ some (i, record c { cache_aux = aux }))
      × (i < cache_size_in_sectors)
      × IsCleared c.cache_aux aux
lru-Cleared c q =
    go (find_absent cache_size_in_sectors 0 c.cache_aux) refl
      (find_absent-Absent cache_size_in_sectors 0 c.cache_aux)
  where
    go :
        (o : Option ℕ)
        → find_absent cache_size_in_sectors 0 c.cache_aux ≡ o
        → Absent c.cache_aux 0 cache_size_in_sectors o
        → (i : ℕ) × (aux : ℕ → Supl) × (cache_lru c ≡ some (i, record c { cache_aux = aux }))
          × (i < cache_size_in_sectors)
          × IsCleared c.cache_aux aux
    go none e (all_present h) =
        let (i, aux, run, victim) =
          cache_lru-Victim c
            (λ k l. record { present = h k (omega arith) (omega arith); unpinned = q.unpinned k l })
            q.cursor in
        (i, aux, run, victim.inside, victim.cleared)
    go (some i) e (absent h away) =
        (i, c.cache_aux, lru_absent c i e, h, IsCleared-refl c.cache_aux)
