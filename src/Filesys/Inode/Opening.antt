-- ===== src/Filesys/Inode/Opening.antt =====
-- The ways through `inode_open` and `inode_close`.
use uni_orion_os.Base.{
  ℕ, ◌+◌, ◌-◌, ◌<◌, ◌≡◌, refl, ◌∙◌, sym, ap, ◌⊎◌, inl, inr, Bool, true, false, Option, none, some,
  List, [], ◌∷◌, ◌==◌, ltb, if◌then◌else◌, arith, eq→==,
}
use uni_orion_os.Filesys.Cache.{Cache, cache_read, cache_write}
use uni_orion_os.Filesys.FreeMap.{MapFile}
use uni_orion_os.Filesys.Inode.{
  Inode, Inodes, block_sector_size, with_inode, with_cache, inode_disk_bytes, inode_disk_of,
  find_open, open_new, inode_reopen, unlisted, inode_open, inode_close,
}

abbrev pub IsListed : ℕ → List ℕ → Type 0
IsListed a [] = ⊥
IsListed a (b ∷ rest) = (b ≡ a) ⊎ IsListed a rest

-- every open inode has an opener
abbrev pub IsLive : Inodes → Type 0
IsLive s = (a : ℕ) → IsListed a s.open_inodes → 0 < (s.inode a).open_cnt

-- An inode that is found is an open inode of the sector.
pub find_open-IsListed :
    (inode : ℕ → Inode) (xs : List ℕ) (sector : ℕ) {a : ℕ}
    → find_open inode xs sector ≡ some a
    → IsListed a xs × ((inode a).sector ≡ sector)
unfolding find_open
find_open-IsListed inode [] sector h = cc
find_open-IsListed inode (b ∷ rest) sector {a} h =
    go (find_open inode rest sector) (λ e. find_open-IsListed inode rest sector e)
      ((inode b).sector == sector) refl h
  where
    go :
        (later : Option ℕ)
        → (later ≡ some a → IsListed a rest × ((inode a).sector ≡ sector))
        → (same : Bool) → ((inode b).sector == sector) ≡ same
        → (if same then some b else later) ≡ some a
        → IsListed a (b ∷ rest) × ((inode a).sector ≡ sector)
    go later above true e h =
        let here : b ≡ a = cc in
        (inl here, ap (λ x. (inode x).sector) (sym here) ∙ ground (arith, e))
    go later above false e h = let (listed, at) = above h in (inr listed, at)

abbrev pub new_inode : ℕ → List ℕ → Inode
new_inode sector bytes = record {
  sector = sector;
  open_cnt = 1;
  removed = false;
  deny_write_cnt = 0;
  content = inode_disk_of bytes;
}

abbrev pub opened : Inodes → (sector a : ℕ) → List ℕ → Cache → Inodes
opened s sector a bytes c =
    with_cache
      (with_inode (record s { open_inodes = a ∷ s.open_inodes }) a (new_inode sector bytes)) c

pub open_reopens :
    (s : Inodes) (sector : ℕ) (memory : Option ℕ) {a : ℕ}
    → find_open s.inode s.open_inodes sector ≡ some a
    → inode_open s sector memory ≡ some (some a, inode_reopen s a)
unfolding inode_open
open_reopens s sector memory e = rw e refl

pub open_fails :
    (s : Inodes) (sector : ℕ)
    → find_open s.inode s.open_inodes sector ≡ none
    → inode_open s sector none ≡ some (none, s)
unfolding inode_open open_new
open_fails s sector e = rw e refl

pub open_reads :
    (s : Inodes) (sector a : ℕ) {bytes : List ℕ} {c : Cache}
    → find_open s.inode s.open_inodes sector ≡ none
    → cache_read s.volume.world sector 0 block_sector_size ≡ some (bytes, c)
    → inode_open s sector (some a) ≡ some (some a, opened s sector a bytes c)
unfolding inode_open open_new
open_reads s sector a e read = rw (e, read) refl

abbrev pub closed_once : Inodes → ℕ → Inodes
closed_once s a = with_inode s a (record (s.inode a) { open_cnt = (s.inode a).open_cnt - 1 })

module _ (io : MapFile Cache) (s : Inodes) (a : ℕ) where
  pub close_keeps : 1 < (s.inode a).open_cnt → inode_close io s (some a) ≡ some (closed_once s a)
  unfolding inode_close
  close_keeps h =
      let held : ltb 0 (s.inode a).open_cnt ≡ true = ground (arith, h) in
      let others : ((s.inode a).open_cnt - 1 == 0) ≡ false = ground (arith, h) in
      rw (held, others) refl

  pub close_frees :
      {i : Inode} {c : Cache}
      → (s.inode a).open_cnt ≡ 1
      → (closed_once s a).inode a ≡ i
      → i.removed ≡ false
      → cache_write s.volume.world i.sector (inode_disk_bytes i.content) 0 block_sector_size
        ≡ some c
      → inode_close io s (some a)
        ≡ some (with_cache (record (closed_once s a) { open_inodes = unlisted a s.open_inodes }) c)
  unfolding inode_close
  close_frees h e keep write =
      let held : ltb 0 (s.inode a).open_cnt ≡ true = ground (arith, h) in
      let last : ((s.inode a).open_cnt - 1 == 0) ≡ true = ground (arith, h) in
      rw (held, last, e, write, keep) refl

pub reopened :
    (s : Inodes) (a : ℕ)
    → inode_reopen s a ≡ with_inode s a (record (s.inode a) { open_cnt = (s.inode a).open_cnt + 1 })
unfolding inode_reopen
reopened s a = refl

pub unlisted_first : (a : ℕ) (xs : List ℕ) → unlisted a (a ∷ xs) ≡ xs
unfolding unlisted
unlisted_first a xs = rw (eq→== a a refl) refl
