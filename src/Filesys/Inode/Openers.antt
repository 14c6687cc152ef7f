-- ===== src/Filesys/Inode/Openers.antt =====
-- Opening an inode and closing it again.
use uni_orion_os.Base.{
  ℕ, zero, suc, ◌+◌, ◌-◌, ◌<◌, ◌≡◌, ◌≢◌, refl, ◌∙◌, sym, ap, inl, inr, Option, none, some, List, [],
  ◌∷◌, ◌++◌, arith, length, take, drop,
}
use mathlib.Core.Path.{subst}
use uni_orion_os.Base.Panic.{◌>>=◌}
use uni_orion_os.Base.Slices.{slice-tabulate}
use uni_orion_os.Devices.Block.{update, update_self, update_ne, update-cases}
use uni_orion_os.Filesys.Cache.{Cache, copy_into}
use uni_orion_os.Filesys.Cache.Refinement.{IsCoherent, Accessed, update-same, IsCoherent-same}
use uni_orion_os.Filesys.Cache.Accesses.{cache_read-Accessed, cache_write-Accessed}
use uni_orion_os.Filesys.FreeMap.{MapFile}
use uni_orion_os.Filesys.Inode.{
  Inode, Inodes, block_sector_size, with_inode, with_cache, inode_disk_bytes, inode_disk_of,
  find_open, inode_reopen, unlisted, inode_open, inode_close,
}
use uni_orion_os.Filesys.Inode.Contents.{IsFull}
use uni_orion_os.Filesys.Inode.Encoding.{AllBytes, inode_disk_bytes-inode_disk_of}
use uni_orion_os.Filesys.Inode.Opening.{
  IsListed, IsLive, find_open-IsListed, new_inode, opened, open_reopens, open_fails, open_reads,
  closed_once, close_keeps, close_frees, reopened, unlisted_first,
}

append_nil : (xs : List ℕ) → xs ++ [] ≡ xs
append_nil [] = refl
append_nil (x ∷ xs) = ap (λ ys. x ∷ ys) (append_nil xs)

take_all : (xs : List ℕ) (n : ℕ) → length xs ≡ n → take n xs ≡ xs
take_all [] zero h = refl
take_all [] (suc n) h = refl
take_all (x ∷ xs) zero h = absurd (omega arith)
take_all (x ∷ xs) (suc n) h = ap (λ ys. x ∷ ys) (take_all xs n (omega arith))

drop_all : (xs : List ℕ) (n : ℕ) → length xs ≡ n → drop n xs ≡ []
drop_all [] zero h = refl
drop_all [] (suc n) h = refl
drop_all (x ∷ xs) zero h = absurd (omega arith)
drop_all (x ∷ xs) (suc n) h = drop_all xs n (omega arith)

copy_all : (xs : List ℕ) (n : ℕ) → length xs ≡ n → copy_into xs 0 xs n ≡ xs
copy_all xs n h =
    let rest : drop (0 + n) xs ≡ [] = ap (λ m. drop m xs) (omega arith) ∙ drop_all xs n h in
    rw (take_all xs n h, rest) (append_nil xs)

-- a sector of bytes that is read, and written back as an inode
written_back :
    (f : ℕ → List ℕ) (sector : ℕ)
    → IsFull f
    → AllBytes (f sector)
    → (k : ℕ)
    → f k
      ≡ update f sector
          (copy_into
            (f sector)
            0
            (inode_disk_bytes (inode_disk_of (take block_sector_size (drop 0 (f sector)))))
            block_sector_size)
          k
written_back f sector full bytes k =
    let whole : take block_sector_size (f sector) ≡ f sector =
      take_all (f sector) block_sector_size (full sector) in
    let again : inode_disk_bytes (inode_disk_of (f sector)) ≡ f sector =
      inode_disk_bytes-inode_disk_of (f sector) bytes (full sector)
      ∙ sym (slice-tabulate (f sector) 0 block_sector_size (omega (arith, full sector)))
      ∙ whole in
    let copied : copy_into (f sector) 0
          (inode_disk_bytes (inode_disk_of (take block_sector_size (f sector)))) block_sector_size
        ≡ f sector =
      ap (λ xs. copy_into (f sector) 0 (inode_disk_bytes (inode_disk_of xs)) block_sector_size)
        whole
      ∙ ap (λ xs. copy_into (f sector) 0 xs block_sector_size) again
      ∙ copy_all (f sector) block_sector_size (full sector) in
    update-same f sector k ∙ ap (λ xs. update f sector xs k) (sym copied)

-- an inode that is opened, and closed at once
unfoldable pub open_then_close :
    MapFile Cache → Inodes → (sector : ℕ) → (memory : Option ℕ) → Option Inodes
open_then_close io s sector memory = do (a, s) ← inode_open s sector memory; inode_close io s a

steps :
    (io : MapFile Cache) (s : Inodes) (sector : ℕ) (memory : Option ℕ) {r : Option ℕ}
    {s1 s2 : Inodes}
    → inode_open s sector memory ≡ some (r, s1)
    → inode_close io s1 r ≡ some s2
    → open_then_close io s sector memory ≡ some s2
unfolding open_then_close
steps io s sector memory e h = rw (e, h) refl

-- The open inodes and the sectors are as before.
pub record Restored (s s' : Inodes) (f : ℕ → List ℕ) : Type 0 where
  pub same_list : s'.open_inodes ≡ s.open_inodes
  pub same_inodes : (a : ℕ) → IsListed a s.open_inodes → s'.inode a ≡ s.inode a
  pub same_map : s'.volume.free_map ≡ s.volume.free_map
  pub cache : Accessed s.volume.world s'.volume.world f

module _ (io : MapFile Cache) (s : Inodes) (f : ℕ → List ℕ) (sector : ℕ) (memory : Option ℕ)
    (full : IsFull f) (bytes : AllBytes (f sector)) (coherent : IsCoherent s.volume.world f)
    (inside : sector < s.volume.world.fs_device.size) (live : IsLive s) where
  abbrev pub Result : Type 0
  Result = (s' : Inodes) × (open_then_close io s sector memory ≡ some s') × Restored s s' f

  found_case : (a : ℕ) → find_open s.inode s.open_inodes sector ≡ some a → Result
  found_case a e =
      let s1 = inode_reopen s a in
      let (listed, at) = find_open-IsListed s.inode s.open_inodes sector e in
      let more = record (s.inode a) { open_cnt = (s.inode a).open_cnt + 1 } in
      let now : (with_inode s a more).inode a ≡ more = update_self s.inode a more in
      let count = ap (λ i. i.open_cnt) now in
      let left = record (update s.inode a more a) {
        open_cnt = (update s.inode a more a).open_cnt - 1;
      } in
      let back : left ≡ s.inode a =
        ap {A = Inode} (λ i. record i { open_cnt = i.open_cnt - 1 }) now
        ∙ ap (λ n. record (s.inode a) { open_cnt = n }) (omega arith) in
      (
        closed_once (with_inode s a more) a,
        steps io s sector memory
            (open_reopens s sector memory e ∙ ap (λ t. some (some a, t)) (reopened s a))
            (close_keeps io (with_inode s a more) a (omega (arith, count, live a listed))),
        record {
          same_list = refl;
          same_inodes = λ b h. elim (update-cases (update s.inode a more) a left b) [
            | inl (b_eq, then_now) ↦ then_now ∙ back ∙ ap s.inode (sym b_eq)
            | inr (ne, then_now) ↦ then_now ∙ update_ne s.inode a more b ne
          ];
          same_map = refl;
          cache = record { coherent = coherent; size = refl };
        },
      )

  new_case :
      (a : ℕ)
      → memory ≡ some a
      → ¬ IsListed a s.open_inodes
      → find_open s.inode s.open_inodes sector ≡ none
      → Result
  new_case a mem fresh e =
      let (c1, read, x) =
        cache_read-Accessed s.volume.world f sector 0 block_sector_size coherent inside in
      let got = take block_sector_size (drop 0 (f sector)) in
      let s1 = opened s sector a got c1 in
      let i = new_inode sector got in
      let now = update_self s.inode a i in
      let last = record (s1.inode a) { open_cnt = (s1.inode a).open_cnt - 1 } in
      let closing : (closed_once s1 a).inode a ≡ record i { open_cnt = 0 } =
        update_self s1.inode a last
        ∙ ap {A = Inode} (λ j. record j { open_cnt = j.open_cnt - 1 }) now in
      let (c2, write, y) =
        cache_write-Accessed c1 f sector (inode_disk_bytes (inode_disk_of got)) 0 block_sector_size
          x.coherent (omega (arith, x.size, inside)) in
      let off : unlisted a (a ∷ s.open_inodes) ≡ s.open_inodes = unlisted_first a s.open_inodes in
      (
        with_cache (record (closed_once s1 a) { open_inodes = unlisted a s1.open_inodes }) c2,
        ap (open_then_close io s sector) mem
            ∙ steps io s sector (some a) (open_reads s sector a e read)
                (close_frees io s1 a (ap (λ j. j.open_cnt) now) closing refl write),
        record {
          same_list = off;
          same_inodes = λ b h.
              let ne : b ≢ a = λ q. fresh (subst (λ t. IsListed t s.open_inodes) q h) in
              update_ne s1.inode a last b ne ∙ update_ne s.inode a i b ne;
          same_map = refl;
          cache = record {
            coherent =
                IsCoherent-same c2
                  (update f sector (
                    copy_into (f sector) 0 (inode_disk_bytes (inode_disk_of got))
                      block_sector_size))
                  f (written_back f sector full bytes) y.coherent;
            size = y.size ∙ x.size;
          };
        },
      )

  no_memory : memory ≡ none → find_open s.inode s.open_inodes sector ≡ none → Result
  unfolding inode_close
  no_memory mem e = (
    s,
    ap (open_then_close io s sector) mem ∙ steps io s sector none (open_fails s sector e) refl,
    record {
      same_list = refl;
      same_inodes = λ a h. refl;
      same_map = refl;
      cache = record { coherent = coherent; size = refl };
    },
  )

  -- If no thread is inside an access, the cache over its disk shows sectors of 512 bytes each,
  -- the sector is on the disk and made of bytes, every open inode has an opener, and memory that
  -- is given is in use for no open inode, then inode_open of the sector and inode_close of what
  -- it gives do not stop the kernel, and leave the open inodes, the free map and the sectors as
  -- they were, whether the inode was open, is opened newly, or cannot be opened for lack of
  -- memory.
  pub inode_close-inode_open : ((a : ℕ) → memory ≡ some a → ¬ IsListed a s.open_inodes) → Result
  inode_close-inode_open fresh = go (find_open s.inode s.open_inodes sector) refl memory refl
    where
      go :
          (o : Option ℕ)
          → find_open s.inode s.open_inodes sector ≡ o
          → (m : Option ℕ) → memory ≡ m
          → Result
      go (some a) e m mem = found_case a e
      go none e (some a) mem = new_case a mem (fresh a mem) e
      go none e none mem = no_memory mem e
