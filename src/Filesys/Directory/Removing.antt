-- ===== src/Filesys/Directory/Removing.antt =====
-- `dir_remove` of a file that is open elsewhere.
use uni_orion_os.Base.{ℕ, ◌+◌, ◌<◌, ◌≡◌, refl, ◌∙◌, ap, true, false, Option, some, List, ltb, arith}
use uni_orion_os.Devices.Block.{update_self}
use uni_orion_os.Filesys.Cache.{Cache}
use uni_orion_os.Filesys.Cache.Refinement.{IsCoherent, Accessed}
use uni_orion_os.Filesys.FreeMap.{MapFile}
use uni_orion_os.Filesys.Inode.{
  Inodes, with_cache, find_open, inode_open, inode_reopen, inode_open_cnt,
}
use uni_orion_os.Filesys.Inode.Contents.{IsFull, IsPlaced}
use uni_orion_os.Filesys.Inode.Opening.{open_reopens, reopened}
use uni_orion_os.Filesys.Directory.{
  Dir, inode_sector, lookup, dir_remove, remove_entry, erase_opened,
}
use uni_orion_os.Filesys.Directory.Adding.{entry_in}
use uni_orion_os.Filesys.Directory.Lookups.{lookup-find_entry}

remove_step :
    (io : MapFile Cache) (s : Inodes) (dir : Dir) (name : List ℕ) (memory : Option ℕ) {e : List ℕ}
    {ofs a : ℕ} {c : Cache} {s1 : Inodes}
    → lookup ((s.inode dir.inode).content.length + 1) (s.inode dir.inode) name 0 s.volume.world
      ≡ some (some (e, ofs), c)
    → inode_open (with_cache s c) (inode_sector e) memory ≡ some (some a, s1)
    → ltb 1 (inode_open_cnt (s1.inode a)) ≡ true
    → dir_remove io s dir name memory ≡ some (false, s1)
unfolding dir_remove remove_entry erase_opened
remove_step io s dir name memory looked opened others = rw (looked, opened, others) refl

one_more : (s : Inodes) (a : ℕ) → ((inode_reopen s a).inode a).open_cnt ≡ (s.inode a).open_cnt + 1
one_more s a =
    ap (λ t. (t.inode a).open_cnt) (reopened s a)
    ∙ ap (λ i. i.open_cnt)
        (update_self s.inode a (record (s.inode a) { open_cnt = (s.inode a).open_cnt + 1 }))

several :
    (s : Inodes) (a : ℕ)
    → 0 < (s.inode a).open_cnt
    → ltb 1 (inode_open_cnt ((inode_reopen s a).inode a)) ≡ true
unfolding inode_open_cnt
several s a h = ground (arith, one_more s a, h)

-- If no thread is inside an access, the cache over its disk shows sectors of 512 bytes each, the
-- directory lies on the disk, and the name finds an entry whose inode is open and has an opener,
-- then dir_remove returns false and leaves that inode with one opener more than before.
pub dir_remove-inode_reopen :
    (io : MapFile Cache) (s : Inodes) (dir : Dir) (f : ℕ → List ℕ) (name : List ℕ)
    (memory : Option ℕ) (e : List ℕ) (ofs a : ℕ)
    → IsFull f
    → IsCoherent s.volume.world f
    → IsPlaced (s.inode dir.inode).content s.volume.world.fs_device.size
    → entry_in f (s.inode dir.inode) name ≡ some (e, ofs)
    → find_open s.inode s.open_inodes (inode_sector e) ≡ some a
    → 0 < (s.inode a).open_cnt
    → (c' : Cache) × (dir_remove io s dir name memory
        ≡ some (false, inode_reopen (with_cache s c') a))
      × (((inode_reopen (with_cache s c') a).inode a).open_cnt ≡ (s.inode a).open_cnt + 1)
      × Accessed s.volume.world c' f
dir_remove-inode_reopen io s dir f name memory e ofs a full coherent placed found opened live =
    let i = s.inode dir.inode in
    let (c', looked, x) =
      lookup-find_entry i f full (i.content.length + 1) name 0 s.volume.world coherent placed
        (omega arith) (omega arith) in
    let s1 = with_cache s c' in
    (
      c',
      remove_step io s dir name memory (looked ∙ ap (λ o. some (o, c')) found)
          (open_reopens s1 (inode_sector e) memory opened) (several s1 a live),
      one_more s1 a,
      x,
    )
