-- ===== src/Filesys/Directory/Adding.antt =====
-- `dir_add` and `lookup`: a directory as a map from names to entries.
use uni_orion_os.Base.{
  ℕ, ◌+◌, ◌^◌, ◌≤◌, ◌<◌, ◌≡◌, ◌≢◌, refl, ◌∙◌, sym, ap, inl, inr, Bool, true, false, ◌||◌, Option,
  none, some, List, ◌==◌, ltb, leb, if◌then◌else◌, arith, Bool-cases, length, eq→==,
}
use mathlib.Core.Path.{subst}
use uni_orion_os.Filesys.Cache.{Cache}
use uni_orion_os.Filesys.Cache.Refinement.{IsCoherent, Accessed}
use uni_orion_os.Filesys.Inode.{Inode, Inodes, with_cache, inode_write_at}
use uni_orion_os.Filesys.Inode.Contents.{IsFull, IsPlaced, file_byte, moved}
use uni_orion_os.Filesys.Inode.Writing.{Written}
use uni_orion_os.Filesys.Inode.Writes.{written, inode_write_at-Written}
use uni_orion_os.Filesys.Directory.{
  Dir, entry_size, name_max, c_string, same_string, inode_sector, is_directory, lookup, free_slot,
  set_entry, add_new, dir_add,
}
use uni_orion_os.Filesys.Directory.Entries.{
  find_entry, find_entry-same, find_entry-cut, find_entry-slot_of, slot_of,
}
use uni_orion_os.Filesys.Directory.Fields.{
  same_string_refl, same_string-eq, length-set_entry, is_in_use-set_entry, is_directory-set_entry,
  inode_sector-set_entry, entry_name-set_entry,
}
use uni_orion_os.Filesys.Directory.Lookups.{lookup-find_entry, free_slot-slot_of}

-- the entry that a name finds, in a directory whose sectors are `f`
abbrev pub entry_in : (ℕ → List ℕ) → Inode → (name : List ℕ) → Option (List ℕ × ℕ)
entry_in f i name =
    find_entry (i.content.length + 1) (file_byte f i.content) i.content.length name 0

-- why a name is not added
pub data Refusal (f : ℕ → List ℕ) (i : Inode) (name : List ℕ) : Type 0 where
  there_is_one : {e : List ℕ × ℕ} → entry_in f i name ≡ some e → Refusal f i name
  no_writes : i.deny_write_cnt ≢ 0 → Refusal f i name
  no_room :
      i.content.length
        < slot_of (i.content.length + 1) (file_byte f i.content) i.content.length 0 + entry_size
      → Refusal f i name

-- What `dir_add` may do to a directory.
pub data Added (f f' : ℕ → List ℕ) (i : Inode) (name : List ℕ) (sector : ℕ) (is_dir : Bool)
    : Bool → Type 0 where
  added :
      {e : List ℕ} {ofs : ℕ}
      → inode_sector e ≡ sector
      → is_directory e ≡ is_dir
      → entry_in f i name ≡ none
      → ((k : List ℕ)
          → entry_in f' i k ≡ (if same_string k name then some (e, ofs) else entry_in f i k))
      → Added f f' i name sector is_dir true
  refused :
      Refusal f i name
      → ((k : List ℕ) → entry_in f' i k ≡ entry_in f i k)
      → Added f f' i name sector is_dir false

module _ (s : Inodes) (dir : Dir) (e name : List ℕ) (sector : ℕ) (is_dir : Bool) where
  abbrev i : Inode
  i = s.inode dir.inode

  add_step :
      {found : Option (List ℕ × ℕ)} {success : Bool} {c1 c2 : Cache}
      → (length name == 0 || ltb name_max (length name)) ≡ false
      → lookup (i.content.length + 1) i name 0 s.volume.world ≡ some (found, c1)
      → add_new i e name sector is_dir found c1 ≡ some (success, c2)
      → dir_add s dir e name sector is_dir ≡ some (success, with_cache s c2)
  unfolding dir_add
  add_step valid looked new = rw (valid, looked, new) refl

  new_step :
      (c : Cache) {e' : List ℕ} {ofs n : ℕ} {c1 c2 : Cache}
      → free_slot (i.content.length + 1) i e 0 c ≡ some (e', ofs, c1)
      → inode_write_at i (set_entry e' name sector is_dir) entry_size ofs c1 ≡ some (n, c2)
      → add_new i e name sector is_dir none c ≡ some (n == entry_size, c2)
  unfolding add_new
  new_step c slot write = rw (slot, write) refl

  found_step :
      (found : List ℕ × ℕ) (c : Cache)
      → add_new i e name sector is_dir (some found) c ≡ some (false, c)
  unfolding add_new
  found_step found c = refl

  module _ (f : ℕ → List ℕ) (full : IsFull f) (coherent : IsCoherent s.volume.world f)
      (placed : IsPlaced i.content s.volume.world.fs_device.size) (whole : length e ≡ entry_size)
      (named : 0 < length name) (fits : length name ≤ name_max) (string : c_string name ≡ name)
      (word : sector < 2 ^ 32) where
    abbrev g : ℕ → ℕ
    g = file_byte f i.content

    abbrev slot : ℕ
    slot = slot_of (i.content.length + 1) g i.content.length 0

    -- after the write of `n` bytes into the slot
    outcome :
        (f' : ℕ → List ℕ) (e' : List ℕ)
        → length e' ≡ entry_size
        → entry_in f i name ≡ none
        → Written f f' i.content (set_entry e' name sector is_dir) slot (written i entry_size slot)
        → Added f f' i name sector is_dir (written i entry_size slot == entry_size)
    outcome f' e' whole' absent w = elim (Bool-cases (i.deny_write_cnt == 0)) [
      | inr denied ↦
          let nothing : written i entry_size slot ≡ 0 =
            ap (λ b. if b then moved i.content entry_size slot else 0) denied in
          let no : (written i entry_size slot == entry_size) ≡ false = ground (arith, nothing) in
          subst (Added f f' i name sector is_dir) (sym no) (
            refused (no_writes (λ q. ground (arith, q, denied))) (λ k.
              find_entry-same (i.content.length + 1) g (file_byte f' i.content) i.content.length k 0
                (λ p h. elim (Bool-cases (ltb p slot)) [
                  | inl less ↦ w.before p (ground (arith, less))
                  | inr more ↦ w.after p (ground (arith, more, nothing))
                ])))
      | inl allowed ↦
          let count : written i entry_size slot ≡ moved i.content entry_size slot =
            ap (λ b. if b then moved i.content entry_size slot else 0) allowed in
          elim (Bool-cases (leb (slot + entry_size) i.content.length)) [
            | inr outside ↦
                let no : (written i entry_size slot == entry_size) ≡ false =
                  ground (arith, count, outside) in
                subst (Added f f' i name sector is_dir) (sym no) (
                  refused (no_room (ground (arith, outside))) (λ k.
                    find_entry-cut g (file_byte f' i.content) i.content.length
                      (i.content.length + 1) 0 k (ground (arith, outside)) w.before))
            | inl inside ↦
                let all : written i entry_size slot ≡ entry_size = ground (arith, count, inside) in
                let new = set_entry e' name sector is_dir in
                subst (Added f f' i name sector is_dir)
                  (sym (eq→== (written i entry_size slot) entry_size all))
                  (added (inode_sector-set_entry e' name sector is_dir whole' fits word)
                    (is_directory-set_entry e' name sector is_dir whole' fits) absent
                    (λ k.
                      find_entry-slot_of g (file_byte f' i.content) i.content.length new name
                        (length-set_entry e' name sector is_dir whole' fits)
                        (is_in_use-set_entry e' name sector is_dir whole' fits)
                        (entry_name-set_entry e' name sector is_dir whole' fits string)
                        (same_string_refl name) (λ m h. same_string-eq m name h)
                        (i.content.length + 1) 0 k (omega arith) (ground (arith, inside))
                        (λ j h. w.new j (omega (arith, all, h))) w.before
                        (λ p h. w.after p (omega (arith, all, h))) absent))
          ]
    ]

    -- If no thread is inside an access, the cache over its disk shows sectors of 512 bytes each,
    -- the directory lies on the disk, the name is a string of 1 to 16 characters, the sector is
    -- a word of 32 bits and the variable for the entry has the size of an entry, then dir_add
    -- does not stop the kernel. Either it returns true, the name was in no entry, and then finds
    -- an entry with the sector and the kind, while every other name finds what it found before;
    -- or it returns false because the name was there, writes are denied, or no entry is free,
    -- and every name finds what it found before.
    pub dir_add-Added :
        (success : Bool) × (c' : Cache) × (f' : ℕ → List ℕ) × (dir_add s dir e name sector is_dir
          ≡ some (success, with_cache s c'))
        × Accessed s.volume.world c' f'
        × IsFull f'
        × Added f f' i name sector is_dir success
    dir_add-Added =
        let (c1, looked, a) =
          lookup-find_entry i f full (i.content.length + 1) name 0 s.volume.world coherent placed
            (omega arith) (omega arith) in
        go c1 a (entry_in f i name) refl looked
      where
        go :
            (c1 : Cache)
            → Accessed s.volume.world c1 f
            → (found : Option (List ℕ × ℕ)) → entry_in f i name ≡ found
            → lookup (i.content.length + 1) i name 0 s.volume.world ≡ some (found, c1)
            → (success : Bool) × (c' : Cache) × (f' : ℕ → List ℕ) × (dir_add s dir e name sector
                  is_dir
                ≡ some (success, with_cache s c'))
              × Accessed s.volume.world c' f'
              × IsFull f'
              × Added f f' i name sector is_dir success
        go c1 a (some found) is looked = (
          false,
          c1,
          f,
          add_step (ground (arith, named, fits)) looked (found_step found c1),
          a,
          full,
          refused (there_is_one is) (λ k. refl),
        )
        go c1 a none is looked =
            let (e', c2, slotted, whole', b) =
              free_slot-slot_of i f full (i.content.length + 1) e 0 c1 a.coherent (rw a.size placed)
                (omega arith) (omega arith) whole in
            let new = set_entry e' name sector is_dir in
            let size_new = length-set_entry e' name sector is_dir whole' fits in
            let (c3, f', write, x, w) =
              inode_write_at-Written i f new entry_size slot c2 full b.coherent
                (rw (b.size, a.size) placed) (omega (arith, size_new)) in
            (
              written i entry_size slot == entry_size,
              c3,
              f',
              add_step (ground (arith, named, fits)) looked (new_step c1 slotted write),
              record { coherent = x.coherent; size = x.size ∙ b.size ∙ a.size },
              w.full,
              outcome f' e' whole' is w,
            )
