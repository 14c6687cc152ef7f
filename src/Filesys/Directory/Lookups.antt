-- ===== src/Filesys/Directory/Lookups.antt =====
-- The loops over the entries, on a directory that the cache shows.
use uni_orion_os.Base.{
  ℕ, zero, suc, ◌+◌, ◌<◌, ◌≡◌, refl, ◌∙◌, sym, ap, inl, inr, Bool, true, false, not, ◌&&◌, none,
  some, List, [], ◌++◌, ◌==◌, leb, if◌then◌else◌, arith, Bool-cases, length, drop, eq→==,
  length-append,
}
use uni_orion_os.Base.Slices.{tabulate, byte_of-left, length-tabulate, length-drop}
use uni_orion_os.Filesys.Cache.{Cache}
use uni_orion_os.Filesys.Cache.Refinement.{IsCoherent, Accessed}
use uni_orion_os.Filesys.Inode.{Inode, inode_read_at}
use uni_orion_os.Filesys.Inode.Contents.{IsFull, IsPlaced, file_byte, moved}
use uni_orion_os.Filesys.Inode.Reading.{inode_read_at-file_byte}
use uni_orion_os.Filesys.Directory.{entry_size, is_in_use, matches, lookup, free_slot}
use uni_orion_os.Filesys.Directory.Entries.{entry_of, find_entry, slot_of}

module _ (fuel : ℕ) (i : Inode) (name : List ℕ) (ofs : ℕ) (c : Cache) {n : ℕ} {e : List ℕ}
    {c1 : Cache} (read : inode_read_at i entry_size ofs c ≡ some (n, e, c1)) where
  lookup_end : (n == entry_size) ≡ false → lookup (suc fuel) i name ofs c ≡ some (none, c1)
  unfolding lookup
  lookup_end short = rw (read, short) refl

  lookup_entry :
      (n == entry_size) ≡ true
      → lookup (suc fuel) i name ofs c ≡ (
          if matches e name
          then some (some (e, ofs), c1)
          else lookup fuel i name (ofs + entry_size) c1)
  unfolding lookup
  lookup_entry all = rw (read, all) refl

  slot_end :
      (e0 : List ℕ)
      → (n == entry_size) ≡ false
      → free_slot (suc fuel) i e0 ofs c ≡ some (e ++ drop n e0, ofs, c1)
  unfolding free_slot
  slot_end e0 short = rw (read, short) refl

  slot_entry :
      (e0 : List ℕ)
      → (n == entry_size) ≡ true
      → free_slot (suc fuel) i e0 ofs c ≡ (
          if is_in_use (e ++ drop n e0)
          then free_slot fuel i (e ++ drop n e0) (ofs + entry_size) c1
          else some (e ++ drop n e0, ofs, c1))
  unfolding free_slot
  slot_entry e0 all = rw (read, all) refl

module _ (i : Inode) (f : ℕ → List ℕ) (full : IsFull f) where
  abbrev g : ℕ → ℕ
  g = file_byte f i.content

  abbrev size : ℕ
  size = i.content.length

  find_end :
      (fuel : ℕ) (name : List ℕ) (ofs : ℕ)
      → leb (ofs + entry_size) size ≡ false
      → find_entry (suc fuel) g size name ofs ≡ none
  unfolding find_entry
  find_end fuel name ofs h = rw h refl

  find_here :
      (fuel : ℕ) (name : List ℕ) (ofs : ℕ)
      → leb (ofs + entry_size) size ≡ true
      → find_entry (suc fuel) g size name ofs ≡ (
          if matches (entry_of g ofs) name
          then some (entry_of g ofs, ofs)
          else find_entry fuel g size name (ofs + entry_size))
  unfolding find_entry
  find_here fuel name ofs h = rw h refl

  -- The loop of `lookup` finds what the bytes of the directory say, and ends.
  pub lookup-find_entry :
      (fuel : ℕ) (name : List ℕ) (ofs : ℕ) (c : Cache)
      → IsCoherent c f
      → IsPlaced i.content c.fs_device.size
      → size < ofs + fuel
      → 0 < fuel
      → (c' : Cache) × (lookup fuel i name ofs c ≡ some (find_entry fuel g size name ofs, c'))
        × Accessed c c' f
  lookup-find_entry zero name ofs c s p h some_fuel = absurd (omega arith)
  lookup-find_entry (suc fuel) name ofs c s p h some_fuel =
      let (c1, read, a) = inode_read_at-file_byte i f entry_size ofs c full s p in
      elim (Bool-cases (leb (ofs + entry_size) size)) [
        | inr short ↦
            let part : (moved i.content entry_size ofs == entry_size) ≡ false =
              ground (arith, short) in
            (
              c1,
              lookup_end fuel i name ofs c read part
                  ∙ ap (λ o. some (o, c1)) (sym (find_end fuel name ofs short)),
              a,
            )
        | inl inside ↦
            let all : moved i.content entry_size ofs ≡ entry_size = ground (arith, inside) in
            let whole = eq→== (moved i.content entry_size ofs) entry_size all in
            let step =
              lookup_entry fuel i name ofs c read whole
              ∙ ap
                  (λ m.
                    if matches (tabulate g ofs m) name
                    then some (some (tabulate g ofs m, ofs), c1)
                    else lookup fuel i name (ofs + entry_size) c1)
                  all in
            elim (Bool-cases (matches (entry_of g ofs) name)) [
              | inl hit ↦ (
                c1,
                step
                    ∙ ap
                        (λ b.
                          if b
                          then some (some (entry_of g ofs, ofs), c1)
                          else lookup fuel i name (ofs + entry_size) c1)
                        hit
                    ∙ ap (λ o. some (o, c1))
                        (sym (
                          find_here fuel name ofs inside
                          ∙ ap
                              (λ b.
                                if b
                                then some (entry_of g ofs, ofs)
                                else find_entry fuel g size name (ofs + entry_size))
                              hit)),
                a,
              )
              | inr passed ↦
                  let (c2, later, b) =
                    lookup-find_entry fuel name (ofs + entry_size) c1 a.coherent (rw a.size p)
                      (omega arith) (ground (arith, h, inside)) in
                  (
                    c2,
                    step
                        ∙ ap
                            (λ b.
                              if b
                              then some (some (entry_of g ofs, ofs), c1)
                              else lookup fuel i name (ofs + entry_size) c1)
                            passed
                        ∙ later
                        ∙ ap (λ o. some (o, c2))
                            (sym (
                              find_here fuel name ofs inside
                              ∙ ap
                                  (λ b.
                                    if b
                                    then some (entry_of g ofs, ofs)
                                    else find_entry fuel g size name (ofs + entry_size))
                                  passed)),
                    record { coherent = b.coherent; size = b.size ∙ a.size },
                  )
            ]
      ]

  slot_stop :
      (fuel ofs : ℕ)
      → (leb (ofs + entry_size) size && is_in_use (entry_of g ofs)) ≡ false
      → slot_of (suc fuel) g size ofs ≡ ofs
  unfolding slot_of
  slot_stop fuel ofs h = ap (λ b. if b then slot_of fuel g size (ofs + entry_size) else ofs) h

  slot_on :
      (fuel ofs : ℕ)
      → (leb (ofs + entry_size) size && is_in_use (entry_of g ofs)) ≡ true
      → slot_of (suc fuel) g size ofs ≡ slot_of fuel g size (ofs + entry_size)
  unfolding slot_of
  slot_on fuel ofs h = ap (λ b. if b then slot_of fuel g size (ofs + entry_size) else ofs) h

  -- the variable after a read
  length-filled :
      (ofs : ℕ) (e : List ℕ)
      → length e ≡ entry_size
      → length (
          tabulate g ofs (moved i.content entry_size ofs)
          ++ drop (moved i.content entry_size ofs) e)
        ≡ entry_size
  length-filled ofs e h =
      let n = moved i.content entry_size ofs in
      omega (
        arith,
        length-append (tabulate g ofs n) (drop n e),
        length-tabulate g ofs n,
        length-drop e n,
        h,
      )

  -- The loop of `dir_add` ends at the first entry that is not in use, or at the end.
  pub free_slot-slot_of :
      (fuel : ℕ) (e : List ℕ) (ofs : ℕ) (c : Cache)
      → IsCoherent c f
      → IsPlaced i.content c.fs_device.size
      → size < ofs + fuel
      → 0 < fuel
      → length e ≡ entry_size
      → (e' : List ℕ) × (c' : Cache) × (free_slot fuel i e ofs c
          ≡ some (e', slot_of fuel g size ofs, c'))
        × (length e' ≡ entry_size)
        × Accessed c c' f
  free_slot-slot_of zero e ofs c s p h some_fuel l = absurd (omega arith)
  free_slot-slot_of (suc fuel) e ofs c s p h some_fuel l =
      let (c1, read, a) = inode_read_at-file_byte i f entry_size ofs c full s p in
      let n = moved i.content entry_size ofs in
      let e' = tabulate g ofs n ++ drop n e in
      let l' = length-filled ofs e l in
      elim (Bool-cases (leb (ofs + entry_size) size)) [
        | inr short ↦
            let part : (n == entry_size) ≡ false = ground (arith, short) in
            let stop = slot_stop fuel ofs (ap (λ b. b && is_in_use (entry_of g ofs)) short) in
            (
              e',
              c1,
              slot_end fuel i [] ofs c read e part ∙ ap (λ o. some (e', o, c1)) (sym stop),
              l',
              a,
            )
        | inl inside ↦
            let all : n ≡ entry_size = ground (arith, inside) in
            let whole = eq→== n entry_size all in
            let used : is_in_use e' ≡ is_in_use (entry_of g ofs) =
              ap (λ m. is_in_use (tabulate g ofs m ++ drop n e)) all
              ∙ ap (λ b. not (b == 0))
                  (byte_of-left (entry_of g ofs) (drop n e) 22 (omega arith)) in
            let choose = λ (b : Bool).
              if b then free_slot fuel i e' (ofs + entry_size) c1 else some (e', ofs, c1) in
            let step = slot_entry fuel i [] ofs c read e whole in
            let both = ap (λ b. b && is_in_use (entry_of g ofs)) inside in
            elim (Bool-cases (is_in_use (entry_of g ofs))) [
              | inr idle ↦ (
                e',
                c1,
                step
                    ∙ ap choose (used ∙ idle)
                    ∙ ap (λ o. some (e', o, c1)) (sym (slot_stop fuel ofs (both ∙ idle))),
                l',
                a,
              )
              | inl busy ↦
                  let (e2, c2, later, l2, b) =
                    free_slot-slot_of fuel e' (ofs + entry_size) c1 a.coherent (rw a.size p)
                      (omega arith) (ground (arith, h, inside)) l' in
                  (
                    e2,
                    c2,
                    step
                        ∙ ap choose (used ∙ busy)
                        ∙ later
                        ∙ ap (λ o. some (e2, o, c2)) (sym (slot_on fuel ofs (both ∙ busy))),
                    l2,
                    record { coherent = b.coherent; size = b.size ∙ a.size },
                  )
            ]
      ]
