-- ===== src/Filesys/Directory/Entries.antt =====
-- A directory as the bytes of its file: the entry of a name, and the entry that `dir_add` takes.
use uni_orion_os.Base.{
  ℕ, zero, suc, ◌+◌, ◌≤◌, ◌<◌, ◌≡◌, refl, ◌∙◌, sym, ap, inl, inr, Bool, true, false, ◌&&◌, Option,
  none, some, List, [], ◌∷◌, leb, if◌then◌else◌, arith, Bool-cases, length, take,
}
use uni_orion_os.Base.Slices.{byte_of, tabulate, tabulate-same, slice-tabulate}
use uni_orion_os.Filesys.Directory.{entry_size, same_string, is_in_use, entry_name, matches}

-- the entry at an offset of a file with the bytes `g`
abbrev pub entry_of : (ℕ → ℕ) → ℕ → List ℕ
entry_of g ofs = tabulate g ofs entry_size

-- the first entry from `ofs` on, in a file of `size` bytes, that the name matches
unfoldable pub find_entry :
    (fuel : ℕ) → (ℕ → ℕ) → (size : ℕ) → (name : List ℕ) → (ofs : ℕ) → Option (List ℕ × ℕ)
find_entry zero g size name ofs = none
find_entry (suc fuel) g size name ofs =
    let later = find_entry fuel g size name (ofs + entry_size) in
    if leb (ofs + entry_size) size
    then (if matches (entry_of g ofs) name then some (entry_of g ofs, ofs) else later)
    else none

-- the first entry from `ofs` on that is not in use, or the end
unfoldable pub slot_of : (fuel : ℕ) → (ℕ → ℕ) → (size ofs : ℕ) → ℕ
slot_of zero g size ofs = ofs
slot_of (suc fuel) g size ofs =
    let later = slot_of fuel g size (ofs + entry_size) in
    if leb (ofs + entry_size) size && is_in_use (entry_of g ofs) then later else ofs

pub slot_of-ge : (fuel : ℕ) (g : ℕ → ℕ) (size ofs : ℕ) → ofs ≤ slot_of fuel g size ofs
unfolding slot_of
slot_of-ge zero g size ofs = omega arith
slot_of-ge (suc fuel) g size ofs =
    let later = slot_of-ge fuel g size (ofs + entry_size) in
    elim (Bool-cases (leb (ofs + entry_size) size && is_in_use (entry_of g ofs))) [
      | inl on ↦ rw on (omega (arith, later))
      | inr stop ↦ rw stop (omega arith)
    ]

pub find_entry-same :
    (fuel : ℕ) (g g' : ℕ → ℕ) (size : ℕ) (name : List ℕ) (ofs : ℕ)
    → ((p : ℕ) → ofs ≤ p → g' p ≡ g p)
    → find_entry fuel g' size name ofs ≡ find_entry fuel g size name ofs
unfolding find_entry
find_entry-same zero g g' size name ofs same = refl
find_entry-same (suc fuel) g g' size name ofs same =
    let entry : entry_of g' ofs ≡ entry_of g ofs =
      tabulate-same g' g ofs ofs entry_size (λ k h. same (ofs + k) (omega arith)) in
    let later =
      find_entry-same fuel g g' size name (ofs + entry_size) (λ p h. same p (omega arith)) in
    ap
      (λ e.
        if leb (ofs + entry_size) size
        then (if matches e name
            then some (e, ofs)
            else find_entry fuel g' size name (ofs + entry_size))
        else none)
      entry
    ∙ ap
        (λ o.
          if leb (ofs + entry_size) size
          then (if matches (entry_of g ofs) name then some (entry_of g ofs, ofs) else o)
          else none)
        later

-- one step of the search
find_step :
    (fuel : ℕ) (g : ℕ → ℕ) (size : ℕ) (name : List ℕ) (ofs : ℕ)
    → leb (ofs + entry_size) size ≡ true
    → find_entry (suc fuel) g size name ofs ≡ (
        if matches (entry_of g ofs) name
        then some (entry_of g ofs, ofs)
        else find_entry fuel g size name (ofs + entry_size))
unfolding find_entry
find_step fuel g size name ofs h = rw h refl

next_slot :
    (fuel : ℕ) (g : ℕ → ℕ) (size ofs : ℕ)
    → leb (ofs + entry_size) size ≡ true
    → is_in_use (entry_of g ofs) ≡ true
    → slot_of (suc fuel) g size ofs ≡ slot_of fuel g size (ofs + entry_size)
unfolding slot_of
next_slot fuel g size ofs inside busy =
    ap
      (λ b. if b && is_in_use (entry_of g ofs) then slot_of fuel g size (ofs + entry_size) else ofs)
      inside
    ∙ ap (λ b. if b then slot_of fuel g size (ofs + entry_size) else ofs) busy

this_slot :
    (fuel : ℕ) (g : ℕ → ℕ) (size ofs : ℕ)
    → is_in_use (entry_of g ofs) ≡ false
    → slot_of (suc fuel) g size ofs ≡ ofs
unfolding slot_of
this_slot fuel g size ofs idle = elim (Bool-cases (leb (ofs + entry_size) size)) [
  | inl inside ↦
      ap
        (λ b.
          if b && is_in_use (entry_of g ofs) then slot_of fuel g size (ofs + entry_size) else ofs)
        inside
      ∙ ap (λ b. if b then slot_of fuel g size (ofs + entry_size) else ofs) idle
  | inr outside ↦
      ap
        (λ b.
          if b && is_in_use (entry_of g ofs) then slot_of fuel g size (ofs + entry_size) else ofs)
        outside
]

not_chosen :
    {A : Type 0} (b : Bool) (a : A) (o : Option A)
    → (if b then some a else o) ≡ none
    → (b ≡ false) × (o ≡ none)
not_chosen true a o h = (cc, cc)
not_chosen false a o h = (refl, h)

-- nothing is found from `ofs` on
passes :
    (fuel : ℕ) (g : ℕ → ℕ) (size : ℕ) (name : List ℕ) (ofs : ℕ)
    → leb (ofs + entry_size) size ≡ true
    → find_entry (suc fuel) g size name ofs ≡ none
    → (matches (entry_of g ofs) name ≡ false)
      × (find_entry fuel g size name (ofs + entry_size) ≡ none)
passes fuel g size name ofs inside absent =
    not_chosen (matches (entry_of g ofs) name) (entry_of g ofs, ofs)
      (find_entry fuel g size name (ofs + entry_size))
      (sym (find_step fuel g size name ofs inside) ∙ absent)

module _ (g g' : ℕ → ℕ) (size : ℕ) (new name : List ℕ) (whole : length new ≡ entry_size)
    (used : is_in_use new ≡ true) (named : entry_name new ≡ name)
    (self : same_string name name ≡ true)
    (other_name : (k : List ℕ) → same_string k name ≡ true → k ≡ name) where
  over :
      (e : List ℕ) (ofs slot slot' : ℕ) (k : List ℕ) (o : Option (List ℕ × ℕ))
      → matches e name ≡ false
      → slot' ≡ slot
      → (if matches e k
          then some (e, ofs)
          else (if same_string k name then some (new, slot) else o))
        ≡ (if same_string k name
            then some (new, slot')
            else (if matches e k then some (e, ofs) else o))
  over e ofs slot slot' k o ne next = elim (Bool-cases (same_string k name)) [
    | inl same ↦
        let passed : matches e k ≡ false = ap (matches e) (other_name k same) ∙ ne in
        ap (λ b. if b then some (e, ofs) else (if same_string k name then some (new, slot) else o))
          passed
        ∙ ap (λ b. if b then some (new, slot) else o) same
        ∙ ap (λ s. some (new, s)) (sym next)
        ∙ sym (
            ap (λ b. if b then some (new, slot') else (if matches e k then some (e, ofs) else o))
              same)
    | inr differ ↦
        ap (λ b. if matches e k then some (e, ofs) else (if b then some (new, slot) else o)) differ
        ∙ sym (
            ap (λ b. if b then some (new, slot') else (if matches e k then some (e, ofs) else o))
              differ)
  ]

  -- With the new entry in the slot, its name finds it, and the other names what they found.
  pub find_entry-slot_of :
      (fuel ofs : ℕ) (k : List ℕ)
      → size < ofs + fuel
      → slot_of fuel g size ofs + entry_size ≤ size
      → ((j : ℕ) → j < entry_size → g' (slot_of fuel g size ofs + j) ≡ byte_of new j)
      → ((p : ℕ) → p < slot_of fuel g size ofs → g' p ≡ g p)
      → ((p : ℕ) → slot_of fuel g size ofs + entry_size ≤ p → g' p ≡ g p)
      → find_entry fuel g size name ofs ≡ none
      → find_entry fuel g' size k ofs ≡ (
          if same_string k name
          then some (new, slot_of fuel g size ofs)
          else find_entry fuel g size k ofs)
  find_entry-slot_of zero ofs k enough fits at before after absent =
      absurd (omega (arith, slot_of-ge zero g size ofs))
  find_entry-slot_of (suc fuel) ofs k enough fits at before after absent =
      let inside : leb (ofs + entry_size) size ≡ true =
        ground (arith, fits, slot_of-ge (suc fuel) g size ofs) in
      elim (Bool-cases (is_in_use (entry_of g ofs))) [
        | inl busy ↦
            let next : slot_of (suc fuel) g size ofs ≡ slot_of fuel g size (ofs + entry_size) =
              next_slot fuel g size ofs inside busy in
            let above = slot_of-ge fuel g size (ofs + entry_size) in
            let entry : entry_of g' ofs ≡ entry_of g ofs =
              tabulate-same g' g ofs ofs entry_size
                (λ j h. before (ofs + j) (omega (arith, next, above, h))) in
            let unmatched = passes fuel g size name ofs inside absent in
            let rest =
              find_entry-slot_of fuel (ofs + entry_size) k (omega arith) (omega (arith, next, fits))
                (λ j h. ap (λ s. g' (s + j)) (sym next) ∙ at j h)
                (λ p h. before p (omega (arith, next, h))) (λ p h. after p (omega (arith, next, h)))
                unmatched.1 in
            find_step fuel g' size k ofs inside
            ∙ ap
                (λ e.
                  if matches e k
                  then some (e, ofs)
                  else find_entry fuel g' size k (ofs + entry_size))
                entry
            ∙ ap (λ o. if matches (entry_of g ofs) k then some (entry_of g ofs, ofs) else o) rest
            ∙ over (entry_of g ofs) ofs (slot_of fuel g size (ofs + entry_size))
                (slot_of (suc fuel) g size ofs) k (find_entry fuel g size k (ofs + entry_size))
                unmatched.0 next
            ∙ ap (λ o. if same_string k name then some (new, slot_of (suc fuel) g size ofs) else o)
                (sym (find_step fuel g size k ofs inside))
        | inr idle ↦
            let here : slot_of (suc fuel) g size ofs ≡ ofs = this_slot fuel g size ofs idle in
            let entry : entry_of g' ofs ≡ new =
              tabulate-same g' (byte_of new) ofs 0 entry_size
                (λ j h. ap (λ s. g' (s + j)) (sym here) ∙ at j h ∙ ap (byte_of new) (omega arith))
              ∙ sym (slice-tabulate new 0 entry_size (omega (arith, whole)))
              ∙ take_whole new entry_size whole in
            let rest =
              find_entry-same fuel g g' size k (ofs + entry_size)
                (λ p h. after p (omega (arith, here, h))) in
            find_step fuel g' size k ofs inside
            ∙ ap
                (λ e.
                  if matches e k
                  then some (e, ofs)
                  else find_entry fuel g' size k (ofs + entry_size))
                entry
            ∙ ap (λ o. if matches new k then some (new, ofs) else o) rest
            ∙ ap (λ b. if b then some (new, ofs) else find_entry fuel g size k (ofs + entry_size))
                (matches_new k)
            ∙ ap
                (λ s.
                  if same_string k name
                  then some (new, s)
                  else find_entry fuel g size k (ofs + entry_size))
                (sym here)
            ∙ ap (λ o. if same_string k name then some (new, slot_of (suc fuel) g size ofs) else o)
                (sym (
                  find_step fuel g size k ofs inside
                  ∙ ap
                      (λ b.
                        if b && same_string k (entry_name (entry_of g ofs))
                        then some (entry_of g ofs, ofs)
                        else find_entry fuel g size k (ofs + entry_size))
                      idle))
      ]
    where
      take_whole : (xs : List ℕ) (n : ℕ) → length xs ≡ n → take n xs ≡ xs
      take_whole [] zero h = refl
      take_whole [] (suc n) h = refl
      take_whole (x ∷ xs) zero h = absurd (omega arith)
      take_whole (x ∷ xs) (suc n) h = ap (λ ys. x ∷ ys) (take_whole xs n (omega arith))

      matches_new : (k : List ℕ) → matches new k ≡ same_string k name
      matches_new k = ap (λ b. b && same_string k (entry_name new)) used ∙ ap (same_string k) named

-- Bytes behind the slot, when it does not fit into the file, are part of no entry.
pub find_entry-cut :
    (g g' : ℕ → ℕ) (size fuel ofs : ℕ) (k : List ℕ)
    → size < slot_of fuel g size ofs + entry_size
    → ((p : ℕ) → p < slot_of fuel g size ofs → g' p ≡ g p)
    → find_entry fuel g' size k ofs ≡ find_entry fuel g size k ofs
unfolding find_entry
find_entry-cut g g' size zero ofs k cut before = refl
find_entry-cut g g' size (suc fuel) ofs k cut before =
    elim (Bool-cases (leb (ofs + entry_size) size)) [
      | inr outside ↦
          ap
            (λ b.
              if b
              then (if matches (entry_of g' ofs) k
                  then some (entry_of g' ofs, ofs)
                  else find_entry fuel g' size k (ofs + entry_size))
              else none)
            outside
          ∙ sym (
              ap
                (λ b.
                  if b
                  then (if matches (entry_of g ofs) k
                      then some (entry_of g ofs, ofs)
                      else find_entry fuel g size k (ofs + entry_size))
                  else none)
                outside)
      | inl inside ↦ elim (Bool-cases (is_in_use (entry_of g ofs))) [
        | inr idle ↦ absurd (ground (arith, inside, cut, this_slot fuel g size ofs idle))
        | inl busy ↦
            let next = next_slot fuel g size ofs inside busy in
            let above = slot_of-ge fuel g size (ofs + entry_size) in
            let entry : entry_of g' ofs ≡ entry_of g ofs =
              tabulate-same g' g ofs ofs entry_size
                (λ j h. before (ofs + j) (omega (arith, next, above, h))) in
            let rest =
              find_entry-cut g g' size fuel (ofs + entry_size) k (omega (arith, next, cut))
                (λ p h. before p (omega (arith, next, h))) in
            find_step fuel g' size k ofs inside
            ∙ ap
                (λ e.
                  if matches e k
                  then some (e, ofs)
                  else find_entry fuel g' size k (ofs + entry_size))
                entry
            ∙ ap (λ o. if matches (entry_of g ofs) k then some (entry_of g ofs, ofs) else o) rest
            ∙ sym (find_step fuel g size k ofs inside)
      ]
    ]
