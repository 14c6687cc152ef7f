-- ===== src/Filesys/Directory/Fields.antt =====
-- The fields of the entry that `dir_add` writes.
use uni_orion_os.Base.{
  ℕ, suc, ◌+◌, ◌-◌, ◌^◌, ◌≤◌, ◌<◌, ◌≡◌, refl, ◌∙◌, sym, ap, inl, inr, Bool, true, false, ◌&&◌, List,
  [], ◌∷◌, ◌++◌, ◌==◌, if◌then◌else◌, arith, Bool-cases, length, take, drop, eq→==, length-append,
}
use uni_orion_os.Base.Slices.{byte_of, byte_of-right, length-take, length-drop}
use uni_orion_os.Filesys.Inode.{word_bytes}
use uni_orion_os.Filesys.Inode.Encoding.{word_at-word_bytes}
use uni_orion_os.Filesys.Directory.{
  entry_size, name_max, name_at, c_string, same_string, inode_sector, is_in_use, is_directory,
  entry_name, set_entry,
}

-- the facts about the entry that `dir_add` writes
module _ (e name : List ℕ) (sector : ℕ) (is_dir : Bool) (whole : length e ≡ entry_size)
    (fits : length name ≤ name_max) where
  abbrev pad : List ℕ
  pad = drop (length name + 1) (take 17 (drop name_at e))

  abbrev flags : List ℕ
  flags = (if is_dir then 1 else 0) ∷ 1 ∷ drop 23 e

  length-pad : length pad ≡ 16 - length name
  length-pad = omega (
    arith,
    fits,
    length-drop (take 17 (drop name_at e)) (length name + 1),
    length-take (drop name_at e) 17 (omega (arith, length-drop e name_at, whole)),
  )

  pub length-set_entry : length (set_entry e name sector is_dir) ≡ entry_size
  unfolding set_entry
  length-set_entry =
      let a = length-append (word_bytes sector) (name ++ (0 ∷ (pad ++ flags))) in
      let b = length-append name (0 ∷ (pad ++ flags)) in
      let c = length-append pad flags in
      omega (arith, a, b, c, length-pad, length-drop e 23, whole, fits)

  at_flags : (k : ℕ) → byte_of (set_entry e name sector is_dir) (21 + k) ≡ byte_of flags k
  unfolding set_entry
  at_flags k =
      let place : 21 + k ≡ length (word_bytes sector) + (length name + suc (length pad + k)) =
        omega (arith, length-pad, fits) in
      ap (byte_of (word_bytes sector ++ (name ++ (0 ∷ (pad ++ flags))))) place
      ∙ byte_of-right (word_bytes sector) (name ++ (0 ∷ (pad ++ flags)))
          (length name + suc (length pad + k))
      ∙ byte_of-right name (0 ∷ (pad ++ flags)) (suc (length pad + k))
      ∙ byte_of-right pad flags k

  pub is_in_use-set_entry : is_in_use (set_entry e name sector is_dir) ≡ true
  is_in_use-set_entry = let one = at_flags 1 in ground (arith, one)

  pub is_directory-set_entry : is_directory (set_entry e name sector is_dir) ≡ is_dir
  is_directory-set_entry =
      let flag = at_flags 0 in
      elim (Bool-cases is_dir) [
        | inl yes_dir ↦ ground (arith, flag, yes_dir)
        | inr no_dir ↦ ground (arith, flag, no_dir)
      ]

  pub inode_sector-set_entry :
      sector < 2 ^ 32 → inode_sector (set_entry e name sector is_dir) ≡ sector
  unfolding set_entry
  inode_sector-set_entry h = word_at-word_bytes sector (name ++ (0 ∷ (pad ++ flags))) h

  pub entry_name-set_entry :
      c_string name ≡ name → entry_name (set_entry e name sector is_dir) ≡ name
  unfolding set_entry
  entry_name-set_entry h = ends name (pad ++ flags) ∙ h
    where
      ends : (xs ys : List ℕ) → c_string (xs ++ (0 ∷ ys)) ≡ c_string xs
      ends [] ys = refl
      ends (x ∷ xs) ys = ap (λ zs. if x == 0 then [] else x ∷ zs) (ends xs ys)

pub same_string_refl : (xs : List ℕ) → same_string xs xs ≡ true
same_string_refl [] = refl
same_string_refl (x ∷ xs) = rw (eq→== x x refl) (same_string_refl xs)

pub same_string-eq : (xs ys : List ℕ) → same_string xs ys ≡ true → xs ≡ ys
same_string-eq [] [] h = refl
same_string-eq [] (y ∷ ys) h = cc
same_string-eq (x ∷ xs) [] h = cc
same_string-eq (x ∷ xs) (y ∷ ys) h = elim (Bool-cases (x == y)) [
  | inl same ↦
      let head : x ≡ y = ground (arith, same) in
      let tail = same_string-eq xs ys (sym (ap (λ b. b && same_string xs ys) same) ∙ h) in
      rw (head, tail) refl
  | inr other ↦ let clash : false ≡ true = sym (ap (λ b. b && same_string xs ys) other) ∙ h in cc
]
