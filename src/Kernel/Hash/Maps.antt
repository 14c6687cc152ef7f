-- ===== src/Kernel/Hash/Maps.antt =====
-- The table as a finite map from keys to elements.
use uni_orion_os.Base.{
  ℕ, ◌≡◌, refl, ◌∙◌, sym, ap, inl, inr, Bool, Option, none, some, if◌then◌else◌, Bool-cases,
}
use uni_orion_os.Kernel.Hash.{
  insert_elem, remove_elem, delete_found, hash_insert, hash_replace, hash_delete, Hash, bucket_idx,
  equal, find_elem, hash_find, rehash,
}
use uni_orion_os.Kernel.Hash.Elements.{IsHashing, IsTable, equal-sym, same_idx}
use uni_orion_os.Kernel.Hash.Finding.{Finds}
use uni_orion_os.Kernel.Hash.Removing.{find_elem-same}
use uni_orion_os.Kernel.Hash.Changes.{rehash-Finds, insert_elem-Finds, remove_elem-Finds}

module _ {A : Type 0} (hash : A → ℕ) (less : A → A → Bool) (law : IsHashing hash less) (h : Hash A)
    (t : IsTable hash less h) (e : A) (memory : Bool) where
  module _ (absent : hash_find hash less h e ≡ none) where
    insert_absent :
        {h' : Hash A}
        → rehash hash less (insert_elem hash less h e) memory ≡ some h'
        → hash_insert hash less h e memory ≡ some (none, h')
    unfolding hash_insert
    insert_absent r = rw (absent, r) refl

    replace_absent :
        {h' : Hash A}
        → rehash hash less (insert_elem hash less h e) memory ≡ some h'
        → hash_replace hash less h e memory ≡ some (none, h')
    unfolding hash_replace
    replace_absent r = rw (absent, r) refl

    delete_absent : hash_delete hash less h e memory ≡ some (none, h)
    unfolding hash_delete delete_found
    delete_absent = rw absent refl

    unfound :
        (k : A)
        → hash_find hash less h k ≡ (if equal hash less e k then none else hash_find hash less h k)
    unfolding hash_find
    unfound k = elim (Bool-cases (equal hash less e k)) [
      | inr other ↦ sym (ap (λ b. if b then none else hash_find hash less h k) other)
      | inl eq ↦
          find_elem-same hash less law (h.buckets (bucket_idx hash less h.bucket_cnt k)) k e
            (equal-sym hash less law e k eq)
          ∙ ap (λ j. find_elem hash less (h.buckets j) e)
              (sym (same_idx hash less law h.bucket_cnt e k eq))
          ∙ absent
          ∙ sym (ap (λ b. if b then none else hash_find hash less h k) eq)
    ]

  module _ {old : A} (found : hash_find hash less h e ≡ some old) where
    insert_found :
        {h' : Hash A}
        → rehash hash less h memory ≡ some h'
        → hash_insert hash less h e memory ≡ some (some old, h')
    unfolding hash_insert
    insert_found r = rw (found, r) refl

    replace_found :
        {h' : Hash A}
        → rehash hash less (insert_elem hash less (remove_elem hash less h e) e) memory ≡ some h'
        → hash_replace hash less h e memory ≡ some (some old, h')
    unfolding hash_replace
    replace_found r = rw (found, r) refl

    delete_present :
        {h' : Hash A}
        → rehash hash less (remove_elem hash less h e) memory ≡ some h'
        → hash_delete hash less h e memory ≡ some (some old, h')
    unfolding hash_delete delete_found
    delete_present r = rw (found, r) refl

  -- the map with `e` for the keys that equal it, and without them
  abbrev pub with_element : A → Option A
  with_element k = if equal hash less e k then some e else hash_find hash less h k

  abbrev pub without_element : A → Option A
  without_element k = if equal hash less e k then none else hash_find hash less h k

  abbrev pub kept_or_with : Option A → A → Option A
  kept_or_with none k = with_element k
  kept_or_with (some old) k = hash_find hash less h k

  over_without :
      (k : A) → (if equal hash less e k then some e else without_element k) ≡ with_element k
  over_without k = elim (Bool-cases (equal hash less e k)) [
    | inl eq ↦ rw eq refl
    | inr other ↦ rw other refl
  ]

  -- If equality of elements is an equivalence under which hashes agree, then on a well-formed
  -- table hash_insert returns what is found for the new element; the table stays well formed,
  -- finds the new element for the keys that equal it if nothing was found, and else finds what
  -- it found before.
  pub hash_insert-Finds :
      (h' : Hash A) × (hash_insert hash less h e memory ≡ some (hash_find hash less h e, h'))
      × Finds hash less h' (kept_or_with (hash_find hash less h e))
  hash_insert-Finds = go (hash_find hash less h e) refl
    where
      go :
          (o : Option A)
          → hash_find hash less h e ≡ o
          → (h' : Hash A) × (hash_insert hash less h e memory ≡ some (o, h'))
            × Finds hash less h' (kept_or_with o)
      go none absent =
          let (h', r, f) =
            rehash-Finds hash less law (insert_elem hash less h e) memory with_element
              (insert_elem-Finds hash less law h t e absent) in
          (h', insert_absent absent r, f)
      go (some old) found =
          let (h', r, f) =
            rehash-Finds hash less law h memory (hash_find hash less h)
              (record { table = t; find = λ k. refl }) in
          (h', insert_found found r, f)

  -- If equality of elements is an equivalence under which hashes agree, then on a well-formed
  -- table hash_delete returns what is found for the element; the table stays well formed, finds
  -- nothing for the keys that equal the element, and what it found before for all others.
  pub hash_delete-Finds :
      (h' : Hash A) × (hash_delete hash less h e memory ≡ some (hash_find hash less h e, h'))
      × Finds hash less h' without_element
  hash_delete-Finds = go (hash_find hash less h e) refl
    where
      go :
          (o : Option A)
          → hash_find hash less h e ≡ o
          → (h' : Hash A) × (hash_delete hash less h e memory ≡ some (o, h'))
            × Finds hash less h' without_element
      go none absent = (h, delete_absent absent, record { table = t; find = unfound absent })
      go (some old) found =
          let (h', r, f) =
            rehash-Finds hash less law (remove_elem hash less h e) memory without_element
              (remove_elem-Finds hash less law h t e found) in
          (h', delete_present found r, f)

  -- If equality of elements is an equivalence under which hashes agree, then on a well-formed
  -- table hash_replace returns what is found for the new element; the table stays well formed,
  -- finds the new element for the keys that equal it, and what it found before for all others.
  pub hash_replace-Finds :
      (h' : Hash A) × (hash_replace hash less h e memory ≡ some (hash_find hash less h e, h'))
      × Finds hash less h' with_element
  hash_replace-Finds = go (hash_find hash less h e) refl
    where
      go :
          (o : Option A)
          → hash_find hash less h e ≡ o
          → (h' : Hash A) × (hash_replace hash less h e memory ≡ some (o, h'))
            × Finds hash less h' with_element
      go none absent =
          let (h', r, f) =
            rehash-Finds hash less law (insert_elem hash less h e) memory with_element
              (insert_elem-Finds hash less law h t e absent) in
          (h', replace_absent absent r, f)
      go (some old) found =
          let less_one = remove_elem hash less h e in
          let removed = remove_elem-Finds hash less law h t e found in
          let gone : hash_find hash less less_one e ≡ none =
            removed.find e ∙ ap (λ b. if b then none else hash_find hash less h e) (law.self e) in
          let added = insert_elem-Finds hash less law less_one removed.table e gone in
          let (h', r, f) =
            rehash-Finds hash less law (insert_elem hash less less_one e) memory with_element
              (record {
                table = added.table;
                find = λ k.
                    added.find k
                    ∙ ap (λ o. if equal hash less e k then some e else o) (removed.find k)
                    ∙ over_without k;
              }) in
          (h', replace_found found r, f)
