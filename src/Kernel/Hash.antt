-- ===== src/Kernel/Hash.antt =====
-- lib/kernel/hash.c: a table of buckets, each the sequence of its elements, front first. `hash` and
-- `less` are the functions that the table is made with. `none` is a failed ASSERT, or a loop
-- without end.
pub mod Sizes
pub mod Elements
pub mod Moving
pub mod Finding
pub mod Removing
pub mod Changes
pub mod Maps
mod Tests
use uni_orion_os.Base.{
  ℕ, zero, suc, ◌+◌, ◌-◌, ◌*◌, ◌/◌, ◌%◌, ◌^◌, Bool, true, false, not, ◌&&◌, Option, none, some,
  List, [], ◌∷◌, ◌++◌, ◌==◌, ltb, if◌then◌else◌, bit_and, bit_xor,
}
use uni_orion_os.Base.Panic.{◌>>=◌}
use uni_orion_os.Devices.Block.{update}

-- `struct hash`
pub record Hash (A : Type 0) : Type 0 where
  pub elem_cnt : ℕ
  pub bucket_cnt : ℕ
  pub buckets : ℕ → List A

unfoldable pub turn_off_least_1bit : ℕ → ℕ
turn_off_least_1bit x = bit_and x (x - 1)

unfoldable pub is_power_of_2 : ℕ → Bool
is_power_of_2 x = not (x == 0) && turn_off_least_1bit x == 0

-- the loop of `rehash` over the number of buckets
unfoldable pub power_loop : (fuel n : ℕ) → Option ℕ
power_loop zero n = none
power_loop (suc fuel) n =
    let go_on = power_loop fuel (turn_off_least_1bit n) in if is_power_of_2 n then some n else go_on

abbrev pub best_elems_per_bucket : ℕ
best_elems_per_bucket = 2

-- each round takes one from the number at least
unfoldable pub new_bucket_cnt : (elem_cnt : ℕ) → Option ℕ
new_bucket_cnt elem_cnt =
    let n = elem_cnt / best_elems_per_bucket in
    let cnt = if ltb n 4 then 4 else n in power_loop cnt cnt

-- Fowler-Noll-Vo for 32-bit words
abbrev fnv_32_prime : ℕ
fnv_32_prime = 16777619

abbrev fnv_32_basis : ℕ
fnv_32_basis = 2166136261

hash_from : ℕ → List ℕ → ℕ
hash_from hash [] = hash
hash_from hash (b ∷ buf) = hash_from (bit_xor (hash * fnv_32_prime % 2 ^ 32) b) buf

unfoldable pub hash_bytes : List ℕ → ℕ
unfolding hash_from
hash_bytes buf = hash_from fnv_32_basis buf

-- up to the terminating 0
string_from : ℕ → List ℕ → ℕ
string_from hash [] = hash
string_from hash (c ∷ s) =
    let rest = string_from (bit_xor (hash * fnv_32_prime % 2 ^ 32) c) s in
    if c == 0 then hash else rest

unfoldable pub hash_string : List ℕ → ℕ
unfolding string_from
hash_string s = string_from fnv_32_basis s

-- the four bytes of an int
unfoldable pub hash_int : ℕ → ℕ
hash_int i = hash_bytes (i % 256 ∷ i / 256 % 256 ∷ i / 65536 % 256 ∷ i / 16777216 % 256 ∷ [])

module _ {A : Type 0} where
  -- the elements of `rounds` buckets, from `i` on
  unfoldable pub elements_from : (rounds i : ℕ) → (ℕ → List A) → List A
  elements_from zero i buckets = []
  elements_from (suc rounds) i buckets = buckets i ++ elements_from rounds (i + 1) buckets

  -- `hash_apply`: the elements that the action is called with, one after the other
  unfoldable pub hash_apply : Hash A → List A
  hash_apply h = elements_from h.bucket_cnt 0 h.buckets

  abbrev pub no_elements : ℕ → List A
  no_elements i = []

  -- `hash_clear`, with the elements that the destructor is called with
  unfoldable pub hash_clear : Hash A → (destructor : Bool) → List A × Hash A
  hash_clear h destructor = (
    if destructor then hash_apply h else [],
    record {
      elem_cnt = 0;
      bucket_cnt = h.bucket_cnt;
      buckets = λ i. if ltb i h.bucket_cnt then [] else h.buckets i;
    },
  )

  -- `garbage` is what the block that `malloc` gives holds, `none` for NULL
  unfoldable pub hash_init : (garbage : Option (ℕ → List A)) → Option (Hash A)
  hash_init none = none
  hash_init (some garbage) =
      let (_, h) = hash_clear (record { elem_cnt = 0; bucket_cnt = 4; buckets = garbage }) false in
      some h

  -- the elements that the destructor is called with; the table is freed
  unfoldable pub hash_destroy : Hash A → (destructor : Bool) → List A
  hash_destroy h destructor = if destructor then (hash_clear h true).0 else []

  unfoldable pub hash_size : Hash A → ℕ
  hash_size h = h.elem_cnt

  unfoldable pub hash_empty : Hash A → Bool
  hash_empty h = h.elem_cnt == 0

module _ {A : Type 0} (hash : A → ℕ) (less : A → A → Bool) where
  -- the index of `find_bucket`
  abbrev pub bucket_idx : (bucket_cnt : ℕ) → A → ℕ
  bucket_idx bucket_cnt e = bit_and (hash e) (bucket_cnt - 1)

  abbrev pub equal : A → A → Bool
  equal x e = not (less x e) && not (less e x)

  unfoldable pub find_elem : List A → (e : A) → Option A
  find_elem [] e = none
  find_elem (hi ∷ bucket) e =
      let later = find_elem bucket e in if equal hi e then some hi else later

  -- the bucket without the element that `find_elem` finds
  unfoldable pub remove_found : List A → (e : A) → List A
  remove_found [] e = []
  remove_found (hi ∷ bucket) e =
      let later = hi ∷ remove_found bucket e in if equal hi e then bucket else later

  abbrev pub find_bucket : Hash A → A → List A
  find_bucket h e = h.buckets (bucket_idx h.bucket_cnt e)

  abbrev pub insert_elem : Hash A → A → Hash A
  insert_elem h e = record h {
    elem_cnt = h.elem_cnt + 1;
    buckets = update h.buckets (bucket_idx h.bucket_cnt e) (e ∷ find_bucket h e);
  }

  abbrev pub remove_elem : Hash A → (e : A) → Hash A
  remove_elem h e = record h {
    elem_cnt = h.elem_cnt - 1;
    buckets = update h.buckets (bucket_idx h.bucket_cnt e) (remove_found (find_bucket h e) e);
  }

  -- the elements one after the other into their new buckets
  unfoldable pub move_all : (bucket_cnt : ℕ) → List A → (ℕ → List A) → ℕ → List A
  move_all bucket_cnt [] buckets = buckets
  move_all bucket_cnt (e ∷ rest) buckets =
      let i = bucket_idx bucket_cnt e in move_all bucket_cnt rest (update buckets i (e ∷ buckets i))

  abbrev pub rehashed : Hash A → (cnt : ℕ) → Hash A
  rehashed h cnt = record {
    elem_cnt = h.elem_cnt;
    bucket_cnt = cnt;
    buckets = move_all cnt (hash_apply h) no_elements;
  }

  -- `memory` says whether `malloc` gives the new buckets
  unfoldable pub rehash : Hash A → (memory : Bool) → Option (Hash A)
  rehash h memory = do
    cnt ← new_bucket_cnt h.elem_cnt
    if cnt == h.bucket_cnt then some h else (if not memory then some h else some (rehashed h cnt))

  unfoldable pub hash_find : Hash A → A → Option A
  hash_find h e = find_elem (find_bucket h e) e

  insert_new : Hash A → A → (old : Option A) → Hash A
  insert_new h e none = insert_elem h e
  insert_new h e (some old) = h

  unfoldable pub hash_insert : Hash A → A → (memory : Bool) → Option (Option A × Hash A)
  unfolding insert_new
  hash_insert h new memory = do
    let old = hash_find h new
    h ← rehash (insert_new h new old) memory
    some (old, h)

  without_old : Hash A → A → (old : Option A) → Hash A
  without_old h e none = h
  without_old h e (some old) = remove_elem h e

  unfoldable pub hash_replace : Hash A → A → (memory : Bool) → Option (Option A × Hash A)
  unfolding without_old
  hash_replace h new memory = do
    let old = hash_find h new
    h ← rehash (insert_elem (without_old h new old) new) memory
    some (old, h)

  delete_found : Hash A → A → (memory : Bool) → (found : Option A) → Option (Hash A)
  delete_found h e memory none = some h
  delete_found h e memory (some found) = rehash (remove_elem h e) memory

  unfoldable pub hash_delete : Hash A → A → (memory : Bool) → Option (Option A × Hash A)
  unfolding delete_found
  hash_delete h e memory = do
    let found = hash_find h e
    h ← delete_found h e memory found
    some (found, h)
