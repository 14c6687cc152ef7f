-- ===== src/Devices/Block.antt =====
-- devices/block.c: a block device, with the driver behind it as an array of sectors. `none` is a
-- PANIC or a failed ASSERT.
use uni_orion_os.Base.{
  ℕ, ◌+◌, ◌%◌, ◌^◌, ◌<◌, ◌≡◌, refl, Bool, true, false, Option, some, ltb, ◌==◌, lt→ltb, eq→==, ◌⊎◌,
  inl, inr, ◌≢◌, Bool-cases, arith, if◌then◌else◌,
}
use uni_orion_os.Base.Panic.{◌>>◌, ensure}

-- `enum block_type`
pub data BlockType : Type 0 where
  kernel filesys scratch swap raw foreign : BlockType

abbrev pub is_foreign : BlockType → Bool
is_foreign foreign = true
is_foreign _ = false

-- `struct block`: the list element, the name and the driver's tables have no part in the theorems.
pub record Block (S : Type 0) : Type 0 where
  pub kind : BlockType
  pub size : ℕ
  pub sectors : ℕ → S
  pub read_cnt : ℕ
  pub write_cnt : ℕ

abbrev pub update {ℓ} : {A : Type ℓ} → (ℕ → A) → ℕ → A → ℕ → A
update f i v j = if i == j then v else f j

pub update_self {ℓ} : {A : Type ℓ} (f : ℕ → A) (i : ℕ) (v : A) → update f i v i ≡ v
update_self f i v = rw (eq→== i i refl) refl

-- a property of an updated function at one place
pub update-at {ℓ κ} :
    {A : Type ℓ} (P : A → Type κ) (f : ℕ → A) (i : ℕ) (v : A) (j : ℕ)
    → (i ≡ j → P v)
    → P (f j)
    → P (update f i v j)
update-at P f i v j here there = elim (Bool-cases (i == j)) [
  | inl same ↦ rw same (here (ground arith))
  | inr other ↦ rw other there
]

-- an updated function at one place is the new value, or as before
pub update-cases {ℓ} :
    {A : Type ℓ} (f : ℕ → A) (i : ℕ) (v : A) (j : ℕ)
    → ((j ≡ i) × (update f i v j ≡ v)) ⊎ ((j ≢ i) × (update f i v j ≡ f j))
update-cases f i v j = elim (Bool-cases (i == j)) [
  | inl same ↦ rw same (inl (ground arith, refl))
  | inr other ↦ rw other (inr ((λ e. ground (arith, e)), refl))
]

pub update_ne {ℓ} : {A : Type ℓ} (f : ℕ → A) (i : ℕ) (v : A) (j : ℕ) → j ≢ i → update f i v j ≡ f j
update_ne f i v j other = elim (Bool-cases (i == j)) [
  | inl same ↦ absurd (other (ground arith))
  | inr ne ↦ rw ne refl
]

-- `unsigned long long` counters
abbrev tick : ℕ → ℕ
tick n = (n + 1) % 2 ^ 64

module _ {S : Type 0} where
  unfoldable pub block_size : Block S → ℕ
  block_size b = b.size

  check_sector : Block S → ℕ → Option (Unit {0})
  check_sector b sector = ensure (ltb sector b.size)

  unfoldable pub block_read : Block S → ℕ → Option (S × Block S)
  unfolding check_sector
  block_read b sector = do
    check_sector b sector
    some (b.sectors sector, record b { read_cnt = tick b.read_cnt })

  unfoldable pub block_write : Block S → ℕ → S → Option (Block S)
  unfolding check_sector
  block_write b sector buffer = do
    check_sector b sector
    ensure (if is_foreign b.kind then false else true)
    some (record b { sectors = update b.sectors sector buffer; write_cnt = tick b.write_cnt })

  -- the device after a read, and after a write
  abbrev pub after_read : Block S → Block S
  after_read b = record b { read_cnt = tick b.read_cnt }

  abbrev pub after_write : Block S → ℕ → S → Block S
  after_write b sector buffer = record b {
    sectors = update b.sectors sector buffer;
    write_cnt = tick b.write_cnt;
  }

  module _ (b : Block S) {sector : ℕ} (inside : sector < b.size) where
    pub read-ok : block_read b sector ≡ some (b.sectors sector, after_read b)
    unfolding block_read
    read-ok = rw (lt→ltb sector b.size inside) refl

    pub write-ok :
        (buffer : S)
        → is_foreign b.kind ≡ false
        → block_write b sector buffer ≡ some (after_write b sector buffer)
    unfolding block_write
    write-ok buffer own = rw (lt→ltb sector b.size inside, own) refl
