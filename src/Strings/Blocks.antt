-- ===== src/Strings/Blocks.antt =====
-- `memmove` between blocks that overlap.
use uni_orion_os.Base.{
  ℕ, zero, suc, ◌+◌, ◌-◌, ◌≤◌, ◌<◌, ◌≡◌, refl, ◌∙◌, sym, ap, inl, inr, ltb, if◌then◌else◌, ◌==◌,
  arith, Bool-cases, ◌⊎◌, true, false, none, some, Option,
}
use uni_orion_os.Devices.Block.{update, update_self, update_ne}
use uni_orion_os.Strings.{Memory, copy_up, copy_down, memmove, is_block}

-- The block at `src` was copied to `dst`, and no other byte changed.
pub record Moved (m m' : Memory) (dst src size : ℕ) : Type 0 where
  pub copied : (k : ℕ) → k < size → m' (dst + k) ≡ m (src + k)
  pub before : (a : ℕ) → a < dst → m' a ≡ m a
  pub after : (a : ℕ) → dst + size ≤ a → m' a ≡ m a

copy_up-Moved :
    (size : ℕ) (m : Memory) (dst src : ℕ)
    → dst ≤ src
    → Moved m (copy_up size m dst src) dst src size
unfolding copy_up
copy_up-Moved zero m dst src h = record {
  copied = λ k l. absurd (omega arith);
  before = λ a l. refl;
  after = λ a l. refl;
}
copy_up-Moved (suc size) m dst src h =
    let m1 = update m dst (m src) in
    let r = copy_up-Moved size m1 (dst + 1) (src + 1) (omega arith) in
    record {
      copied = λ k l. elim (Bool-cases (k == 0)) [
        | inl first ↦
            let here : dst + k ≡ dst = ground (arith, first) in
            let there : src + k ≡ src = ground (arith, first) in
            ap (copy_up size m1 (dst + 1) (src + 1)) here
            ∙ r.before dst (omega arith)
            ∙ update_self m dst (m src)
            ∙ ap m (sym there)
        | inr later ↦
            let here : dst + k ≡ dst + 1 + (k - 1) = ground (arith, later) in
            let there : src + 1 + (k - 1) ≡ src + k = ground (arith, later) in
            ap (copy_up size m1 (dst + 1) (src + 1)) here
            ∙ r.copied (k - 1) (ground (arith, later, l))
            ∙ ap m1 there
            ∙ update_ne m dst (m src) (src + k) (λ e. ground (arith, e, h, later))
      ];
      before =
          λ a l. r.before a (omega arith) ∙ update_ne m dst (m src) a (λ e. omega (arith, e, l));
      after = λ a l. r.after a (omega arith) ∙ update_ne m dst (m src) a (λ e. omega (arith, e, l));
    }

copy_down-Moved :
    (size : ℕ) (m : Memory) (dst src : ℕ)
    → src ≤ dst
    → Moved m (copy_down size m dst src) dst src size
unfolding copy_down
copy_down-Moved zero m dst src h = record {
  copied = λ k l. absurd (omega arith);
  before = λ a l. refl;
  after = λ a l. refl;
}
copy_down-Moved (suc size) m dst src h =
    let byte = m (src + size) in
    let m1 = update m (dst + size) byte in
    let r = copy_down-Moved size m1 dst src h in
    record {
      copied = λ k l. elim (Bool-cases (k == size)) [
        | inl last ↦
            let here : dst + k ≡ dst + size = ground (arith, last) in
            let there : src + k ≡ src + size = ground (arith, last) in
            ap (copy_down size m1 dst src) here
            ∙ r.after (dst + size) (omega arith)
            ∙ update_self m (dst + size) byte
            ∙ ap m (sym there)
        | inr other ↦
            r.copied k (ground (arith, other, l))
            ∙ update_ne m (dst + size) byte (src + k) (λ e. ground (arith, e, h, l, other))
      ];
      before = λ a l. r.before a l ∙ update_ne m (dst + size) byte a (λ e. omega (arith, e, l));
      after = λ a l.
          r.after a (omega arith) ∙ update_ne m (dst + size) byte a (λ e. omega (arith, e, l));
    }

block-cases :
    (pointer size : ℕ)
    → ((pointer ≡ 0) × (0 < size) × (is_block pointer size ≡ false))
      ⊎ (((0 < pointer) ⊎ (size ≡ 0)) × (is_block pointer size ≡ true))
block-cases pointer size = elim (Bool-cases (pointer == 0)) [
  | inr there ↦ inr (inl (ground (arith, there)), ground (arith, there))
  | inl missing ↦ elim (Bool-cases (size == 0)) [
    | inl empty ↦ inr (inr (ground (arith, empty)), ground (arith, empty))
    | inr full ↦ inl (ground (arith, missing), ground (arith, full), ground (arith, missing, full))
  ]
]

-- What `memmove` does: it panics for bytes at NULL, and otherwise moves them.
pub data MoveOutcome (m : Memory) (dst src size : ℕ) : Option (ℕ × Memory) → Type 0 where
  panics : (dst ≡ 0) ⊎ (src ≡ 0) → 0 < size → MoveOutcome m dst src size none
  moves :
      {pointer : ℕ} {m' : Memory}
      → (0 < dst) ⊎ (size ≡ 0)
      → (0 < src) ⊎ (size ≡ 0)
      → Moved m m' dst src size
      → pointer ≡ (if ltb dst src then dst + size else dst)
      → MoveOutcome m dst src size (some (pointer, m'))

moved-MoveOutcome :
    (m : Memory) (dst src size : ℕ)
    → (0 < dst) ⊎ (size ≡ 0)
    → (0 < src) ⊎ (size ≡ 0)
    → MoveOutcome m dst src size (
        some (
          if ltb dst src
          then (dst + size, copy_up size m dst src)
          else (dst, copy_down size m dst src)))
moved-MoveOutcome m dst src size target source = elim (Bool-cases (ltb dst src)) [
  | inl up ↦
      let all = copy_up-Moved size m dst src (ground (arith, up)) in
      rw up (moves target source all (rw up refl))
  | inr down ↦
      let all = copy_down-Moved size m dst src (ground (arith, down)) in
      rw down (moves target source all (rw down refl))
]

-- For every two blocks of a size, memmove either panics, and one of them is at NULL and the size
-- is not 0; or none of them is at NULL or the size is 0, and it leaves at the target what was at
-- the source and changes no other byte, whether they overlap or not, and returns the target, or
-- one past the end of the target where the target is below the source.
pub memmove-MoveOutcome :
    (m : Memory) (dst src size : ℕ) → MoveOutcome m dst src size (memmove m dst src size)
unfolding memmove
memmove-MoveOutcome m dst src size = elim (block-cases dst size) [
  | inl (null, full, bad) ↦ rw bad (panics (inl null) full)
  | inr (target, target_ok) ↦ elim (block-cases src size) [
    | inl (null, full, bad) ↦ rw (target_ok, bad) (panics (inr null) full)
    | inr (source, source_ok) ↦
        rw (target_ok, source_ok) (moved-MoveOutcome m dst src size target source)
  ]
]
