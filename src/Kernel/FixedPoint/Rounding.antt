-- ===== src/Kernel/FixedPoint/Rounding.antt =====
-- The conversions of fixed_point.c to integers.
use mathlib.Core.Path.{subst}
use uni_orion_os.Base.{ℕ, zero, suc, ◌+◌, ◌*◌, ◌/◌, ◌^◌, ◌≤◌, ◌<◌, ◌≡◌, refl, sym, ◌∙◌, ap, arith}
use uni_orion_os.Base.Int.{
  ℤ, pos, negsuc, pos_part, neg_part, ◌+ℤ◌, ◌*ℤ◌, ◌/ℤ◌, ◌≤ℤ◌, neg_ℕ, int32, int64-id, int32-id,
  Fits32, Fits64,
}
use uni_orion_os.Kernel.FixedPoint.{f, half_f, fp_from_int, fp_to_int_rz, fp_to_int_rn}

pub from_int_lem : (n : ℤ) → Fits32 n → fp_from_int n ≡ n *ℤ f
unfolding fp_from_int
from_int_lem (pos n) h = int64-id _ (record { above = omega arith; below = omega (arith, h.below) })
from_int_lem (negsuc n) h = int64-id _ (ground (arith, h.above))

rz_pos : (n : ℕ) → n / 16384 < 2 ^ 31 → fp_to_int_rz (pos n) ≡ pos (n / 16384)
unfolding fp_to_int_rz
rz_pos n h = int32-id (pos (n / 16384)) (omega arith)

neg_ℕ-Fits32 : (n : ℕ) → n ≤ 2 ^ 31 → Fits32 (neg_ℕ n)
neg_ℕ-Fits32 zero h = omega arith
neg_ℕ-Fits32 (suc n) h = omega arith

neg_ℕ-Fits64 : (n : ℕ) → n ≤ 2 ^ 63 → Fits64 (neg_ℕ n)
neg_ℕ-Fits64 zero h = omega arith
neg_ℕ-Fits64 (suc n) h = omega arith

neg_part-neg_ℕ : (n : ℕ) → neg_part (neg_ℕ n) ≡ n
neg_part-neg_ℕ zero = refl
neg_part-neg_ℕ (suc n) = refl

neg_ℕ-/ : (n : ℕ) → neg_ℕ n /ℤ f ≡ neg_ℕ (n / 16384)
neg_ℕ-/ zero = refl
neg_ℕ-/ (suc n) = refl

rz_neg : (n : ℕ) → n / 16384 ≤ 2 ^ 31 → fp_to_int_rz (neg_ℕ n) ≡ neg_ℕ (n / 16384)
unfolding fp_to_int_rz
rz_neg n h = ap int32 (neg_ℕ-/ n) ∙ int32-id (neg_ℕ (n / 16384)) (neg_ℕ-Fits32 _ h)

rn_pos : (n : ℕ) → n ≤ 2 ^ 44 → fp_to_int_rn (pos n) ≡ pos ((n + 8192) / 16384)
unfolding fp_to_int_rn
rn_pos n h = ground (arith, int64-id (pos (n + 8192)), int32-id (pos ((n + 8192) / 16384)))

rn_neg : (n : ℕ) → suc n ≤ 2 ^ 44 → fp_to_int_rn (negsuc n) ≡ neg_ℕ ((suc n + 8192) / 16384)
unfolding fp_to_int_rn
rn_neg n h = ground (arith, int64-id (negsuc (n + 8192)), int32-id (neg_ℕ ((suc n + 8192) / 16384)))

-- For every 32-bit int, converting it to fixed point and rounding to zero gives it back.
pub to_int_rz-from_int : (n : ℤ) → Fits32 n → fp_to_int_rz (fp_from_int n) ≡ n
to_int_rz-from_int (pos n) h =
    rw (from_int_lem (pos n) h) (rz_pos (n * 16384) (omega (arith, h.below)) ∙ ap pos (omega arith))
to_int_rz-from_int (negsuc n) h =
    rw (from_int_lem (negsuc n) h)
      (rz_neg (suc n * 16384) (omega (arith, h.above)) ∙ ap neg_ℕ {y = suc n} (omega arith))

-- the range in which rounding fits an `int`
pub record InRange (x : ℤ) : Type 0 where
  pub above : neg_part x ≤ 2 ^ 44
  pub below : pos_part x ≤ 2 ^ 44

-- `r` is off from `x` by half a unit at most
abbrev pub IsNear : ℤ → ℤ → Type 0
IsNear x r = (x ≤ℤ r *ℤ f +ℤ half_f) × (r *ℤ f ≤ℤ x +ℤ half_f)

IsNear-negsuc :
    (n r : ℕ) → suc n ≤ r * 16384 + 8192 → r * 16384 ≤ suc n + 8192 → IsNear (negsuc n) (neg_ℕ r)
IsNear-negsuc n zero h k = ground arith
IsNear-negsuc n (suc r) h k = ground arith

IsNear-pos : (n r : ℕ) → n ≤ r * 16384 + 8192 → r * 16384 ≤ n + 8192 → IsNear (pos n) (pos r)
IsNear-pos n r h k = ground arith

-- For a raw fixed-point word of absolute value at most 2^44, fp_to_int_rn gives an integer that
-- is off by half a unit at most.
pub to_int_rn_nearest : (x : ℤ) → InRange x → IsNear x (fp_to_int_rn x)
to_int_rn_nearest (pos n) h =
    subst (λ r. IsNear (pos n) r) (sym (rn_pos n h.below))
      (IsNear-pos n ((n + 8192) / 16384) (omega arith) (omega arith))
to_int_rn_nearest (negsuc n) h =
    subst (λ r. IsNear (negsuc n) r) (sym (rn_neg n h.above))
      (IsNear-negsuc n ((suc n + 8192) / 16384) (omega arith) (omega arith))

-- For every int whose fixed-point form is of absolute value at most 2^44, converting it to fixed
-- point and rounding to nearest gives it back.
pub to_int_rn-from_int : (n : ℤ) → InRange (n *ℤ f) → fp_to_int_rn (fp_from_int n) ≡ n
to_int_rn-from_int (pos n) h =
    ap fp_to_int_rn (from_int_lem (pos n) (omega (arith, h.below)))
    ∙ rn_pos (n * 16384) h.below
    ∙ ap pos {y = n} (omega arith)
to_int_rn-from_int (negsuc n) h =
    let small : suc n * 16384 ≤ 2 ^ 44 = omega (arith, neg_part-neg_ℕ (suc n * 16384), h.above) in
    let k : suc n * 16384 ≡ suc (n * 16384 + 16383) = omega arith in
    ap fp_to_int_rn (from_int_lem (negsuc n) (omega arith) ∙ ap neg_ℕ k)
    ∙ rn_neg (n * 16384 + 16383) (omega arith)
    ∙ ap neg_ℕ {y = suc n} (omega arith)
