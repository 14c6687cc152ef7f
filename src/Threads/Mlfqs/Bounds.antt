-- ===== src/Threads/Mlfqs/Bounds.antt =====
-- The ranges of the load average and of the time that a thread used.
use uni_orion_os.Base.{ℕ, zero, suc, ◌+◌, ◌*◌, ◌/◌, ◌^◌, ◌≤◌, ◌<◌, ◌≡◌, refl, ◌∙◌, ap, some, arith}
use uni_orion_os.Base.Int.{ℤ, pos, ◌+ℤ◌, ◌-ℤ◌, ◌*ℤ◌, ◌/ℤ◌, ◌≤ℤ◌, int32, int64, int64-id}
use uni_orion_os.Kernel.FixedPoint.{
  f, fp_to_int_rn, fp_mult, fp_div, quotient, fp_int_add, fp_int_mult, fp_int_div,
}
use uni_orion_os.Kernel.FixedPoint.Rounding.{from_int_lem}
use uni_orion_os.Threads.Mlfqs.{
  pri_max, thread_recompute_load_avg, clamp_priority, recompute_priority, recompute_recent_cpu,
}

clamp_range : (p : ℤ) → (pos 0 ≤ℤ clamp_priority p) × (clamp_priority p ≤ℤ pri_max)
unfolding clamp_priority
clamp_range p = ground arith

-- For every recent_cpu and nice value, recomputing a priority does not fault and gives a number
-- from PRI_MIN to PRI_MAX.
pub recompute_priority_range :
    (recent_cpu nice : ℤ)
    → (p : ℤ) × (recompute_priority recent_cpu nice ≡ some p) × (pos 0 ≤ℤ p) × (p ≤ℤ pri_max)
unfolding recompute_priority fp_int_div quotient
recompute_priority_range recent_cpu nice =
    let quarter = fp_to_int_rn (int64 (recent_cpu /ℤ pos 4)) in
    let p = int32 (int32 (pri_max -ℤ quarter) -ℤ int32 (nice *ℤ pos 2)) in
    let (low, high) = clamp_range p in (clamp_priority p, refl, low, high)

pos-add : (a b : ℕ) → pos a +ℤ pos b ≡ pos (a + b)
pos-add a b = ground arith

int_mult_pos : (a k : ℕ) → a * k < 2 ^ 63 → fp_int_mult (pos a) (pos k) ≡ pos (a * k)
unfolding fp_int_mult
int_mult_pos a k h = int64-id (pos (a * k)) (omega arith)

int_add_pos : (a t : ℕ) → t < 2 ^ 31 → a ≤ 2 ^ 62 → fp_int_add (pos a) (pos t) ≡ pos (a + t * 16384)
unfolding fp_int_add
int_add_pos a t h k =
    ap (λ z. int64 (pos a +ℤ z)) (from_int_lem (pos t) (omega arith))
    ∙ ap int64 (pos-add a (t * 16384))
    ∙ int64-id (pos (a + t * 16384)) (omega arith)

div-le_self : (a d : ℕ) → a / d ≤ a
div-le_self a d = grind arith

div_pos : (a d : ℕ) → a < 2 ^ 49 → 0 < d → fp_div (pos a) (pos d) ≡ some (pos (a * 16384 / d))
unfolding fp_div quotient
div_pos a zero h k = absurd (omega arith)
div_pos a (suc d) h k =
    ap (λ z. some (int64 (z /ℤ pos (suc d)))) (int64-id (pos (a * 16384)) (omega arith))
    ∙ ap some (int64-id (pos (a * 16384 / suc d)) (omega (arith, div-le_self (a * 16384) (suc d))))

mult_pos : (c r : ℕ) → c * r < 2 ^ 63 → fp_mult (pos c) (pos r) ≡ pos (c * r / 16384)
unfolding fp_mult
mult_pos c r h = ap (λ z. z /ℤ f) (int64-id (pos (c * r)) (omega arith))

weighted_sum :
    (l t : ℕ)
    → t < 2 ^ 31
    → l ≤ 2 ^ 45
    → fp_int_add (fp_int_mult (pos l) (pos 59)) (pos t) ≡ pos (l * 59 + t * 16384)
weighted_sum l t h k =
    ap (λ z. fp_int_add z (pos t)) (int_mult_pos l 59 (omega arith))
    ∙ int_add_pos (l * 59) t h (omega arith)

-- If at most THREADS (below 2^31) threads are ready and the load average, as a raw fixed-point
-- word, is between 0 and THREADS, then thread_recompute_load_avg does not fault, the new word is
-- (59 * old + 2^14 * ready) / 60 rounded down, and it is between 0 and THREADS.
pub load_avg-le :
    (load_avg tcount threads : ℕ)
    → threads < 2 ^ 31
    → tcount ≤ threads
    → load_avg ≤ threads * 2 ^ 14
    → (l : ℕ) × (l ≡ (load_avg * 59 + tcount * 2 ^ 14) / 60)
      × (thread_recompute_load_avg (pos load_avg) (pos tcount) ≡ some (pos l))
      × (l ≤ threads * 2 ^ 14)
unfolding thread_recompute_load_avg fp_int_div quotient
load_avg-le load_avg tcount threads few h k = (
  (load_avg * 59 + tcount * 16384) / 60,
  refl,
  ap (λ z. some (int64 (z /ℤ pos 60))) (weighted_sum load_avg tcount (omega arith) (omega arith))
      ∙ ap some (int64-id (pos ((load_avg * 59 + tcount * 16384) / 60)) (omega arith)),
  omega arith,
)

-- The weight of the past is below one.
weight-le : (l : ℕ) → l * 2 * 16384 / (l * 2 + 16384) ≤ 16384
weight-le l = grind arith

decayed-le : (c r : ℕ) → c ≤ 16384 → c * r / 16384 ≤ r
decayed-le c r h = grind arith

product-le : (c r : ℕ) → c ≤ 16384 → r ≤ 2 ^ 44 → c * r ≤ 2 ^ 58
product-le c r h k = grind arith

weight_lem :
    (l : ℕ)
    → l ≤ 2 ^ 45
    → fp_div (fp_int_mult (pos l) (pos 2)) (fp_int_add (fp_int_mult (pos l) (pos 2)) (pos 1))
      ≡ some (pos (l * 2 * 16384 / (l * 2 + 16384)))
weight_lem l h =
    ap (λ z. fp_div z (fp_int_add z (pos 1))) (int_mult_pos l 2 (omega arith))
    ∙ ap (fp_div (pos (l * 2))) (int_add_pos (l * 2) 1 (omega arith) (omega arith))
    ∙ div_pos (l * 2) (l * 2 + 16384) (omega arith) (omega arith)

-- For a load average from 0 to 2^45, a recent_cpu from 0 to 2^44 (both as raw fixed-point words)
-- and a nice value from 0 to below 2^31, recomputing recent_cpu does not divide by zero, and the
-- new value is between 0 and the old value plus the nice value.
pub recent_cpu-le :
    (l r n : ℕ)
    → l ≤ 2 ^ 45
    → r ≤ 2 ^ 44
    → n < 2 ^ 31
    → (r' : ℕ) × (recompute_recent_cpu (pos l) (pos r) (pos n) ≡ some (pos r'))
      × (r' ≤ r + n * 2 ^ 14)
unfolding recompute_recent_cpu
recent_cpu-le l r n h k small =
    let c : ℕ = l * 2 * 16384 / (l * 2 + 16384) in
    (
      c * r / 16384 + n * 16384,
      rw (weight_lem l h) (
          ap some (
            ap (λ z. fp_int_add z (pos n))
              (mult_pos c r (omega (arith, product-le c r (weight-le l) k)))
            ∙ int_add_pos (c * r / 16384) n small (omega (arith, decayed-le c r (weight-le l))))),
      omega (arith, decayed-le c r (weight-le l)),
    )
