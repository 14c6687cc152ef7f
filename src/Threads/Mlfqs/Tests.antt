-- ===== src/Threads/Mlfqs/Tests.antt =====
-- The scheduler's numbers for three ready threads.
use uni_orion_os.Base.{ℕ, ◌+◌, ◌*◌, ◌/◌, ◌≤◌, ◌≡◌, refl, some, arith}
use uni_orion_os.Base.Int.{pos, int32, int64}
use uni_orion_os.Kernel.FixedPoint.{
  fp_from_int, fp_to_int_rn, fp_mult, fp_int_add, fp_int_mult, fp_int_div,
}
use uni_orion_os.Threads.Mlfqs.{
  thread_recompute_load_avg, recompute_recent_cpu, recompute_priority, hundredfold,
}
use uni_orion_os.Threads.Mlfqs.Bounds.{load_avg-le, recent_cpu-le}

-- one second with three ready threads: 3/60
first_second : thread_recompute_load_avg (pos 0) (pos 3) ≡ some (pos 819)
unfolding thread_recompute_load_avg fp_int_div fp_int_add fp_int_mult fp_from_int int64
first_second = refl

shown : hundredfold (pos 819) ≡ pos 5
unfolding hundredfold fp_to_int_rn fp_mult fp_from_int int32 int64
shown = refl

-- 63 - 40/4 - 2 * 5
busy_and_nice : recompute_priority (pos 655360) (pos 5) ≡ some (pos 43)
unfolding recompute_priority fp_int_div fp_to_int_rn int32 int64
busy_and_nice = refl

load_avg-le_example :
    (l : ℕ) × (l ≡ (819 * 59 + 3 * 16384) / 60)
    × (thread_recompute_load_avg (pos 819) (pos 3) ≡ some (pos l))
    × (l ≤ 49152)
load_avg-le_example = load_avg-le 819 3 3 (omega arith) (omega arith) (omega arith)

recent_cpu-le_example :
    (r' : ℕ) × (recompute_recent_cpu (pos 819) (pos 16384) (pos 2) ≡ some (pos r')) × (r' ≤ 49152)
recent_cpu-le_example = recent_cpu-le 819 16384 2 (omega arith) (omega arith) (omega arith)
