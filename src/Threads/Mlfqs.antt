-- ===== src/Threads/Mlfqs.antt =====
-- threads/thread.c: the numbers of the multi-level feedback queue scheduler.
pub mod Bounds
mod Tests
use uni_orion_os.Base.{ℕ, Option, some, if◌then◌else◌}
use uni_orion_os.Base.Panic.{◌>>=◌}
use uni_orion_os.Base.Int.{ℤ, pos, ◌-ℤ◌, ◌*ℤ◌, ltb_ℤ, int32}
use uni_orion_os.Kernel.FixedPoint.{
  fp_from_int, fp_to_int_rn, fp_mult, fp_div, fp_int_add, fp_int_mult, fp_int_div,
}

abbrev pub pri_max : ℤ
pri_max = pos 63

-- `thread_recompute_load_avg`, with what `thread_get_ready_threads` returns
unfoldable pub thread_recompute_load_avg : (load_avg : ℤ) → (tcount : ℤ) → Option ℤ
thread_recompute_load_avg load_avg tcount =
    fp_int_div (fp_int_add (fp_int_mult load_avg (pos 59)) tcount) (pos 60)

-- the first part of `thread_recompute_priority`, when `aux` is 0
unfoldable pub recompute_recent_cpu : (load_avg recent_cpu nice : ℤ) → Option ℤ
recompute_recent_cpu load_avg recent_cpu nice = do
  let twice = fp_int_mult load_avg (pos 2)
  coefficient ← fp_div twice (fp_int_add twice (pos 1))
  some (fp_int_add (fp_mult coefficient recent_cpu) nice)

-- the second part: the clamped priority
pub clamp_priority : ℤ → ℤ
clamp_priority p = if ltb_ℤ p (pos 0) then pos 0 else if ltb_ℤ pri_max p then pri_max else p

unfoldable pub recompute_priority : (recent_cpu nice : ℤ) → Option ℤ
unfolding clamp_priority
recompute_priority recent_cpu nice = do
  quarter ← fp_int_div recent_cpu (pos 4)
  some (clamp_priority (int32 (int32 (pri_max -ℤ fp_to_int_rn quarter) -ℤ int32 (nice *ℤ pos 2))))

-- `thread_get_load_avg` and `thread_get_recent_cpu`: 100 times the number, rounded
unfoldable pub hundredfold : ℤ → ℤ
hundredfold x = fp_to_int_rn (fp_mult x (fp_from_int (pos 100)))
