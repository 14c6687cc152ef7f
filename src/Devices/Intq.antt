-- ===== src/Devices/Intq.antt =====
-- devices/intq.c over the scheduler and locks. A function that may sleep is one round of its loop:
-- without a result the thread waits, releases the lock when it runs again, and begins the next
-- round. The code runs with interrupts off. `none` is a failed ASSERT. Where `signal` wakes a thread
-- that preempts the caller, the code resets the waiter only when the caller runs again; the step
-- here is the whole call, without what other threads do to the queue in between.
pub mod Queue
mod Tests
use uni_orion_os.Base.{
  ℕ, ◌+◌, ◌-◌, ◌%◌, Bool, true, false, not, Option, none, some, ◌==◌, if◌then◌else◌,
}
use uni_orion_os.Base.Panic.{◌>>=◌, ◌>>◌, ensure}
use uni_orion_os.Devices.Block.{update}
use uni_orion_os.Threads.Scheduler.{System, thread_block, thread_unblock}
use uni_orion_os.Threads.Synch.{lock_init, lock_acquire}

abbrev pub intq_bufsize : ℕ
intq_bufsize = 64

-- `struct intq`; `lock` is the number of the lock
pub record Intq : Type 0 where
  pub lock : ℕ
  pub not_full : Option ℕ
  pub not_empty : Option ℕ
  pub buf : ℕ → ℕ
  pub head : ℕ
  pub tail : ℕ

abbrev pub next : ℕ → ℕ
next pos = (pos + 1) % intq_bufsize

unfoldable pub intq_init : Intq → System → Intq × System
intq_init q s =
    (record q { not_full = none; not_empty = none; head = 0; tail = 0 }, lock_init s q.lock)

unfoldable pub intq_empty : Intq → Bool
intq_empty q = q.head == q.tail

unfoldable pub intq_full : Intq → Bool
intq_full q = next q.head == q.tail

-- the thread that waits, if there is one, runs on
abbrev pub unblock_waiter : System → (waiter : Option ℕ) → Option System
unblock_waiter s none = some s
unblock_waiter s (some t) = thread_unblock s t

signal_not_full : Intq → System → Option (Intq × System)
signal_not_full q s = do
  ensure (not (intq_full q))
  s ← unblock_waiter s q.not_full
  some (record q { not_full = none }, s)

signal_not_empty : Intq → System → Option (Intq × System)
signal_not_empty q s = do
  ensure (not (intq_empty q))
  s ← unblock_waiter s q.not_empty
  some (record q { not_empty = none }, s)

wait_not_empty : Intq → System → Option (Intq × System)
wait_not_empty q s = do
  ensure (not s.intr_context)
  ensure (intq_empty q)
  let waiting = record q { not_empty = some s.current }
  s ← thread_block s
  some (waiting, s)

wait_not_full : Intq → System → Option (Intq × System)
wait_not_full q s = do
  ensure (not s.intr_context)
  ensure (intq_full q)
  let waiting = record q { not_full = some s.current }
  s ← thread_block s
  some (waiting, s)

-- the byte, or none where the thread waits for the lock or for a byte
unfoldable pub intq_getc : Intq → System → Option (Option ℕ × Intq × System)
unfolding wait_not_empty signal_not_full
intq_getc q s =
    if intq_empty q
    then (do
      ensure (not s.intr_context)
      (held, s) ← lock_acquire s q.lock
      if not held then some (none, q, s) else (do (q, s) ← wait_not_empty q s; some (none, q, s)))
    else (do
      let byte = q.buf q.tail
      (q, s) ← signal_not_full (record q { tail = next q.tail }) s
      some (some byte, q, s))

-- whether the byte was put, or the thread waits for the lock or for room
unfoldable pub intq_putc : Intq → (byte : ℕ) → System → Option (Bool × Intq × System)
unfolding wait_not_full signal_not_empty
intq_putc q byte s =
    if intq_full q
    then (do
      ensure (not s.intr_context)
      (held, s) ← lock_acquire s q.lock
      if not held then some (false, q, s) else (do (q, s) ← wait_not_full q s; some (false, q, s)))
    else (do
      (q, s) ← signal_not_empty (record q { buf = update q.buf q.head byte; head = next q.head }) s
      some (true, q, s))
