-- ===== src/Threads/Synch.antt =====
-- threads/synch.c: semaphores and locks, by their numbers. A function that may sleep is one round of
-- its loop: `true` says that the thread got through, `false` that it waits and, once it runs again,
-- begins the next round. `none` is a failed ASSERT.
pub mod Handover
mod Tests
use uni_orion_os.Base.{
  ℕ, ◌+◌, ◌-◌, ◌%◌, ◌^◌, Bool, true, false, not, ◌&&◌, Option, none, some, List, [], ◌∷◌, ◌==◌, ltb,
  if◌then◌else◌,
}
use uni_orion_os.Base.Panic.{◌>>=◌, ◌>>◌, ensure}
use uni_orion_os.Kernel.Lists.{list_push_back, list_sort}
use uni_orion_os.Devices.Block.{update}
use uni_orion_os.Threads.Scheduler.{System, without, thread_block, thread_unblock}
use uni_orion_os.Threads.Priorities.{
  priority_great, thread_get_priority, thread_promote, thread_demote,
}

abbrev pub with_waiters : System → (q : ℕ) → List ℕ → System
with_waiters s q queue = record s { waiters = update s.waiters q queue }

unfoldable pub sema_init : System → (sema value : ℕ) → System
sema_init s sema value =
    with_waiters (record s { sema_value = update s.sema_value sema value }) sema []

unfoldable pub sema_down : System → (sema : ℕ) → Option (Bool × System)
sema_down s sema = do
  ensure (not s.intr_context)
  if s.sema_value sema == 0
      then (do
        s ← thread_block (with_waiters s sema (list_push_back (s.waiters sema) s.current))
        some (false, s))
      else some (true, record s { sema_value = update s.sema_value sema (s.sema_value sema - 1) })

unfoldable pub sema_try_down : System → (sema : ℕ) → Bool × System
sema_try_down s sema =
    if ltb 0 (s.sema_value sema)
    then (true, record s { sema_value = update s.sema_value sema (s.sema_value sema - 1) })
    else (false, s)

-- unblocks the first of the sorted waiters, if there is one
abbrev pub wake_first : System → (q : ℕ) → List ℕ → Option System
wake_first s q [] = some s
wake_first s q (t ∷ rest) = thread_unblock (with_waiters s q rest) t

unfoldable pub wake_highest : System → (q : ℕ) → Option System
wake_highest s q = do sorted ← list_sort (priority_great s) (s.waiters q); wake_first s q sorted

-- `value` is an `unsigned`
unfoldable pub sema_up : System → (sema : ℕ) → Option System
sema_up s sema =
    wake_highest
      (record s { sema_value = update s.sema_value sema ((s.sema_value sema + 1) % 2 ^ 32) }) sema

unfoldable pub lock_init : System → (lock : ℕ) → System
lock_init s lock =
    with_waiters (record s { holder = update s.holder lock none; bounty = update s.bounty lock 0 })
      lock []

unfoldable pub lock_held_by_current_thread : System → (lock : ℕ) → Bool
lock_held_by_current_thread s lock = elim (s.holder lock) [ none ↦ false | some t ↦ t == s.current ]

abbrev pub owned : System → (List ℕ → List ℕ) → System
owned s f = record s {
  thread =
      update s.thread s.current
        (record (s.thread s.current) { owned_locks = f (s.thread s.current).owned_locks });
}

-- the lock goes to the running thread
abbrev pub take_lock : System → (lock : ℕ) → System
take_lock s lock = record (owned s (λ l. list_push_back l lock)) {
  holder = update s.holder lock (some s.current);
}

-- the donation of priority to the holder of the lock
unfoldable pub donate : System → (lock holder : ℕ) → Option System
donate s lock holder =
    let priority = (s.thread s.current).current_priority in
    let lower = ltb (s.thread holder).current_priority priority in
    if not s.thread_mlfqs && lower
    then thread_promote (record s { bounty = update s.bounty lock priority }) holder
    else some s

-- a round of `lock_acquire`, for the holder that it sees
abbrev pub acquire_from : System → (lock : ℕ) → Option ℕ → Option (Bool × System)
acquire_from s lock none = some (true, take_lock s lock)
acquire_from s lock (some holder) = do
  s ← donate s lock holder
  s ← thread_block (with_waiters s lock (list_push_back (s.waiters lock) s.current))
  some (false, s)

unfoldable pub lock_acquire : System → (lock : ℕ) → Option (Bool × System)
lock_acquire s lock = do
  ensure (not s.intr_context)
  ensure (not (lock_held_by_current_thread s lock))
  acquire_from s lock (s.holder lock)

unfoldable pub lock_try_acquire : System → (lock : ℕ) → Option (Bool × System)
lock_try_acquire s lock = do
  ensure (not (lock_held_by_current_thread s lock))
  elim (s.holder lock) [ none ↦ some (true, take_lock s lock) | some t ↦ some (false, s) ]

unfoldable pub lock_release : System → (lock : ℕ) → Option System
lock_release s lock = do
  ensure (lock_held_by_current_thread s lock)
  let free = record (owned s (without lock)) { holder = update s.holder lock none }
  s ←
      (if not free.thread_mlfqs && thread_get_priority free == free.bounty lock
        then thread_demote free
        else some free)
  wake_highest (record s { bounty = update s.bounty lock 0 }) lock
