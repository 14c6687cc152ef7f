-- ===== src/Threads/Priorities.antt =====
-- threads/thread.c: changes of priority, and sleeping threads. `none` is a failed ASSERT.
pub mod Waking
use uni_orion_os.Base.{
  ℕ, ◌+◌, Bool, true, false, not, ◌&&◌, Option, none, some, List, [], ◌∷◌, ◌==◌, ltb, leb,
  if◌then◌else◌,
}
use uni_orion_os.Base.Panic.{◌>>=◌, ◌>>◌, ensure}
use uni_orion_os.Kernel.Lists.{list_push_back, list_insert_ordered}
use uni_orion_os.Devices.Block.{update}
use uni_orion_os.Threads.Scheduler.{
  Thread, System, is_running, is_blocked, is_ready, is_idle, enqueue, list_remove, thread_unblock,
  thread_yield,
}

unfoldable pub thread_on_priority_change : System → (t new_priority : ℕ) → Option System
thread_on_priority_change s t new_priority =
    if is_ready (s.thread t).status
    then some (enqueue (list_remove s t) new_priority t)
    else if is_blocked (s.thread t).status
    then thread_unblock (list_remove s t) t
    else some s

unfoldable pub thread_set_priority : System → (new_priority : ℕ) → Option System
thread_set_priority s new_priority =
    let cur = s.thread s.current in
    let set = record s {
      thread = update s.thread s.current (record cur { priority = new_priority });
    } in
    let both = record s {
      thread =
          update s.thread s.current
            (record cur { priority = new_priority; current_priority = new_priority });
    } in
    if s.thread_mlfqs
    then some s
    else if cur.current_priority == cur.priority
    then (do s ← thread_on_priority_change both s.current new_priority; thread_yield s)
    else some set

unfoldable pub thread_get_priority : System → ℕ
thread_get_priority s = (s.thread s.current).current_priority

-- `thread_promote` and `thread_demote` set the current priority of one thread
abbrev pub with_priority : System → (t priority : ℕ) → System
with_priority s t priority = record s {
  thread = update s.thread t (record (s.thread t) { current_priority = priority });
}

unfoldable pub thread_promote : System → ℕ → Option System
thread_promote s t =
    let new_priority = (s.thread s.current).current_priority in
    if s.thread_mlfqs
    then some s
    else if ltb (s.thread t).current_priority new_priority
    then thread_on_priority_change (with_priority s t new_priority) t new_priority
    else some s

unfoldable pub highest_bounty : (bounty : ℕ → ℕ) → (new_priority : ℕ) → List ℕ → ℕ
highest_bounty bounty new_priority [] = new_priority
highest_bounty bounty new_priority (l ∷ locks) =
    highest_bounty bounty (if ltb new_priority (bounty l) then bounty l else new_priority) locks

unfoldable pub thread_demote : System → Option System
thread_demote s =
    let cur = s.thread s.current in
    let new_priority = highest_bounty s.bounty cur.priority cur.owned_locks in
    if s.thread_mlfqs
    then some s
    else thread_on_priority_change (with_priority s s.current new_priority) s.current new_priority

unfoldable pub priority_great : System → ℕ → ℕ → Bool
priority_great s a b = ltb (s.thread b).current_priority (s.thread a).current_priority

unfoldable pub thread_wakeup_time_comparison : System → ℕ → ℕ → Bool
thread_wakeup_time_comparison s a b = ltb (s.thread a).wakeup_time (s.thread b).wakeup_time

-- the caller blocks the thread afterwards
unfoldable pub thread_sleep : System → (wakeup_time : ℕ) → System
thread_sleep s wakeup_time =
    let s' = record s {
      thread =
          update s.thread s.current (record (s.thread s.current) { wakeup_time = wakeup_time });
    } in
    record s' {
      sleep_list = list_insert_ordered (thread_wakeup_time_comparison s') s'.sleep_list s'.current;
    }

-- each turn of the loop takes the head of the list
unfoldable pub wake_loop : List ℕ → System → (timer_ticks : ℕ) → Option System
wake_loop [] s timer_ticks = some s
wake_loop (t ∷ later) s timer_ticks =
    if leb (s.thread t).wakeup_time timer_ticks
    then (do s ← thread_unblock (record s { sleep_list = later }) t; wake_loop later s timer_ticks)
    else some s

unfoldable pub handle_sleeping_threads : System → (timer_ticks : ℕ) → Option System
handle_sleeping_threads s timer_ticks = wake_loop s.sleep_list s timer_ticks

unfoldable pub current_thread_is_idle_thread : System → Bool
current_thread_is_idle_thread s = is_idle s s.current
