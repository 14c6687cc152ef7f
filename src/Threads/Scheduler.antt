-- ===== src/Threads/Scheduler.antt =====
-- threads/thread.c: the priority scheduler. Threads are numbers. The
-- code is modelled as it runs between `intr_disable` and `intr_set_level`, so the interrupt level is
-- no part of the state; `ready_mlfq_size`, which nothing reads, and `process_exit` are left out too.
-- `none` is a failed ASSERT.
pub mod Choice
pub mod Queues
pub mod Yielding
mod Tests
use uni_orion_os.Base.{
  ℕ, zero, suc, ◌+◌, ◌-◌, Bool, true, false, not, ◌&&◌, ◌||◌, Option, none, some, List, [], ◌∷◌,
  ◌==◌, ltb, leb, if◌then◌else◌, length,
}
use uni_orion_os.Base.Panic.{◌>>=◌, ◌>>◌, ensure}
use uni_orion_os.Kernel.Lists.{list_push_back}
use uni_orion_os.Devices.Block.{update}

abbrev pub pri_max : ℕ
pri_max = 63

-- `enum thread_status`
pub data ThreadStatus : Type 0 where
  thread_running thread_ready thread_blocked thread_dying : ThreadStatus

abbrev pub is_running : ThreadStatus → Bool
is_running thread_running = true
is_running _ = false

abbrev pub is_blocked : ThreadStatus → Bool
is_blocked thread_blocked = true
is_blocked _ = false

abbrev pub is_ready : ThreadStatus → Bool
is_ready thread_ready = true
is_ready _ = false

-- the fields of `struct thread` that the scheduler reads; `owned_locks` are the numbers of locks
pub record Thread : Type 0 where
  pub status : ThreadStatus
  pub priority : ℕ
  pub current_priority : ℕ
  pub wakeup_time : ℕ
  pub owned_locks : List ℕ

-- Semaphores and locks are numbers too, and share `waiters`. `thread_create` gives the number `next_tid`.
pub record System : Type 0 where
  pub thread : ℕ → Thread
  pub ready_list : ℕ → List ℕ
  pub sleep_list : List ℕ
  pub waiters : ℕ → List ℕ
  pub sema_value : ℕ → ℕ
  pub holder : ℕ → Option ℕ
  pub bounty : ℕ → ℕ
  pub all_list : List ℕ
  pub current : ℕ
  pub idle_thread : Option ℕ
  pub next_tid : ℕ
  pub thread_mlfqs : Bool
  pub intr_context : Bool

abbrev pub is_idle : System → ℕ → Bool
is_idle s t = elim s.idle_thread [ none ↦ false | some i ↦ i == t ]

abbrev pub with_status : System → ℕ → ThreadStatus → System
with_status s t status = record s {
  thread = update s.thread t (record (s.thread t) { status = status });
}

-- `list_push_back (&ready_list[priority], &t->elem)`
abbrev pub enqueue : System → (priority t : ℕ) → System
enqueue s priority t = record s {
  ready_list = update s.ready_list priority (list_push_back (s.ready_list priority) t);
}

unfoldable pub without : ℕ → List ℕ → List ℕ
without t [] = []
without t (x ∷ xs) = let rest = without t xs in if x == t then rest else x ∷ rest

-- `list_remove (&t->elem)`. The element of a thread is in one list at most, and a ready or blocked
-- thread is in one; the source follows the links of the element and does not look for it, so for
-- a thread in no list this stands for nothing.
abbrev pub list_remove : System → ℕ → System
list_remove s t = record s {
  ready_list = λ p. without t (s.ready_list p);
  sleep_list = without t s.sleep_list;
  waiters = λ q. without t (s.waiters q);
}

-- the head of the queue of a priority, and otherwise what lower priorities give
abbrev pub front_or : List ℕ → (priority : ℕ) → Option (ℕ × ℕ × List ℕ) → Option (ℕ × ℕ × List ℕ)
front_or [] priority lower = lower
front_or (t ∷ rest) priority lower = some (priority, t, rest)

-- the loop of `next_thread_to_run` below a priority: the priority, the thread and the queue's rest
unfoldable pub top_of : (below : ℕ) → (ℕ → List ℕ) → Option (ℕ × ℕ × List ℕ)
top_of zero ready_list = none
top_of (suc priority) ready_list =
    front_or (ready_list priority) priority (top_of priority ready_list)

abbrev pub taken : System → Option (ℕ × ℕ × List ℕ) → Option ℕ × System
taken s none = (s.idle_thread, s)
taken s (some (priority, t, rest)) =
    (some t, record s { ready_list = update s.ready_list priority rest })

unfoldable pub next_thread_to_run : System → Option ℕ × System
next_thread_to_run s = taken s (top_of (pri_max + 1) s.ready_list)

-- the page of a dying thread is freed after the switch
unfoldable pub thread_schedule_tail : System → (next : ℕ) → System
thread_schedule_tail s next = record (with_status s next thread_running) { current = next }

unfoldable pub schedule : System → Option System
schedule s = do
  let (chosen, s') = next_thread_to_run s
  ensure (not (is_running (s.thread s.current).status))
  next ← chosen
  some (thread_schedule_tail s' next)

unfoldable pub thread_block : System → Option System
thread_block s = do ensure (not s.intr_context); schedule (with_status s s.current thread_blocked)

unfoldable pub thread_yield : System → Option System
thread_yield s = do
  ensure (is_running (s.thread s.current).status)
  ensure (not s.intr_context)
  let queued =
      if is_idle s s.current then s else enqueue s (s.thread s.current).current_priority s.current
  schedule (with_status queued s.current thread_ready)

-- whether the running thread gives way to `t`
abbrev pub preempts : System → ℕ → Bool
preempts s t =
    not s.thread_mlfqs
    && ltb (s.thread s.current).current_priority (s.thread t).current_priority
    && not (is_idle s s.current)

-- `thread_current` asserts that its thread is running
unfoldable pub thread_unblock : System → ℕ → Option System
thread_unblock s t = do
  ensure (is_blocked (s.thread t).status)
  let s' = with_status (enqueue s (s.thread t).current_priority t) t thread_ready
  ensure (s'.thread_mlfqs || is_running (s'.thread s'.current).status)
  if preempts s' t then thread_yield s' else some s'

unfoldable pub thread_exit : System → Option System
thread_exit s = do
  ensure (not s.intr_context)
  ensure (is_running (s.thread s.current).status)
  let left = record s { all_list = without s.current s.all_list }
  schedule (with_status left s.current thread_dying)

-- `recomputed` is what `thread_recompute_priority` gives with the multi-level queue
unfoldable pub init_thread : System → (t priority recomputed : ℕ) → Option System
init_thread s t priority recomputed = do
  ensure (leb priority pri_max)
  let initial = if s.thread_mlfqs then recomputed else priority
  some (record s {
    thread = update s.thread t (record {
      status = thread_blocked;
      priority = initial;
      current_priority = initial;
      wakeup_time = 0;
      owned_locks = [];
    });
    all_list = list_push_back s.all_list t;
  })

-- `thread_create` when there is a page for the thread
unfoldable pub thread_create : System → (priority recomputed : ℕ) → Option System
thread_create s priority recomputed = do
  let t = s.next_tid
  s ← init_thread s t priority recomputed
  thread_unblock (record s { next_tid = t + 1 }) t
