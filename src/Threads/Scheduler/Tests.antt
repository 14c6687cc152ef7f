-- ===== src/Threads/Scheduler/Tests.antt =====
-- Thread 1 runs, thread 2 is ready, and thread 3 waits; thread 0 is the idle thread.
use uni_orion_os.Base.{ℕ, zero, suc, ◌≡◌, refl, true, false, none, some, [], ◌∷◌, arith}
use uni_orion_os.Kernel.Lists.Order.{All}
use uni_orion_os.Devices.Block.{update}
use uni_orion_os.Devices.Block.{update-at}
use uni_orion_os.Threads.Scheduler.{
  is_idle, Thread, ThreadStatus, thread_running, thread_ready, thread_blocked, System, thread_yield,
  thread_unblock,
}
use uni_orion_os.Threads.Scheduler.Queues.{available, rank, IsQueued, IsHighest, Scheduled}
use uni_orion_os.Threads.Scheduler.Yielding.{
  Yielded, thread_yield-Scheduled, thread_unblock-Scheduled,
}
use uni_orion_os.Threads.Priorities.{thread_promote, handle_sleeping_threads}
use uni_orion_os.Threads.Priorities.Waking.{
  IsAbsent, IsSleeping, IsWoken, handle_sleeping_threads-panic, thread_promote-IsWoken,
}

abbrev thread : ThreadStatus → ℕ → Thread
thread status priority = record {
  status = status;
  priority = priority;
  current_priority = priority;
  wakeup_time = 10;
  owned_locks = [];
}

abbrev threads : ℕ → Thread
threads zero = thread thread_blocked 0
threads (suc zero) = thread thread_running 31
threads (suc (suc zero)) = thread thread_ready 20
threads (suc (suc (suc zero))) = thread thread_blocked 40
threads (suc (suc (suc (suc t)))) = thread thread_blocked 10

abbrev three : System
three = record {
  thread = threads;
  ready_list = update (λ p. []) 20 (2 ∷ []);
  sleep_list = 3 ∷ 4 ∷ [];
  waiters = λ q. [];
  sema_value = λ q. 0;
  holder = λ q. none;
  bounty = λ q. 0;
  all_list = 0 ∷ 1 ∷ 2 ∷ 3 ∷ 4 ∷ [];
  current = 1;
  idle_thread = some 0;
  next_tid = 5;
  thread_mlfqs = false;
  intr_context = false;
}

abbrev in_interrupt : System
in_interrupt = record three { intr_context = true }

three-IsQueued : IsQueued three
three-IsQueued = record {
  own = λ p. update-at (All (λ t. rank three t ≡ p)) (λ q. []) 20 (2 ∷ []) p (λ e. (e, tt)) tt;
  beyond =
      λ p h. update-at (λ l. l ≡ []) (λ q. []) 20 (2 ∷ []) p (λ e. absurd (omega (arith, e))) refl;
}

three-IsHighest : IsHighest three
three-IsHighest p h =
    update-at (λ l. l ≡ []) (λ q. []) 20 (2 ∷ []) p (λ e. absurd (omega (arith, e))) refl

thread_yield-Scheduled_example :
    (s' : System) × (thread_yield three ≡ some s') × Yielded three s' (is_idle three three.current)
thread_yield-Scheduled_example =
    thread_yield-Scheduled three 0 three-IsQueued refl refl (omega arith) refl

thread_unblock-Scheduled_example :
    (s' : System) × (thread_unblock three 3 ≡ some s')
    × Scheduled three s'
    × (available s' 3 (rank three 3) ≡ true)
    × (available s' three.current (rank three three.current) ≡ true)
thread_unblock-Scheduled_example =
    thread_unblock-Scheduled three 3 0 three-IsQueued three-IsHighest refl refl refl refl
      (omega arith) (omega arith) refl refl

handle_sleeping_threads-panic_example : handle_sleeping_threads in_interrupt 10 ≡ none
handle_sleeping_threads-panic_example =
    handle_sleeping_threads-panic in_interrupt 3 (4 ∷ []) 10 refl (omega arith) refl refl refl
      (omega arith)

four-IsSleeping : IsSleeping three 4 (3 ∷ []) []
four-IsSleeping = record {
  blocked = refl;
  listed = refl;
  not_before = (λ e. omega (arith, e), tt);
  not_after = tt;
  not_queued =
      λ p. update-at (IsAbsent 4) (λ q. []) 20 (2 ∷ []) p (λ e. (λ l. omega (arith, l), tt)) tt;
  not_waiting = λ q. tt;
}

thread_promote-IsWoken_example :
    (s' : System) × (thread_promote three 4 ≡ some s') × IsWoken three 4 (3 ∷ []) [] s'
thread_promote-IsWoken_example =
    thread_promote-IsWoken three 4 (3 ∷ []) [] refl four-IsSleeping refl (omega arith)
