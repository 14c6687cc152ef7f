-- ===== src/Threads/Synch/Tests.antt =====
-- Threads 2 and 3 wait for semaphore 0; nobody waits for semaphore 1.
use uni_orion_os.Base.{ℕ, ◌≡◌, refl, false, none, some, List, [], ◌∷◌}
use uni_orion_os.Devices.Block.{update}
use uni_orion_os.Threads.Scheduler.{thread_blocked, System, thread_unblock}
use uni_orion_os.Threads.Synch.{with_waiters, wake_highest}
use uni_orion_os.Threads.Synch.Handover.{Wakes, wake_highest-Wakes}

abbrev waiting : System
waiting = record {
  thread = λ t. record {
    status = thread_blocked;
    priority = t;
    current_priority = t;
    wakeup_time = 0;
    owned_locks = [];
  };
  ready_list = λ p. [];
  sleep_list = [];
  waiters = update (λ q. []) 0 (2 ∷ 3 ∷ []);
  sema_value = λ q. 4;
  holder = λ q. none;
  bounty = λ q. 0;
  all_list = 0 ∷ 1 ∷ 2 ∷ 3 ∷ [];
  current = 1;
  idle_thread = some 0;
  next_tid = 4;
  thread_mlfqs = false;
  intr_context = false;
}

wake_highest-Wakes_example :
    (t : ℕ) × (rest : List ℕ) × (wake_highest waiting 0
      ≡ thread_unblock (with_waiters waiting 0 rest) t)
    × Wakes waiting 0 t rest
wake_highest-Wakes_example = wake_highest-Wakes waiting 0 2 (3 ∷ []) refl
