-- ===== src/Devices/Intq/Tests.antt =====
-- A queue with the bytes 8 and 9, which lie over the end of the ring.
use uni_orion_os.Base.{
  ℕ, ◌≡◌, refl, true, false, none, some, [], ◌∷◌, ◌++◌, ◌==◌, if◌then◌else◌, arith,
}
use uni_orion_os.Threads.Scheduler.{System, thread_running}
use uni_orion_os.Devices.Intq.{Intq, intq_full, intq_empty, intq_getc, intq_putc}
use uni_orion_os.Devices.Intq.Queue.{contents, IsValid, intq_putc-contents, intq_getc-contents}

abbrev system : System
system = record {
  thread = λ t. record {
    status = thread_running;
    priority = 31;
    current_priority = 31;
    wakeup_time = 0;
    owned_locks = [];
  };
  ready_list = λ p. [];
  sleep_list = [];
  waiters = λ q. [];
  sema_value = λ q. 0;
  holder = λ q. none;
  bounty = λ q. 0;
  all_list = 1 ∷ [];
  current = 1;
  idle_thread = none;
  next_tid = 2;
  thread_mlfqs = false;
  intr_context = true;
}

abbrev queue : Intq
queue = record {
  lock = 0;
  not_full = none;
  not_empty = none;
  buf = λ i. if i == 63 then 8 else 9;
  head = 1;
  tail = 63;
}

valid : IsValid queue
valid = record { head = omega arith; tail = omega arith }

two_bytes : contents queue ≡ 8 ∷ 9 ∷ []
two_bytes = refl

has_room : intq_full queue ≡ false
unfolding intq_full
has_room = refl

has_bytes : intq_empty queue ≡ false
unfolding intq_empty
has_bytes = refl

intq_putc-contents_example :
    (q' : Intq) × (intq_putc queue 7 system ≡ some (true, q', system))
    × (contents q' ≡ contents queue ++ (7 ∷ []))
    × IsValid q'
intq_putc-contents_example = intq_putc-contents queue valid 7 system system has_room refl

intq_getc-contents_example :
    (byte : ℕ) × (q' : Intq) × (intq_getc queue system ≡ some (some byte, q', system))
    × (contents queue ≡ byte ∷ contents q')
    × IsValid q'
intq_getc-contents_example = intq_getc-contents queue valid system system has_bytes refl
