-- ===== src/Threads/Scheduler/Yielding.antt =====
-- `thread_yield` and `thread_unblock`: the queues and the running thread after them.
use uni_orion_os.Base.{
  ℕ, ◌≤◌, ◌<◌, ◌≡◌, refl, ◌∙◌, sym, ap, inl, inr, Bool, true, false, not, some, [], ◌==◌, ◌||◌, ltb,
  if◌then◌else◌, arith, Bool-cases, lt→ltb, eq→==,
}
use uni_orion_os.Base.Panic.{ensure}
use uni_orion_os.Kernel.Lists.{list_push_back}
use uni_orion_os.Devices.Block.{update_self}
use uni_orion_os.Devices.Block.{update-at}
use uni_orion_os.Threads.Scheduler.{
  pri_max, thread_running, thread_ready, thread_blocked, System, is_running, is_blocked, is_idle,
  with_status, enqueue, schedule, thread_yield, thread_unblock, preempts,
}
use uni_orion_os.Threads.Scheduler.Queues.{
  available, enqueue-listed, enqueue_self, rank, IsQueued, IsHighest, Scheduled, with_status-rank,
  with_status-IsQueued, enqueue-IsQueued, schedule-Scheduled,
}

-- the state in which a thread that yields calls `schedule`
abbrev queued_if : System → Bool → System
queued_if s b =
    with_status (if b then s else enqueue s (rank s s.current) s.current) s.current thread_ready

yield_step :
    (s : System)
    → (s.thread s.current).status ≡ thread_running
    → s.intr_context ≡ false
    → thread_yield s ≡ schedule (queued_if s (is_idle s s.current))
unfolding thread_yield
yield_step s runs outside =
    let is : ensure (is_running (s.thread s.current).status) ≡ some tt =
      ap (λ t. ensure (is_running t)) runs in
    let out : ensure (not s.intr_context) ≡ some tt = ap (λ b. ensure (not b)) outside in
    rw (is, out) refl

-- What a yield leaves: the thread that yields, if it is not the idle thread, is ready or runs.
pub record Yielded (s s' : System) (idle : Bool) : Type 0 where
  pub scheduled : Scheduled s s'
  pub waits : (if idle then true else available s' s.current (rank s s.current)) ≡ true

queued_if-Yielded :
    (s : System) (b : Bool) (i : ℕ)
    → IsQueued s
    → s.idle_thread ≡ some i
    → rank s s.current ≤ pri_max
    → (s' : System) × (schedule (queued_if s b) ≡ some s') × Yielded s s' b
queued_if-Yielded s true i q idle fits =
    let (s', e, d) =
      schedule-Scheduled (queued_if s true) i (with_status-IsQueued s s.current thread_ready q) idle
        (ap (λ t. is_running t.status) (update_self s.thread s.current _)) in
    (
      s',
      e,
      record {
        scheduled = record {
          queued = d.queued;
          highest = d.highest;
          running = d.running;
          kept = d.kept;
        };
        waits = refl;
      },
    )
queued_if-Yielded s false i q idle fits =
    let own = rank s s.current in
    let (s', e, d) =
      schedule-Scheduled (queued_if s false) i
        (with_status-IsQueued (enqueue s own s.current) s.current thread_ready
          (enqueue-IsQueued s s.current q fits))
        idle (ap (λ t. is_running t.status) (update_self s.thread s.current _)) in
    (
      s',
      e,
      record {
        scheduled = record {
          queued = d.queued;
          highest = d.highest;
          running = d.running;
          kept = λ p t h. d.kept p t (enqueue-listed s own s.current p t h);
        };
        waits = d.kept own s.current (enqueue_self s own s.current);
      },
    )

-- If every queue of ready threads holds threads of its own priority, then outside interrupts,
-- with an idle thread, thread_yield of a running thread whose priority is at most PRI_MAX does
-- not panic and keeps that property, no ready thread has a higher priority than the thread that
-- runs then, every thread that was ready runs or is still in its queue, and so does or is the
-- thread that yields unless it is the idle thread.
pub thread_yield-Scheduled :
    (s : System) (i : ℕ)
    → IsQueued s
    → s.idle_thread ≡ some i
    → (s.thread s.current).status ≡ thread_running
    → rank s s.current ≤ pri_max
    → s.intr_context ≡ false
    → (s' : System) × (thread_yield s ≡ some s') × Yielded s s' (is_idle s s.current)
thread_yield-Scheduled s i q idle runs fits outside =
    let (s', e, done) = queued_if-Yielded s (is_idle s s.current) i q idle fits in
    (s', yield_step s runs outside ∙ e, done)

-- the system in which a thread has just been made ready
abbrev awake : System → ℕ → System
awake s t = with_status (enqueue s (rank s t) t) t thread_ready

unblock_step :
    (s : System) (t : ℕ)
    → (s.thread t).status ≡ thread_blocked
    → ((awake s t).thread s.current).status ≡ thread_running
    → thread_unblock s t
      ≡ (if preempts (awake s t) t then thread_yield (awake s t) else some (awake s t))
unfolding thread_unblock
unblock_step s t blocked runs =
    let is : ensure (is_blocked (s.thread t).status) ≡ some tt =
      ap (λ u. ensure (is_blocked u)) blocked in
    let on : (s.thread_mlfqs || is_running ((awake s t).thread s.current).status) ≡ true =
      ground (arith, ap is_running runs) in
    rw (is, on) refl

-- the thread that is made ready is not the running one
pub other_thread :
    (s : System) (t : ℕ)
    → (s.thread t).status ≡ thread_blocked
    → (s.thread s.current).status ≡ thread_running
    → (t == s.current) ≡ false
other_thread s t blocked runs = elim (Bool-cases (t == s.current)) [
  | inr other ↦ other
  | inl same ↦
      let t_eq : t ≡ s.current = ground (arith, same) in
      let clash : is_running thread_blocked ≡ is_running thread_running =
        ap is_running (sym blocked ∙ ap (λ u. (s.thread u).status) t_eq ∙ runs) in
      absurd (ground (arith, clash))
]

above_all :
    (s : System) (t : ℕ)
    → s.thread_mlfqs ≡ false
    → is_idle s s.current ≡ false
    → rank (awake s t) s.current < rank (awake s t) t
    → preempts (awake s t) t ≡ false
    → ⊥
above_all s t single busy above stays =
    let less : ltb (rank (awake s t) s.current) (rank (awake s t) t) ≡ true = lt→ltb _ _ above in
    absurd (ground (arith, less, single, busy, stays))

-- If every queue of ready threads holds threads of its own priority and no ready thread has a
-- higher priority than the running one, which is not the idle thread, then outside interrupts,
-- with the priority scheduler, an idle thread and priorities up to PRI_MAX, thread_unblock of a
-- blocked thread does not panic, and afterwards the queues hold threads of their own priority,
-- no ready thread has a higher priority than the running one, and every thread that was ready or
-- running, and the unblocked one, runs or is in the queue of its priority.
pub thread_unblock-Scheduled :
    (s : System) (t i : ℕ)
    → IsQueued s
    → IsHighest s
    → s.idle_thread ≡ some i
    → is_idle s s.current ≡ false
    → (s.thread s.current).status ≡ thread_running
    → (s.thread t).status ≡ thread_blocked
    → rank s s.current ≤ pri_max
    → rank s t ≤ pri_max
    → s.thread_mlfqs ≡ false
    → s.intr_context ≡ false
    → (s' : System) × (thread_unblock s t ≡ some s')
      × Scheduled s s'
      × (available s' t (rank s t) ≡ true)
      × (available s' s.current (rank s s.current) ≡ true)
thread_unblock-Scheduled s t i q high idle busy runs blocked fits fits_t single outside =
    let other = other_thread s t blocked runs in
    let still : ((awake s t).thread s.current).status ≡ thread_running = rw other runs in
    let queued =
      with_status-IsQueued (enqueue s (rank s t) t) t thread_ready
        (enqueue-IsQueued s t q fits_t) in
    let keeps = with_status-rank (enqueue s (rank s t) t) t thread_ready s.current in
    let fresh_rank = with_status-rank (enqueue s (rank s t) t) t thread_ready t in
    elim (Bool-cases (preempts (awake s t) t)) [
      | inl yields ↦
          let (s', e, done) =
            thread_yield-Scheduled (awake s t) i queued idle still (omega (arith, keeps)) outside in
          let d = done.scheduled in
          let waits : available s' s.current (rank (awake s t) s.current) ≡ true =
            rw busy at done.waits in
          (
            s',
            unblock_step s t blocked still ∙ rw yields e,
            record {
              queued = d.queued;
              highest = d.highest;
              running = d.running;
              kept = λ p u h. d.kept p u (enqueue-listed s (rank s t) t p u h);
            },
            d.kept (rank s t) t (enqueue_self s (rank s t) t),
            ap (λ r. available s' s.current r) (sym keeps) ∙ waits,
          )
      | inr stays ↦ (
        awake s t,
        unblock_step s t blocked still ∙ rw stays refl,
        record {
          queued = queued;
          highest = λ p h.
              update-at (λ l. l ≡ []) s.ready_list (rank s t)
                (list_push_back (s.ready_list (rank s t)) t) p
                (λ e.
                  absurd
                    (above_all s t single busy (ground (arith, h, e, keeps, fresh_rank)) stays))
                (high p (omega (arith, h, keeps)));
          running = still;
          kept = λ p u h. ground (arith, enqueue-listed s (rank s t) t p u h);
        },
        ground (arith, enqueue_self s (rank s t) t),
        rw (eq→== s.current s.current refl) refl,
      )
    ]
