-- ===== src/Threads/Priorities/Waking.antt =====
-- Two ways in which a blocked thread is made ready.
use uni_orion_os.Base.{
  ℕ, ◌≤◌, ◌<◌, ◌≡◌, refl, ◌∙◌, ap, inl, inr, Bool, true, false, none, some, List, [], ◌∷◌, ◌++◌,
  ◌≢◌, ◌==◌, ◌||◌, eq→==, sym, ltb, lt→ltb, le→leb, if◌then◌else◌, arith, Bool-cases,
}
use uni_orion_os.Base.Panic.{ensure}
use uni_orion_os.Devices.Block.{update, update_self, update_ne}
use uni_orion_os.Devices.Block.{update-at}
use uni_orion_os.Kernel.Lists.{list_push_back}
use uni_orion_os.Threads.Scheduler.{
  System, thread_running, thread_ready, thread_blocked, is_running, is_blocked, is_ready, is_idle,
  with_status, enqueue, without, list_remove, preempts, thread_unblock, thread_yield,
}
use uni_orion_os.Threads.Scheduler.Queues.{rank, with_status-rank}
use uni_orion_os.Threads.Scheduler.Yielding.{other_thread}
use uni_orion_os.Threads.Priorities.{
  with_priority, thread_on_priority_change, thread_promote, wake_loop, handle_sleeping_threads,
}

yield-panic : (s : System) → s.intr_context ≡ true → thread_yield s ≡ none
unfolding thread_yield
yield-panic s inside = elim (Bool-cases (is_running (s.thread s.current).status)) [
  | inl runs ↦ rw (runs, inside) refl
  | inr stopped ↦ rw stopped refl
]

unblock-panic :
    (s : System) (t : ℕ)
    → s.intr_context ≡ true
    → s.thread_mlfqs ≡ false
    → is_idle s s.current ≡ false
    → rank s s.current < rank s t
    → thread_unblock s t ≡ none
unfolding thread_unblock
unblock-panic s t inside single busy above =
    let awake = with_status (enqueue s (rank s t) t) t thread_ready in
    let now = with_status-rank (enqueue s (rank s t) t) t thread_ready s.current in
    let fresh = with_status-rank (enqueue s (rank s t) t) t thread_ready t in
    let less : ltb (rank awake s.current) (rank awake t) ≡ true =
      lt→ltb _ _ (omega (arith, above, now, fresh)) in
    let yields : preempts awake t ≡ true = ground (arith, less, single, busy) in
    elim (Bool-cases (is_blocked (s.thread t).status)) [
      | inl blocked ↦
          elim (Bool-cases (s.thread_mlfqs || is_running (awake.thread s.current).status)) [
            | inl runs ↦ rw (blocked, runs, yields) (yield-panic awake inside)
            | inr stopped ↦ rw (blocked, stopped) refl
          ]
      | inr other ↦ rw other refl
    ]

wake_loop-panic :
    (s : System) (t : ℕ) (later : List ℕ) (timer_ticks : ℕ)
    → (s.thread t).wakeup_time ≤ timer_ticks
    → s.intr_context ≡ true
    → s.thread_mlfqs ≡ false
    → is_idle s s.current ≡ false
    → rank s s.current < rank s t
    → wake_loop (t ∷ later) s timer_ticks ≡ none
unfolding wake_loop
wake_loop-panic s t later timer_ticks due inside single busy above =
    rw
      (
        le→leb (s.thread t).wakeup_time timer_ticks due,
        unblock-panic (record s { sleep_list = later }) t inside single busy above,
      )
      refl

-- In an interrupt, with the priority scheduler and a running thread other than the idle thread,
-- if the first sleeping thread is due and has a higher priority than the running thread,
-- handle_sleeping_threads stops the kernel.
pub handle_sleeping_threads-panic :
    (s : System) (t : ℕ) (later : List ℕ) (timer_ticks : ℕ)
    → s.sleep_list ≡ t ∷ later
    → (s.thread t).wakeup_time ≤ timer_ticks
    → s.intr_context ≡ true
    → s.thread_mlfqs ≡ false
    → is_idle s s.current ≡ false
    → rank s s.current < rank s t
    → handle_sleeping_threads s timer_ticks ≡ none
unfolding handle_sleeping_threads
handle_sleeping_threads-panic s t later timer_ticks list due inside single busy above =
    ap (λ l. wake_loop l s timer_ticks) list
    ∙ wake_loop-panic s t later timer_ticks due inside single busy above

-- the thread is in no place of a list
abbrev pub IsAbsent : ℕ → List ℕ → Type 0
IsAbsent t [] = Unit
IsAbsent t (x ∷ xs) = (x ≢ t) × IsAbsent t xs

-- a blocked thread that waits in `timer_sleep`: its element is in the list of sleeping threads,
-- behind the threads of `before`, and in no other list
pub record IsSleeping (s : System) (t : ℕ) (before after : List ℕ) : Type 0 where
  pub blocked : (s.thread t).status ≡ thread_blocked
  pub listed : s.sleep_list ≡ before ++ (t ∷ after)
  pub not_before : IsAbsent t before
  pub not_after : IsAbsent t after
  pub not_queued : (p : ℕ) → IsAbsent t (s.ready_list p)
  pub not_waiting : (q : ℕ) → IsAbsent t (s.waiters q)

-- the thread is the last of the ready queue of the running thread's priority, and not asleep
pub record IsWoken (s : System) (t : ℕ) (before after : List ℕ) (s' : System) : Type 0 where
  pub ready : (s'.thread t).status ≡ thread_ready
  pub promoted : rank s' t ≡ rank s s.current
  pub same_time : (s'.thread t).wakeup_time ≡ (s.thread t).wakeup_time
  pub awake : s'.sleep_list ≡ before ++ after
  pub queued : s'.ready_list (rank s s.current) ≡ s.ready_list (rank s s.current) ++ (t ∷ [])
  pub other_queues : (p : ℕ) → p ≢ rank s s.current → s'.ready_list p ≡ s.ready_list p
  pub other_threads : (k : ℕ) → k ≢ t → s'.thread k ≡ s.thread k
  pub waiting : (q : ℕ) → s'.waiters q ≡ s.waiters q
  pub still : s'.current ≡ s.current

without-IsAbsent : (t : ℕ) (xs : List ℕ) → IsAbsent t xs → without t xs ≡ xs
unfolding without
without-IsAbsent t [] h = refl
without-IsAbsent t (x ∷ xs) (other, h) = elim (Bool-cases (x == t)) [
  | inl same ↦ absurd (other (ground (arith, same)))
  | inr ne ↦ rw ne (ap (λ l. x ∷ l) (without-IsAbsent t xs h))
]

without-listed :
    (t : ℕ) (before after : List ℕ)
    → IsAbsent t before
    → IsAbsent t after
    → without t (before ++ (t ∷ after)) ≡ before ++ after
unfolding without
without-listed t [] after h k = rw (eq→== t t refl) (without-IsAbsent t after k)
without-listed t (x ∷ before) after (other, h) k = elim (Bool-cases (x == t)) [
  | inl same ↦ absurd (other (ground (arith, same)))
  | inr ne ↦ rw ne (ap (λ l. x ∷ l) (without-listed t before after h k))
]

if_true : {A : Type 0} (b : Bool) (x y : A) → b ≡ true → (if b then x else y) ≡ x
if_true b x y h = rw h refl

if_false : {A : Type 0} (b : Bool) (x y : A) → b ≡ false → (if b then x else y) ≡ y
if_false b x y h = rw h refl

promote_step :
    (s : System) (t : ℕ)
    → s.thread_mlfqs ≡ false
    → rank s t < rank s s.current
    → thread_promote s t
      ≡ thread_on_priority_change (with_priority s t (rank s s.current)) t (rank s s.current)
unfolding thread_promote
promote_step s t single below =
    if_false s.thread_mlfqs _ _ single
    ∙ if_true (ltb (rank s t) (rank s s.current)) _ _ (lt→ltb _ _ below)

blocked_step :
    (s : System) (t new : ℕ)
    → (s.thread t).status ≡ thread_blocked
    → thread_on_priority_change s t new ≡ thread_unblock (list_remove s t) t
unfolding thread_on_priority_change
blocked_step s t new blocked =
    if_false (is_ready (s.thread t).status) _ _ (ap is_ready blocked)
    ∙ if_true (is_blocked (s.thread t).status) _ _ (ap is_blocked blocked)

unblock_step :
    (s : System) (t : ℕ)
    → (s.thread t).status ≡ thread_blocked
    → ((with_status (enqueue s (rank s t) t) t thread_ready).thread s.current).status
      ≡ thread_running
    → (let awake = with_status (enqueue s (rank s t) t) t thread_ready in
        ltb (rank awake s.current) (rank awake t) ≡ false)
    → thread_unblock s t ≡ some (with_status (enqueue s (rank s t) t) t thread_ready)
unfolding thread_unblock
unblock_step s t blocked runs stays =
    let awake = with_status (enqueue s (rank s t) t) t thread_ready in
    let is : ensure (is_blocked (s.thread t).status) ≡ some tt =
      ap (λ u. ensure (is_blocked u)) blocked in
    let no_yield : preempts awake t ≡ false = ground (arith, stays) in
    let on : (s.thread_mlfqs || is_running (awake.thread s.current).status) ≡ true =
      ground (arith, ap is_running runs) in
    rw (is, on) (if_false (preempts awake t) (thread_yield awake) (some awake) no_yield)

-- what `thread_promote` leaves, from the system that it makes of `s`
promoted_lem :
    (s : System) (t new : ℕ) (before after : List ℕ)
    → new ≡ rank s s.current
    → IsSleeping s t before after
    → IsWoken s t before after
        (with_status (enqueue (list_remove (with_priority s t new) t) new t) t thread_ready)
unfolding list_push_back
promoted_lem s t new before after e h =
    let raised = with_priority s t new in
    let queue : ℕ → List ℕ = λ p. without t (s.ready_list p) in
    let own : raised.thread t ≡ record (s.thread t) { current_priority = new } =
      update_self s.thread t _ in
    let last = update_self raised.thread t (record (raised.thread t) { status = thread_ready }) in
    let joined = without t (s.ready_list new) ++ (t ∷ []) in
    record {
      ready = ap (λ u. u.status) last;
      promoted = ap (λ u. u.current_priority) last ∙ ap (λ u. u.current_priority) own ∙ e;
      same_time = ap (λ u. u.wakeup_time) last ∙ ap (λ u. u.wakeup_time) own;
      awake = ap (without t) h.listed ∙ without-listed t before after h.not_before h.not_after;
      queued =
          ap (update queue new joined) (sym e)
          ∙ update_self queue new joined
          ∙ ap (λ l. l ++ (t ∷ [])) (without-IsAbsent t (s.ready_list new) (h.not_queued new))
          ∙ ap (λ p. s.ready_list p ++ (t ∷ [])) e;
      other_queues = λ p other.
          update_ne queue new joined p (λ same. other (same ∙ e))
          ∙ without-IsAbsent t (s.ready_list p) (h.not_queued p);
      other_threads =
          λ k other. update_ne raised.thread t _ k other ∙ update_ne s.thread t _ k other;
      waiting = λ q. without-IsAbsent t (s.waiters q) (h.not_waiting q);
      still = refl;
    }

-- the running thread is another one, and runs on
runs_after_promotion :
    (s : System) (t : ℕ)
    → (s.thread t).status ≡ thread_blocked
    → (s.thread s.current).status ≡ thread_running
    → (let removed = list_remove (with_priority s t (rank s s.current)) t in
        ((with_status (enqueue removed (rank removed t) t) t thread_ready).thread s.current).status
        ≡ thread_running)
runs_after_promotion s t blocked runs =
    let other : (t == s.current) ≡ false = other_thread s t blocked runs in rw other runs

-- With the priority scheduler, if a blocked thread is on the list of sleeping threads and in no
-- ready queue or list of waiters, and has a lower priority than the running thread, then
-- thread_promote gives it that priority, takes it off the list of sleeping threads and puts it
-- at the end of the ready queue of its new priority, whatever its wake-up time; the other
-- queues, the lists of waiters, the other threads and the choice of the running thread stay as
-- they were.
pub thread_promote-IsWoken :
    (s : System) (t : ℕ) (before after : List ℕ)
    → s.thread_mlfqs ≡ false
    → IsSleeping s t before after
    → (s.thread s.current).status ≡ thread_running
    → rank s t < rank s s.current
    → (s' : System) × (thread_promote s t ≡ some s') × IsWoken s t before after s'
thread_promote-IsWoken s t before after single asleep runs below =
    let new = rank s s.current in
    let raised = with_priority s t new in
    let removed = list_remove raised t in
    let awake = with_status (enqueue removed (rank removed t) t) t thread_ready in
    let self : raised.thread t ≡ record (s.thread t) { current_priority = new } =
      update_self s.thread t _ in
    let still : (raised.thread t).status ≡ thread_blocked =
      ap (λ u. u.status) self ∙ asleep.blocked in
    let high : rank raised t ≡ new = ap (λ u. u.current_priority) self in
    let own : rank raised s.current ≡ new =
      update-at (λ u. u.current_priority ≡ new) s.thread t
        (record (s.thread t) { current_priority = new }) s.current (λ e. refl) refl in
    let runs_on : (awake.thread s.current).status ≡ thread_running =
      runs_after_promotion s t asleep.blocked runs in
    let t_now = with_status-rank (enqueue removed (rank removed t) t) t thread_ready t in
    let own_now = with_status-rank (enqueue removed (rank removed t) t) t thread_ready s.current in
    let stays : ltb (rank awake s.current) (rank awake t) ≡ false =
      ground (arith, t_now, own_now, high, own) in
    (
      with_status (enqueue removed new t) t thread_ready,
      promote_step s t single below
          ∙ blocked_step raised t new still
          ∙ unblock_step removed t still runs_on stays
          ∙ ap (λ p. some (with_status (enqueue removed p t) t thread_ready)) high,
      promoted_lem s t new before after refl asleep,
    )
