-- ===== src/Threads/Scheduler/Queues.antt =====
-- What `schedule` leaves: the queues, and a running thread that no ready thread outranks.
use uni_orion_os.Base.{
  ℕ, ◌+◌, ◌≤◌, ◌<◌, ◌≡◌, refl, ◌∙◌, ap, sym, inl, inr, Bool, true, false, if◌then◌else◌, eq→==,
  Option, none, some, List, [], ◌∷◌, ◌==◌, ltb, arith, Bool-cases,
}
use uni_orion_os.Kernel.Lists.{list_push_back}
use uni_orion_os.Kernel.Lists.Order.{All}
use uni_orion_os.Devices.Block.{update, update_self, update-at}
use uni_orion_os.Threads.Scheduler.{
  pri_max, ThreadStatus, thread_running, System, is_running, with_status, enqueue, top_of,
  next_thread_to_run, thread_schedule_tail, schedule,
}
use uni_orion_os.Threads.Scheduler.Choice.{Top, all_empty, front, top_of-Top}

-- the current priority of a thread
abbrev pub rank : System → ℕ → ℕ
rank s t = (s.thread t).current_priority

-- Every queue holds threads of its own priority; the priorities end at PRI_MAX.
pub record IsQueued (s : System) : Type 0 where
  pub own : (p : ℕ) → All (λ t. rank s t ≡ p) (s.ready_list p)
  pub beyond : (p : ℕ) → pri_max < p → s.ready_list p ≡ []

-- no ready thread has a higher priority than the running thread
abbrev pub IsHighest : System → Type 0
IsHighest s = (p : ℕ) → rank s s.current < p → s.ready_list p ≡ []

-- whether a thread is in a queue
abbrev pub listed : ℕ → List ℕ → Bool
listed t [] = false
listed t (x ∷ xs) = if x == t then true else listed t xs

-- whether a thread runs, or is ready in the queue of a priority
abbrev pub available : System → (t priority : ℕ) → Bool
available s t priority = if s.current == t then true else listed t (s.ready_list priority)

All-map : {P Q : ℕ → Type 0} (xs : List ℕ) → ((t : ℕ) → P t → Q t) → All P xs → All Q xs
All-map [] f h = tt
All-map (x ∷ xs) f h = (f x h.0, All-map xs f h.1)

All-push : (P : ℕ → Type 0) (xs : List ℕ) (t : ℕ) → All P xs → P t → All P (list_push_back xs t)
unfolding list_push_back
All-push P [] t h p = (p, tt)
All-push P (x ∷ xs) t h p = (h.0, All-push P xs t h.1 p)

pub with_status-rank :
    (s : System) (t : ℕ) (status : ThreadStatus) (u : ℕ)
    → rank (with_status s t status) u ≡ rank s u
with_status-rank s t status u =
    update-at (λ e. e.current_priority ≡ rank s u) s.thread t
      (record (s.thread t) { status = status }) u (λ e. ap (rank s) e) refl

pub with_status-IsQueued :
    (s : System) (t : ℕ) (status : ThreadStatus) → IsQueued s → IsQueued (with_status s t status)
with_status-IsQueued s t status q = record {
  own = λ p. All-map (s.ready_list p) (λ u e. with_status-rank s t status u ∙ e) (q.own p);
  beyond = q.beyond;
}

pub enqueue-IsQueued :
    (s : System) (t : ℕ) → IsQueued s → rank s t ≤ pri_max → IsQueued (enqueue s (rank s t) t)
enqueue-IsQueued s t q h = record {
  own = λ p.
      update-at (All (λ u. rank s u ≡ p)) s.ready_list (rank s t) pushed p
        (λ e.
          All-push (λ u. rank s u ≡ p) (s.ready_list (rank s t)) t
            (All-map (s.ready_list (rank s t)) (λ u k. k ∙ e) (q.own (rank s t))) e)
        (q.own p);
  beyond = λ p k.
      update-at (λ l. l ≡ []) s.ready_list (rank s t) pushed p (λ e. absurd (omega (arith, e)))
        (q.beyond p k);
}
  where
    pushed : List ℕ
    pushed = list_push_back (s.ready_list (rank s t)) t

-- What `schedule` leaves.
pub record Scheduled (s s' : System) : Type 0 where
  pub queued : IsQueued s'
  pub highest : IsHighest s'
  pub running : (s'.thread s'.current).status ≡ thread_running
  pub kept : (p t : ℕ) → listed t (s.ready_list p) ≡ true → available s' t p ≡ true

abbrev switched : System → ℕ → System
switched s t = record (with_status s t thread_running) { current = t }

switched-IsQueued : (s : System) (t : ℕ) → IsQueued s → IsQueued (switched s t)
switched-IsQueued s t q =
    let set = with_status-IsQueued s t thread_running q in
    record { own = set.own; beyond = set.beyond }

schedule-idle :
    (s : System) (i : ℕ)
    → top_of (pri_max + 1) s.ready_list ≡ none
    → s.idle_thread ≡ some i
    → is_running (s.thread s.current).status ≡ false
    → schedule s ≡ some (switched s i)
unfolding schedule next_thread_to_run thread_schedule_tail
schedule-idle s i e idle stopped = rw (e, idle, stopped) refl

schedule-front :
    (s : System) {p t : ℕ} {rest : List ℕ}
    → top_of (pri_max + 1) s.ready_list ≡ some (p, t, rest)
    → is_running (s.thread s.current).status ≡ false
    → schedule s ≡ some (switched (record s { ready_list = update s.ready_list p rest }) t)
unfolding schedule next_thread_to_run thread_schedule_tail
schedule-front s e stopped = rw (e, stopped) refl

of_head :
    (s : System) {p t : ℕ} {rest : List ℕ}
    → s.ready_list p ≡ t ∷ rest
    → All (λ u. rank s u ≡ p) (s.ready_list p)
    → (rank s t ≡ p) × All (λ u. rank s u ≡ p) rest
of_head s head h = rw head at h

pop-IsQueued :
    (s : System) {p t : ℕ} {rest : List ℕ}
    → IsQueued s
    → p ≤ pri_max
    → s.ready_list p ≡ t ∷ rest
    → IsQueued (record s { ready_list = update s.ready_list p rest })
pop-IsQueued s {p} {t} {rest} q fits head = record {
  own = λ r.
      update-at (All (λ u. rank s u ≡ r)) s.ready_list p rest r
        (λ e. All-map rest (λ u k. k ∙ e) (of_head s head (q.own p)).1) (q.own r);
  beyond = λ r k.
      update-at (λ l. l ≡ []) s.ready_list p rest r (λ e. absurd (omega (arith, e))) (q.beyond r k);
}

-- the queues above a priority are empty if those up to PRI_MAX are
empty_above :
    (s : System) (low r : ℕ)
    → IsQueued s
    → ((p : ℕ) → low < p → p < pri_max + 1 → s.ready_list p ≡ [])
    → low < r
    → s.ready_list r ≡ []
empty_above s low r q h k = elim (Bool-cases (ltb r (pri_max + 1))) [
  | inl fits ↦ h r k (ground (arith, fits))
  | inr over ↦ q.beyond r (ground (arith, over))
]

kept_by_front :
    (s : System) {p t : ℕ} {rest : List ℕ} (u r : ℕ)
    → s.ready_list p ≡ t ∷ rest
    → listed u (s.ready_list r) ≡ true
    → (if t == u then true else listed u (update s.ready_list p rest r)) ≡ true
kept_by_front s {p} {t} {rest} u r head h =
    update-at (λ l. (if t == u then true else listed u l) ≡ true) s.ready_list p rest r
      (λ e.
        let there : listed u (t ∷ rest) ≡ true =
          ap (listed u) (sym head) ∙ ap (λ k. listed u (s.ready_list k)) e ∙ h in
        ground (arith, there))
      (ground (arith, h))

pub listed-push :
    (xs : List ℕ) (c t : ℕ) → listed t xs ≡ true → listed t (list_push_back xs c) ≡ true
unfolding list_push_back
listed-push [] c t h = absurd (ground (arith, h))
listed-push (x ∷ xs) c t h = ground (arith, h, listed-push xs c t)

pub listed-push_self : (xs : List ℕ) (c : ℕ) → listed c (list_push_back xs c) ≡ true
unfolding list_push_back
listed-push_self [] c = rw (eq→== c c refl) refl
listed-push_self (x ∷ xs) c = ground (arith, listed-push_self xs c)

-- what was listed, and the new thread, are in the queues after `enqueue`
pub enqueue-listed :
    (s : System) (p c r t : ℕ)
    → listed t (s.ready_list r) ≡ true
    → listed t ((enqueue s p c).ready_list r) ≡ true
enqueue-listed s p c r t h =
    update-at (λ l. listed t l ≡ true) s.ready_list p (list_push_back (s.ready_list p) c) r
      (λ e. listed-push (s.ready_list p) c t (ap (λ k. listed t (s.ready_list k)) e ∙ h)) h

pub enqueue_self : (s : System) (p c : ℕ) → listed c ((enqueue s p c).ready_list p) ≡ true
enqueue_self s p c =
    ap (listed c) (update_self s.ready_list p (list_push_back (s.ready_list p) c))
    ∙ listed-push_self (s.ready_list p) c

pub schedule-Scheduled :
    (s : System) (i : ℕ)
    → IsQueued s
    → s.idle_thread ≡ some i
    → is_running (s.thread s.current).status ≡ false
    → (s' : System) × (schedule s ≡ some s') × Scheduled s s'
schedule-Scheduled s i q idle stopped =
    go (top_of (pri_max + 1) s.ready_list) refl (top_of-Top (pri_max + 1) s.ready_list)
  where
    go :
        (top : Option (ℕ × ℕ × List ℕ))
        → top_of (pri_max + 1) s.ready_list ≡ top
        → Top (pri_max + 1) s.ready_list top
        → (s' : System) × (schedule s ≡ some s') × Scheduled s s'
    go none e (all_empty none_ready) =
        let s' = switched s i in
        (
          s',
          schedule-idle s i e idle stopped,
          record {
            queued = switched-IsQueued s i q;
            highest = λ p h. empty_above s (rank s' i) p q (λ r l k. none_ready r k) h;
            running = ap (λ t. t.status) (update_self s.thread i _);
            kept = λ p t h. ground (arith, h);
          },
        )
    go (some (p, t, rest)) e (front inside head above) =
        let popped = record s { ready_list = update s.ready_list p rest } in
        let head_rank = (of_head s head (q.own p)).0 in
        (
          switched popped t,
          schedule-front s e stopped,
          record {
            queued = switched-IsQueued popped t (pop-IsQueued s q (omega arith) head);
            highest = λ r h.
                let over : p < r =
                  omega (arith, h, with_status-rank popped t thread_running t, head_rank) in
                update-at (λ l. l ≡ []) s.ready_list p rest r (λ e. absurd (omega (arith, e)))
                  (empty_above s p r q above over);
            running = ap (λ u. u.status) (update_self s.thread t _);
            kept = λ r u h. kept_by_front s u r head h;
          },
        )
