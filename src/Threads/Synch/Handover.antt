-- ===== src/Threads/Synch/Handover.antt =====
-- The threads that wait for a semaphore, when it is given back.
use mathlib.Core.List.{Perm}
use mathlib.Core.List.Perm
use uni_orion_os.Base.{
  ℕ, ◌+◌, ◌-◌, ◌%◌, ◌^◌, ◌≤◌, ◌<◌, ◌≡◌, refl, ◌∙◌, ap, inl, inr, true, some, List, [], ◌∷◌, ◌==◌,
  arith, Bool-cases, length, lt→ltb,
}
use uni_orion_os.Base.Panic.{◌>>=◌}
use uni_orion_os.Kernel.Lists.{list_sort, sort_loop, merge_pass, is_sorted}
use uni_orion_os.Kernel.Lists.Order.{All, StrictWeak, Above}
use uni_orion_os.Kernel.Lists.Sorting.{Sorted, list_sort-Sorted}
use uni_orion_os.Devices.Block.{update, update_self}
use uni_orion_os.Threads.Scheduler.{System, thread_unblock}
use uni_orion_os.Threads.Scheduler.Queues.{rank}
use uni_orion_os.Threads.Priorities.{priority_great}
use uni_orion_os.Threads.Synch.{with_waiters, wake_first, wake_highest, sema_up, sema_try_down}

priority_great-StrictWeak : (s : System) → StrictWeak (priority_great s)
unfolding priority_great
priority_great-StrictWeak s = record {
  asym = λ a b h. ground (arith, h);
  trans = λ a b c h k. ground (arith, h, k);
}

-- The waiter `t` is unblocked, and `rest` are the other waiters; none outranks `t`.
pub record Wakes (s : System) (q t : ℕ) (rest : List ℕ) : Type 0 where
  pub all : Perm (t ∷ rest) (s.waiters q)
  pub highest : All (λ u. rank s u ≤ rank s t) rest

no_greater :
    (s : System) (t : ℕ) (rest : List ℕ)
    → Above (priority_great s) t rest
    → All (λ u. rank s u ≤ rank s t) rest
unfolding priority_great
no_greater s t [] h = tt
no_greater s t (u ∷ rest) h = (ground (arith, h.0), no_greater s t rest h.1)

-- When a queue of waiters is not empty, the wake-up of sema_up and lock_release does what
-- thread_unblock does for one of the waiters that no other waiter has a higher priority than,
-- after the queue has become the other waiters.
pub wake_highest-Wakes :
    (s : System) (q u : ℕ) (others : List ℕ)
    → s.waiters q ≡ u ∷ others
    → (t : ℕ) × (rest : List ℕ) × (wake_highest s q ≡ thread_unblock (with_waiters s q rest) t)
      × Wakes s q t rest
unfolding wake_highest
wake_highest-Wakes s q u others waiting =
    let (sorted, run, result) = list_sort-Sorted (priority_great-StrictWeak s) (s.waiters q) in
    go sorted run result
  where
    go :
        (sorted : List ℕ)
        → list_sort (priority_great s) (s.waiters q) ≡ some sorted
        → Sorted (priority_great s) (s.waiters q) sorted
        → (t : ℕ) × (rest : List ℕ) × (wake_highest s q ≡ thread_unblock (with_waiters s q rest) t)
          × Wakes s q t rest
    go [] run result =
        let empty : length {A = ℕ} [] ≡ length (u ∷ others) =
          ap length (Perm.nil-eq result.perm ∙ waiting) in
        absurd (omega (arith, empty))
    go (t ∷ rest) run result = (
      t,
      rest,
      rw run refl,
      record { all = result.perm; highest = no_greater s t rest result.ordered.0 },
    )

sema_up-no_waiter :
    (s : System) (sema : ℕ)
    → s.waiters sema ≡ []
    → sema_up s sema
      ≡ some (record s { sema_value = update s.sema_value sema ((s.sema_value sema + 1) % 2 ^ 32) })
unfolding sema_up wake_highest list_sort sort_loop merge_pass is_sorted
sema_up-no_waiter s sema quiet =
    ap (λ l. list_sort (priority_great (upped s sema)) l >>= wake_first (upped s sema) sema) quiet
  where
    upped : System → ℕ → System
    upped s sema = record s {
      sema_value = update s.sema_value sema ((s.sema_value sema + 1) % 2 ^ 32);
    }

try_down_step :
    (s : System) (sema : ℕ)
    → 0 < s.sema_value sema
    → sema_try_down s sema
      ≡ (true, record s { sema_value = update s.sema_value sema (s.sema_value sema - 1) })
unfolding sema_try_down
try_down_step s sema h = rw (lt→ltb 0 (s.sema_value sema) h) refl

-- When nobody waits for a semaphore whose value is below 2^32 - 1, sema_up does not panic,
-- sema_try_down after it succeeds, and the values of all semaphores are as before.
pub sema_try_down-sema_up :
    (s : System) (sema : ℕ)
    → s.waiters sema ≡ []
    → s.sema_value sema + 1 < 2 ^ 32
    → (s' : System) × (s'' : System) × (sema_up s sema ≡ some s')
      × (sema_try_down s' sema ≡ (true, s''))
      × ((k : ℕ) → s''.sema_value k ≡ s.sema_value k)
sema_try_down-sema_up s sema quiet fits =
    let value = (s.sema_value sema + 1) % 2 ^ 32 in
    let s' = record s { sema_value = update s.sema_value sema value } in
    let up : s'.sema_value sema ≡ value = update_self s.sema_value sema value in
    let s'' = record s' { sema_value = update s'.sema_value sema (s'.sema_value sema - 1) } in
    let back : s'.sema_value sema - 1 ≡ s.sema_value sema = omega (arith, up, fits) in
    (
      s',
      s'',
      sema_up-no_waiter s sema quiet,
      try_down_step s' sema (omega (arith, up, fits)),
      λ k. elim (Bool-cases (sema == k)) [
        | inl same ↦ let at : sema ≡ k = ground (arith, same) in rw same (back ∙ ap s.sema_value at)
        | inr other ↦ rw other refl
      ],
    )
