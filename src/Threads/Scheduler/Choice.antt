-- ===== src/Threads/Scheduler/Choice.antt =====
-- `next_thread_to_run` takes the head of the highest queue that is not empty.
use uni_orion_os.Base.{
  ℕ, zero, suc, ◌<◌, ◌≡◌, refl, ◌∙◌, ap, inl, inr, Option, none, some, List, [], ◌∷◌, arith,
  Bool-cases, ltb, ltb→lt,
}
use uni_orion_os.Threads.Scheduler.{front_or, top_of}

-- The choice among the queues below `below`.
pub data Top (below : ℕ) (queues : ℕ → List ℕ) : Option (ℕ × ℕ × List ℕ) → Type 0 where
  all_empty : ((q : ℕ) → q < below → queues q ≡ []) → Top below queues none
  front :
      {priority t : ℕ} {rest : List ℕ}
      → priority < below
      → queues priority ≡ t ∷ rest
      → ((q : ℕ) → priority < q → q < below → queues q ≡ [])
      → Top below queues (some (priority, t, rest))

empty_up_to :
    (below : ℕ) (queues : ℕ → List ℕ) (q : ℕ)
    → queues below ≡ []
    → (q < below → queues q ≡ [])
    → q < suc below
    → queues q ≡ []
empty_up_to below queues q e lower h = elim (Bool-cases (ltb q below)) [
  | inl less ↦ lower (ltb→lt q below less)
  | inr more ↦ ap queues (ground (arith, more)) ∙ e
]

pub top_of-Top : (below : ℕ) (queues : ℕ → List ℕ) → Top below queues (top_of below queues)
unfolding top_of
top_of-Top zero queues = all_empty (λ q h. absurd (omega arith))
top_of-Top (suc below) queues =
    go (queues below) refl (top_of below queues) (top_of-Top below queues)
  where
    go :
        (queue : List ℕ)
        → queues below ≡ queue
        → (lower : Option (ℕ × ℕ × List ℕ)) → Top below queues lower
        → Top (suc below) queues (front_or queue below lower)
    go [] e none (all_empty h) = all_empty (λ q k. empty_up_to below queues q e (h q) k)
    go [] e (some _) (front inside head above) =
        front (omega arith) head (λ q l k. empty_up_to below queues q e (above q l) k)
    go (t ∷ rest) e lower top = front (omega arith) e (λ q h k. absurd (omega arith))
