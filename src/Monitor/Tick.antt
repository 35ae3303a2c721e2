-- ===== src/Monitor/Tick.antt =====
-- What a tick of `monitorLoop` (orchestrator/orchestrator.go) starts.
use serverless_gpu_linode.Common.{
  ℕ, ◌<◌, ◌≡◌, refl, ap, ◌∙◌, ◌⊎◌, inl, inr, List, [], ◌∷◌, ◌++◌, Option, none, some, arith,
  Option-cases,
}
use serverless_gpu_linode.Orchestrator.{Orchestrator, QueueStats, pending_work}
use serverless_gpu_linode.Scaler.{
  Task, scale_up_task, scale_down_task, evaluate_scale_up, evaluate_scale_down,
  pick_scale_down_target,
}
use serverless_gpu_linode.StateMachine.{ready, nodes_by_state}
use serverless_gpu_linode.Scaler.Decision.{evaluate_scale_up_iff, evaluate_scale_down_iff}
use serverless_gpu_linode.Monitor.{Goroutine, starts, started, set_queue, evaluate}

up_work :
    {W : Type 0} (o : Orchestrator W) (pending now : ℕ) {t : Task}
    → (evaluate_scale_up o pending now).1 ≡ some t
    → (t ≡ scale_up_task) × (0 < pending)
up_work o pending now {t} h =
    let (e, why) = (evaluate_scale_up_iff o pending now t).0 h in
    elim why [ inl c ↦ (e, c.work) | inr s ↦ (e, omega (arith, s.above)) ]

down_work :
    {W : Type 0} (o : Orchestrator W) (pending now : ℕ) {t : Task}
    → (evaluate_scale_down o pending now).1 ≡ some t
    → (id : ℕ) × (t ≡ scale_down_task id) × (pending ≡ 0)
down_work o pending now {t} h =
    let (e, nonzero, why) = (evaluate_scale_down_iff o pending now t).0 h in
    (pick_scale_down_target (nodes_by_state o.nodes ready), e, why.idle)

-- At most one goroutine: for a scale-up where work is outstanding, for a scale-down where none is.
abbrev pub StartsOne : List Goroutine → ℕ → Type 0
StartsOne gs work =
    (gs ≡ [])
    ⊎ ((gs ≡ starts scale_up_task ∷ []) × (0 < work))
    ⊎ ((id : ℕ) × (gs ≡ starts (scale_down_task id) ∷ []) × (work ≡ 0))

combine :
    (up down : Option Task) (work : ℕ)
    → (up ≡ none) ⊎ ((up ≡ some scale_up_task) × (0 < work))
    → (down ≡ none) ⊎ ((id : ℕ) × (down ≡ some (scale_down_task id)) × (work ≡ 0))
    → StartsOne (started up ++ started down) work
combine up down work (inl e) (inl d) = inl (rw (e, d) refl)
combine up down work (inl e) (inr (id, d, w)) = inr (inr (id, rw (e, d) refl, w))
combine up down work (inr (e, w)) (inl d) = inr (inl (rw (e, d) refl, w))
combine up down work (inr (e, w)) (inr (id, d, v)) = absurd (omega arith)

module _ {W : Type 0} (o : Orchestrator W) (pending now : ℕ) where
  up_cases :
      ((evaluate_scale_up o pending now).1 ≡ none)
      ⊎ (((evaluate_scale_up o pending now).1 ≡ some scale_up_task) × (0 < pending))
  up_cases = elim (Option-cases (evaluate_scale_up o pending now).1) [
    | inl e ↦ inl e
    | inr (t, e) ↦
        let (named, work) = up_work o pending now e in inr (e ∙ ap (λ t. some t) named, work)
  ]

  down_cases :
      ((evaluate_scale_down o pending now).1 ≡ none)
      ⊎ ((id : ℕ) × ((evaluate_scale_down o pending now).1 ≡ some (scale_down_task id))
          × (pending ≡ 0))
  down_cases = elim (Option-cases (evaluate_scale_down o pending now).1) [
    | inl e ↦ inl e
    | inr (t, e) ↦
        let (id, named, idle) = down_work o pending now e in
        inr (id, e ∙ ap (λ t. some t) named, idle)
  ]

-- The evaluations of one tick start at most one goroutine between them: a scale-up, and only where
-- work is outstanding, or a scale-down, and only where none is.
pub evaluate-StartsOne :
    {W : Type 0} (o : Orchestrator W) (q : QueueStats) (now : ℕ)
    → StartsOne (evaluate o q now).1 (pending_work q)
unfolding evaluate
evaluate-StartsOne o q now =
    let first = evaluate_scale_up (set_queue o q) (pending_work q) now in
    let second = evaluate_scale_down first.0 (pending_work q) now in
    combine first.1 second.1 (pending_work q) (up_cases (set_queue o q) (pending_work q) now)
      (down_cases first.0 (pending_work q) now)
