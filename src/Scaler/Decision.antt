-- ===== src/Scaler/Decision.antt =====
-- When the evaluations of orchestrator/scaler.go start a goroutine, against the decision flow that
-- README.md gives, and what they do to the timers.
use serverless_gpu_linode.StateMachine.Counts.{
  counts_partition, is_scaling_in_progress-false_iff, ready_count-le-active_count,
  active_count-le-length,
}
use serverless_gpu_linode.Common.{
  ℕ, ◌+◌, ◌≤◌, ◌<◌, ◌≡◌, ◌≢◌, refl, ◌⊎◌, ◌↔◌, inl, inr, Option, none, some, arith, length,
}
use serverless_gpu_linode.StateMachine.{ready, nodes_by_state, active_count, ready_count}
use serverless_gpu_linode.Orchestrator.{Orchestrator}
use serverless_gpu_linode.Scaler.{
  Task, scale_up_task, scale_down_task, evaluate_scale_up, evaluate_scale_down, idle_required,
  pick_scale_down_target,
}

-- The cooldown period since the last scale event is over.
abbrev pub IsCooled : Option ℕ → ℕ → ℕ → Type 0
IsCooled none cooldown now = Unit
IsCooled (some last) cooldown now = last + cooldown ≤ now

-- A timer has run for a duration.
abbrev pub HasRun : Option ℕ → ℕ → ℕ → Type 0
HasRun none duration now = ⊥
HasRun (some since) duration now = since + duration ≤ now

-- When the idle timer that a tick reads was started: at this tick, if it does not run.
abbrev pub idle_since : Option ℕ → ℕ → ℕ
idle_since none now = now
idle_since (some since) now = since

module _ {W : Type 0} (o : Orchestrator W) where
  -- Work is pending, no node is tracked, and the cooldown is over.
  pub record ColdStart (pending now : ℕ) : Type 0 where
    pub work : 0 < pending
    pub nothing_tracked : length o.nodes.nodes ≡ 0
    pub cooled : IsCooled o.last_scale_event o.cfg.cooldown_duration now

  -- The queue is above the threshold now, the timer has run for long enough, all tracked nodes are
  -- ready, there is at least one and room for another, and the cooldown is over.
  pub record ScaleOut (pending now : ℕ) : Type 0 where
    pub above : o.cfg.scale_up_threshold < pending
    pub sustained : HasRun o.scale_up_since o.cfg.scale_up_duration now
    pub all_ready : ready_count o.nodes ≡ length o.nodes.nodes
    pub some_node : 0 < length o.nodes.nodes
    pub room : length o.nodes.nodes < o.cfg.max_nodes
    pub cooled : IsCooled o.last_scale_event o.cfg.cooldown_duration now

  -- Nothing is pending and has not been for as long as the number of nodes asks, all tracked nodes
  -- are ready and more than the floor, and the cooldown is over.
  pub record ScaleIn (pending now : ℕ) : Type 0 where
    pub idle : pending ≡ 0
    pub sustained : idle_since o.scale_down_since now + idle_required o ≤ now
    pub all_ready : ready_count o.nodes ≡ length o.nodes.nodes
    pub some_node : 0 < length o.nodes.nodes
    pub above_floor : o.cfg.min_nodes < length o.nodes.nodes
    pub cooled : IsCooled o.last_scale_event o.cfg.cooldown_duration now

  evaluate_scale_up_starts :
      (pending now : ℕ) {t : Task}
      → (evaluate_scale_up o pending now).1 ≡ some t
      → (t ≡ scale_up_task) × (ColdStart pending now ⊎ ScaleOut pending now)
  unfolding evaluate_scale_up
  evaluate_scale_up_starts pending now h = ground (
    arith,
    is_scaling_in_progress-false_iff o.nodes,
    ready_count-le-active_count o.nodes,
    active_count-le-length o.nodes,
  )

  cold_starts :
      (pending now : ℕ)
      → ColdStart pending now
      → (evaluate_scale_up o pending now).1 ≡ some scale_up_task
  unfolding evaluate_scale_up
  cold_starts pending now c = ground (
    arith,
    is_scaling_in_progress-false_iff o.nodes,
    ready_count-le-active_count o.nodes,
    active_count-le-length o.nodes,
  )

  out_starts :
      (pending now : ℕ)
      → ScaleOut pending now
      → (evaluate_scale_up o pending now).1 ≡ some scale_up_task
  unfolding evaluate_scale_up
  out_starts pending now c = ground (
    arith,
    is_scaling_in_progress-false_iff o.nodes,
    ready_count-le-active_count o.nodes,
    active_count-le-length o.nodes,
  )

  -- A tick starts `ScaleUp` exactly if work is pending, nothing is tracked and the cooldown is
  -- over, or the queue is above the threshold at this tick, the timer `scaleUpSince` is set
  -- and has run for `ScaleUpDuration`, all tracked nodes are ready, there is at least one and room
  -- for another, and the cooldown is over. It starts nothing else. How the queue was at the ticks
  -- before enters only through the timer.
  pub evaluate_scale_up_iff :
      (pending now : ℕ) (t : Task)
      → ((evaluate_scale_up o pending now).1 ≡ some t)
        ↔ ((t ≡ scale_up_task) × (ColdStart pending now ⊎ ScaleOut pending now))
  evaluate_scale_up_iff pending now t = (
    evaluate_scale_up_starts pending now,
    λ h. elim h.1 [
      | inl c ↦ rw h.0 (cold_starts pending now c)
      | inr c ↦ rw h.0 (out_starts pending now c)
    ],
  )

  in_starts :
      (pending now : ℕ) (id : ℕ)
      → ScaleIn pending now
      → id ≡ pick_scale_down_target (nodes_by_state o.nodes ready)
      → id ≢ 0
      → (evaluate_scale_down o pending now).1 ≡ some (scale_down_task id)
  unfolding evaluate_scale_down
  in_starts pending now id c e h =
      ground (arith, is_scaling_in_progress-false_iff o.nodes, counts_partition o.nodes)

  evaluate_scale_down_starts :
      (pending now : ℕ) {t : Task}
      → (evaluate_scale_down o pending now).1 ≡ some t
      → let id = pick_scale_down_target (nodes_by_state o.nodes ready) in
        (t ≡ scale_down_task id) × (id ≢ 0) × ScaleIn pending now
  unfolding evaluate_scale_down
  evaluate_scale_down_starts pending now h =
      ground (arith, is_scaling_in_progress-false_iff o.nodes, counts_partition o.nodes)

  -- A tick starts `ScaleDown` exactly if nothing is pending, the idle window that the number of
  -- nodes asks for is over, all tracked nodes are ready, there is at least one and more than
  -- `MinNodes`, the cooldown is over, and the node chosen among the ready ones has an ID that is
  -- not 0. It starts nothing else, and starts it for that node.
  pub evaluate_scale_down_iff :
      (pending now : ℕ) (t : Task)
      → let id = pick_scale_down_target (nodes_by_state o.nodes ready) in
        ((evaluate_scale_down o pending now).1 ≡ some t)
        ↔ ((t ≡ scale_down_task id) × (id ≢ 0) × ScaleIn pending now)
  evaluate_scale_down_iff pending now t =
      (evaluate_scale_down_starts pending now, λ h. rw h.0 (in_starts pending now _ h.2 refl h.1))

  -- The timer of the scale-out runs on through a tick only if the queue is above the threshold or
  -- work is pending with no active node, keeps its start, and is started only above the threshold.
  pub scale_up_since-evaluate :
      (pending now s : ℕ)
      → (evaluate_scale_up o pending now).0.scale_up_since ≡ some s
      → ((o.scale_up_since ≡ some s) ⊎ ((o.scale_up_since ≡ none) × (s ≡ now)))
        × ((o.cfg.scale_up_threshold < pending)
            ⊎ ((0 < pending) × (active_count o.nodes ≡ 0) × (o.scale_up_since ≡ some s)))
  unfolding evaluate_scale_up
  scale_up_since-evaluate pending now s h = ground arith

  -- The idle timer runs on through a tick only if nothing is pending, and keeps its start.
  pub scale_down_since-evaluate :
      (pending now s : ℕ)
      → (evaluate_scale_down o pending now).0.scale_down_since ≡ some s
      → ((o.scale_down_since ≡ some s) ⊎ ((o.scale_down_since ≡ none) × (s ≡ now))) × (pending ≡ 0)
  unfolding evaluate_scale_down
  scale_down_since-evaluate pending now s h = ground arith

  -- An evaluation leaves the nodes, the world, the settings and the cooldown's start alone.
  pub evaluate_scale_up_frame :
      (pending now : ℕ)
      → let o' = (evaluate_scale_up o pending now).0 in
        (o'.nodes ≡ o.nodes)
        × (o'.world ≡ o.world)
        × (o'.cfg ≡ o.cfg)
        × (o'.last_scale_event ≡ o.last_scale_event)
        × (o'.scale_down_since ≡ o.scale_down_since)
  unfolding evaluate_scale_up
  evaluate_scale_up_frame pending now = ground arith

  pub evaluate_scale_down_frame :
      (pending now : ℕ)
      → let o' = (evaluate_scale_down o pending now).0 in
        (o'.nodes ≡ o.nodes)
        × (o'.world ≡ o.world)
        × (o'.cfg ≡ o.cfg)
        × (o'.last_scale_event ≡ o.last_scale_event)
        × (o'.scale_up_since ≡ o.scale_up_since)
  unfolding evaluate_scale_down
  evaluate_scale_down_frame pending now = ground arith
