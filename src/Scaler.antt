-- ===== src/Scaler.antt =====
-- orchestrator/scaler.go, the decisions: `CanScale`, `EvaluateScaleUp`, `EvaluateScaleDown`.
-- An evaluation takes the queue's pending work and the instant of the tick, and returns the new
-- state with the goroutine that it starts, if any. The tests `elapsed >= d` are written
-- `since + d <= now`, which is the same where the clock has gone back.
pub mod Decision
pub mod Target
pub mod Actions
use serverless_gpu_linode.Common.{
  ℕ, ◌+◌, Bool, true, false, not, ◌&&◌, List, [], ◌∷◌, Option, none, some, ltb, leb, ◌==◌,
  if◌then◌else◌, length,
}
use serverless_gpu_linode.StateMachine.{
  ready, Node, active_count, ready_count, nodes_by_state, is_scaling_in_progress,
}
use serverless_gpu_linode.Orchestrator.{Orchestrator}

-- A goroutine that is started: `ScaleUp`, `ScaleDown id`, or `waitForNodeReady` with the node's ID
-- and creation time.
pub data Task : Type 0 where
  scale_up_task : Task
  scale_down_task : ℕ → Task
  wait_task : ℕ → ℕ → Task

-- The loop of `pickScaleDownTarget`.
pick_from : ℕ → List Node → ℕ
pick_from target [] = target
pick_from target (n ∷ rest) =
    pick_from (if ltb target n.linode_id then n.linode_id else target) rest

unfoldable pub pick_scale_down_target : List Node → ℕ
unfolding pick_from
pick_scale_down_target [] = 0
pick_scale_down_target (n ∷ rest) = pick_from n.linode_id rest

module _ {W : Type 0} where
  abbrev pub set_cooldown_active : Orchestrator W → ℕ → Orchestrator W
  set_cooldown_active o v = record o { metrics = record o.metrics { cooldown_active = v } }

  unfoldable pub can_scale : Orchestrator W → ℕ → Orchestrator W × Bool
  can_scale o now = elim o.last_scale_event [
    | none ↦ (o, true)
    | some last ↦
        if leb (last + o.cfg.cooldown_duration) now
        then (set_cooldown_active o 0, true)
        else (set_cooldown_active o 1, false)
  ]

  -- Scale 0→1.
  start_first : Orchestrator W → ℕ → Orchestrator W × Option Task
  unfolding can_scale
  start_first o now =
      let (o', can) = can_scale o now in
      if not can
      then (o', none)
      else (if is_scaling_in_progress o'.nodes then (o', none) else (o', some scale_up_task))

  -- Scale N→N+1, once the threshold has been exceeded for long enough.
  start_next : Orchestrator W → ℕ → Orchestrator W × Option Task
  unfolding can_scale
  start_next o now =
      let (o', can) = can_scale o now in
      if not can
      then (o', none)
      else (if is_scaling_in_progress o'.nodes
          then (o', none)
          else (record o' { scale_up_since = none }, some scale_up_task))

  -- The threshold is exceeded at this tick.
  above_threshold : Orchestrator W → ℕ → Orchestrator W × Option Task
  unfolding start_next
  above_threshold o now = elim o.scale_up_since [
    | none ↦ (record o { scale_up_since = some now }, none)
    | some since ↦ if leb (since + o.cfg.scale_up_duration) now then start_next o now else (o, none)
  ]

  reset_scale_up : Orchestrator W → ℕ → Orchestrator W
  reset_scale_up o pending = elim o.scale_up_since [
    | none ↦ o
    | some since ↦
        if leb pending o.cfg.scale_up_threshold then record o { scale_up_since = none } else o
  ]

  unfoldable pub evaluate_scale_up : Orchestrator W → ℕ → ℕ → Orchestrator W × Option Task
  unfolding start_first above_threshold reset_scale_up
  evaluate_scale_up o pending now =
      let active : ℕ = active_count o.nodes in
      if ltb 0 pending && active == 0
      then start_first o now
      else (if ltb o.cfg.scale_up_threshold pending
            && (ready_count o.nodes == active && (ltb 0 active && ltb active o.cfg.max_nodes))
          then above_threshold o now
          else (reset_scale_up o pending, none))

  abbrev pub stop_idle_timer : Orchestrator W → Orchestrator W
  stop_idle_timer o = record o { scale_down_since = none }

  -- The idle window is over: the last guards, the choice of the node, and the reset of the timer.
  start_down : Orchestrator W → ℕ → Orchestrator W × Option Task
  unfolding can_scale
  start_down o now =
      let (o', can) = can_scale o now in
      let target : ℕ = pick_scale_down_target (nodes_by_state o.nodes ready) in
      if not can
      then (o', none)
      else (if is_scaling_in_progress o'.nodes
          then (o', none)
          else (if target == 0
              then (o', none)
              else (stop_idle_timer o', some (scale_down_task target))))

  abbrev pub idle_required : Orchestrator W → ℕ
  idle_required o =
      if ltb 1 (active_count o.nodes)
      then o.cfg.scale_down_idle_duration
      else o.cfg.scale_to_zero_idle_duration

  -- Nothing is pending: the idle timer is started if it does not run, and then read.
  idle_tick : Orchestrator W → ℕ → Orchestrator W × Option Task
  unfolding start_down
  idle_tick o now =
      let since : ℕ = elim o.scale_down_since [ none ↦ now | some t ↦ t ] in
      let o' : Orchestrator W = record o { scale_down_since = some since } in
      if leb (since + idle_required o) now then start_down o' now else (o', none)

  unfoldable pub evaluate_scale_down : Orchestrator W → ℕ → ℕ → Orchestrator W × Option Task
  unfolding idle_tick
  evaluate_scale_down o pending now =
      if active_count o.nodes == 0
      then (stop_idle_timer o, none)
      else (if length (nodes_by_state o.nodes ready) == 0
          then (stop_idle_timer o, none)
          else (if leb (active_count o.nodes) o.cfg.min_nodes
              then (stop_idle_timer o, none)
              else (if ltb 0 pending then (stop_idle_timer o, none) else idle_tick o now)))
