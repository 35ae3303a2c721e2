-- ===== src/Monitor/Order.antt =====
-- The map of nodes in two orders: Go iterates over `NodeManager.nodes` (orchestrator/statemachine.go) in
-- any order, and the evaluation of a tick (orchestrator/scaler.go, orchestrator/orchestrator.go) does
-- the same in each.
mod Actions
mod Calls
pub mod Runs
use mathlib.Core.List.{Perm}
use serverless_gpu_linode.Common.{ℕ, ◌≡◌, ◌∙◌, ap, refl, List, arith, length, ◌∷◌}
use serverless_gpu_linode.StateMachine.{
  provisioning, ready, draining, destroying, NodeManager, all_nodes, nodes_by_state, active_count,
  ready_count, is_scaling_in_progress,
}
use serverless_gpu_linode.StateMachine.Order.{
  active_count-perm, ready_count-perm, is_scaling_in_progress-perm, nodes_by_state-perm,
  length-nodes_by_state-perm,
}
use serverless_gpu_linode.Metrics.{Metrics, update_node_counts}
use serverless_gpu_linode.Orchestrator.{Orchestrator, QueueStats, pending_work}
use serverless_gpu_linode.Scaler.{
  Task, can_scale, evaluate_scale_up, evaluate_scale_down, pick_scale_down_target,
}
use serverless_gpu_linode.Scaler.Target.{pick_scale_down_target-perm}
use serverless_gpu_linode.Monitor.{Goroutine, set_queue, evaluate}

module _ {W : Type 0} (nm : NodeManager) where
  -- The orchestrator with this map in the place of its own.
  abbrev pub with_nodes : Orchestrator W → Orchestrator W
  with_nodes o = record o { nodes = nm }

module _ {W : Type 0} (o : Orchestrator W) (nm : NodeManager)
    (same : Perm (all_nodes o.nodes) (all_nodes nm)) where
  pub update_node_counts-perm :
      (m : Metrics) → update_node_counts m o.nodes ≡ update_node_counts m nm
  unfolding update_node_counts
  update_node_counts-perm m =
      let count = length-nodes_by_state-perm o.nodes nm same in
      rw
        (
          active_count-perm o.nodes nm same,
          count provisioning,
          count ready,
          count draining,
          count destroying,
        )
        refl

  set_queue-perm : (q : QueueStats) → set_queue (with_nodes nm o) q ≡ with_nodes nm (set_queue o q)
  set_queue-perm q = rw (update_node_counts-perm) refl

  scale_up-perm :
      (pending now : ℕ)
      → evaluate_scale_up (with_nodes nm o) pending now
        ≡ (with_nodes nm (evaluate_scale_up o pending now).0, (evaluate_scale_up o pending now).1)
  unfolding evaluate_scale_up can_scale
  scale_up-perm pending now =
      let active = active_count-perm o.nodes nm same in
      let all_ready = ready_count-perm o.nodes nm same in
      let scaling = is_scaling_in_progress-perm o.nodes nm same in
      ground (arith, active, all_ready, scaling)

  scale_down-perm :
      (pending now : ℕ)
      → evaluate_scale_down (with_nodes nm o) pending now ≡ (
        with_nodes nm (evaluate_scale_down o pending now).0,
        (evaluate_scale_down o pending now).1,
      )
  unfolding evaluate_scale_down can_scale
  scale_down-perm pending now =
      let active = active_count-perm o.nodes nm same in
      let all_ready = length-nodes_by_state-perm o.nodes nm same ready in
      let target =
        pick_scale_down_target-perm (nodes_by_state o.nodes ready) (nodes_by_state nm ready)
          (nodes_by_state-perm o.nodes nm same ready) in
      let scaling = is_scaling_in_progress-perm o.nodes nm same in
      ground (arith, active, all_ready, target, scaling)
