-- ===== src/Scaler/Actions/Down.antt =====
-- What `ScaleDown` of orchestrator/scaler.go does on each of its branches.
use serverless_gpu_linode.StateMachine.Lookup.{get_node-remove_node}
use serverless_gpu_linode.StateMachine.Invariant.{IsWellFormed}
use serverless_gpu_linode.StateMachine.Updates.{active_count-remove_node}
use serverless_gpu_linode.Common.{
  ℕ, ◌+◌, ◌≤◌, ◌<◌, ◌≡◌, ◌⊎◌, inl, inr, String, false, none, some, ok, err, arith, Option-cases,
  Result-cases,
}
use serverless_gpu_linode.StateMachine.{ready, draining, destroying, Node, get_node, active_count}
use serverless_gpu_linode.Cloud.{CloudProvider}
use serverless_gpu_linode.Metrics.{update_node_counts, record_scale_event}
use serverless_gpu_linode.Discovery.{Disk}
use serverless_gpu_linode.Orchestrator.{Orchestrator}
use serverless_gpu_linode.Scaler.Decision.{IsCooled}
use serverless_gpu_linode.Scaler.Actions.Drain.{drain_cases, doom}
use serverless_gpu_linode.Scaler.Actions.{
  ScaleError, scale_down_drain, scale_down_destroy, scale_down_finish, scale_down,
}

module _ {W : Type 0} (o : Orchestrator W) (id now : ℕ) where
  -- What the guards of `ScaleDown` have let through: the node, which is not locked and is ready
  -- or draining, more active nodes than the floor, and a cooldown that is over.
  pub record Drainable (n : Node) : Type 0 where
    pub tracked : get_node o.nodes id ≡ some n
    pub unlocked : n.drain_locked ≡ false
    pub drainable : (n.state ≡ ready) ⊎ (n.state ≡ draining)
    pub above_floor : o.cfg.min_nodes < active_count o.nodes
    pub cooled : IsCooled o.last_scale_event o.cfg.cooldown_duration now

  -- The node is in `destroying`, and nothing else has changed but the counts and gauges.
  pub record Doomed (node : Node) (o' : Orchestrator W) : Type 0 where
    pub tracked : get_node o'.nodes id ≡ some node
    pub state : node.state ≡ destroying
    pub shrunk : active_count o'.nodes + 1 ≡ active_count o.nodes
    pub well_formed : IsWellFormed o'.nodes
    pub gauge : o'.metrics.node_count ≡ active_count o'.nodes
    pub world : o'.world ≡ o.world
    pub cfg : o'.cfg ≡ o.cfg
    pub last_scale_event : o'.last_scale_event ≡ o.last_scale_event

  pub drain_ok :
      IsWellFormed o.nodes
      → {a : ℕ} → (scale_down_drain o id now).1 ≡ ok a
      → (n : Node) × (k : Node) × Drainable n
        × Doomed k (scale_down_drain o id now).0
        × (a ≡ active_count o.nodes)
  unfolding scale_down_drain update_node_counts
  drain_ok v h = elim (Option-cases (get_node o.nodes id)) [
    | inl e ↦ absurd (ground arith)
    | inr (n, e) ↦ elim (drain_cases o.nodes id now n e) [
      | inr (x, r) ↦ absurd (ground arith)
      | inl (d, a) ↦
          let (k, second, tracked, state, shrunk, w) = doom o.nodes id now n e d a v in
          (n, k, ground arith, ground arith, ground arith)
    ]
  ]

  -- A refusal changes no node, and nothing outside the process.
  pub record Refused (o' : Orchestrator W) : Type 0 where
    pub nodes : o'.nodes ≡ o.nodes
    pub world : o'.world ≡ o.world
    pub last_scale_event : o'.last_scale_event ≡ o.last_scale_event

  pub drain_err :
      IsWellFormed o.nodes
      → {x : ScaleError} → (scale_down_drain o id now).1 ≡ err x
      → Refused (scale_down_drain o id now).0
  unfolding scale_down_drain
  drain_err v h = elim (Option-cases (get_node o.nodes id)) [
    | inl e ↦ ground arith
    | inr (n, e) ↦ elim (drain_cases o.nodes id now n e) [
      | inr (x, r) ↦ ground arith
      | inl (d, a) ↦
          let (k, second, tracked, state, shrunk, w) = doom o.nodes id now n e d a v in ground arith
    ]
  ]

module _ {W : Type 0} (cloud : CloudProvider W) (disk : Disk W) (o : Orchestrator W) (id : ℕ) where
  -- The provider has destroyed the instance; the node is not tracked any more, there is one active
  -- node less and at least the floor, the cooldown starts now, and the gauge of nodes is exact.
  pub record ScaledDown (now : ℕ) (o' : Orchestrator W) : Type 0 where
    pub destroyed : (cloud.destroy_node o.world id).1 ≡ none
    pub gone : get_node o'.nodes id ≡ none
    pub shrunk : active_count o'.nodes + 1 ≡ active_count o.nodes
    pub floor : o.cfg.min_nodes ≤ active_count o'.nodes
    pub cooling : o'.last_scale_event ≡ some now
    pub gauge : o'.metrics.node_count ≡ active_count o'.nodes

  -- The provider has not destroyed the instance: the node is still tracked, in `destroying`.
  pub record NotDestroyed (o' : Orchestrator W) : Type 0 where
    pub node : Node
    pub tracked : get_node o'.nodes id ≡ some node
    pub state : node.state ≡ destroying
    pub world : o'.world ≡ (cloud.destroy_node o.world id).0
    pub last_scale_event : o'.last_scale_event ≡ o.last_scale_event
    pub gauge : o'.metrics.node_count ≡ active_count o'.nodes

  -- From a well-formed node manager: if `ScaleDown` succeeds, the node was tracked, not locked, and
  -- ready or draining, there were more active nodes than `MinNodes`, and the cooldown was over. The
  -- provider has destroyed the instance, the node is not tracked any more, there is one active node
  -- less and at least `MinNodes`, the cooldown starts now, and the gauge of nodes is exact.
  pub scale_down_ok :
      (start now : ℕ)
      → IsWellFormed o.nodes
      → (scale_down cloud disk o id start now).1 ≡ ok tt
      → (n : Node) × Drainable o id start n
        × ScaledDown now (scale_down cloud disk o id start now).0
  unfolding scale_down scale_down_destroy scale_down_finish update_node_counts record_scale_event
  scale_down_ok start now v h = elim (Result-cases (scale_down_drain o id start).1) [
    | inr (x, e) ↦ absurd (ground arith)
    | inl (a, e) ↦
        let (n, k, guards, doomed_k, active) = drain_ok o id start v e in
        let o₁ : Orchestrator W = (scale_down_drain o id start).0 in
        let k_tracked : get_node o₁.nodes id ≡ some k = doomed_k.tracked in
        let removed = get_node-remove_node o₁.nodes id in
        let counted =
          active_count-remove_node o₁.nodes id k doomed_k.well_formed k_tracked doomed_k.state in
        (n, guards, ground arith)
  ]

  -- From a well-formed node manager: if `ScaleDown` fails, either it has changed no node, nothing
  -- outside the process and no start of a cooldown; or the provider's call has failed, and then the
  -- node is still tracked, in `destroying`, no cooldown starts, and the gauge of nodes is exact.
  pub scale_down_err :
      (start now : ℕ)
      → IsWellFormed o.nodes
      → {x : ScaleError} → (scale_down cloud disk o id start now).1 ≡ err x
      → Refused o id start (scale_down cloud disk o id start now).0
        ⊎ (((e : String) × ((cloud.destroy_node o.world id).1 ≡ some e))
            × NotDestroyed (scale_down cloud disk o id start now).0)
  unfolding scale_down scale_down_destroy
  scale_down_err start now v h = elim (Result-cases (scale_down_drain o id start).1) [
    | inr (x, e) ↦ let refused = drain_err o id start v e in inl (ground arith)
    | inl (a, e) ↦
        let (n, k, guards, doomed_k, active) = drain_ok o id start v e in
        elim (Option-cases (cloud.destroy_node o.world id).1) [
          | inl d ↦ absurd (ground arith)
          | inr (m, d) ↦ inr (
            (m, d),
            record {
              node = k;
              tracked = ground arith;
              state = ground arith;
              world = ground arith;
              last_scale_event = ground arith;
              gauge = ground arith;
            },
          )
        ]
  ]
