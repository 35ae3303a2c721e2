-- ===== src/Monitor/Settled.antt =====
-- One node that is tracked as the provider knows it, ready: what reconciling with it
-- (orchestrator/orchestrator.go), choosing it and moving it (orchestrator/statemachine.go) give.
use serverless_gpu_linode.Common.Assoc.{lookup}
use serverless_gpu_linode.Common.{ℕ, ◌≡◌, true, false, [], ◌∷◌, none, some, arith, str_eq_iff, any}
use serverless_gpu_linode.StateMachine.{
  ready, draining, destroying, valid_transitions, Node, NodeManager, get_node, transition_node,
  active_count, ready_count, all_nodes, nodes_by_state,
}
use serverless_gpu_linode.Cloud.{CloudNode}
use serverless_gpu_linode.Reconcile.{
  reconcile_nodes, sync_nodes, sync_node, refresh, seen, drop_stale,
}
use serverless_gpu_linode.Scaler.{pick_scale_down_target}
use serverless_gpu_linode.Monitor.ColdStart.{one}

module _ (cn : CloudNode) where
  -- The node as it is tracked: ready at the address that the provider knows.
  pub record IsSettled (n : Node) : Type 0 where
    pub under_id : n.linode_id ≡ cn.linode_id
    pub at_ip : n.ipv4 ≡ cn.ipv4
    pub is_ready : n.state ≡ ready
    pub unlocked : n.drain_locked ≡ false

  refreshed :
      (nm : NodeManager) (n : Node) (now : ℕ) → IsSettled n → refresh nm n cn now ≡ (nm, false)
  unfolding refresh
  refreshed nm n now w = ground (arith, w, str_eq_iff n.ipv4 cn.ipv4)

  pub found : (top : ℕ) (n : Node) → get_node (one top cn.linode_id n) cn.linode_id ≡ some n
  unfolding get_node lookup
  found top n = ground arith

  synced :
      (top : ℕ) (n : Node) (now : ℕ)
      → IsSettled n
      → sync_node (one top cn.linode_id n) cn now ≡ (one top cn.linode_id n, false)
  unfolding sync_node
  synced top n now w =
      let f = found top n in
      let r = refreshed (one top cn.linode_id n) n now w in ground (arith, f, r)

  listed_one : (n : Node) → IsSettled n → seen (cn ∷ []) n.linode_id ≡ true
  unfolding any
  listed_one n w = ground (arith, w.under_id)

  pub reconciled_one :
      (top : ℕ) (n : Node) (now : ℕ)
      → IsSettled n
      → reconcile_nodes (one top cn.linode_id n) (cn ∷ []) now ≡ (one top cn.linode_id n, false)
  unfolding reconcile_nodes sync_nodes drop_stale all_nodes
  reconciled_one top n now w = rw (synced top n now w) (ground (arith, listed_one n w))

  pub targets :
      (top : ℕ) (n : Node)
      → IsSettled n
      → pick_scale_down_target (nodes_by_state (one top cn.linode_id n) ready) ≡ cn.linode_id
  unfolding pick_scale_down_target nodes_by_state all_nodes
  targets top n w = ground (arith, w)

  pub actives : (top : ℕ) (n : Node) → IsSettled n → active_count (one top cn.linode_id n) ≡ 1
  unfolding active_count all_nodes
  actives top n w = ground (arith, w)

  pub all_are_ready : (top : ℕ) (n : Node) → IsSettled n → ready_count (one top cn.linode_id n) ≡ 1
  unfolding ready_count all_nodes
  all_are_ready top n w = ground (arith, w)

  -- The node that is being destroyed.
  abbrev pub leaving : Node → Node
  leaving n = record n { state = destroying }

  pub enters_draining :
      (top : ℕ) (n : Node) (now : ℕ)
      → n.state ≡ ready
      → transition_node (one top cn.linode_id n) cn.linode_id draining now
        ≡ (one top cn.linode_id (record n { state = draining }), none)
  unfolding transition_node valid_transitions
  enters_draining top n now e = ground arith

  pub enters_destroying :
      (top : ℕ) (n : Node) (now : ℕ)
      → n.state ≡ draining
      → transition_node (one top cn.linode_id n) cn.linode_id destroying now
        ≡ (one top cn.linode_id (leaving n), none)
  unfolding transition_node valid_transitions
  enters_destroying top n now e = ground arith
