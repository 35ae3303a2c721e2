-- ===== src/Reconcile/Entries.antt =====
-- What the methods of the node manager keep, the reconciliation of orchestrator/orchestrator.go
-- keeps.
use mathlib.Core.Path.{subst}
use serverless_gpu_linode.Common.{
  ℕ, ◌≡◌, sym, arith, inl, inr, Bool, true, false, ◌||◌, ◌&&◌, not, List, [], ◌∷◌, none,
  Result-cases, Option-cases, if_both, if◌then◌else◌, str_eq,
}
use serverless_gpu_linode.StateMachine.{
  provisioning, ready, Node, NodeManager, same_state, add_node, transition_node, remove_node,
  get_node, set_node_ip, all_nodes,
}
use serverless_gpu_linode.StateMachine.Invariant.{IsWellFormed}
use serverless_gpu_linode.StateMachine.Kept.{Kept, IsWellFormed-Kept}
use serverless_gpu_linode.Cloud.{CloudNode}
use serverless_gpu_linode.Reconcile.{
  is_cloud_node_running, refresh_ip, refresh_state, refresh, sync_node, sync_nodes, seen,
  drop_stale, reconcile_nodes,
}

pub refresh_ip-manager :
    (nm : NodeManager) (node : Node) (cn : CloudNode)
    → (refresh_ip nm node cn).0 ≡ (
        if not (str_eq cn.ipv4 "") && not (str_eq node.ipv4 cn.ipv4)
        then (set_node_ip nm cn.linode_id cn.ipv4).0
        else nm)
refresh_ip-manager nm node cn = ground arith

pub refresh_state-manager :
    (nm : NodeManager) (node : Node) (cn : CloudNode) (now : ℕ)
    → (refresh_state nm node cn now).0 ≡ (
        if is_cloud_node_running cn.status && same_state node.state provisioning
        then (transition_node nm cn.linode_id ready now).0
        else nm)
refresh_state-manager nm node cn now = ground arith

-- What the two methods that a refresh calls keep, it keeps.
pub refresh_keeps {ℓ} :
    (P : NodeManager → Type ℓ) (cn : CloudNode) (now : ℕ)
    → ((m : NodeManager) → P m → P (set_node_ip m cn.linode_id cn.ipv4).0)
    → ((m : NodeManager) → P m → P (transition_node m cn.linode_id ready now).0)
    → (nm : NodeManager) (node : Node) → P nm
    → P (refresh nm node cn now).0
unfolding refresh
refresh_keeps P cn now ip move nm node p =
    let q = subst P (sym (refresh_ip-manager nm node cn)) (if_both P _ (ip nm p) p) in
    subst P (sym (refresh_state-manager (refresh_ip nm node cn).0 node cn now))
      (if_both P _ (move _ q) q)

-- What the methods that a step of the first loop calls keep, the step keeps.
pub sync_node_keeps {ℓ} :
    (P : NodeManager → Type ℓ) (cn : CloudNode) (now : ℕ)
    → ((m : NodeManager) → P m → P (set_node_ip m cn.linode_id cn.ipv4).0)
    → ((m : NodeManager) → P m → P (transition_node m cn.linode_id ready now).0)
    → (nm : NodeManager)
    → (get_node nm cn.linode_id ≡ none → P (add_node nm cn.linode_id cn.label now).0)
    → P nm
    → P (sync_node nm cn now).0
unfolding sync_node
sync_node_keeps P cn now ip move nm add p = elim (Option-cases (get_node nm cn.linode_id)) [
  | inr (node, e) ↦ rw (e, sync_node) (refresh_keeps P cn now ip move nm node p)
  | inl e ↦ elim (Result-cases (add_node nm cn.linode_id cn.label now).1) [
    | inr (x, h) ↦ rw (e, sync_node, h) (add e)
    | inl (node, h) ↦ rw (e, sync_node, h) (refresh_keeps P cn now ip move _ node (add e))
  ]
]

module _ (P : NodeManager → Type 0) (kept : Kept P) where
  pub sync_nodes_keeps :
      (nm : NodeManager) (changed : Bool) (cns : List CloudNode) (now : ℕ)
      → P nm
      → P (sync_nodes nm changed cns now).0
  unfolding sync_nodes
  sync_nodes_keeps nm changed [] now v = v
  sync_nodes_keeps nm changed (cn ∷ rest) now v =
      sync_nodes_keeps (sync_node nm cn now).0 (changed || (sync_node nm cn now).1) rest now (
        sync_node_keeps P cn now (λ m u. kept.set_ip m cn.linode_id cn.ipv4 u)
          (λ m u. kept.transition m cn.linode_id ready now (λ e. cc) u) nm
          (λ _. kept.add nm cn.linode_id cn.label now v) v)

  pub drop_stale_keeps :
      (cns : List CloudNode) (nm : NodeManager) (changed : Bool) (ns : List Node)
      → P nm
      → P (drop_stale cns nm changed ns).0
  unfolding drop_stale
  drop_stale_keeps cns nm changed [] v = v
  drop_stale_keeps cns nm changed (n ∷ rest) v =
      let keep = seen cns n.linode_id || same_state n.state provisioning in
      drop_stale_keeps cns (if keep then nm else remove_node nm n.linode_id)
        (if keep then changed else true) rest (if_both P keep v (kept.remove nm n.linode_id v))

  pub reconcile_nodes_keeps :
      (nm : NodeManager) (cns : List CloudNode) (now : ℕ) → P nm → P (reconcile_nodes nm cns now).0
  unfolding reconcile_nodes
  reconcile_nodes_keeps nm cns now v =
      drop_stale_keeps cns (sync_nodes nm false cns now).0 (sync_nodes nm false cns now).1
        (all_nodes (sync_nodes nm false cns now).0) (sync_nodes_keeps nm false cns now v)

pub sync_nodes-IsWellFormed :
    (nm : NodeManager) (changed : Bool) (cns : List CloudNode) (now : ℕ)
    → IsWellFormed nm
    → IsWellFormed (sync_nodes nm changed cns now).0
sync_nodes-IsWellFormed nm changed cns now v =
    sync_nodes_keeps IsWellFormed IsWellFormed-Kept nm changed cns now v

-- Reconciling with any list of the provider keeps the node manager well formed.
pub reconcile_nodes-IsWellFormed :
    (nm : NodeManager) (cns : List CloudNode) (now : ℕ)
    → IsWellFormed nm
    → IsWellFormed (reconcile_nodes nm cns now).0
reconcile_nodes-IsWellFormed nm cns now v =
    reconcile_nodes_keeps IsWellFormed IsWellFormed-Kept nm cns now v
