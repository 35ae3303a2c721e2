-- ===== src/Reconcile.antt =====
-- orchestrator/orchestrator.go, `reconcileWithCloud`: the tracked nodes follow the provider's list.
-- `node`, a pointer into the map, is the entry as the loop's body finds it: of its fields only the
-- address and the state are read, and the state is not written before it is read.
pub mod Entries
pub mod Synced
pub mod Alike
use serverless_gpu_linode.Common.{
  ℕ, String, Bool, true, false, not, ◌&&◌, ◌||◌, List, [], ◌∷◌, map, Option, none, some, Result, ok,
  err, ◌==◌, if◌then◌else◌, str_eq, any,
}
use serverless_gpu_linode.StateMachine.{
  provisioning, ready, Node, NodeManager, same_state, add_node, transition_node, remove_node,
  get_node, set_node_ip, all_nodes,
}
use serverless_gpu_linode.Cloud.{CloudNode, CloudProvider}
use serverless_gpu_linode.Discovery.{Disk}
use serverless_gpu_linode.Orchestrator.{Orchestrator}
use serverless_gpu_linode.Scaler.Actions.{count_nodes, write_targets}

abbrev pub is_cloud_node_running : String → Bool
is_cloud_node_running status = str_eq status "running"

-- An address that the provider gives, and that differs from the node's, is taken over.
abbrev pub refresh_ip : NodeManager → Node → CloudNode → NodeManager × Bool
refresh_ip nm node cn =
    if not (str_eq cn.ipv4 "") && not (str_eq node.ipv4 cn.ipv4)
    then (let (nm', r) = set_node_ip nm cn.linode_id cn.ipv4 in
        elim r [ some e ↦ (nm', false) | none ↦ (nm', true) ])
    else (nm, false)

-- A provisioning node that the provider reports as running becomes ready.
abbrev pub refresh_state : NodeManager → Node → CloudNode → ℕ → NodeManager × Bool
refresh_state nm node cn now =
    if is_cloud_node_running cn.status && same_state node.state provisioning
    then (let (nm', r) = transition_node nm cn.linode_id ready now in
        elim r [ some e ↦ (nm', false) | none ↦ (nm', true) ])
    else (nm, false)

-- The body of the first loop for a node that is tracked, new or old; the Boolean says whether
-- something changed.
unfoldable pub refresh : NodeManager → Node → CloudNode → ℕ → NodeManager × Bool
refresh nm node cn now =
    let (nm₁, moved) = refresh_ip nm node cn in
    let (nm₂, started) = refresh_state nm₁ node cn now in (nm₂, moved || started)

-- The body of the first loop.
unfoldable pub sync_node : NodeManager → CloudNode → ℕ → NodeManager × Bool
unfolding refresh
sync_node nm cn now = elim (get_node nm cn.linode_id) [
  | some node ↦ refresh nm node cn now
  | none ↦
      let (nm', r) = add_node nm cn.linode_id cn.label now in
      elim r [ err e ↦ (nm', false) | ok node ↦ ((refresh nm' node cn now).0, true) ]
]

unfoldable pub sync_nodes : NodeManager → Bool → List CloudNode → ℕ → NodeManager × Bool
sync_nodes nm changed [] now = (nm, changed)
sync_nodes nm changed (cn ∷ rest) now =
    let (nm', c) = sync_node nm cn now in sync_nodes nm' (changed || c) rest now

abbrev pub seen : List CloudNode → ℕ → Bool
seen cloud_nodes id = any (λ cn. cn.linode_id == id) cloud_nodes

-- The second loop, over the snapshot of the tracked nodes.
unfoldable pub drop_stale : List CloudNode → NodeManager → Bool → List Node → NodeManager × Bool
drop_stale cloud_nodes nm changed [] = (nm, changed)
drop_stale cloud_nodes nm changed (n ∷ rest) =
    let keep = seen cloud_nodes n.linode_id || same_state n.state provisioning in
    drop_stale cloud_nodes (if keep then nm else remove_node nm n.linode_id)
      (if keep then changed else true) rest

-- Both loops.
unfoldable pub reconcile_nodes : NodeManager → List CloudNode → ℕ → NodeManager × Bool
unfolding sync_nodes drop_stale all_nodes
reconcile_nodes nm cloud_nodes now =
    let (nm', changed) = sync_nodes nm false cloud_nodes now in
    drop_stale cloud_nodes nm' changed (all_nodes nm')

module _ {W : Type 0} (cloud : CloudProvider W) (disk : Disk W) where
  -- From the provider's answer on.
  unfoldable pub reconcile_listed : Orchestrator W → List CloudNode → ℕ → Orchestrator W
  reconcile_listed o cloud_nodes now =
      let (nm, changed) = reconcile_nodes o.nodes cloud_nodes now in
      let o' : Orchestrator W = record o { nodes = nm } in
      if changed then write_targets cloud disk (count_nodes o') else o'

  -- The answer is the error of the listing.
  unfoldable pub reconcile_with_cloud : Orchestrator W → ℕ → Orchestrator W × Option String
  unfolding reconcile_listed
  reconcile_with_cloud o now =
      let (w, r) = cloud.list_managed_nodes o.world in
      elim r [
        | err e ↦ (record o { world = w }, some e)
        | ok cloud_nodes ↦ (reconcile_listed (record o { world = w }) cloud_nodes now, none)
      ]
