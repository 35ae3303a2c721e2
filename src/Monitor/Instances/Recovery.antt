-- ===== src/Monitor/Instances/Recovery.antt =====
-- An instance that the orchestrator has lost sight of: the next tick of `monitorLoop`
-- (orchestrator/orchestrator.go) takes it back.
use serverless_gpu_linode.Common.Assoc.{length-insert_new, length-insert_old}
use serverless_gpu_linode.Common.{
  ℕ, suc, String, ◌+◌, ◌≤◌, ◌≡◌, ◌∙◌, inl, inr, Bool, true, false, ◌||◌, List, [], ◌∷◌, none, some,
  ok, length, count_if, not, arith, any, ◌==◌, ==_iff, Option-cases, Bool-cases, Result-cases,
}
use serverless_gpu_linode.StateMachine.{
  ready, Node, NodeState, NodeManager, stay, enter, get_node, add_node, transition_node,
  set_node_ip, fresh_node, all_nodes,
}
use serverless_gpu_linode.StateMachine.Lookup.{transition_cases, set_node_ip_cases}
use serverless_gpu_linode.Cloud.{CloudNode, CloudProvider}
use serverless_gpu_linode.Reconcile.{sync_node, sync_nodes, seen, reconcile_nodes, reconcile_listed}
use serverless_gpu_linode.Reconcile.Entries.{refresh_keeps, sync_node_keeps}
use serverless_gpu_linode.Reconcile.Synced.{get_node-drop_stale, listed-stale}
use serverless_gpu_linode.Discovery.{Disk}
use serverless_gpu_linode.JetStream.{JetStream}
use serverless_gpu_linode.Monitor.{System, selecting, loops, turn, monitor, run_turns}
use serverless_gpu_linode.Monitor.Instances.{Lifetime, live, is_tracked, Provides}
use serverless_gpu_linode.Monitor.Instances.Tracked.{
  is_added, is_tracked-add_node, is_tracked-set_node_ip, is_tracked-transition_node,
}

is_tracked-found :
    (nm : NodeManager) (id : ℕ) {n : Node} → get_node nm id ≡ some n → is_tracked nm id ≡ true
unfolding is_tracked
is_tracked-found nm id e = ground arith

-- What is tracked stays so in the first loop.
sync_node-keeps_tracked :
    (nm : NodeManager) (cn : CloudNode) (now j : ℕ)
    → is_tracked nm j ≡ true
    → is_tracked (sync_node nm cn now).0 j ≡ true
sync_node-keeps_tracked nm cn now j t =
    sync_node_keeps (λ m. is_tracked m j ≡ true) cn now
      (λ m p. is_tracked-set_node_ip m cn.linode_id j cn.ipv4 ∙ p)
      (λ m p. is_tracked-transition_node m cn.linode_id j ready now ∙ p) nm
      (λ _. ground (arith, is_tracked-add_node nm cn.linode_id j cn.label now)) t

-- The room that is left.
abbrev HasRoom : ℕ → NodeManager → Type 0
HasRoom n nm = length nm.nodes + n ≤ nm.max_nodes

set_node_ip-HasRoom :
    (m : NodeManager) (id n : ℕ) (ip : String) → HasRoom n m → HasRoom n (set_node_ip m id ip).0
set_node_ip-HasRoom m id n ip r =
    set_node_ip_cases (HasRoom n) m id ip r
      (λ k e. omega (arith, r, length-insert_old id (record k { ipv4 = ip }) k m.nodes e))

transition_node-HasRoom :
    (m : NodeManager) (id n : ℕ) (to : NodeState) (now : ℕ)
    → HasRoom n m
    → HasRoom n (transition_node m id to now).0
transition_node-HasRoom m id n to now r =
    transition_cases (HasRoom n) m id to now r
      (λ k e _. omega (arith, r, length-insert_old id (stay k to now) k m.nodes e))
      (λ k e _. omega (arith, r, length-insert_old id (enter k to now) k m.nodes e))

add_node-HasRoom :
    (m : NodeManager) (id n : ℕ) (label : String) (now : ℕ)
    → HasRoom (suc n) m
    → HasRoom n (add_node m id label now).0
unfolding add_node
add_node-HasRoom m id n label now r =
    ground (arith, r, length-insert_new id (fresh_node id label now) m.nodes)

-- A step for one listing takes up one place at most.
sync_node-HasRoom :
    (nm : NodeManager) (cn : CloudNode) (now n : ℕ)
    → HasRoom (suc n) nm
    → HasRoom n (sync_node nm cn now).0
sync_node-HasRoom nm cn now n r =
    sync_node_keeps (HasRoom n) cn now (λ m p. set_node_ip-HasRoom m cn.linode_id n cn.ipv4 p)
      (λ m p. transition_node-HasRoom m cn.linode_id n ready now p) nm
      (λ _. add_node-HasRoom nm cn.linode_id n cn.label now r) (omega (arith, r))

-- With room, the node of the listing is tracked after the step.
add_node_fits :
    (nm : NodeManager) (id n : ℕ) (label : String) (now : ℕ)
    → HasRoom (suc n) nm
    → get_node nm id ≡ none
    → is_added (add_node nm id label now).1 ≡ true
unfolding add_node get_node
add_node_fits nm id n label now r e = ground (arith, r)

-- The listings of nodes that are not tracked.
unfoldable pub count_new : NodeManager → List CloudNode → ℕ
count_new nm cns = count_if (λ cn. not (is_tracked nm cn.linode_id)) cns

count_new-le :
    (nm nm' : NodeManager) (cns : List CloudNode)
    → ((j : ℕ) → is_tracked nm j ≡ true → is_tracked nm' j ≡ true)
    → count_new nm' cns ≤ count_new nm cns
unfolding count_new count_if
count_new-le nm nm' [] more = omega arith
count_new-le nm nm' (cn ∷ rest) more = elim (Bool-cases (is_tracked nm cn.linode_id)) [
  | inl t ↦ ground (arith, count_new-le nm nm' rest more, more cn.linode_id t)
  | inr f ↦ ground (arith, count_new-le nm nm' rest more)
]

is_tracked-missing : (nm : NodeManager) (id : ℕ) → get_node nm id ≡ none → is_tracked nm id ≡ false
unfolding is_tracked
is_tracked-missing nm id e = ground arith

sync_node-adopts :
    (nm : NodeManager) (cn : CloudNode) (rest : List CloudNode) (now : ℕ)
    → HasRoom (count_new nm (cn ∷ rest)) nm
    → is_tracked (sync_node nm cn now).0 cn.linode_id ≡ true
unfolding sync_node count_new count_if
sync_node-adopts nm cn rest now r =
    let id = cn.linode_id in
    elim (Option-cases (get_node nm id)) [
      | inr (node, e) ↦ sync_node-keeps_tracked nm cn now id (is_tracked-found nm id e)
      | inl e ↦
          let missing = is_tracked-missing nm id e in
          let fits = add_node_fits nm id (count_new nm rest) cn.label now (ground arith) e in
          elim (Result-cases (add_node nm id cn.label now).1) [
            | inr (x, h) ↦ absurd (ground arith)
            | inl (node, h) ↦
                let added = is_tracked-add_node nm id id cn.label now in
                rw (sync_node, e, h)
                  (refresh_keeps (λ m. is_tracked m id ≡ true) cn now
                    (λ m p. is_tracked-set_node_ip m id id cn.ipv4 ∙ p)
                    (λ m p. is_tracked-transition_node m id id ready now ∙ p)
                    (add_node nm id cn.label now).0 node (ground (arith, added)))
          ]
    ]

-- There is room for the rest after the step.
sync_node-leaves_room :
    (nm : NodeManager) (cn : CloudNode) (rest : List CloudNode) (now : ℕ)
    → HasRoom (count_new nm (cn ∷ rest)) nm
    → HasRoom (count_new (sync_node nm cn now).0 rest) (sync_node nm cn now).0
unfolding count_new count_if
sync_node-leaves_room nm cn rest now r =
    let id = cn.linode_id in
    let n = count_new nm rest in
    let fewer = count_new-le nm (sync_node nm cn now).0 rest (sync_node-keeps_tracked nm cn now) in
    let room : HasRoom n (sync_node nm cn now).0 = elim (Bool-cases (is_tracked nm id)) [
      | inl t ↦
          sync_node_keeps (HasRoom n) cn now (λ m p. set_node_ip-HasRoom m id n cn.ipv4 p)
            (λ m p. transition_node-HasRoom m id n ready now p) nm
            (λ e. absurd (ground (arith, is_tracked-missing nm id e))) (ground arith)
      | inr f ↦ sync_node-HasRoom nm cn now n (ground arith)
    ] in
    omega (arith, fewer, room)

sync_nodes-keeps_tracked :
    (nm : NodeManager) (changed : Bool) (cns : List CloudNode) (now j : ℕ)
    → is_tracked nm j ≡ true
    → is_tracked (sync_nodes nm changed cns now).0 j ≡ true
unfolding sync_nodes
sync_nodes-keeps_tracked nm changed [] now j t = t
sync_nodes-keeps_tracked nm changed (cn ∷ rest) now j t =
    sync_nodes-keeps_tracked (sync_node nm cn now).0 (changed || (sync_node nm cn now).1) rest now j
      (sync_node-keeps_tracked nm cn now j t)

sync_nodes-adopts :
    (nm : NodeManager) (changed : Bool) (cns : List CloudNode) (now j : ℕ)
    → HasRoom (count_new nm cns) nm
    → seen cns j ≡ true
    → is_tracked (sync_nodes nm changed cns now).0 j ≡ true
unfolding sync_nodes any
sync_nodes-adopts nm changed [] now j r h = absurd (cc)
sync_nodes-adopts nm changed (cn ∷ rest) now j r h = elim (Bool-cases (cn.linode_id == j)) [
  | inl own ↦
      let id : cn.linode_id ≡ j = (==_iff cn.linode_id j).0 own in
      let here = sync_node-adopts nm cn rest now r in
      sync_nodes-keeps_tracked (sync_node nm cn now).0 (changed || (sync_node nm cn now).1) rest now
        j (rw (← id) here)
  | inr other ↦
      sync_nodes-adopts (sync_node nm cn now).0 (changed || (sync_node nm cn now).1) rest now j
        (sync_node-leaves_room nm cn rest now r) (ground arith)
]

-- The second loop leaves what is listed.
pub reconcile_nodes-adopts :
    (nm : NodeManager) (cns : List CloudNode) (now j : ℕ)
    → HasRoom (count_new nm cns) nm
    → seen cns j ≡ true
    → is_tracked (reconcile_nodes nm cns now).0 j ≡ true
unfolding reconcile_nodes is_tracked
reconcile_nodes-adopts nm cns now j r h =
    let tracked = sync_nodes-adopts nm false cns now j r h in
    let kept =
      get_node-drop_stale cns (sync_nodes nm false cns now).0 (sync_nodes nm false cns now).1
        (all_nodes (sync_nodes nm false cns now).0) j in
    let listed = listed-stale cns j (all_nodes (sync_nodes nm false cns now).0) h in
    ground (arith, tracked, kept, listed)

module _ {W : Type 0} (cloud : CloudProvider W) (disk : Disk W) (js : JetStream W)
    (lifetime : W → ℕ → Lifetime) (law : Provides cloud lifetime) where
  -- Whatever has happened before: if the loop is at its `select`, the provider's list has every live
  -- instance and can be fetched, and the cap has room for the listed instances that are not tracked, then
  -- a tick that is not interrupted has the loop track every instance that was live at its start, so
  -- that one that had been lost sight of is taken back.
  pub tick_recovers :
      (s : System W) (t₁ t₂ j : ℕ) (cloud_nodes : List CloudNode)
      → s.phase ≡ selecting
      → (cloud.list_managed_nodes s.orchestrator.world).1 ≡ ok cloud_nodes
      → length s.orchestrator.nodes.nodes + count_new s.orchestrator.nodes cloud_nodes
        ≤ s.orchestrator.nodes.max_nodes
      → lifetime s.orchestrator.world j ≡ live
      → is_tracked (run_turns cloud disk js s (loops t₁ ∷ loops t₂ ∷ [])).orchestrator.nodes j
        ≡ true
  unfolding run_turns turn monitor reconcile_listed
  tick_recovers s t₁ t₂ j cloud_nodes at_select listing room alive =
      let here = law.lists_live s.orchestrator.world j cloud_nodes listing alive in
      let adopted = reconcile_nodes-adopts s.orchestrator.nodes cloud_nodes t₂ j room here in
      ground (arith, adopted)
