-- ===== src/Scaler/Actions/Wait.antt =====
-- What `waitForNodeReady` of orchestrator/scaler.go does on each of its branches.
use mathlib.Core.Path.{subst}
use serverless_gpu_linode.StateMachine.Lookup.{
  get_node-remove_node, get_node-remove_node_ne, get_node-transition_node_ne,
  get_node-set_node_ip_ne,
}
use serverless_gpu_linode.Common.Assoc.{insert, lookup-insert}
use serverless_gpu_linode.StateMachine.Updates.{moved}
use serverless_gpu_linode.Common.{
  ℕ, ◌≡◌, ◌≢◌, ◌∙◌, ap, sym, refl, inl, inr, String, Bool, true, false, Option, none, some, ok, err,
  arith, Option-cases, if◌then◌else◌,
}
use serverless_gpu_linode.StateMachine.{
  ready, draining, destroying, provisioning, NodeState, Node, NodeManager, transition_node,
  get_node, set_node_ip, active_count, valid_transitions, stay, enter,
}
use serverless_gpu_linode.Cloud.{CloudProvider}
use serverless_gpu_linode.Metrics.{update_node_counts}
use serverless_gpu_linode.Discovery.{Disk}
use serverless_gpu_linode.Orchestrator.{Orchestrator}
use serverless_gpu_linode.Scaler.Actions.{wait_finish, wait_running}

-- `provisioning` and `ready` lead to `ready`.
abbrev pub allows_ready : NodeState → Bool
allows_ready provisioning = true
allows_ready ready = true
allows_ready draining = false
allows_ready destroying = false

module _ {W : Type 0} (cloud : CloudProvider W) (disk : Disk W) where
  -- If the provider does not report the node running in time, it is asked to destroy the instance,
  -- and the node is no longer tracked, whatever happened to it meanwhile; no other node changes, and
  -- the gauge of nodes is exact.
  pub wait_finish_failed :
      (o : Orchestrator W) (id created_at now : ℕ) (e : String) (j : ℕ)
      → j ≢ id
      → let o' = wait_finish cloud disk o id created_at (err e) now in
        (get_node o'.nodes id ≡ none)
        × (get_node o'.nodes j ≡ get_node o.nodes j)
        × (o'.world ≡ (cloud.destroy_node o.world id).0)
        × (o'.metrics.node_count ≡ active_count o'.nodes)
  unfolding wait_finish update_node_counts
  wait_finish_failed o id created_at now e j other = (
    get_node-remove_node _ id,
    get_node-remove_node_ne _ id j other
        ∙ get_node-transition_node_ne o.nodes id j other destroying now,
    refl,
    refl,
  )

  -- What is left of the entry of the node that came up.
  abbrev pub Arrived : Option Node → Option Node → String → Type 0
  Arrived none after ip = after ≡ none
  Arrived (some n) after ip =
      (m : Node) × (after ≡ some m)
      × (m.ipv4 ≡ ip)
      × (m.drain_locked ≡ n.drain_locked)
      × (m.state ≡ (if allows_ready n.state then ready else n.state))

  -- What the wait does to the node manager.
  abbrev arrive : NodeManager → ℕ → String → ℕ → NodeManager
  arrive nm id ip now = (transition_node (set_node_ip nm id ip).0 id ready now).0

  wait_running-nodes :
      (o : Orchestrator W) (id created_at now : ℕ) (ip : String)
      → ((wait_running cloud disk o id created_at ip now).nodes ≡ arrive o.nodes id ip now)
        × ((wait_running cloud disk o id created_at ip now).last_scale_event ≡ o.last_scale_event)
  unfolding wait_running set_node_ip transition_node
  wait_running-nodes o id created_at now ip = ground arith

  -- The entry of a node that was there.
  abbrev landed : Node → String → ℕ → Node
  landed n ip now =
      let m : Node = record n { ipv4 = ip } in if allows_ready n.state then moved m ready now else m

  arrive_missing :
      (nm : NodeManager) (id now : ℕ) (ip : String)
      → get_node nm id ≡ none
      → get_node (arrive nm id ip now) id ≡ none
  unfolding set_node_ip transition_node get_node
  arrive_missing nm id now ip e = ground arith

  arrive_found :
      (nm : NodeManager) (id now : ℕ) (ip : String) (n : Node)
      → get_node nm id ≡ some n
      → get_node (arrive nm id ip now) id ≡ some (landed n ip now)
  unfolding set_node_ip transition_node get_node valid_transitions
  arrive_found nm id now ip n e =
      let new : Node = record n { ipv4 = ip } in
      ground (
        arith,
        lookup-insert id id new nm.nodes,
        lookup-insert id id (stay new ready now) (insert id new nm.nodes),
        lookup-insert id id (enter new ready now) (insert id new nm.nodes),
      )

  landed-Arrived : (n : Node) (ip : String) (now : ℕ) → Arrived (some n) (some (landed n ip now)) ip
  landed-Arrived n ip now = (landed n ip now, refl, ground arith, ground arith, ground arith)

  arrive-Arrived :
      (nm : NodeManager) (id now : ℕ) (ip : String)
      → Arrived (get_node nm id) (get_node (arrive nm id ip now) id) ip
  arrive-Arrived nm id now ip = elim (Option-cases (get_node nm id)) [
    | inl e ↦ rw (e, arrive_missing nm id now ip e) refl
    | inr (n, e) ↦ rw (e, arrive_found nm id now ip n e) (landed-Arrived n ip now)
  ]

  -- When the provider reports the node running at an address: a provisioning or ready entry is ready
  -- at this address, one that is draining or destroying gets the address and keeps its state, and
  -- one that is gone stays gone; the drain lock, the other nodes and the cooldown do not change.
  pub wait_finish_running :
      (o : Orchestrator W) (id created_at now : ℕ) (ip : String) (j : ℕ)
      → j ≢ id
      → let o' = wait_finish cloud disk o id created_at (ok ip) now in
        Arrived (get_node o.nodes id) (get_node o'.nodes id) ip
        × (get_node o'.nodes j ≡ get_node o.nodes j)
        × (o'.last_scale_event ≡ o.last_scale_event)
  unfolding wait_finish
  wait_finish_running o id created_at now ip j other =
      let (nodes, last) = wait_running-nodes o id created_at now ip in
      (
        subst (λ m. Arrived (get_node o.nodes id) (get_node m id) ip) (sym nodes)
            (arrive-Arrived o.nodes id now ip),
        ap (λ m. get_node m j) nodes
            ∙ (get_node-transition_node_ne (set_node_ip o.nodes id ip).0 id j other ready now
                ∙ get_node-set_node_ip_ne o.nodes id j other ip),
        last,
      )
