-- ===== src/Monitor/Instances/Tracked.antt =====
-- Which nodes are tracked, and tracked as provisioning, after each method of the node manager
-- (orchestrator/statemachine.go) that the goroutines and the reconciliation call.
use serverless_gpu_linode.Common.Assoc.{lookup-insert, lookup-remove}
use serverless_gpu_linode.Common.{
  ℕ, ◌≡◌, refl, inl, inr, String, Bool, true, false, ◌||◌, List, none, Result, ok, err, arith,
  Option-cases, Bool-cases, ◌==◌, if◌then◌else◌,
}
use serverless_gpu_linode.StateMachine.{
  NodeState, NodeError, Node, draining, NodeManager, fresh_node, add_node, remove_node, get_node,
  transition_node, stay, enter, set_node_ip, valid_transitions,
}
use serverless_gpu_linode.StateMachine.Invariant.{IsWellFormed}
use serverless_gpu_linode.StateMachine.Lookup.{transition_cases, set_node_ip_cases}
use serverless_gpu_linode.Cloud.{CloudNode}
use serverless_gpu_linode.Reconcile.{seen, reconcile_nodes}
use serverless_gpu_linode.Reconcile.Synced.{reconcile_nodes_listed, reconcile_nodes_unlisted}
use serverless_gpu_linode.Monitor.Instances.{is_tracked, is_booting}

abbrev pub is_added : Result NodeError Node → Bool
is_added (ok n) = true
is_added (err e) = false

-- A node that is added is provisioning; the others are what they were.
pub is_tracked-add_node :
    (nm : NodeManager) (id j : ℕ) (label : String) (now : ℕ)
    → is_tracked (add_node nm id label now).0 j ≡ (
        if is_added (add_node nm id label now).1
        then (id == j) || is_tracked nm j
        else is_tracked nm j)
unfolding add_node is_tracked get_node
is_tracked-add_node nm id j label now =
    ground (arith, lookup-insert j id (fresh_node id label now) nm.nodes)

pub is_booting-add_node :
    (nm : NodeManager) (id j : ℕ) (label : String) (now : ℕ)
    → is_booting (add_node nm id label now).0 j ≡ (
        if is_added (add_node nm id label now).1
        then (id == j) || is_booting nm j
        else is_booting nm j)
unfolding add_node is_booting get_node
is_booting-add_node nm id j label now =
    ground (arith, lookup-insert j id (fresh_node id label now) nm.nodes)

pub is_tracked-transition_node :
    (nm : NodeManager) (id j : ℕ) (to : NodeState) (now : ℕ)
    → is_tracked (transition_node nm id to now).0 j ≡ is_tracked nm j
unfolding is_tracked get_node
is_tracked-transition_node nm id j to now =
    transition_cases (λ m. is_tracked m j ≡ is_tracked nm j) nm id to now refl
      (λ n e _. ground (arith, lookup-insert j id (stay n to now) nm.nodes))
      (λ n e _. ground (arith, lookup-insert j id (enter n to now) nm.nodes))

pub is_tracked-set_node_ip :
    (nm : NodeManager) (id j : ℕ) (ip : String)
    → is_tracked (set_node_ip nm id ip).0 j ≡ is_tracked nm j
unfolding set_node_ip is_tracked get_node
is_tracked-set_node_ip nm id j ip =
    set_node_ip_cases (λ m. is_tracked m j ≡ is_tracked nm j) nm id ip refl
      (λ n e. ground (arith, lookup-insert j id (record n { ipv4 = ip }) nm.nodes))

pub is_booting-set_node_ip :
    (nm : NodeManager) (id j : ℕ) (ip : String)
    → is_booting (set_node_ip nm id ip).0 j ≡ is_booting nm j
unfolding is_booting get_node
is_booting-set_node_ip nm id j ip =
    set_node_ip_cases (λ m. is_booting m j ≡ is_booting nm j) nm id ip refl
      (λ n e. ground (arith, lookup-insert j id (record n { ipv4 = ip }) nm.nodes))

-- A transition of another node, or one to `draining`, leaves what is provisioning.
pub is_booting-transition_node :
    (nm : NodeManager) (id j : ℕ) (to : NodeState) (now : ℕ)
    → (id == j) ≡ false
    → is_booting (transition_node nm id to now).0 j ≡ is_booting nm j
unfolding is_booting get_node
is_booting-transition_node nm id j to now other =
    transition_cases (λ m. is_booting m j ≡ is_booting nm j) nm id to now refl
      (λ n e _. ground (arith, lookup-insert j id (stay n to now) nm.nodes))
      (λ n e _. ground (arith, lookup-insert j id (enter n to now) nm.nodes))

pub is_booting-drain :
    (nm : NodeManager) (id j now : ℕ)
    → is_booting (transition_node nm id draining now).0 j ≡ is_booting nm j
unfolding is_booting get_node valid_transitions
is_booting-drain nm id j now =
    transition_cases (λ m. is_booting m j ≡ is_booting nm j) nm id draining now refl
      (λ n e a. ground (arith, lookup-insert j id (stay n draining now) nm.nodes))
      (λ n e a. ground (arith, lookup-insert j id (enter n draining now) nm.nodes))

-- One that is drained is not provisioning.
pub is_booting-drained :
    (nm : NodeManager) (id now : ℕ)
    → (transition_node nm id draining now).1 ≡ none
    → is_booting nm id ≡ false
unfolding is_booting get_node transition_node valid_transitions
is_booting-drained nm id now h = ground arith

pub is_tracked-remove_node :
    (nm : NodeManager) (id j : ℕ)
    → is_tracked (remove_node nm id) j ≡ (if id == j then false else is_tracked nm j)
unfolding is_tracked get_node remove_node
is_tracked-remove_node nm id j = ground (arith, lookup-remove j id nm.nodes)

pub is_booting-remove_node :
    (nm : NodeManager) (id j : ℕ)
    → is_booting (remove_node nm id) j ≡ (if id == j then false else is_booting nm j)
unfolding is_booting get_node remove_node
is_booting-remove_node nm id j = ground (arith, lookup-remove j id nm.nodes)

pub is_tracked-reconcile_nodes :
    (nm : NodeManager) (cns : List CloudNode) (now j : ℕ)
    → IsWellFormed nm
    → is_tracked nm j ≡ true
    → (seen cns j || is_booting nm j) ≡ true
    → is_tracked (reconcile_nodes nm cns now).0 j ≡ true
unfolding is_tracked is_booting
is_tracked-reconcile_nodes nm cns now j v t s = elim (Option-cases (get_node nm j)) [
  | inl e ↦ absurd (ground arith)
  | inr (n, e) ↦ elim (Bool-cases (seen cns j)) [
    | inl h ↦ let (m, found, _) = reconcile_nodes_listed nm cns now j n e h in ground (arith, found)
    | inr h ↦ let kept = reconcile_nodes_unlisted nm cns now j v h in ground (arith, kept)
  ]
]
