-- ===== src/StateMachine/Lookup.antt =====
-- What each method of the node manager (orchestrator/statemachine.go) does to the entry of each
-- node: the entry that it names, and every other one.
use serverless_gpu_linode.Common.Assoc.{lookup, insert, lookup-insert, lookup-remove}
use serverless_gpu_linode.Common.{
  ℕ, ◌≡◌, refl, ◌≢◌, inl, inr, String, Bool, true, none, some, ok, err, arith, Option-cases,
  Bool-cases,
}
use serverless_gpu_linode.StateMachine.{
  NodeState, Node, NodeManager, NodeError, valid_transitions, same_state, allows, stay, enter,
  fresh_node, add_node, transition_node, remove_node, get_node, set_node_ip, set_drain_lock,
}

-- A node that was added is found, in the state in which it was registered, and no other entry
-- changes.
pub get_node-add_node :
    (nm : NodeManager) (id j : ℕ) (label : String) (now : ℕ) {n : Node}
    → (add_node nm id label now).1 ≡ ok n
    → (get_node nm id ≡ none)
      × (get_node (add_node nm id label now).0 id ≡ some (fresh_node id label now))
      × (j ≢ id → get_node (add_node nm id label now).0 j ≡ get_node nm j)
unfolding add_node get_node
get_node-add_node nm id j label now h = ground (
  arith,
  lookup-insert id id (fresh_node id label now) nm.nodes,
  lookup-insert j id (fresh_node id label now) nm.nodes,
)

pub add_node_refused :
    (nm : NodeManager) (id : ℕ) (label : String) (now : ℕ) {x : NodeError}
    → (add_node nm id label now).1 ≡ err x
    → (add_node nm id label now).0 ≡ nm
unfolding add_node
add_node_refused nm id label now h = ground arith

-- The node that `AddNode` returns is the one that it registered.
pub add_node_ok :
    (nm : NodeManager) (id : ℕ) (label : String) (now : ℕ) {n : Node}
    → (add_node nm id label now).1 ≡ ok n
    → n ≡ fresh_node id label now
unfolding add_node
add_node_ok nm id label now h = ground arith

pub get_node-remove_node : (nm : NodeManager) (id : ℕ) → get_node (remove_node nm id) id ≡ none
unfolding remove_node get_node
get_node-remove_node nm id = ground (arith, lookup-remove id id nm.nodes)

pub get_node-remove_node_ne :
    (nm : NodeManager) (id j : ℕ) → j ≢ id → get_node (remove_node nm id) j ≡ get_node nm j
unfolding remove_node get_node
get_node-remove_node_ne nm id j h = ground (arith, lookup-remove j id nm.nodes)

-- Each writing method either leaves the manager as it was or writes one entry that it found.
pub transition_cases {ℓ} :
    (P : NodeManager → Type ℓ) (nm : NodeManager) (id : ℕ) (to : NodeState) (now : ℕ)
    → P nm
    → ((n : Node)
        → lookup id nm.nodes ≡ some n
        → same_state n.state to ≡ true
        → P (record nm { nodes = insert id (stay n to now) nm.nodes }))
    → ((n : Node)
        → lookup id nm.nodes ≡ some n
        → allows (valid_transitions n.state) to ≡ true
        → P (record nm { nodes = insert id (enter n to now) nm.nodes }))
    → P (transition_node nm id to now).0
unfolding transition_node
transition_cases P nm id to now refused stays enters = elim (Option-cases (lookup id nm.nodes)) [
  | inl e ↦ rw (e, transition_node) refused
  | inr (n, e) ↦ elim (Bool-cases (same_state n.state to)) [
    | inl same ↦ rw (e, transition_node, same) (stays n e same)
    | inr differ ↦ elim (Bool-cases (allows (valid_transitions n.state) to)) [
      | inl allowed ↦ rw (e, transition_node, differ, allowed) (enters n e allowed)
      | inr not_allowed ↦ rw (e, transition_node, differ, not_allowed) refused
    ]
  ]
]

pub set_node_ip_cases {ℓ} :
    (P : NodeManager → Type ℓ) (nm : NodeManager) (id : ℕ) (ip : String)
    → P nm
    → ((n : Node)
        → lookup id nm.nodes ≡ some n
        → P (record nm { nodes = insert id (record n { ipv4 = ip }) nm.nodes }))
    → P (set_node_ip nm id ip).0
unfolding set_node_ip
set_node_ip_cases P nm id ip refused writes = elim (Option-cases (lookup id nm.nodes)) [
  | inl e ↦ rw (e, set_node_ip) refused
  | inr (n, e) ↦ rw (e, set_node_ip) (writes n e)
]

pub set_drain_lock_cases {ℓ} :
    (P : NodeManager → Type ℓ) (nm : NodeManager) (id : ℕ) (locked : Bool)
    → P nm
    → ((n : Node)
        → lookup id nm.nodes ≡ some n
        → P (record nm { nodes = insert id (record n { drain_locked = locked }) nm.nodes }))
    → P (set_drain_lock nm id locked).0
unfolding set_drain_lock
set_drain_lock_cases P nm id locked refused writes = elim (Option-cases (lookup id nm.nodes)) [
  | inl e ↦ rw (e, set_drain_lock) refused
  | inr (n, e) ↦ rw (e, set_drain_lock) (writes n e)
]

module _ (nm : NodeManager) (id j : ℕ) (other : j ≢ id) where
  -- A write of one entry leaves the others.
  get_node-insert_ne :
      (v : Node) → get_node (record nm { nodes = insert id v nm.nodes }) j ≡ get_node nm j
  unfolding get_node
  get_node-insert_ne v = ground (arith, lookup-insert j id v nm.nodes)

  pub get_node-transition_node_ne :
      (to : NodeState) (now : ℕ) → get_node (transition_node nm id to now).0 j ≡ get_node nm j
  get_node-transition_node_ne to now =
      transition_cases (λ m. get_node m j ≡ get_node nm j) nm id to now refl
        (λ n _ _. get_node-insert_ne (stay n to now)) (λ n _ _. get_node-insert_ne (enter n to now))

  pub get_node-set_node_ip_ne : (ip : String) → get_node (set_node_ip nm id ip).0 j ≡ get_node nm j
  get_node-set_node_ip_ne ip =
      set_node_ip_cases (λ m. get_node m j ≡ get_node nm j) nm id ip refl
        (λ n _. get_node-insert_ne (record n { ipv4 = ip }))

  pub get_node-set_drain_lock_ne :
      (locked : Bool) → get_node (set_drain_lock nm id locked).0 j ≡ get_node nm j
  get_node-set_drain_lock_ne locked =
      set_drain_lock_cases (λ m. get_node m j ≡ get_node nm j) nm id locked refl
        (λ n _. get_node-insert_ne (record n { drain_locked = locked }))
