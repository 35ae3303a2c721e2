-- ===== src/StateMachine/Invariant.antt =====
-- What holds of the node manager (orchestrator/statemachine.go) after any sequence of calls.
use serverless_gpu_linode.Common.Assoc.{
  IsDistinct, insert-IsDistinct, remove-IsDistinct, All-insert, All-remove, All-lookup,
  length-insert_new, length-insert_old, length-remove-le, lookup, insert,
}
use serverless_gpu_linode.StateMachine.Lookup.{
  transition_cases, set_node_ip_cases, set_drain_lock_cases,
}
use serverless_gpu_linode.Common.{
  ℕ, ◌≤◌, ◌≡◌, refl, String, Bool, true, false, List, [], ◌∷◌, Option, none, some, arith, length,
  All,
}
use serverless_gpu_linode.StateMachine.{
  NodeState, provisioning, ready, draining, destroying, Node, NodeManager, same_state, allows,
  valid_transitions, fresh_node, stay, enter, new_node_manager, add_node, transition_node,
  remove_node, set_node_ip, set_drain_lock,
}

-- One call of a method that writes.
pub data Call : Type 0 where
  adds : ℕ → String → ℕ → Call
  transitions : ℕ → NodeState → ℕ → Call
  removes : ℕ → Call
  sets_ip : ℕ → String → Call
  sets_drain_lock : ℕ → Bool → Call

unfoldable pub apply : NodeManager → Call → NodeManager
apply nm (adds id label now) = (add_node nm id label now).0
apply nm (transitions id to now) = (transition_node nm id to now).0
apply nm (removes id) = remove_node nm id
apply nm (sets_ip id ip) = (set_node_ip nm id ip).0
apply nm (sets_drain_lock id locked) = (set_drain_lock nm id locked).0

unfoldable pub apply_all : NodeManager → List Call → NodeManager
unfolding apply
apply_all nm [] = nm
apply_all nm (c ∷ cs) = apply_all (apply nm c) cs

abbrev pub is_set : Option ℕ → Bool
is_set none = false
is_set (some t) = true

-- `ReadyAt` is set exactly from the moment at which the node became ready.
abbrev pub IsStamped : NodeState → Option ℕ → Type 0
IsStamped provisioning t = is_set t ≡ false
IsStamped ready t = is_set t ≡ true
IsStamped draining t = is_set t ≡ true
IsStamped destroying t = Unit

abbrev pub IsEntry : ℕ × Node → Type 0
IsEntry (k, n) = (n.linode_id ≡ k) × IsStamped n.state n.ready_at

pub record IsWellFormed (nm : NodeManager) : Type 0 where
  pub distinct : IsDistinct nm.nodes
  pub bounded : length nm.nodes ≤ nm.max_nodes
  pub entries : All IsEntry nm.nodes

pub new_node_manager-IsWellFormed : (max : ℕ) → IsWellFormed (new_node_manager max)
unfolding new_node_manager
new_node_manager-IsWellFormed max = ground arith

stay-IsEntry :
    (k : ℕ) (n : Node) (to : NodeState) (now : ℕ)
    → same_state n.state to ≡ true
    → IsEntry (k, n)
    → IsEntry (k, stay n to now)
stay-IsEntry k n to now e h = ground arith

enter-IsEntry :
    (k : ℕ) (n : Node) (to : NodeState) (now : ℕ)
    → allows (valid_transitions n.state) to ≡ true
    → IsEntry (k, n)
    → IsEntry (k, enter n to now)
unfolding valid_transitions
enter-IsEntry k n to now e h = ground arith

module _ (nm : NodeManager) (v : IsWellFormed nm) where
  -- Writing an entry that was found keeps the invariant if the new node meets its part.
  insert-IsWellFormed :
      (id : ℕ) (n n' : Node)
      → lookup id nm.nodes ≡ some n
      → (IsEntry (id, n) → IsEntry (id, n'))
      → IsWellFormed (record nm { nodes = insert id n' nm.nodes })
  insert-IsWellFormed id n n' e keep = record {
    distinct = insert-IsDistinct id n' nm.nodes v.distinct;
    bounded = omega (arith, length-insert_old id n' n nm.nodes e, v.bounded);
    entries =
        All-insert IsEntry id n' nm.nodes (keep (All-lookup IsEntry id n nm.nodes v.entries e))
          v.entries;
  }

  pub add_node-IsWellFormed :
      (id : ℕ) (label : String) (now : ℕ) → IsWellFormed (add_node nm id label now).0
  unfolding add_node
  add_node-IsWellFormed id label now = ground (
    arith,
    v,
    insert-IsDistinct id (fresh_node id label now) nm.nodes v.distinct,
    length-insert_new id (fresh_node id label now) nm.nodes,
    All-insert IsEntry id (fresh_node id label now) nm.nodes (refl, refl) v.entries,
  )

  pub transition_node-IsWellFormed :
      (id : ℕ) (to : NodeState) (now : ℕ) → IsWellFormed (transition_node nm id to now).0
  transition_node-IsWellFormed id to now =
      transition_cases IsWellFormed nm id to now v
        (λ n e s. insert-IsWellFormed id n (stay n to now) e (stay-IsEntry id n to now s))
        (λ n e a. insert-IsWellFormed id n (enter n to now) e (enter-IsEntry id n to now a))

  pub remove_node-IsWellFormed : (id : ℕ) → IsWellFormed (remove_node nm id)
  unfolding remove_node
  remove_node-IsWellFormed id = record {
    distinct = remove-IsDistinct id nm.nodes v.distinct;
    bounded = omega (arith, length-remove-le id nm.nodes, v.bounded);
    entries = All-remove IsEntry id nm.nodes v.entries;
  }

  pub set_node_ip-IsWellFormed : (id : ℕ) (ip : String) → IsWellFormed (set_node_ip nm id ip).0
  set_node_ip-IsWellFormed id ip =
      set_node_ip_cases IsWellFormed nm id ip v
        (λ n e. insert-IsWellFormed id n (record n { ipv4 = ip }) e (λ h. h))

  pub set_drain_lock-IsWellFormed :
      (id : ℕ) (locked : Bool) → IsWellFormed (set_drain_lock nm id locked).0
  set_drain_lock-IsWellFormed id locked =
      set_drain_lock_cases IsWellFormed nm id locked v
        (λ n e. insert-IsWellFormed id n (record n { drain_locked = locked }) e (λ h. h))
