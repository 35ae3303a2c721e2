-- ===== src/StateMachine.antt =====
-- orchestrator/statemachine.go: the tracked GPU nodes and their lifecycle.
-- A method on `*NodeManager` takes the manager and returns the new one. The lock is held through
-- each method, so a method is one step. `map[int]*Node` is a list of entries with one entry for a
-- key; a write through a `*Node` that the map holds is a write of that entry. `time.Now()` is the
-- argument `now`, in nanoseconds, and a zero `time.Time` is `none`.
pub mod Lookup
pub mod Invariant
pub mod Lifecycle
pub mod Counts
pub mod Updates
pub mod Kept
pub mod Order
pub mod Alike
use serverless_gpu_linode.Common.Assoc.{lookup, insert, remove}
use serverless_gpu_linode.Common.{
  ℕ, String, Bool, true, false, not, List, [], ◌∷◌, map, Option, none, some, Result, ok, err, leb,
  if◌then◌else◌, str_eq, length, select, count_if, any,
}

pub data NodeState : Type 0 where
  provisioning ready draining destroying : NodeState

-- `==` on node states.
abbrev pub same_state : NodeState → NodeState → Bool
same_state provisioning provisioning = true
same_state ready ready = true
same_state draining draining = true
same_state destroying destroying = true
same_state _ _ = false

unfoldable pub valid_transitions : NodeState → List NodeState
valid_transitions provisioning = ready ∷ destroying ∷ []
valid_transitions ready = draining ∷ []
valid_transitions draining = destroying ∷ []
valid_transitions destroying = []

pub record Node : Type 0 where
  pub linode_id : ℕ
  pub label : String
  pub ipv4 : String
  pub state : NodeState
  pub created_at : ℕ
  pub ready_at : Option ℕ
  pub drain_locked : Bool

pub record NodeManager : Type 0 where
  pub nodes : List (ℕ × Node)
  pub max_nodes : ℕ

pub data NodeError : Type 0 where
  max_node_cap : ℕ → NodeError
  already_tracked : ℕ → NodeError
  node_not_found : ℕ → NodeError
  invalid_transition : NodeState → NodeState → ℕ → NodeError

unfoldable pub new_node_manager : ℕ → NodeManager
new_node_manager max_nodes = record { nodes = []; max_nodes = max_nodes }

-- The node that `AddNode` registers.
abbrev pub fresh_node : ℕ → String → ℕ → Node
fresh_node id label now = record {
  linode_id = id;
  label = label;
  ipv4 = "";
  state = provisioning;
  created_at = now;
  ready_at = none;
  drain_locked = false;
}

unfoldable pub add_node : NodeManager → ℕ → String → ℕ → NodeManager × Result NodeError Node
unfolding lookup insert
add_node nm id label now =
    if leb nm.max_nodes (length nm.nodes)
    then (nm, err (max_node_cap nm.max_nodes))
    else (elim (lookup id nm.nodes) [
      | some _ ↦ (nm, err (already_tracked id))
      | none ↦ (
        record nm { nodes = insert id (fresh_node id label now) nm.nodes },
        ok (fresh_node id label now),
      )
    ])

-- The loop `for _, s := range allowed { if s == to … }`.
abbrev pub allows : List NodeState → NodeState → Bool
allows [] to = false
allows (s ∷ rest) to = let later = allows rest to in if same_state s to then true else later

-- The node that a transition to the state it already has leaves: only a missing `ReadyAt` is set.
abbrev pub stay : Node → NodeState → ℕ → Node
stay node ready now = elim node.ready_at [
  | none ↦ record node { ready_at = some now }
  | some _ ↦ node
]
stay node _ now = node

-- The node that enters a new state.
abbrev pub enter : Node → NodeState → ℕ → Node
enter node ready now = record node { state = ready; ready_at = some now }
enter node to now = record node { state = to }

unfoldable pub transition_node : NodeManager → ℕ → NodeState → ℕ → NodeManager × Option NodeError
unfolding lookup insert valid_transitions
transition_node nm id to now = elim (lookup id nm.nodes) [
  | none ↦ (nm, some (node_not_found id))
  | some node ↦
      if same_state node.state to
      then (record nm { nodes = insert id (stay node to now) nm.nodes }, none)
      else (if allows (valid_transitions node.state) to
          then (record nm { nodes = insert id (enter node to now) nm.nodes }, none)
          else (nm, some (invalid_transition node.state to id)))
]

unfoldable pub remove_node : NodeManager → ℕ → NodeManager
unfolding remove
remove_node nm id = record nm { nodes = remove id nm.nodes }

unfoldable pub get_node : NodeManager → ℕ → Option Node
unfolding lookup
get_node nm id = lookup id nm.nodes

unfoldable pub set_node_ip : NodeManager → ℕ → String → NodeManager × Option NodeError
unfolding lookup insert
set_node_ip nm id ip = elim (lookup id nm.nodes) [
  | none ↦ (nm, some (node_not_found id))
  | some node ↦ (record nm { nodes = insert id (record node { ipv4 = ip }) nm.nodes }, none)
]

unfoldable pub set_drain_lock : NodeManager → ℕ → Bool → NodeManager × Option NodeError
unfolding lookup insert
set_drain_lock nm id locked = elim (lookup id nm.nodes) [
  | none ↦ (nm, some (node_not_found id))
  | some node ↦
      (record nm { nodes = insert id (record node { drain_locked = locked }) nm.nodes }, none)
]

-- `AllNodes`: the snapshot, in the order of iteration.
unfoldable pub all_nodes : NodeManager → List Node
all_nodes nm = map (λ e. e.1) nm.nodes

unfoldable pub nodes_by_state : NodeManager → NodeState → List Node
unfolding select all_nodes
nodes_by_state nm s = select (λ n. same_state n.state s) (all_nodes nm)

unfoldable pub active_count : NodeManager → ℕ
unfolding count_if all_nodes
active_count nm = count_if (λ n. not (same_state n.state destroying)) (all_nodes nm)

unfoldable pub ready_count : NodeManager → ℕ
unfolding count_if all_nodes
ready_count nm = count_if (λ n. same_state n.state ready) (all_nodes nm)

-- The loop of `FindNodeByIP`: the first node with the address.
find_ip : String → List Node → Option Node
find_ip ip [] = none
find_ip ip (n ∷ rest) = let later = find_ip ip rest in if str_eq n.ipv4 ip then some n else later

unfoldable pub find_node_by_ip : NodeManager → String → Option Node
unfolding find_ip all_nodes
find_node_by_ip nm ip = find_ip ip (all_nodes nm)

abbrev pub is_transitional : NodeState → Bool
is_transitional provisioning = true
is_transitional ready = false
is_transitional draining = true
is_transitional destroying = true

unfoldable pub is_scaling_in_progress : NodeManager → Bool
unfolding any all_nodes
is_scaling_in_progress nm = any (λ n. is_transitional n.state) (all_nodes nm)
