-- ===== src/StateMachine/Updates.antt =====
-- How the counts of orchestrator/statemachine.go change when an entry is written or removed.
use serverless_gpu_linode.Common.Assoc.{lookup, insert, remove, IsDistinct, lookup-insert}
use serverless_gpu_linode.Common.{
  ℕ, ◌+◌, ◌≤◌, ◌≡◌, refl, inl, inr, String, Bool, true, false, not, List, [], ◌∷◌, map, none, some,
  ok, arith, Option-cases, count_if, if◌then◌else◌,
}
use serverless_gpu_linode.StateMachine.Invariant.{IsWellFormed}
use serverless_gpu_linode.StateMachine.{
  NodeState, NodeError, destroying, Node, NodeManager, fresh_node, same_state, active_count,
  add_node, remove_node, get_node, transition_node, stay, enter, set_node_ip,
}

-- 1 for a node that passes the test.
abbrev bit : Bool → ℕ
bit true = 1
bit false = 0

abbrev count : (Node → Bool) → List (ℕ × Node) → ℕ
count p m = count_if p (map (λ e. e.1) m)

module _ (p : Node → Bool) where
  count-insert_old :
      (k : ℕ) (v w : Node) (m : List (ℕ × Node))
      → lookup k m ≡ some v
      → count p (insert k w m) + bit (p v) ≡ count p m + bit (p w)
  unfolding lookup insert count_if
  count-insert_old k v w [] e = cc
  count-insert_old k v w ((j, u) ∷ m) e = ground (arith, count-insert_old k v w m)

  count-insert_new :
      (k : ℕ) (w : Node) (m : List (ℕ × Node))
      → lookup k m ≡ none
      → count p (insert k w m) ≡ count p m + bit (p w)
  unfolding lookup insert count_if
  count-insert_new k w [] e = ground arith
  count-insert_new k w ((j, u) ∷ m) e = ground (arith, count-insert_new k w m)

  count-remove_absent :
      (k : ℕ) (m : List (ℕ × Node)) → lookup k m ≡ none → count p (remove k m) ≡ count p m
  unfolding lookup remove count_if
  count-remove_absent k [] e = refl
  count-remove_absent k ((j, u) ∷ m) e = ground (arith, count-remove_absent k m)

  count-remove :
      (k : ℕ) (v : Node) (m : List (ℕ × Node))
      → IsDistinct m
      → lookup k m ≡ some v
      → count p (remove k m) + bit (p v) ≡ count p m
  unfolding lookup remove count_if
  count-remove k v [] d e = cc
  count-remove k v ((j, u) ∷ m) d e =
      ground (arith, count-remove k v m d.1, count-remove_absent k m)

abbrev is_active : Node → Bool
is_active n = not (same_state n.state destroying)

-- A tracked node counts as active unless it is destroying; a new one always does.
pub active_count-add_node :
    (nm : NodeManager) (id : ℕ) (label : String) (now : ℕ) {n : Node}
    → (add_node nm id label now).1 ≡ ok n
    → active_count (add_node nm id label now).0 ≡ active_count nm + 1
unfolding add_node active_count
active_count-add_node nm id label now h =
    ground (arith, count-insert_new is_active id (fresh_node id label now) nm.nodes)

pub active_count-remove_node :
    (nm : NodeManager) (id : ℕ) (n : Node)
    → IsWellFormed nm
    → get_node nm id ≡ some n
    → n.state ≡ destroying
    → active_count (remove_node nm id) ≡ active_count nm
unfolding remove_node active_count get_node
active_count-remove_node nm id n v e s =
    ground (arith, count-remove is_active id n nm.nodes v.distinct)

pub active_count-transition_node :
    (nm : NodeManager) (id : ℕ) (to : NodeState) (now : ℕ) (n : Node)
    → get_node nm id ≡ some n
    → (transition_node nm id to now).1 ≡ none
    → active_count (transition_node nm id to now).0 + bit (is_active n)
      ≡ active_count nm + bit (not (same_state to destroying))
unfolding transition_node active_count get_node
active_count-transition_node nm id to now n e h = ground (
  arith,
  count-insert_old is_active id n (stay n to now) nm.nodes,
  count-insert_old is_active id n (enter n to now) nm.nodes,
)

pub active_count-set_node_ip :
    (nm : NodeManager) (id : ℕ) (ip : String)
    → active_count (set_node_ip nm id ip).0 ≡ active_count nm
unfolding set_node_ip active_count
active_count-set_node_ip nm id ip = elim (Option-cases (lookup id nm.nodes)) [
  | inl e ↦ rw (e, set_node_ip)
  | inr (n, e) ↦ ground (arith, count-insert_old is_active id n (record n { ipv4 = ip }) nm.nodes)
]

-- Where a node that is not tracked is removed, nothing changes in the counts.
pub active_count-remove_node_le :
    (nm : NodeManager) (id : ℕ)
    → IsWellFormed nm
    → active_count (remove_node nm id) ≤ active_count nm
unfolding remove_node active_count
active_count-remove_node_le nm id v = elim (Option-cases (lookup id nm.nodes)) [
  | inl e ↦ omega (arith, count-remove_absent is_active id nm.nodes e)
  | inr (n, e) ↦ omega (arith, count-remove is_active id n nm.nodes v.distinct e)
]

-- The node that an accepted transition leaves.
abbrev pub moved : Node → NodeState → ℕ → Node
moved n to now = if same_state n.state to then stay n to now else enter n to now

pub moved-state : (n : Node) (to : NodeState) (now : ℕ) → (moved n to now).state ≡ to
moved-state n to now = ground arith

pub get_node-transition_node :
    (nm : NodeManager) (id : ℕ) (to : NodeState) (now : ℕ) (n : Node)
    → get_node nm id ≡ some n
    → (transition_node nm id to now).1 ≡ none
    → get_node (transition_node nm id to now).0 id ≡ some (moved n to now)
unfolding transition_node get_node
get_node-transition_node nm id to now n e h = ground (
  arith,
  lookup-insert id id (stay n to now) nm.nodes,
  lookup-insert id id (enter n to now) nm.nodes,
)

-- A refused transition changes nothing.
pub transition_node_refused :
    (nm : NodeManager) (id : ℕ) (to : NodeState) (now : ℕ) {x : NodeError}
    → (transition_node nm id to now).1 ≡ some x
    → (transition_node nm id to now).0 ≡ nm
unfolding transition_node
transition_node_refused nm id to now h = ground arith
