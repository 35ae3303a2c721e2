-- ===== src/Tests/Nodes.antt =====
-- The theorems on the node manager at concrete managers.
use serverless_gpu_linode.Common.{ℕ, ◌≡◌, refl, ◌⊎◌, true, false, List, [], ◌∷◌, none, some, arith}
use serverless_gpu_linode.StateMachine.{
  ready, destroying, Node, NodeManager, invalid_transition, fresh_node, new_node_manager, add_node,
  transition_node, get_node, remove_node, set_node_ip, set_drain_lock,
}
use serverless_gpu_linode.StateMachine.Invariant.{
  Call, adds, transitions, removes, sets_ip, sets_drain_lock, apply_all,
}
use serverless_gpu_linode.StateMachine.Lifecycle.{
  Edge, Follows, transition_node_answer, apply_all-Follows,
}

abbrev ready_node : ℕ → Node
ready_node id = record {
  linode_id = id;
  label = "gpu";
  ipv4 = "10.0.0.1";
  state = ready;
  created_at = 5;
  ready_at = some 9;
  drain_locked = false;
}

abbrev pair : NodeManager
pair = record { nodes = (7, ready_node 7) ∷ (9, fresh_node 9 "new" 30) ∷ []; max_nodes = 2 }

abbrev history : List Call
history =
    adds 7 "gpu" 5
    ∷ adds 7 "again" 6
    ∷ adds 9 "new" 7
    ∷ adds 11 "late" 8
    ∷ transitions 7 ready 9
    ∷ sets_ip 7 "10.0.0.1"
    ∷ sets_drain_lock 9 true
    ∷ transitions 7 destroying 10
    ∷ removes 9
    ∷ []

history_leaves :
    apply_all (new_node_manager 2) history ≡ record pair { nodes = (7, ready_node 7) ∷ [] }
unfolding apply_all add_node transition_node new_node_manager remove_node set_node_ip set_drain_lock
history_leaves = refl

transition_node_answer_example :
    (((ready_node 7).state ≡ destroying) ⊎ Edge (ready_node 7).state destroying)
      × ((transition_node pair 7 destroying 40).1 ≡ none)
    ⊎ (¬ ((ready_node 7).state ≡ destroying)
        × ¬ Edge (ready_node 7).state destroying
        × (transition_node pair 7 destroying 40
            ≡ (pair, some (invalid_transition ready destroying 7))))
unfolding get_node
transition_node_answer_example = transition_node_answer pair 7 destroying 40 {n = ready_node 7} refl

apply_all-Follows_example :
    (n' : Node) × (get_node (apply_all pair (transitions 9 ready 31 ∷ removes 7 ∷ [])) 9 ≡ some n')
    × Follows (fresh_node 9 "new" 30) n'
unfolding get_node
apply_all-Follows_example =
    apply_all-Follows pair 9 (fresh_node 9 "new" 30) (transitions 9 ready 31 ∷ removes 7 ∷ []) refl
      ((λ e. cc), (λ e. ground arith, tt))
