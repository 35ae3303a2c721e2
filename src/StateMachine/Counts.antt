-- ===== src/StateMachine/Counts.antt =====
-- The counting and searching methods of orchestrator/statemachine.go against the list of nodes.
use mathlib.Core.List.{Mem, mem-cons_self, mem-cons_of_mem}
use serverless_gpu_linode.Common.{
  ℕ, ◌+◌, ◌≤◌, ◌≡◌, ◌≢◌, refl, sym, ◌∙◌, ◌↔◌, ◌⊎◌, inl, inr, String, false, not, List, [], ◌∷◌, map,
  none, some, arith, length, length-select, count_if, any, count_if-le, All, Bool-cases, str_eq,
  str_eq_iff,
}
use serverless_gpu_linode.StateMachine.{
  NodeState, provisioning, ready, draining, destroying, Node, NodeManager, same_state,
  is_transitional, all_nodes, nodes_by_state, active_count, ready_count, is_scaling_in_progress,
  find_ip, find_node_by_ip,
}

-- How many nodes of a list are in a state.
abbrev in_state : NodeState → List Node → ℕ
in_state s = count_if (λ n. same_state n.state s)

length-map {ℓ κ} :
    {A : Type ℓ} {B : Type κ} (f : A → B) (xs : List A) → length (map f xs) ≡ length xs
length-map f [] = refl
length-map f (x ∷ xs) = omega (arith, length-map f xs)

length-all_nodes : (nm : NodeManager) → length (all_nodes nm) ≡ length nm.nodes
unfolding all_nodes
length-all_nodes nm = length-map _ nm.nodes

partition :
    (ns : List Node)
    → in_state provisioning ns + in_state ready ns + in_state draining ns + in_state destroying ns
      ≡ length ns
unfolding count_if
partition [] = refl
partition (n ∷ ns) = ground (arith, partition ns)

active_partition :
    (ns : List Node)
    → count_if (λ n. not (same_state n.state destroying)) ns + in_state destroying ns ≡ length ns
unfolding count_if
active_partition [] = refl
active_partition (n ∷ ns) = ground (arith, active_partition ns)

pub length-nodes_by_state :
    (nm : NodeManager) (s : NodeState) → length (nodes_by_state nm s) ≡ in_state s (all_nodes nm)
unfolding nodes_by_state
length-nodes_by_state nm s = length-select _ (all_nodes nm)

-- Every tracked node is in exactly one of the four states that the gauges count, `ActiveCount` is
-- the number of nodes outside `destroying`, and `ReadyCount` is the number in `ready`.
pub counts_partition :
    (nm : NodeManager)
    → (length (nodes_by_state nm provisioning)
          + length (nodes_by_state nm ready)
          + length (nodes_by_state nm draining)
          + length (nodes_by_state nm destroying)
        ≡ length nm.nodes)
      × (active_count nm + length (nodes_by_state nm destroying) ≡ length nm.nodes)
      × (ready_count nm ≡ length (nodes_by_state nm ready))
unfolding active_count ready_count
counts_partition nm =
    let l = length-nodes_by_state nm in
    (
      omega (
        arith,
        l provisioning,
        l ready,
        l draining,
        l destroying,
        partition (all_nodes nm),
        length-all_nodes nm,
      ),
      omega (arith, l destroying, active_partition (all_nodes nm), length-all_nodes nm),
      sym (l ready),
    )

none_transitional :
    (ns : List Node)
    → (any (λ n. is_transitional n.state) ns ≡ false) ↔ (in_state ready ns ≡ length ns)
unfolding any count_if
none_transitional [] = (λ _. refl, λ _. refl)
none_transitional (n ∷ ns) = (
  λ h. ground (arith, (none_transitional ns).0),
  λ h.
      ground
        (arith, (none_transitional ns).1, count_if-le (λ (m : Node). same_state m.state ready) ns),
)

-- No scaling is in progress exactly when every tracked node is ready.
pub is_scaling_in_progress-false_iff :
    (nm : NodeManager) → (is_scaling_in_progress nm ≡ false) ↔ (ready_count nm ≡ length nm.nodes)
unfolding is_scaling_in_progress ready_count
is_scaling_in_progress-false_iff nm = (
  λ h. (none_transitional (all_nodes nm)).0 h ∙ length-all_nodes nm,
  λ h. (none_transitional (all_nodes nm)).1 (h ∙ sym (length-all_nodes nm)),
)

find_ip_answer :
    (ip : String) (ns : List Node)
    → ((n : Node) × (find_ip ip ns ≡ some n) × Mem n ns × (n.ipv4 ≡ ip))
      ⊎ ((find_ip ip ns ≡ none) × All (λ n. n.ipv4 ≢ ip) ns)
unfolding find_ip
find_ip_answer ip [] = inr (refl, tt)
find_ip_answer ip (n ∷ ns) = elim (Bool-cases (str_eq n.ipv4 ip)) [
  | inl hit ↦ inl (n, rw hit, mem-cons_self, (str_eq_iff n.ipv4 ip).0 hit)
  | inr miss ↦ elim (find_ip_answer ip ns) [
    | inl (m, e, i, p) ↦ inl (m, rw miss e, mem-cons_of_mem n i, p)
    | inr (e, a) ↦ inr (rw miss e, ((λ q. cc ((str_eq_iff n.ipv4 ip).1 q, miss)), a))
  ]
]

-- `FindNodeByIP` returns a tracked node that has the address, and reports none only where no
-- tracked node has it.
pub find_node_by_ip_answer :
    (nm : NodeManager) (ip : String)
    → ((n : Node) × (find_node_by_ip nm ip ≡ some n) × Mem n (all_nodes nm) × (n.ipv4 ≡ ip))
      ⊎ ((find_node_by_ip nm ip ≡ none) × All (λ n. n.ipv4 ≢ ip) (all_nodes nm))
unfolding find_node_by_ip
find_node_by_ip_answer nm ip = find_ip_answer ip (all_nodes nm)

pub ready_count-le-active_count : (nm : NodeManager) → ready_count nm ≤ active_count nm
ready_count-le-active_count nm =
    omega (arith, (counts_partition nm).0, (counts_partition nm).1, (counts_partition nm).2)

pub active_count-le-length : (nm : NodeManager) → active_count nm ≤ length nm.nodes
active_count-le-length nm = omega (arith, (counts_partition nm).1)
