-- ===== src/StateMachine/Alike.antt =====
-- Two node managers (orchestrator/statemachine.go) with the same entries, in orders that may differ:
-- each method does the same to both.
use mathlib.Core.List.Perm
use mathlib.Core.List.{Perm}
use serverless_gpu_linode.Common.Assoc.{
  lookup, remove, IsDistinct, lookup-insert, lookup-remove, remove-IsDistinct,
}
use serverless_gpu_linode.Common.{
  ℕ, ◌≡◌, ◌∙◌, ap, sym, refl, inl, inr, String, Bool, Option, List, [], ◌∷◌, none, some, length,
  arith, if◌then◌else◌, ◌==◌, ==_iff, Bool-cases, Option-cases,
}
use serverless_gpu_linode.StateMachine.{
  NodeState, Node, NodeManager, add_node, transition_node, remove_node, get_node, set_node_ip,
  all_nodes, stay, enter, fresh_node, valid_transitions, same_state, allows,
}
use serverless_gpu_linode.StateMachine.Order.{length-perm}
use serverless_gpu_linode.StateMachine.Invariant.{
  IsWellFormed, add_node-IsWellFormed, transition_node-IsWellFormed, remove_node-IsWellFormed,
  set_node_ip-IsWellFormed,
}

module _ {ℓ} {V : Type ℓ} where
  remove-absent : (k : ℕ) (m : List (ℕ × V)) → lookup k m ≡ none → remove k m ≡ m
  unfolding lookup remove
  remove-absent k [] e = refl
  remove-absent k ((j, w) ∷ m) e = ground (arith, remove-absent k m)

  -- An entry can be put in front.
  front :
      (k : ℕ) (v : V) (m : List (ℕ × V))
      → IsDistinct m
      → lookup k m ≡ some v
      → Perm m ((k, v) ∷ remove k m)
  unfolding lookup remove
  front k v [] d e = absurd (cc)
  front k v ((j, w) ∷ m) d e = elim (Bool-cases (j == k)) [
    | inl own ↦
        let id : j ≡ k = (==_iff j k).0 own in
        let value : w ≡ v = ground arith in
        let rest = remove-absent k m (ap (λ i. lookup i m) (sym id) ∙ d.0) in
        rw (own, rest, id, value) (Perm.refl ((k, v) ∷ m))
    | inr other ↦ rw (other) (
        Perm.trans (Perm.cons (j, w) (front k v m d.1 (ground arith)))
          (Perm.swap (k, v) (j, w) (remove k m)))
  ]

  -- Maps with the same lookups have the same entries.
  pub lookups-perm :
      (m m' : List (ℕ × V))
      → IsDistinct m
      → IsDistinct m'
      → ((k : ℕ) → lookup k m ≡ lookup k m')
      → Perm m m'
  unfolding lookup
  lookups-perm [] [] d d' same = Perm.nil
  lookups-perm [] ((k, v) ∷ m') d d' same = absurd (ground (arith, same k))
  lookups-perm ((k, v) ∷ m) m' d d' same =
      let here = same k in
      Perm.trans
        (Perm.cons (k, v)
          (lookups-perm m (remove k m') d.1 (remove-IsDistinct k m' d')
            (λ j. ground (arith, same j, lookup-remove j k m'))))
        (Perm.symm (front k v m' d' (ground (arith, here))))

-- The entry of each node after the two methods that write one.
abbrev written : Option Node → Option Node → (Node → Option Node) → Bool → Option Node
written none before write own = before
written (some n) before write own = if own then write n else before

abbrev transitioned : NodeState → ℕ → Node → Option Node
transitioned to now n =
    if same_state n.state to
    then some (stay n to now)
    else (if allows (valid_transitions n.state) to then some (enter n to now) else some n)

lookup-set_node_ip :
    (nm : NodeManager) (id j : ℕ) (ip : String)
    → lookup j (set_node_ip nm id ip).0.nodes
      ≡ written
          (lookup id nm.nodes)
          (lookup j nm.nodes)
          (λ n. some (record n { ipv4 = ip }))
          (id == j)
unfolding set_node_ip
lookup-set_node_ip nm id j ip = elim (Option-cases (lookup id nm.nodes)) [
  | inl e ↦ ground arith
  | inr (n, e) ↦ ground (arith, lookup-insert j id (record n { ipv4 = ip }) nm.nodes)
]

max_nodes-set_node_ip :
    (nm : NodeManager) (id : ℕ) (ip : String) → (set_node_ip nm id ip).0.max_nodes ≡ nm.max_nodes
unfolding set_node_ip
max_nodes-set_node_ip nm id ip = ground arith

lookup-transition_node :
    (nm : NodeManager) (id j : ℕ) (to : NodeState) (now : ℕ)
    → lookup j (transition_node nm id to now).0.nodes
      ≡ written (lookup id nm.nodes) (lookup j nm.nodes) (transitioned to now) (id == j)
unfolding transition_node
lookup-transition_node nm id j to now = elim (Option-cases (lookup id nm.nodes)) [
  | inl e ↦ ground arith
  | inr (n, e) ↦ ground (
    arith,
    lookup-insert j id (stay n to now) nm.nodes,
    lookup-insert j id (enter n to now) nm.nodes,
  )
]

max_nodes-transition_node :
    (nm : NodeManager) (id : ℕ) (to : NodeState) (now : ℕ)
    → (transition_node nm id to now).0.max_nodes ≡ nm.max_nodes
unfolding transition_node
max_nodes-transition_node nm id to now = ground arith

pub record Alike (nm nm' : NodeManager) : Type 0 where
  pub formed : IsWellFormed nm
  pub formed' : IsWellFormed nm'
  pub cap : nm.max_nodes ≡ nm'.max_nodes
  pub same : (j : ℕ) → lookup j nm.nodes ≡ lookup j nm'.nodes

module _ (nm nm' : NodeManager) (a : Alike nm nm') where
  Alike-entries : Perm nm.nodes nm'.nodes
  Alike-entries = lookups-perm nm.nodes nm'.nodes a.formed.distinct a.formed'.distinct a.same

  pub Alike-perm : Perm (all_nodes nm) (all_nodes nm')
  unfolding all_nodes
  Alike-perm = Perm.map (λ e. e.1) Alike-entries

  Alike-length : length nm.nodes ≡ length nm'.nodes
  Alike-length = length-perm Alike-entries

  pub Alike-get_node : (j : ℕ) → get_node nm j ≡ get_node nm' j
  unfolding get_node
  Alike-get_node j = a.same j

  pub Alike-add_node_answer :
      (id : ℕ) (label : String) (now : ℕ)
      → (add_node nm id label now).1 ≡ (add_node nm' id label now).1
  unfolding add_node
  Alike-add_node_answer id label now = ground (arith, a.cap, a.same id, Alike-length)

  pub Alike-add_node :
      (id : ℕ) (label : String) (now : ℕ)
      → Alike (add_node nm id label now).0 (add_node nm' id label now).0
  unfolding add_node
  Alike-add_node id label now = record {
    formed = add_node-IsWellFormed nm a.formed id label now;
    formed' = add_node-IsWellFormed nm' a.formed' id label now;
    cap = ground (arith, a.cap);
    same = λ j. ground (
      arith,
      a.cap,
      a.same id,
      a.same j,
      Alike-length,
      lookup-insert j id (fresh_node id label now) nm.nodes,
      lookup-insert j id (fresh_node id label now) nm'.nodes,
    );
  }

  pub Alike-remove_node : (id : ℕ) → Alike (remove_node nm id) (remove_node nm' id)
  unfolding remove_node
  Alike-remove_node id = record {
    formed = remove_node-IsWellFormed nm a.formed id;
    formed' = remove_node-IsWellFormed nm' a.formed' id;
    cap = a.cap;
    same = λ j. ground (arith, a.same j, lookup-remove j id nm.nodes, lookup-remove j id nm'.nodes);
  }

  pub Alike-set_node_ip_answer :
      (id : ℕ) (ip : String) → (set_node_ip nm id ip).1 ≡ (set_node_ip nm' id ip).1
  unfolding set_node_ip
  Alike-set_node_ip_answer id ip = ground (arith, a.same id)

  pub Alike-transition_node_answer :
      (id : ℕ) (to : NodeState) (now : ℕ)
      → (transition_node nm id to now).1 ≡ (transition_node nm' id to now).1
  unfolding transition_node
  Alike-transition_node_answer id to now = ground (arith, a.same id)

  pub Alike-set_node_ip :
      (id : ℕ) (ip : String) → Alike (set_node_ip nm id ip).0 (set_node_ip nm' id ip).0
  Alike-set_node_ip id ip = record {
    formed = set_node_ip-IsWellFormed nm a.formed id ip;
    formed' = set_node_ip-IsWellFormed nm' a.formed' id ip;
    cap = max_nodes-set_node_ip nm id ip ∙ a.cap ∙ sym (max_nodes-set_node_ip nm' id ip);
    same = λ j.
        lookup-set_node_ip nm id j ip
        ∙ ground (arith, a.same id, a.same j)
        ∙ sym (lookup-set_node_ip nm' id j ip);
  }

  pub Alike-transition_node :
      (id : ℕ) (to : NodeState) (now : ℕ)
      → Alike (transition_node nm id to now).0 (transition_node nm' id to now).0
  Alike-transition_node id to now = record {
    formed = transition_node-IsWellFormed nm a.formed id to now;
    formed' = transition_node-IsWellFormed nm' a.formed' id to now;
    cap =
        max_nodes-transition_node nm id to now
        ∙ a.cap
        ∙ sym (max_nodes-transition_node nm' id to now);
    same = λ j.
        lookup-transition_node nm id j to now
        ∙ ground (arith, a.same id, a.same j)
        ∙ sym (lookup-transition_node nm' id j to now);
  }
