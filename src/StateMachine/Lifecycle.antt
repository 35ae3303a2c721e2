-- ===== src/StateMachine/Lifecycle.antt =====
-- The lifecycle of a node (the table `validTransitions` of orchestrator/statemachine.go): the
-- diagram as a relation, and what the node manager's methods do to a node along it.
use serverless_gpu_linode.Common.Assoc.{lookup, insert, lookup-insert}
use serverless_gpu_linode.StateMachine.Lookup.{
  transition_cases, set_node_ip_cases, set_drain_lock_cases, get_node-add_node,
  get_node-remove_node_ne, add_node_refused,
}
use serverless_gpu_linode.StateMachine.Invariant.{
  Call, adds, transitions, removes, sets_ip, sets_drain_lock, apply, apply_all,
}
use serverless_gpu_linode.Common.{
  ℕ, ◌≡◌, refl, sym, ◌∙◌, ◌≢◌, ◌⊎◌, inl, inr, String, true, List, [], ◌∷◌, none, some, arith, All,
  ap, Result-cases, Bool-cases, ◌==◌,
}
use serverless_gpu_linode.StateMachine.{
  NodeState, provisioning, ready, draining, destroying, Node, NodeManager, invalid_transition,
  same_state, allows, valid_transitions, stay, enter, add_node, transition_node, get_node,
}

-- The diagram.
pub data Edge : NodeState → NodeState → Type 0 where
  boots : Edge provisioning ready
  fails : Edge provisioning destroying
  drains : Edge ready draining
  destroys : Edge draining destroying

pub data Reaches : NodeState → NodeState → Type 0 where
  here : {s : NodeState} → Reaches s s
  then : {s t u : NodeState} → Edge s t → Reaches t u → Reaches s u

ruleset edges = (boots, fails, drains, destroys)

Reaches-trans : {s t u : NodeState} → Reaches s t → Reaches t u → Reaches s u
Reaches-trans here q = q
Reaches-trans (then e p) q = then e (Reaches-trans p q)

-- The table holds the diagram's edges and no others.
allows→Edge : (s t : NodeState) → allows (valid_transitions s) t ≡ true → Edge s t
unfolding valid_transitions
allows→Edge s t h = grind (arith, edges)

Edge→allows : {s t : NodeState} → Edge s t → allows (valid_transitions s) t ≡ true
unfolding valid_transitions
Edge→allows boots = refl
Edge→allows fails = refl
Edge→allows drains = refl
Edge→allows destroys = refl

same_state→eq : (s t : NodeState) → same_state s t ≡ true → s ≡ t
same_state→eq s t h = ground arith

eq→same_state : (s t : NodeState) → s ≡ t → same_state s t ≡ true
eq→same_state s t h = ground arith

-- A transition of a tracked node is accepted exactly where the state is the node's already or an
-- edge of the diagram leads to it; otherwise the manager does not change and the error names the
-- node and both states.
pub transition_node_answer :
    (nm : NodeManager) (id : ℕ) (to : NodeState) (now : ℕ) {n : Node}
    → get_node nm id ≡ some n
    → (((n.state ≡ to) ⊎ Edge n.state to) × ((transition_node nm id to now).1 ≡ none))
      ⊎ (¬ (n.state ≡ to)
          × ¬ Edge n.state to
          × (transition_node nm id to now ≡ (nm, some (invalid_transition n.state to id))))
unfolding transition_node get_node
transition_node_answer nm id to now {n} e = elim (Bool-cases (same_state n.state to)) [
  | inl same ↦ inl (inl (same_state→eq _ _ same), rw (e, transition_node, same))
  | inr differ ↦ elim (Bool-cases (allows (valid_transitions n.state) to)) [
    | inl allowed ↦ inl (inr (allows→Edge _ _ allowed), rw (e, transition_node, differ, allowed))
    | inr refused ↦ inr (
      (λ p. cc (eq→same_state _ _ p, differ)),
      (λ p. cc (Edge→allows p, refused)),
      rw (e, transition_node, differ, refused),
    )
  ]
]

-- How a node may have changed while it stays tracked: along the diagram, and its identity never.
pub record Follows (n n' : Node) : Type 0 where
  pub path : Reaches n.state n'.state
  pub same_id : n'.linode_id ≡ n.linode_id
  pub same_label : n'.label ≡ n.label
  pub same_created : n'.created_at ≡ n.created_at

Follows-refl : (n : Node) → Follows n n
Follows-refl n = record { path = here; same_id = refl; same_label = refl; same_created = refl }

Follows-trans : {a b c : Node} → Follows a b → Follows b c → Follows a c
Follows-trans p q = record {
  path = Reaches-trans p.path q.path;
  same_id = q.same_id ∙ p.same_id;
  same_label = q.same_label ∙ p.same_label;
  same_created = q.same_created ∙ p.same_created;
}

-- A write that leaves the state and the identity alone.
Follows-of_same :
    (n n' : Node)
    → n'.state ≡ n.state
    → n'.linode_id ≡ n.linode_id
    → n'.label ≡ n.label
    → n'.created_at ≡ n.created_at
    → Follows n n'
Follows-of_same n n' s i l c = record {
  path = rw s here;
  same_id = i;
  same_label = l;
  same_created = c;
}

stay-Follows : (n : Node) (to : NodeState) (now : ℕ) → Follows n (stay n to now)
stay-Follows n to now =
    Follows-of_same n (stay n to now) (ground arith) (ground arith) (ground arith) (ground arith)

enter-Follows : (n : Node) (to : NodeState) (now : ℕ) → Edge n.state to → Follows n (enter n to now)
enter-Follows n provisioning now e = record {
  path = then e here;
  same_id = refl;
  same_label = refl;
  same_created = refl;
}
enter-Follows n ready now e = record {
  path = then e here;
  same_id = refl;
  same_label = refl;
  same_created = refl;
}
enter-Follows n draining now e = record {
  path = then e here;
  same_id = refl;
  same_label = refl;
  same_created = refl;
}
enter-Follows n destroying now e = record {
  path = then e here;
  same_id = refl;
  same_label = refl;
  same_created = refl;
}

-- The entry of a node that was `n` before.
abbrev FollowsIn : Node → ℕ → NodeManager → Type 0
FollowsIn n id m = (n' : Node) × (get_node m id ≡ some n') × Follows n n'

module _ (nm : NodeManager) (id : ℕ) (n : Node) (tracked : get_node nm id ≡ some n) where
  unchanged : FollowsIn n id nm
  unchanged = (n, tracked, Follows-refl n)

  -- A write of any entry by a node that follows it.
  insert-FollowsIn :
      (k : ℕ) (v w : Node)
      → lookup k nm.nodes ≡ some v
      → Follows v w
      → FollowsIn n id (record nm { nodes = insert k w nm.nodes })
  unfolding get_node
  insert-FollowsIn k v w e f = elim (Bool-cases (k == id)) [
    | inl hit ↦ (
      w,
      ground (arith, lookup-insert id k w nm.nodes),
      (let v≡n : v ≡ n = ground arith in rw v≡n at f),
    )
    | inr miss ↦ (n, ground (arith, lookup-insert id k w nm.nodes), Follows-refl n)
  ]

  add_node-FollowsIn :
      (k : ℕ) (label : String) (now : ℕ) → FollowsIn n id (add_node nm k label now).0
  add_node-FollowsIn k label now = elim (Result-cases (add_node nm k label now).1) [
    | inl (v, e) ↦ (n, ground (arith, get_node-add_node nm k id label now e), Follows-refl n)
    | inr (x, e) ↦ rw (add_node_refused nm k label now e) unchanged
  ]

  apply-FollowsIn : (c : Call) → c ≢ removes id → FollowsIn n id (apply nm c)
  unfolding apply
  apply-FollowsIn (adds k label now) h = add_node-FollowsIn k label now
  apply-FollowsIn (transitions k to now) h =
      transition_cases (FollowsIn n id) nm k to now unchanged
        (λ v e s. insert-FollowsIn k v (stay v to now) e (stay-Follows v to now))
        (λ v e a.
          insert-FollowsIn k v (enter v to now) e
            (enter-Follows v to now (allows→Edge v.state to a)))
  apply-FollowsIn (removes k) h =
      (n, get_node-remove_node_ne nm k id (λ p. h (ap removes (sym p))) ∙ tracked, Follows-refl n)
  apply-FollowsIn (sets_ip k ip) h = set_node_ip_cases (FollowsIn n id) nm k ip unchanged (λ v e.
      insert-FollowsIn k v (record v { ipv4 = ip }) e
        (Follows-of_same v (record v { ipv4 = ip }) refl refl refl refl))
  apply-FollowsIn (sets_drain_lock k locked) h =
      set_drain_lock_cases (FollowsIn n id) nm k locked unchanged (λ v e.
        insert-FollowsIn k v (record v { drain_locked = locked }) e
          (Follows-of_same v (record v { drain_locked = locked }) refl refl refl refl))

-- As long as no call removes it, a tracked node stays tracked, its state moves only along the
-- diagram, and its Linode ID, label and creation time stay what they were.
pub apply_all-Follows :
    (nm : NodeManager) (id : ℕ) (n : Node) (cs : List Call)
    → get_node nm id ≡ some n
    → All (λ c. c ≢ removes id) cs
    → (n' : Node) × (get_node (apply_all nm cs) id ≡ some n') × Follows n n'
unfolding apply_all
apply_all-Follows nm id n [] e h = (n, e, Follows-refl n)
apply_all-Follows nm id n (c ∷ cs) e h =
    let (m, e', f) = apply-FollowsIn nm id n e c h.0 in
    let (n', e'', g) = apply_all-Follows (apply nm c) id m cs e' h.1 in (n', e'', Follows-trans f g)

Reaches-destroying : {s t : NodeState} → Reaches s t → s ≡ destroying → t ≡ destroying
Reaches-destroying here e = e
Reaches-destroying (then boots p) e = cc
Reaches-destroying (then fails p) e = cc
Reaches-destroying (then drains p) e = cc
Reaches-destroying (then destroys p) e = cc
