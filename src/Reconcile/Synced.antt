-- ===== src/Reconcile/Synced.antt =====
-- Which nodes are tracked after the reconciliation of orchestrator/orchestrator.go.
use serverless_gpu_linode.Common.Assoc.{
  lookup, insert, IsDistinct, lookup-remove, lookup-insert, All-lookup,
}
use serverless_gpu_linode.Common.{
  ℕ, String, ◌≡◌, ◌≢◌, ap, refl, ◌∙◌, sym, inl, inr, Bool, true, false, ◌||◌, ◌&&◌, not, List, [],
  ◌∷◌, map, none, some, Result-cases, Option-cases, Bool-cases, if◌then◌else◌, str_eq, arith, any,
  All, ◌==◌, ==_iff,
}
use serverless_gpu_linode.StateMachine.{
  provisioning, ready, Node, NodeManager, same_state, add_node, transition_node, remove_node,
  get_node, set_node_ip, all_nodes, NodeState, enter, valid_transitions,
}
use serverless_gpu_linode.StateMachine.Lookup.{
  get_node-add_node, add_node_refused, get_node-transition_node_ne, get_node-set_node_ip_ne,
}
use serverless_gpu_linode.StateMachine.Invariant.{IsEntry, IsWellFormed}
use serverless_gpu_linode.Cloud.{CloudNode}
use serverless_gpu_linode.Reconcile.{
  is_cloud_node_running, refresh, sync_node, sync_nodes, seen, drop_stale, reconcile_nodes,
}
use serverless_gpu_linode.Reconcile.Entries.{sync_node_keeps, sync_nodes-IsWellFormed}

-- An `AddNode` of one node leaves the others.
get_node-add_node_ne :
    (nm : NodeManager) (id j : ℕ) (label : String) (now : ℕ)
    → j ≢ id
    → get_node (add_node nm id label now).0 j ≡ get_node nm j
get_node-add_node_ne nm id j label now other = elim (Result-cases (add_node nm id label now).1) [
  | inl (n, h) ↦ (get_node-add_node nm id j label now h).2 other
  | inr (x, h) ↦ ap (λ m. get_node m j) (add_node_refused nm id label now h)
]

get_node-sync_node_ne :
    (nm : NodeManager) (cn : CloudNode) (now j : ℕ)
    → j ≢ cn.linode_id
    → get_node (sync_node nm cn now).0 j ≡ get_node nm j
get_node-sync_node_ne nm cn now j other =
    sync_node_keeps (λ m. get_node m j ≡ get_node nm j) cn now
      (λ m p. get_node-set_node_ip_ne m cn.linode_id j other cn.ipv4 ∙ p)
      (λ m p. get_node-transition_node_ne m cn.linode_id j other ready now ∙ p) nm
      (λ _. get_node-add_node_ne nm cn.linode_id j cn.label now other) refl

-- The first loop leaves the nodes that the provider does not list.
get_node-sync_nodes_unseen :
    (nm : NodeManager) (changed : Bool) (cns : List CloudNode) (now j : ℕ)
    → seen cns j ≡ false
    → get_node (sync_nodes nm changed cns now).0 j ≡ get_node nm j
unfolding sync_nodes any
get_node-sync_nodes_unseen nm changed [] now j h = refl
get_node-sync_nodes_unseen nm changed (cn ∷ rest) now j h = ground (
  arith,
  get_node-sync_nodes_unseen (sync_node nm cn now).0 (changed || (sync_node nm cn now).1) rest now
      j,
  get_node-sync_node_ne nm cn now j,
)

-- The second loop removes a node.
abbrev pub stale : List CloudNode → Node → Bool
stale cns n = not (seen cns n.linode_id || same_state n.state provisioning)

get_node-remove_node_if :
    (nm : NodeManager) (id j : ℕ)
    → get_node (remove_node nm id) j ≡ (if id == j then none else get_node nm j)
unfolding get_node remove_node
get_node-remove_node_if nm id j = lookup-remove j id nm.nodes

pub get_node-drop_stale :
    (cns : List CloudNode) (nm : NodeManager) (changed : Bool) (ns : List Node) (j : ℕ)
    → get_node (drop_stale cns nm changed ns).0 j
      ≡ (if any (λ n. (n.linode_id == j) && stale cns n) ns then none else get_node nm j)
unfolding drop_stale any
get_node-drop_stale cns nm changed [] j = refl
get_node-drop_stale cns nm changed (n ∷ rest) j = ground (
  arith,
  get_node-drop_stale cns nm changed rest j,
  get_node-drop_stale cns (remove_node nm n.linode_id) true rest j,
  get_node-remove_node_if nm n.linode_id j,
)

pub any-lookup :
    (p : Node → Bool) (m : List (ℕ × Node)) (j : ℕ)
    → IsDistinct m
    → All IsEntry m
    → any (λ n. (n.linode_id == j) && p n) (map (λ e. e.1) m)
      ≡ (elim (lookup j m) [ none ↦ false | some n ↦ p n ])
unfolding any lookup
any-lookup p [] j d a = refl
any-lookup p ((k, n) ∷ m) j d a = ground (arith, any-lookup p m j d.1 a.1)

-- For a well-formed node manager: a node that is tracked and that the provider does not list is
-- forgotten, whatever its state is, except while it is provisioning; then its entry does not
-- change. One that is not tracked and not listed is not added.
pub reconcile_nodes_unlisted :
    (nm : NodeManager) (cns : List CloudNode) (now j : ℕ)
    → IsWellFormed nm
    → seen cns j ≡ false
    → get_node (reconcile_nodes nm cns now).0 j ≡ (elim (get_node nm j) [
      | none ↦ none
      | some n ↦ if same_state n.state provisioning then some n else none
    ])
unfolding reconcile_nodes get_node
reconcile_nodes_unlisted nm cns now j v h =
    let nm' = (sync_nodes nm false cns now).0 in
    let v' = sync_nodes-IsWellFormed nm false cns now v in
    let same = get_node-sync_nodes_unseen nm false cns now j h in
    let dropped = get_node-drop_stale cns nm' (sync_nodes nm false cns now).1 (all_nodes nm') j in
    let found = any-lookup (stale cns) nm'.nodes j v'.distinct v'.entries in
    elim (Option-cases (lookup j nm.nodes)) [
      | inl e ↦ rw (e, dropped, found, same, e) refl
      | inr (n, e) ↦
          let own = (All-lookup IsEntry j n nm.nodes v.entries e).0 in
          rw (e, dropped, found, same, e, own, h) (ground arith)
    ]

-- The address that a tracked node has after a step for its listing, and its state.
abbrev synced : Node → CloudNode → ℕ → Node
synced n cn now =
    let m : Node =
      if not (str_eq cn.ipv4 "") && not (str_eq n.ipv4 cn.ipv4)
      then record n { ipv4 = cn.ipv4 }
      else n in
    if is_cloud_node_running cn.status && same_state n.state provisioning
    then enter m ready now
    else m

get_node-sync_node :
    (nm : NodeManager) (cn : CloudNode) (now : ℕ) (n : Node)
    → get_node nm cn.linode_id ≡ some n
    → get_node (sync_node nm cn now).0 cn.linode_id ≡ some (synced n cn now)
unfolding sync_node get_node refresh set_node_ip transition_node valid_transitions
get_node-sync_node nm cn now n e = ground (
  arith,
  lookup-insert cn.linode_id cn.linode_id (record n { ipv4 = cn.ipv4 }) nm.nodes,
  lookup-insert cn.linode_id cn.linode_id (enter n ready now) nm.nodes,
  lookup-insert cn.linode_id cn.linode_id (enter (record n { ipv4 = cn.ipv4 }) ready now)
      (insert cn.linode_id (record n { ipv4 = cn.ipv4 }) nm.nodes),
)

-- The state of a node after its listings: a provisioning node becomes ready where one of them says
-- that it is running.
abbrev pub settled : List CloudNode → ℕ → NodeState → NodeState
settled cns j s =
    if same_state s provisioning
      && any (λ cn. (cn.linode_id == j) && is_cloud_node_running cn.status) cns
    then ready
    else s

synced-state :
    (n : Node) (cn : CloudNode) (now : ℕ) (rest : List CloudNode) (j : ℕ)
    → cn.linode_id ≡ j
    → settled rest j (synced n cn now).state ≡ settled (cn ∷ rest) j n.state
unfolding any
synced-state n cn now rest j h = ground arith

skipped-state :
    (n : Node) (cn : CloudNode) (rest : List CloudNode) (j : ℕ)
    → (cn.linode_id == j) ≡ false
    → settled rest j n.state ≡ settled (cn ∷ rest) j n.state
unfolding any
skipped-state n cn rest j h = ground arith

-- The node is tracked in that state.
abbrev pub IsSettled : NodeManager → ℕ → NodeState → Type 0
IsSettled nm j s = (m : Node) × (get_node nm j ≡ some m) × (m.state ≡ s)

sync_nodes-IsSettled :
    (nm : NodeManager) (changed : Bool) (cns : List CloudNode) (now j : ℕ) (n : Node)
    → get_node nm j ≡ some n
    → IsSettled (sync_nodes nm changed cns now).0 j (settled cns j n.state)
unfolding sync_nodes any
sync_nodes-IsSettled nm changed [] now j n e = (n, e, ground arith)
sync_nodes-IsSettled nm changed (cn ∷ rest) now j n e = elim (Bool-cases (cn.linode_id == j)) [
  | inl own ↦
      let id : cn.linode_id ≡ j = (==_iff cn.linode_id j).0 own in
      let next = get_node-sync_node nm cn now n (ap (get_node nm) id ∙ e) in
      let (m, found, state) =
        sync_nodes-IsSettled (sync_node nm cn now).0 (changed || (sync_node nm cn now).1) rest now j
          (synced n cn now) (sym (ap (get_node (sync_node nm cn now).0) id) ∙ next) in
      (m, found, state ∙ synced-state n cn now rest j id)
  | inr other ↦
      let next = get_node-sync_node_ne nm cn now j (λ q. ground arith) in
      let (m, found, state) =
        sync_nodes-IsSettled (sync_node nm cn now).0 (changed || (sync_node nm cn now).1) rest now j
          n (next ∙ e) in
      (m, found, state ∙ skipped-state n cn rest j other)
]

pub listed-stale :
    (cns : List CloudNode) (j : ℕ) (ns : List Node)
    → seen cns j ≡ true
    → any (λ n. (n.linode_id == j) && stale cns n) ns ≡ false
unfolding any
listed-stale cns j [] h = refl
listed-stale cns j (n ∷ rest) h = elim (Bool-cases (n.linode_id == j)) [
  | inr other ↦ rw (other) (listed-stale cns j rest h)
  | inl own ↦ rw ((==_iff n.linode_id j).0 own, h) (ground (arith, listed-stale cns j rest h))
]

-- A node that is tracked and that the provider lists stays tracked: one that was provisioning is
-- ready afterwards if a listing of it says that it is running, and in every other case its state
-- is what it was.
pub reconcile_nodes_listed :
    (nm : NodeManager) (cns : List CloudNode) (now j : ℕ) (n : Node)
    → get_node nm j ≡ some n
    → seen cns j ≡ true
    → IsSettled (reconcile_nodes nm cns now).0 j (settled cns j n.state)
unfolding reconcile_nodes
reconcile_nodes_listed nm cns now j n e h =
    let nm' = (sync_nodes nm false cns now).0 in
    let (m, found, state) = sync_nodes-IsSettled nm false cns now j n e in
    let kept = get_node-drop_stale cns nm' (sync_nodes nm false cns now).1 (all_nodes nm') j in
    (
      m,
      kept
          ∙ ap (λ b. if b then none else get_node nm' j) (listed-stale cns j (all_nodes nm') h)
          ∙ found,
      state,
    )
