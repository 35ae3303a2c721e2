-- ===== src/Reconcile/Alike.antt =====
-- The reconciliation of orchestrator/orchestrator.go on two node managers with the same entries, over
-- which Go iterates in different orders.
use serverless_gpu_linode.Common.{
  ℕ, ◌≡◌, ◌∙◌, ap, sym, refl, inl, inr, Bool, true, false, ◌||◌, ◌&&◌, List, [], ◌∷◌, arith,
  if◌then◌else◌, Option-cases, Result-cases, any, ◌==◌,
}
use serverless_gpu_linode.StateMachine.{
  ready, Node, NodeManager, add_node, remove_node, get_node, all_nodes,
}
use serverless_gpu_linode.StateMachine.Order.{any-perm}
use serverless_gpu_linode.StateMachine.Alike.{
  Alike, Alike-perm, Alike-get_node, Alike-add_node, Alike-add_node_answer, Alike-set_node_ip,
  Alike-set_node_ip_answer, Alike-transition_node, Alike-transition_node_answer,
}
use serverless_gpu_linode.Cloud.{CloudNode}
use serverless_gpu_linode.Reconcile.{
  refresh_ip, refresh_state, refresh, sync_node, sync_nodes, drop_stale, reconcile_nodes,
}
use serverless_gpu_linode.Reconcile.Entries.{
  refresh_ip-manager, refresh_state-manager, drop_stale_keeps,
}
use serverless_gpu_linode.Reconcile.Synced.{stale, get_node-drop_stale}
use serverless_gpu_linode.StateMachine.Invariant.{IsWellFormed}
use serverless_gpu_linode.StateMachine.Kept.{IsWellFormed-Kept, HasCap, HasCap-Kept}

-- The same answer, and like node managers.
abbrev Agree : NodeManager × Bool → NodeManager × Bool → Type 0
Agree (nm, b) (nm', b') = Alike nm nm' × (b ≡ b')

if_Alike :
    (b : Bool) {x y x' y' : NodeManager}
    → Alike x x'
    → Alike y y'
    → Alike (if b then x else y) (if b then x' else y')
if_Alike true p q = p
if_Alike false p q = q

module _ (cn : CloudNode) (now : ℕ) where
  refresh_ip-Agree :
      (nm nm' : NodeManager) (node : Node)
      → Alike nm nm'
      → Agree (refresh_ip nm node cn) (refresh_ip nm' node cn)
  refresh_ip-Agree nm nm' node a = (
    rw (refresh_ip-manager nm node cn, refresh_ip-manager nm' node cn)
        (if_Alike _ (Alike-set_node_ip nm nm' a cn.linode_id cn.ipv4) a),
    ground (arith, Alike-set_node_ip_answer nm nm' a cn.linode_id cn.ipv4),
  )

  refresh_state-Agree :
      (nm nm' : NodeManager) (node : Node)
      → Alike nm nm'
      → Agree (refresh_state nm node cn now) (refresh_state nm' node cn now)
  refresh_state-Agree nm nm' node a = (
    rw (refresh_state-manager nm node cn now, refresh_state-manager nm' node cn now)
        (if_Alike _ (Alike-transition_node nm nm' a cn.linode_id ready now) a),
    ground (arith, Alike-transition_node_answer nm nm' a cn.linode_id ready now),
  )

  refresh-Agree :
      (nm nm' : NodeManager) (node : Node)
      → Alike nm nm'
      → Agree (refresh nm node cn now) (refresh nm' node cn now)
  unfolding refresh
  refresh-Agree nm nm' node a =
      let (b, moved) = refresh_ip-Agree nm nm' node a in
      let (c, started) =
        refresh_state-Agree (refresh_ip nm node cn).0 (refresh_ip nm' node cn).0 node b in
      (c, ground arith)

  sync_node-Agree :
      (nm nm' : NodeManager) → Alike nm nm' → Agree (sync_node nm cn now) (sync_node nm' cn now)
  unfolding sync_node
  sync_node-Agree nm nm' a =
      let id = cn.linode_id in
      let got = Alike-get_node nm nm' a id in
      let added = Alike-add_node_answer nm nm' a id cn.label now in
      let b = Alike-add_node nm nm' a id cn.label now in
      elim (Option-cases (get_node nm id)) [
        | inr (node, e) ↦ rw (e, sync_node, sym got ∙ e) (refresh-Agree nm nm' node a)
        | inl e ↦ elim (Result-cases (add_node nm id cn.label now).1) [
          | inr (x, h) ↦ rw (e, sync_node, sym got ∙ e, h, sym added ∙ h) (b, refl)
          | inl (node, h) ↦
              rw (e, sync_node, sym got ∙ e, h, sym added ∙ h)
                (
                  (refresh-Agree (add_node nm id cn.label now).0 (add_node nm' id cn.label now).0
                      node b).0,
                  refl,
                )
        ]
      ]

sync_nodes-Agree :
    (nm nm' : NodeManager) (changed : Bool) (cns : List CloudNode) (now : ℕ)
    → Alike nm nm'
    → Agree (sync_nodes nm changed cns now) (sync_nodes nm' changed cns now)
unfolding sync_nodes
sync_nodes-Agree nm nm' changed [] now a = (a, refl)
sync_nodes-Agree nm nm' changed (cn ∷ rest) now a =
    let (b, same) = sync_node-Agree cn now nm nm' a in
    rw (sync_nodes, ← same)
      (sync_nodes-Agree (sync_node nm cn now).0 (sync_node nm' cn now).0
        (changed || (sync_node nm cn now).1) rest now b)

drop_stale-changed :
    (cns : List CloudNode) (nm : NodeManager) (changed : Bool) (ns : List Node)
    → (drop_stale cns nm changed ns).1 ≡ (changed || any (stale cns) ns)
unfolding drop_stale any
drop_stale-changed cns nm changed [] = ground arith
drop_stale-changed cns nm changed (n ∷ rest) = ground (
  arith,
  drop_stale-changed cns nm changed rest,
  drop_stale-changed cns (remove_node nm n.linode_id) true rest,
)

drop_stale-Agree :
    (cns : List CloudNode) (nm nm' : NodeManager) (changed : Bool)
    → Alike nm nm'
    → Agree (drop_stale cns nm changed (all_nodes nm)) (drop_stale cns nm' changed (all_nodes nm'))
unfolding get_node
drop_stale-Agree cns nm nm' changed a =
    let ns = all_nodes nm in
    let ns' = all_nodes nm' in
    let order = Alike-perm nm nm' a in
    (
      record {
        formed = drop_stale_keeps IsWellFormed IsWellFormed-Kept cns nm changed ns a.formed;
        formed' = drop_stale_keeps IsWellFormed IsWellFormed-Kept cns nm' changed ns' a.formed';
        cap =
            drop_stale_keeps (HasCap nm.max_nodes) (HasCap-Kept nm.max_nodes) cns nm changed ns refl
            ∙ a.cap
            ∙ sym (
                drop_stale_keeps (HasCap nm'.max_nodes) (HasCap-Kept nm'.max_nodes) cns nm' changed
                  ns' refl);
        same = λ j.
            get_node-drop_stale cns nm changed ns j
            ∙ rw (any-perm (λ n. (n.linode_id == j) && stale cns n) order, a.same j) refl
            ∙ sym (get_node-drop_stale cns nm' changed ns' j);
      },
      drop_stale-changed cns nm changed ns
          ∙ ap (λ b. changed || b) (any-perm (stale cns) order)
          ∙ sym (drop_stale-changed cns nm' changed ns'),
    )

-- Both loops leave like node managers, and say the same of whether something changed.
pub reconcile_nodes-Agree :
    (nm nm' : NodeManager) (cns : List CloudNode) (now : ℕ)
    → Alike nm nm'
    → Agree (reconcile_nodes nm cns now) (reconcile_nodes nm' cns now)
unfolding reconcile_nodes
reconcile_nodes-Agree nm nm' cns now a =
    let (b, same) = sync_nodes-Agree nm nm' false cns now a in
    rw (← same) (
      drop_stale-Agree cns (sync_nodes nm false cns now).0 (sync_nodes nm' false cns now).0
        (sync_nodes nm false cns now).1 b)
