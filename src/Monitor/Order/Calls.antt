-- ===== src/Monitor/Order/Calls.antt =====
-- The other parts of the goroutines of orchestrator/scaler.go, and the reconciliation of
-- orchestrator/orchestrator.go, beside two orders of the map of nodes.
use serverless_gpu_linode.Common.{
  ℕ, ◌-◌, String, ◌∙◌, sym, refl, inl, inr, List, ◌∷◌, arith, Option-cases, Result-cases,
  Bool-cases,
}
use serverless_gpu_linode.StateMachine.{
  ready, destroying, NodeManager, add_node, transition_node, remove_node, set_node_ip,
}
use serverless_gpu_linode.StateMachine.Order.{active_count-perm}
use serverless_gpu_linode.StateMachine.Alike.{
  Alike, Alike-perm, Alike-add_node, Alike-add_node_answer, Alike-set_node_ip, Alike-remove_node,
  Alike-set_node_ip_answer, Alike-transition_node, Alike-transition_node_answer,
}
use serverless_gpu_linode.Cloud.{CloudNode, CloudProvider}
use serverless_gpu_linode.Discovery.{Disk}
use serverless_gpu_linode.Discovery.Order.{Unordered, write_targets_file-perm}
use serverless_gpu_linode.Orchestrator.{Orchestrator}
use serverless_gpu_linode.Reconcile.{reconcile_nodes, reconcile_listed}
use serverless_gpu_linode.Reconcile.Alike.{reconcile_nodes-Agree}
use serverless_gpu_linode.Scaler.Actions.{
  Created, count_nodes, write_targets, scale_up_create, scale_up_add, scale_down_destroy, scaled,
  scale_down_finish, wait_failed_begin, wait_failed_end, wait_running,
}
use serverless_gpu_linode.Monitor.Order.{with_nodes}
use serverless_gpu_linode.Monitor.Order.Actions.{Similar, Answers, counts-same}

module _ {W : Type 0} (cloud : CloudProvider W) where
  pub create-Answers :
      (o : Orchestrator W) (nm : NodeManager) (a : Alike o.nodes nm) (now : ℕ)
      → Answers (scale_up_create cloud o now) (scale_up_create cloud (with_nodes nm o) now)
  unfolding scale_up_create
  create-Answers o nm a now =
      let active = active_count-perm o.nodes nm (Alike-perm o.nodes nm a) in
      ((ground (arith, active, a), ground (arith, active)), ground (arith, active))

  pub track-Answers :
      (o : Orchestrator W) (nm : NodeManager) (a : Alike o.nodes nm) (c : Created) (now : ℕ)
      → Answers (scale_up_add o c now) (scale_up_add (with_nodes nm o) c now)
  unfolding scale_up_add
  track-Answers o nm a c now =
      let answer = Alike-add_node_answer o.nodes nm a c.id c.label now in
      let b = Alike-add_node o.nodes nm a c.id c.label now in
      let m₁ = (add_node o.nodes c.id c.label now).0 in
      let n₁ = (add_node nm c.id c.label now).0 in
      let counts = counts-same o m₁ n₁ b in
      elim (Result-cases (add_node o.nodes c.id c.label now).1) [
        | inl (n, e) ↦ rw (scale_up_add, e, sym answer ∙ e, counts) ((b, refl), refl)
        | inr (x, e) ↦ rw (scale_up_add, e, sym answer ∙ e) ((a, refl), refl)
      ]

  pub destroy-Answers :
      (o : Orchestrator W) (nm : NodeManager) (a : Alike o.nodes nm) (id : ℕ)
      → Answers (scale_down_destroy cloud o id) (scale_down_destroy cloud (with_nodes nm o) id)
  unfolding scale_down_destroy
  destroy-Answers o nm a id = ((ground (arith, a), ground (arith)), ground (arith))

module _ {W : Type 0} (cloud : CloudProvider W) (disk : Disk W) (unordered : Unordered disk) where
  write-Similar :
      (o : Orchestrator W) (m n : NodeManager)
      → Alike m n
      → Similar
          (write_targets cloud disk (count_nodes (with_nodes m o)))
          (write_targets cloud disk (count_nodes (with_nodes n o)))
  write-Similar o m n a = (
    a,
    rw
        (
          counts-same o m n a o.metrics,
          write_targets_file-perm disk unordered o.world o.cfg.prometheus_targets_file m n
              (Alike-perm m n a),
        )
        refl,
  )

  pub finish-Similar :
      (o : Orchestrator W) (nm : NodeManager) (a : Alike o.nodes nm) (id active now : ℕ)
      → Similar
          (scale_down_finish cloud disk o id active now)
          (scale_down_finish cloud disk (with_nodes nm o) id active now)
  unfolding scale_down_finish
  finish-Similar o nm a id active now =
      write-Similar (scaled o "down" active (active - 1) now) (remove_node o.nodes id)
        (remove_node nm id) (Alike-remove_node o.nodes nm a id)

  pub begin-Similar :
      (o : Orchestrator W) (nm : NodeManager) (a : Alike o.nodes nm) (id now : ℕ)
      → Similar (wait_failed_begin o id now) (wait_failed_begin (with_nodes nm o) id now)
  unfolding wait_failed_begin
  begin-Similar o nm a id now = (Alike-transition_node o.nodes nm a id destroying now, refl)

  pub end-Similar :
      (o : Orchestrator W) (nm : NodeManager) (a : Alike o.nodes nm) (id : ℕ)
      → Similar (wait_failed_end o id) (wait_failed_end (with_nodes nm o) id)
  unfolding wait_failed_end
  end-Similar o nm a id =
      let b = Alike-remove_node o.nodes nm a id in
      (b, rw (counts-same o (remove_node o.nodes id) (remove_node nm id) b o.metrics) refl)

  pub running-Similar :
      (o : Orchestrator W) (nm : NodeManager) (a : Alike o.nodes nm) (id born : ℕ) (ip : String)
      (now : ℕ)
      → Similar
          (wait_running cloud disk o id born ip now)
          (wait_running cloud disk (with_nodes nm o) id born ip now)
  unfolding wait_running
  running-Similar o nm a id born ip now =
      let t₁ = Alike-set_node_ip_answer o.nodes nm a id ip in
      let a₁ = Alike-set_node_ip o.nodes nm a id ip in
      let m₁ = (set_node_ip o.nodes id ip).0 in
      let n₁ = (set_node_ip nm id ip).0 in
      let t₂ = Alike-transition_node_answer m₁ n₁ a₁ id ready now in
      let a₂ = Alike-transition_node m₁ n₁ a₁ id ready now in
      let m₂ = (transition_node m₁ id ready now).0 in
      let n₂ = (transition_node n₁ id ready now).0 in
      elim (Option-cases (set_node_ip o.nodes id ip).1) [
        | inr (x, e) ↦ rw (wait_running, e, sym t₁ ∙ e) (a, refl)
        | inl e ↦ elim (Option-cases (transition_node m₁ id ready now).1) [
          | inr (x, f) ↦ rw (wait_running, e, sym t₁ ∙ e, f, sym t₂ ∙ f) (a₂, refl)
          | inl f ↦
              rw (wait_running, e, sym t₁ ∙ e, f, sym t₂ ∙ f)
                (write-Similar
                  (record o {
                    metrics = record o.metrics {
                      provisioning_latency = (now - born) ∷ o.metrics.provisioning_latency;
                    };
                  })
                  m₂ n₂ a₂)
        ]
      ]

  pub listed-Similar :
      (o : Orchestrator W) (nm : NodeManager) (a : Alike o.nodes nm) (cns : List CloudNode)
      (now : ℕ)
      → Similar
          (reconcile_listed cloud disk o cns now)
          (reconcile_listed cloud disk (with_nodes nm o) cns now)
  unfolding reconcile_listed
  listed-Similar o nm a cns now =
      let (b, same) = reconcile_nodes-Agree o.nodes nm cns now a in
      let m₁ = (reconcile_nodes o.nodes cns now).0 in
      let n₁ = (reconcile_nodes nm cns now).0 in
      elim (Bool-cases (reconcile_nodes o.nodes cns now).1) [
        | inl e ↦ rw (reconcile_listed, e, sym same ∙ e) (write-Similar o m₁ n₁ b)
        | inr e ↦ rw (reconcile_listed, e, sym same ∙ e) (b, refl)
      ]
