-- ===== src/Monitor/Instances/Started.antt =====
-- The provider's instances from the start of `Run` (orchestrator/orchestrator.go) on.
use serverless_gpu_linode.Common.{
  ℕ, ◌≤◌, ◌≡◌, true, false, ◌||◌, List, [], ◌∷◌, ok, length, arith, any, count_if,
}
use serverless_gpu_linode.StateMachine.{NodeManager, new_node_manager}
use serverless_gpu_linode.StateMachine.Invariant.{IsWellFormed, new_node_manager-IsWellFormed}
use serverless_gpu_linode.StateMachine.Kept.{IsWellFormed-Kept}
use serverless_gpu_linode.Cloud.{CloudNode, CloudProvider}
use serverless_gpu_linode.Cloud.Linode.{
  LinodeApi, LinodeClient, Schedule, linode_provider, list_managed_nodes,
}
use serverless_gpu_linode.Discovery.{Disk}
use serverless_gpu_linode.JetStream.{JetStream}
use serverless_gpu_linode.Connection.{Nats}
use serverless_gpu_linode.Orchestrator.{Config, Orchestrator, new_orchestrator}
use serverless_gpu_linode.Reconcile.{reconcile_listed, reconcile_with_cloud}
use serverless_gpu_linode.Monitor.{Turn, run_turns}
use serverless_gpu_linode.Monitor.Start.{prepare}
use serverless_gpu_linode.Monitor.Start.Bounded.{prepare_keeps}
use serverless_gpu_linode.Monitor.Instances.{
  Lifetime, live, is_tracked, holds, Provides, Leaves, accounted, loses,
}
use serverless_gpu_linode.Monitor.Instances.Goroutines.{file-same}
use serverless_gpu_linode.Monitor.Instances.Loop.{reconcile-lifetime, reconcile-nodes}
use serverless_gpu_linode.Monitor.Instances.Recovery.{count_new, reconcile_nodes-adopts}
use serverless_gpu_linode.Monitor.Instances.Linode.{
  Serves, linode-Provides, linode_instance_is_known,
}

-- Nothing is tracked at the start.
count_new_at_most : (nm : NodeManager) (cns : List CloudNode) → count_new nm cns ≤ length cns
unfolding count_new count_if
count_new_at_most nm [] = omega arith
count_new_at_most nm (cn ∷ rest) = ground (arith, count_new_at_most nm rest)

module _ {W C : Type 0} (nats : Nats W C (JetStream W)) (cloud : CloudProvider W) (disk : Disk W)
    (js : JetStream W) (lifetime : W → ℕ → Lifetime) (law : Provides cloud lifetime)
    (quiet : Leaves disk js lifetime) where
  prepare-accounted :
      (cfg : Config) (w : W) (now j : ℕ) (cloud_nodes : List CloudNode)
      → (cloud.list_managed_nodes w).1 ≡ ok cloud_nodes
      → length cloud_nodes ≤ cfg.max_nodes
      → accounted lifetime (prepare nats cloud disk (new_orchestrator cfg w) now) j ≡ true
  unfolding prepare reconcile_with_cloud accounted new_orchestrator new_node_manager any
  prepare-accounted cfg w now j cloud_nodes listing room =
      let o : Orchestrator W = record (new_orchestrator cfg w) {
        world = (cloud.list_managed_nodes w).0;
      } in
      let o' = reconcile_listed cloud disk o cloud_nodes now in
      let same =
        file-same cloud disk js lifetime law quiet o'.world o'.cfg.prometheus_targets_file o'.nodes
          j in
      let before = reconcile-lifetime cloud disk js lifetime law quiet o cloud_nodes now j in
      let nodes = reconcile-nodes cloud disk js lifetime law quiet o cloud_nodes now in
      let fits = count_new_at_most o.nodes cloud_nodes in
      let adopted = reconcile_nodes-adopts o.nodes cloud_nodes now j (omega (arith, room, fits)) in
      ground (
        arith,
        listing,
        same,
        before,
        nodes,
        adopted,
        law.lists w j,
        law.lists_live w j cloud_nodes listing,
      )

module _ {W C : Type 0} (nats : Nats W C (JetStream W)) (api : LinodeApi W) (l : LinodeClient)
    (runtime : W → ℕ → Schedule) (lifetime : W → ℕ → Lifetime)
    (serves : Serves api l.managed_tags lifetime) (disk : Disk W) (js : JetStream W)
    (quiet : Leaves disk js lifetime) where
  -- With `LinodeClient` as the provider, under the assumptions on the API: if at the start of `Run`
  -- the provider's list can be fetched and is not longer than `MaxNodes`, then in every
  -- interleaving of the loop with the goroutines from there on, an instance that is live at the
  -- end, whether it was there before the start or has been created since, is tracked by the node
  -- manager or held by a goroutine: a `ScaleUp` that has created it and has not yet tracked or
  -- deleted it, or a `waitForNodeReady` that has failed and is about to delete it. The one
  -- exception is a turn that loses sight of it: the deletion after its tracking or its wait has
  -- failed fails too, or its wait ends between the list, on which it does not stand yet, and the
  -- loop's reconciling with that list.
  pub started_instance_is_known :
      (cfg : Config) (w : W) (now j : ℕ) (cloud_nodes : List CloudNode) (ts : List Turn)
      → (list_managed_nodes api l w).1 ≡ ok cloud_nodes
      → length cloud_nodes ≤ cfg.max_nodes
      → let cloud = linode_provider api l runtime in
        let s = prepare nats cloud disk (new_orchestrator cfg w) now in
        let s' = run_turns cloud disk js s ts in
        loses cloud disk js s ts j ≡ false
        → lifetime s'.orchestrator.world j ≡ live
        → (is_tracked s'.orchestrator.nodes j || any (holds j) s'.goroutines) ≡ true
  unfolding new_orchestrator
  started_instance_is_known cfg w now j cloud_nodes ts listing room safe alive =
      let cloud = linode_provider api l runtime in
      let s = prepare nats cloud disk (new_orchestrator cfg w) now in
      let formed =
        prepare_keeps nats cloud disk IsWellFormed IsWellFormed-Kept (new_orchestrator cfg w) now
          (new_node_manager-IsWellFormed cfg.max_nodes) in
      let known =
        prepare-accounted nats cloud disk js lifetime
          (linode-Provides api l runtime lifetime serves) quiet cfg w now j cloud_nodes listing
          room in
      linode_instance_is_known api l runtime lifetime serves disk js quiet s ts j formed known safe
        alive
