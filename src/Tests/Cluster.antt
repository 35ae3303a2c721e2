-- ===== src/Tests/Cluster.antt =====
-- The targets file, the reconciliation, the wait for a node, the tags and the streams at concrete
-- inputs.
use serverless_gpu_linode.Common.Assoc.{lookup}
use serverless_gpu_linode.Common.{
  ◌≡◌, refl, ◌⊎◌, String, ◌+++◌, List, [], ◌∷◌, Option, none, some, ok, err, arith, any, str_eq,
}
use serverless_gpu_linode.StateMachine.{ready, fresh_node, get_node, all_nodes, active_count}
use serverless_gpu_linode.StateMachine.Invariant.{IsWellFormed}
use serverless_gpu_linode.Cloud.{CloudNode}
use serverless_gpu_linode.Discovery.{write_targets_file}
use serverless_gpu_linode.Discovery.Targets.{expected, write_targets_file_lem}
use serverless_gpu_linode.Orchestrator.{Orchestrator}
use serverless_gpu_linode.Scaler.Actions.{wait_finish}
use serverless_gpu_linode.Scaler.Actions.Wait.{Arrived, wait_finish_failed, wait_finish_running}
use serverless_gpu_linode.Reconcile.{reconcile_nodes}
use serverless_gpu_linode.Reconcile.Synced.{
  IsSettled, reconcile_nodes_unlisted, reconcile_nodes_listed,
}
use serverless_gpu_linode.Tests.Fake.{World, start_world, fake_cloud, fake_disk}
use serverless_gpu_linode.Tests.Scaling.{warm, worker}

write_targets_file_lem_example :
    ((write_targets_file fake_disk start_world "targets.json" warm.nodes).0
      ≡ record start_world { file = expected (worker ∷ []) })
    × ((◌≡◌ {A = Option String} none none)
          × ((write_targets_file fake_disk start_world "targets.json" warm.nodes).1 ≡ none)
        ⊎ ((e : String) × (◌≡◌ {A = Option String} none (some e))
            × ((write_targets_file fake_disk start_world "targets.json" warm.nodes).1
                ≡ some ("failed to write targets file: " +++ e))))
unfolding str_eq all_nodes
write_targets_file_lem_example =
    write_targets_file_lem fake_disk start_world "targets.json" warm.nodes

-- A new node is provisioning beside the one that is ready.
abbrev growing : Orchestrator World
growing = record warm {
  nodes = record { nodes = (1000, worker) ∷ (1001, fresh_node 1001 "new" 650) ∷ []; max_nodes = 2 };
}

growing-IsWellFormed : IsWellFormed growing.nodes
unfolding lookup
growing-IsWellFormed = record {
  distinct = (refl, (refl, tt));
  bounded = omega arith;
  entries = ((refl, refl), ((refl, refl), tt));
}

-- The provider lists the new node, which runs, and not the other.
abbrev listing : List CloudNode
listing = (record { linode_id = 1001; label = "new"; ipv4 = "10.0.0.2"; status = "running" }) ∷ []

reconcile_nodes_unlisted_example :
    get_node (reconcile_nodes growing.nodes listing 700).0 1000 ≡ none
unfolding get_node any
reconcile_nodes_unlisted_example =
    reconcile_nodes_unlisted growing.nodes listing 700 1000 growing-IsWellFormed refl

reconcile_nodes_listed_example : IsSettled (reconcile_nodes growing.nodes listing 700).0 1001 ready
unfolding get_node any str_eq
reconcile_nodes_listed_example =
    reconcile_nodes_listed growing.nodes listing 700 1001 (fresh_node 1001 "new" 650) refl refl

wait_finish_failed_example :
    let o' = wait_finish fake_cloud fake_disk growing 1001 650 (err "timeout") 700 in
    (get_node o'.nodes 1001 ≡ none)
    × (get_node o'.nodes 1000 ≡ some worker)
    × (o'.world ≡ record start_world { destroyed = 1001 ∷ [] })
    × (o'.metrics.node_count ≡ active_count o'.nodes)
unfolding get_node
wait_finish_failed_example =
    wait_finish_failed fake_cloud fake_disk growing 1001 650 700 "timeout" 1000 (λ e. ground arith)

wait_finish_running_example :
    let o' = wait_finish fake_cloud fake_disk growing 1001 650 (ok "10.0.0.2") 700 in
    Arrived fake_cloud fake_disk
      (some (fresh_node 1001 "new" 650))
      (get_node o'.nodes 1001)
      "10.0.0.2"
    × (get_node o'.nodes 1000 ≡ some worker)
    × (o'.last_scale_event ≡ some 0)
unfolding get_node
wait_finish_running_example =
    wait_finish_running fake_cloud fake_disk growing 1001 650 700 "10.0.0.2" 1000
      (λ e. ground arith)
