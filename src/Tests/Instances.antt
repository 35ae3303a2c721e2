-- ===== src/Tests/Instances.antt =====
-- The instances of a provider that numbers them from 1 on, beside the nodes that are tracked.
use serverless_gpu_linode.Common.{
  ◌≤◌, length, ℕ, ◌+◌, ◌≡◌, refl, true, ◌||◌, List, [], ◌∷◌, ok, arith, select, any, count_if,
  str_eq,
}
use serverless_gpu_linode.Common.Assoc.{lookup, insert}
use serverless_gpu_linode.StateMachine.{
  new_node_manager, active_count, is_scaling_in_progress, get_node, add_node, transition_node,
  set_node_ip, all_nodes, nodes_by_state, ready_count, valid_transitions,
}
use serverless_gpu_linode.Scaler.{evaluate_scale_up, evaluate_scale_down, can_scale}
use serverless_gpu_linode.Scaler.Actions.{scale_up_create}
use serverless_gpu_linode.Discovery.{write_targets_file, collect_targets}
use serverless_gpu_linode.Cloud.Linode.{
  cloud_node, linode_provider, create_gpu_node, list_managed_nodes, managed_nodes,
  contains_all_tags, has_tag,
}
use serverless_gpu_linode.JetStream.{JetStream, get_queue_stats}
use serverless_gpu_linode.Orchestrator.{new_orchestrator}
use serverless_gpu_linode.Reconcile.{
  reconcile_listed, reconcile_nodes, sync_nodes, sync_node, refresh, drop_stale,
  reconcile_with_cloud,
}
use serverless_gpu_linode.Monitor.{
  System, selecting, Turn, loops, runs, turn, monitor, evaluate, schedule, advance, run_turns,
}
use serverless_gpu_linode.Monitor.Instances.{
  is_tracked, holds, loses, abandons, abandons_at, is_booting, accounted,
}
use serverless_gpu_linode.Monitor.Instances.Recovery.{count_new, tick_recovers}
use serverless_gpu_linode.Monitor.Instances.Linode.{linode-Provides}
use serverless_gpu_linode.Monitor.Instances.Started.{started_instance_is_known}
use serverless_gpu_linode.Monitor.Start.{prepare}
use serverless_gpu_linode.Connection.{Nats}
use serverless_gpu_linode.Tests.Lifetimes.{cfg}
use serverless_gpu_linode.Monitor.Instances.Costs.{is_holding}
use serverless_gpu_linode.Monitor.Instances.Budget.{live_instances_are_bounded}
use serverless_gpu_linode.Tests.Provider.{
  World, lifetime, instance_of, api, client, runtime, disk, js, serves, quiet,
}

abbrev empty_system : System World
empty_system = record {
  orchestrator = new_orchestrator cfg (record { next_id = 1; running = [] });
  phase = selecting;
  goroutines = [];
}

-- The first node is created, and the loop lists it before it is tracked.
abbrev turns : List Turn
turns = loops 1 ∷ loops 2 ∷ loops 3 ∷ runs 0 4 ∷ loops 5 ∷ loops 6 ∷ []

abbrev nats : Nats World World (JetStream World)
nats = record {
  connect = λ w url options. (w, ok w);
  jetstream = λ w nc. (w, ok js);
  close = λ w nc. w;
  is_connected = λ w nc. true;
}

abbrev first_world : World
first_world = record { next_id = 1; running = [] }

started_instance_is_known_example :
    let s' =
      run_turns
        (linode_provider api client runtime)
        disk
        js
        (prepare nats
          (linode_provider api client runtime)
          disk
          (new_orchestrator cfg first_world)
          0)
        turns in
    (is_tracked s'.orchestrator.nodes 1 || any (holds 1) s'.goroutines) ≡ true
unfolding prepare reconcile_with_cloud accounted new_orchestrator loses any turn monitor evaluate
    schedule advance run_turns evaluate_scale_up evaluate_scale_down can_scale get_queue_stats
    active_count reconcile_listed reconcile_nodes is_scaling_in_progress scale_up_create sync_nodes
    sync_node refresh drop_stale get_node add_node transition_node set_node_ip all_nodes
    nodes_by_state ready_count valid_transitions lookup insert count_if select abandons abandons_at
    is_booting is_tracked str_eq write_targets_file collect_targets new_node_manager create_gpu_node
    list_managed_nodes managed_nodes contains_all_tags has_tag
started_instance_is_known_example =
    started_instance_is_known nats api client runtime lifetime serves disk js quiet cfg first_world
      0 1 [] turns refl (omega arith) refl refl

-- An instance runs, and no node is tracked.
abbrev lost_system : System World
lost_system = record empty_system {
  orchestrator = new_orchestrator cfg (record { next_id = 2; running = 1 ∷ [] });
}

tick_recovers_example :
    is_tracked
      (run_turns
        (linode_provider api client runtime)
        disk
        js
        lost_system
        (loops 1 ∷ loops 2 ∷ [])).orchestrator.nodes
      1
    ≡ true
unfolding new_orchestrator list_managed_nodes managed_nodes contains_all_tags has_tag str_eq
    count_new count_if is_tracked get_node lookup new_node_manager any
tick_recovers_example =
    tick_recovers (linode_provider api client runtime) disk js lifetime
      (linode-Provides api client runtime lifetime serves) lost_system 1 2 1
      (cloud_node (instance_of 1) ∷ []) refl refl (omega arith) refl

live_instances_are_bounded_example :
    length {A = ℕ} (1 ∷ [])
    ≤ cfg.max_nodes
      + count_if is_holding
          (run_turns
            (linode_provider api client runtime)
            disk
            js
            (prepare nats
              (linode_provider api client runtime)
              disk
              (new_orchestrator cfg first_world)
              0)
            turns).goroutines
unfolding prepare reconcile_with_cloud accounted new_orchestrator loses any turn monitor evaluate
    schedule advance run_turns evaluate_scale_up evaluate_scale_down can_scale get_queue_stats
    active_count reconcile_listed reconcile_nodes is_scaling_in_progress scale_up_create sync_nodes
    sync_node refresh drop_stale get_node add_node transition_node set_node_ip all_nodes
    nodes_by_state ready_count valid_transitions lookup insert count_if select abandons abandons_at
    is_booting is_tracked str_eq write_targets_file collect_targets new_node_manager create_gpu_node
    list_managed_nodes managed_nodes contains_all_tags has_tag
live_instances_are_bounded_example =
    live_instances_are_bounded nats api client runtime lifetime serves disk js quiet cfg first_world
      0 [] turns refl (omega arith) (1 ∷ []) (refl, tt) ((refl, refl), tt)
