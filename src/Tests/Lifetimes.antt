-- ===== src/Tests/Lifetimes.antt =====
-- The first node and the last one, at a provider that has one instance to give.
use serverless_gpu_linode.Common.Assoc.{lookup, insert}
use serverless_gpu_linode.StateMachine.{
  add_node, new_node_manager, all_nodes, active_count, ready_count, is_scaling_in_progress,
  nodes_by_state, transition_node, get_node, valid_transitions, Node,
}
use serverless_gpu_linode.Reconcile.{
  reconcile_listed, reconcile_nodes, sync_nodes, sync_node, refresh, drop_stale,
}
use serverless_gpu_linode.Scaler.{
  can_scale, evaluate_scale_up, evaluate_scale_down, pick_scale_down_target,
}
use serverless_gpu_linode.Scaler.Actions.{scale_up_create, scale_up_add, scale_down_drain}
use serverless_gpu_linode.Monitor.{
  turn, monitor, schedule, advance, evaluate, System, selecting, loops, runs, run_turns,
}
use serverless_gpu_linode.Common.{
  Bool, false, ◌&&◌, ◌==◌, if◌then◌else◌, count_if, any, select, str_eq, ℕ, refl, true, [], ◌∷◌,
  none, some, ok, err, arith,
}
use serverless_gpu_linode.Cloud.{CloudNode, CloudProvider}
use serverless_gpu_linode.Discovery.{Disk}
use serverless_gpu_linode.Orchestrator.{Config, QueueStats, new_orchestrator}
use serverless_gpu_linode.JetStream.{JetStream, ack_explicit, get_queue_stats}
use serverless_gpu_linode.Connection.{Nats}
use serverless_gpu_linode.Monitor.ColdStart.{empty, one, At, Obeys, first_node, cold_start_ready}
use serverless_gpu_linode.Monitor.Settled.{IsSettled}
use serverless_gpu_linode.Monitor.ToZero.{Winds, idle_to_zero}

-- The world has no state.
abbrev pub World : Type 0
World = Unit

abbrev instance_7 : CloudNode
instance_7 = record { linode_id = 7; label = "gpu-node-1-0"; ipv4 = "10.0.0.7"; status = "running" }

-- A provider of one instance, whose world is whether it runs.
abbrev pub Site : Type 0
Site = Bool

abbrev pub cloud : CloudProvider Site
cloud = record {
  create_gpu_node = λ w label. if w then (w, err "no quota") else (true, ok 7);
  wait_for_running = λ w id timeout. (w, if w then ok "10.0.0.7" else err "not found");
  destroy_node = λ w id. if w && id == 7 then (false, none) else (w, some "not found");
  list_managed_nodes = λ w. (w, ok (if w then instance_7 ∷ [] else []));
}

abbrev pub disk : {W : Type 0} → Disk W
disk = record { write_file = λ w path targets. (w, none) }

-- A server that has the streams and the consumer, with a number of messages.
abbrev pub server : {W : Type 0} → ℕ → JetStream W
server waiting = record {
  stream_info = λ w name. (w, err "not found");
  add_stream = λ w cfg. (w, none);
  update_stream = λ w cfg. (w, none);
  consumer_info = λ w stream name. (
    w,
    ok (record {
      config = record {
        durable = "gpu-workers";
        ack_policy = ack_explicit;
        ack_wait = 1_200_000_000_000;
        max_deliver = 5;
        filter_subject = "JOBS";
      };
      num_pending = waiting;
      num_ack_pending = 0;
    }),
  );
  add_consumer = λ w stream cfg. (w, none);
  update_consumer = λ w stream cfg. (w, none);
}

abbrev pub cfg : Config
cfg = record {
  stream_name = "GPU_JOBS";
  consumer_name = "gpu-workers";
  subject = "JOBS";
  dlq_stream = "GPU_JOBS_DLQ";
  dlq_subject = "GPU_JOBS.DLQ";
  consumer_ack_wait = 1_200_000_000_000;
  consumer_max_deliver = 5;
  min_nodes = 0;
  max_nodes = 2;
  scale_up_threshold = 10;
  scale_up_duration = 300_000_000_000;
  cooldown_duration = 300_000_000_000;
  scale_down_idle_duration = 300_000_000_000;
  scale_to_zero_idle_duration = 600_000_000_000;
  prometheus_targets_file = "/etc/prometheus/gpu_targets.json";
}

abbrev queue : ℕ → QueueStats
queue waiting = record { pending = waiting; acks_pending = 0 }

abbrev idle_system : System Site
idle_system = record {
  orchestrator = new_orchestrator cfg false;
  phase = selecting;
  goroutines = [];
}

obeys : Obeys cloud disk (server 3) cfg (queue 3) 7 "10.0.0.7" idle_system 1 2 3 4 5
unfolding run_turns turn monitor schedule advance reconcile_listed reconcile_nodes sync_nodes
    drop_stale get_queue_stats evaluate evaluate_scale_up evaluate_scale_down can_scale active_count
    scale_up_create scale_up_add add_node new_orchestrator new_node_manager all_nodes lookup insert
    count_if ready_count is_scaling_in_progress any nodes_by_state select
obeys = record { lists = refl; queued = refl; creates = refl; comes_up = refl }

nothing_yet : At cfg (empty 2) none none selecting [] idle_system
unfolding new_orchestrator
nothing_yet = record {
  configured = refl;
  tracked = refl;
  last_event = refl;
  idle_since = refl;
  loop = refl;
  others = refl;
}

cold_start_ready_example :
    At cfg
      (one 2 7 (first_node cloud disk (server 3) cfg (queue 3) 7 "10.0.0.7" 4 5 7))
      (some 5)
      none
      selecting
      []
      (run_turns cloud disk
        (server 3)
        idle_system
        (loops 1 ∷ loops 2 ∷ loops 3 ∷ runs 0 4 ∷ runs 0 5 ∷ runs 0 6 ∷ runs 0 7 ∷ []))
cold_start_ready_example =
    cold_start_ready cloud disk (server 3) cfg (queue 3) 7 "10.0.0.7" 2 none none idle_system 1 2 3
      4 5 6 7 obeys nothing_yet (omega arith) (omega arith) (omega arith) tt

abbrev settled : Node
settled = first_node cloud disk (server 3) cfg (queue 3) 7 "10.0.0.7" 4 5 7

abbrev settled_system : System Site
settled_system = record {
  orchestrator = record (new_orchestrator cfg true) {
    nodes = one 2 7 settled;
    last_scale_event = some 5;
    scale_down_since = some 100;
  };
  phase = selecting;
  goroutines = [];
}

winds :
    Winds cloud disk
      (server 0)
      cfg
      instance_7
      settled_system
      700_000_000_001
      700_000_000_002
      700_000_000_003
      700_000_000_010
unfolding run_turns turn monitor schedule advance reconcile_listed reconcile_nodes sync_nodes
    drop_stale get_queue_stats evaluate evaluate_scale_up evaluate_scale_down can_scale active_count
    scale_down_drain transition_node new_orchestrator new_node_manager all_nodes lookup insert
    count_if ready_count is_scaling_in_progress any nodes_by_state select pick_scale_down_target
    get_node valid_transitions sync_node refresh str_eq
winds = record { lists = refl; queued = refl; destroys = refl }

settled-At : At cfg (one 2 7 settled) (some 5) (some 100) selecting [] settled_system
unfolding new_orchestrator
settled-At = record {
  configured = refl;
  tracked = refl;
  last_event = refl;
  idle_since = refl;
  loop = refl;
  others = refl;
}

settled-IsSettled : IsSettled instance_7 settled
settled-IsSettled = record { under_id = refl; at_ip = refl; is_ready = refl; unlocked = refl }

idle_to_zero_example : At cfg (empty 2) (some 700_000_000_030) none selecting [] (
    run_turns cloud disk (server 0) settled_system (
      loops 700_000_000_001
      ∷ loops 700_000_000_002
      ∷ loops 700_000_000_003
      ∷ runs 0 700_000_000_010
      ∷ runs 0 700_000_000_020
      ∷ runs 0 700_000_000_030
      ∷ []))
idle_to_zero_example =
    idle_to_zero cloud disk (server 0) cfg instance_7 2 settled (some 5) 100 settled_system
      700_000_000_001 700_000_000_002 700_000_000_003 700_000_000_010 700_000_000_020
      700_000_000_030 winds settled-At settled-IsSettled (omega arith) refl (omega arith)
      (omega arith) (omega arith)

abbrev pub nats : Nats World World (JetStream World)
nats = record {
  connect = λ w url options. (w, ok tt);
  jetstream = λ w nc. (w, ok (server 3));
  close = λ w nc. w;
  is_connected = λ w nc. true;
}
