-- ===== src/Tests/Scaling.antt =====
-- The scaler at concrete orchestrators, with the provider of orchestrator/scaler_test.go.
use serverless_gpu_linode.Common.{
  ℕ, ◌+◌, ◌≤◌, ◌<◌, ◌≡◌, ◌≢◌, refl, ◌⊎◌, inl, inr, String, true, false, List, [], ◌∷◌, Option, none,
  some, ok, err, arith, length,
}
use serverless_gpu_linode.StateMachine.{
  ready, add_node, transition_node, Node, get_node, active_count, ready_count, nodes_by_state,
}
use serverless_gpu_linode.StateMachine.Invariant.{IsWellFormed}
use serverless_gpu_linode.Orchestrator.{Config, Orchestrator}
use serverless_gpu_linode.Scaler.{
  scale_up_task, scale_down_task, wait_task, evaluate_scale_up, evaluate_scale_down,
  pick_scale_down_target,
}
use serverless_gpu_linode.Scaler.Decision.{
  evaluate_scale_up_iff, evaluate_scale_down_iff, scale_up_since-evaluate,
}
use serverless_gpu_linode.Scaler.Actions.{
  scale_up, scale_down, scale_up_create, scale_up_track, scale_down_drain, scale_down_destroy,
  create_failed, destroy_failed,
}
use serverless_gpu_linode.Scaler.Actions.Up.{
  scale_up_ok, scale_up_err, ScaledUp, NotScaled, creation,
}
use serverless_gpu_linode.Scaler.Actions.Down.{
  Drainable, ScaledDown, NotDestroyed, Refused, scale_down_ok, scale_down_err,
}
use serverless_gpu_linode.Tests.Fake.{World, start_world, fake_cloud, fake_disk}

abbrev config : Config
config = record {
  stream_name = "GPU_JOBS";
  consumer_name = "gpu-workers";
  subject = "GPU_JOBS";
  dlq_stream = "GPU_JOBS_DLQ";
  dlq_subject = "GPU_JOBS.DLQ";
  consumer_ack_wait = 1200;
  consumer_max_deliver = 5;
  min_nodes = 0;
  max_nodes = 2;
  scale_up_threshold = 10;
  scale_up_duration = 300;
  cooldown_duration = 300;
  scale_down_idle_duration = 300;
  scale_to_zero_idle_duration = 600;
  prometheus_targets_file = "/tmp/test_gpu_targets.json";
}

-- Nothing is tracked.
abbrev pub cold : Orchestrator World
cold = record {
  cfg = config;
  nodes = record { nodes = []; max_nodes = 2 };
  world = start_world;
  metrics = record {
    queue_depth = 0;
    queue_pending = 0;
    queue_ack_pending = 0;
    node_count = 0;
    node_count_by_state = [];
    provisioning_latency = [];
    cooldown_active = 0;
    scale_events = [];
    last_scale_event_time = 0;
  };
  last_scale_event = none;
  scale_up_since = none;
  scale_down_since = none;
}

abbrev pub worker : Node
worker = record {
  linode_id = 1000;
  label = "gpu";
  ipv4 = "10.0.0.1";
  state = ready;
  created_at = 0;
  ready_at = some 40;
  drain_locked = false;
}

-- One node is ready; the last scaling was at 0, the queue is idle since 100.
abbrev pub warm : Orchestrator World
warm = record cold {
  nodes = record { nodes = (1000, worker) ∷ []; max_nodes = 2 };
  last_scale_event = some 0;
  scale_down_since = some 100;
}

pub warm-IsWellFormed : IsWellFormed warm.nodes
unfolding serverless_gpu_linode.Common.Assoc.lookup
warm-IsWellFormed = record {
  distinct = (refl, tt);
  bounded = omega arith;
  entries = ((refl, refl), tt);
}

evaluate_scale_up_iff_example : (evaluate_scale_up cold 1 5).1 ≡ some scale_up_task
evaluate_scale_up_iff_example =
    (evaluate_scale_up_iff cold 1 5 scale_up_task).1
      (refl, inl (record { work = omega arith; nothing_tracked = refl; cooled = tt }))

evaluate_scale_down_iff_example : (evaluate_scale_down warm 0 700).1 ≡ some (scale_down_task 1000)
unfolding pick_scale_down_target nodes_by_state active_count ready_count
evaluate_scale_down_iff_example = (evaluate_scale_down_iff warm 0 700 (scale_down_task 1000)).1 (
  refl,
  (λ e. omega arith),
  record {
    idle = refl;
    sustained = omega arith;
    all_ready = refl;
    some_node = omega arith;
    above_floor = omega arith;
    cooled = omega arith;
  },
)

scale_up_ok_example :
    (id : ℕ) × ScaledUp fake_cloud cold 5 6 id (scale_up fake_cloud cold 5 6).0
    × (wait_task 1000 6 ≡ wait_task id 6)
unfolding scale_up scale_up_create scale_up_track add_node active_count
scale_up_ok_example = scale_up_ok fake_cloud cold 5 6 {t = wait_task 1000 6} refl

-- The provider refuses to create an instance.
abbrev refusing : Orchestrator World
refusing = record cold { world = record start_world { fail_create = true } }

scale_up_err_example :
    let o' = (scale_up fake_cloud refusing 5 6).0 in
    NotScaled fake_cloud refusing o'
    × ((o'.world ≡ refusing.world) × (2 ≤ active_count refusing.nodes)
        ⊎ ((e : String) × ((creation fake_cloud refusing 5).1 ≡ err e)
            × (o'.world ≡ (creation fake_cloud refusing 5).0))
        ⊎ ((id : ℕ) × ((creation fake_cloud refusing 5).1 ≡ ok id)
            × (o'.world ≡ (fake_cloud.destroy_node (creation fake_cloud refusing 5).0 id).0)))
unfolding scale_up scale_up_create active_count
scale_up_err_example =
    scale_up_err fake_cloud refusing 5 6 {x = create_failed "simulated create failure"} refl

scale_down_ok_example :
    (n : Node) × Drainable warm 1000 700 n
    × ScaledDown fake_cloud fake_disk warm 1000 701
        (scale_down fake_cloud fake_disk warm 1000 700 701).0
unfolding scale_down scale_down_drain scale_down_destroy get_node active_count transition_node
scale_down_ok_example = scale_down_ok fake_cloud fake_disk warm 1000 700 701 warm-IsWellFormed refl

-- The provider refuses to destroy an instance.
abbrev clinging : Orchestrator World
clinging = record warm { world = record start_world { fail_destroy = true } }

scale_down_err_example :
    Refused clinging 1000 700 (scale_down fake_cloud fake_disk clinging 1000 700 701).0
    ⊎ (((e : String) × ((fake_cloud.destroy_node clinging.world 1000).1 ≡ some e))
        × NotDestroyed fake_cloud fake_disk clinging 1000
            (scale_down fake_cloud fake_disk clinging 1000 700 701).0)
unfolding scale_down scale_down_drain scale_down_destroy get_node active_count transition_node
scale_down_err_example =
    scale_down_err fake_cloud fake_disk clinging 1000 700 701 warm-IsWellFormed
      {x = destroy_failed "simulated destroy failure"} refl

scale_up_since-evaluate_example :
    ((warm.scale_up_since ≡ some 50) ⊎ ((warm.scale_up_since ≡ none) × (◌≡◌ {A = ℕ} 50 50)))
    × ((10 < 20) ⊎ ((0 < 20) × (active_count warm.nodes ≡ 0) × (warm.scale_up_since ≡ some 50)))
unfolding evaluate_scale_up active_count ready_count
scale_up_since-evaluate_example = scale_up_since-evaluate warm 20 50 50 refl
