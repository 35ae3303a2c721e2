-- ===== src/Tests/Loop.antt =====
-- The monitor loop and its goroutines at a concrete queue, with the provider of
-- orchestrator/scaler_test.go.
use serverless_gpu_linode.Common.{◌≡◌, refl, List, [], ◌∷◌, none, ok, err}
use serverless_gpu_linode.StateMachine.{
  active_count, ready_count, nodes_by_state, all_nodes, is_scaling_in_progress,
}
use serverless_gpu_linode.Orchestrator.{QueueStats}
use serverless_gpu_linode.JetStream.{JetStream, get_queue_stats, ack_explicit}
use serverless_gpu_linode.Reconcile.{reconcile_listed, reconcile_nodes, sync_nodes, drop_stale}
use serverless_gpu_linode.Scaler.{scale_up_task, evaluate_scale_up, evaluate_scale_down}
use serverless_gpu_linode.Monitor.{starts, selecting, System, evaluate, Turn, loops, run_turns}
use serverless_gpu_linode.Monitor.Tick.{StartsOne, evaluate-StartsOne}
use serverless_gpu_linode.Tests.Fake.{World, fake_cloud, fake_disk}
use serverless_gpu_linode.Tests.Scaling.{cold}

-- Three messages wait.
abbrev busy : JetStream World
busy = record {
  stream_info = λ w name. (w, err "stream not found");
  add_stream = λ w cfg. (w, none);
  update_stream = λ w cfg. (w, none);
  consumer_info = λ w stream name. (
    w,
    ok (record {
      config = record {
        durable = "gpu-workers";
        ack_policy = ack_explicit;
        ack_wait = 1200;
        max_deliver = 5;
        filter_subject = "GPU_JOBS";
      };
      num_pending = 3;
      num_ack_pending = 0;
    }),
  );
  add_consumer = λ w stream cfg. (w, none);
  update_consumer = λ w stream cfg. (w, none);
}

abbrev system : System World
system = record { orchestrator = cold; phase = selecting; goroutines = [] }

abbrev two_ticks : List Turn
two_ticks = loops 1 ∷ loops 2 ∷ loops 3 ∷ loops 31 ∷ loops 32 ∷ loops 33 ∷ []

-- A second scale-up is started before the first has run.
two_ticks_start :
    (run_turns fake_cloud fake_disk busy system two_ticks).goroutines
    ≡ starts scale_up_task ∷ starts scale_up_task ∷ []
unfolding run_turns get_queue_stats reconcile_listed reconcile_nodes evaluate evaluate_scale_up
    evaluate_scale_down sync_nodes drop_stale active_count ready_count all_nodes nodes_by_state
    is_scaling_in_progress
two_ticks_start = refl

abbrev queue : QueueStats
queue = record { pending = 3; acks_pending = 0 }

evaluate-StartsOne_example : StartsOne (evaluate cold queue 5).1 3
evaluate-StartsOne_example = evaluate-StartsOne cold queue 5
