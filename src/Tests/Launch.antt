-- ===== src/Tests/Launch.antt =====
-- The orchestrator from its start on, in the environment of a cluster.
use serverless_gpu_linode.Common.Int.{pos}
use serverless_gpu_linode.Common.{
  ℕ, ◌≤◌, ◌≡◌, refl, [], ◌∷◌, none, some, ok, err, length, str_eq, if◌then◌else◌,
}
use serverless_gpu_linode.StateMachine.Invariant.{IsWellFormed}
use serverless_gpu_linode.StateMachine.Kept.{AreUnlocked}
use serverless_gpu_linode.Cloud.{CloudProvider}
use serverless_gpu_linode.Orchestrator.{new_orchestrator}
use serverless_gpu_linode.JetStream.{ensure_jetstream_resources, ensure_stream, ensure_consumer}
use serverless_gpu_linode.Connection.{connect_nats}
use serverless_gpu_linode.Settings.Scaling.{
  read_settings, load_config, load_linode_client, to_config,
}
use serverless_gpu_linode.Monitor.{System, loops, run_turns}
use serverless_gpu_linode.Monitor.Start.{start, prepare}
use serverless_gpu_linode.Programs.{monitors, orchestrator_main}
use serverless_gpu_linode.Programs.Bounded.{orchestrator_main_is_bounded}
use serverless_gpu_linode.Settings.{Env, env_or_default_int}
use serverless_gpu_linode.Cloud.Linode.{
  LinodeApi, LinodeClient, Schedule, timed_out, linode_provider,
}
use serverless_gpu_linode.Tests.Services.{env, no_duration}
use serverless_gpu_linode.Tests.Lifetimes.{World, disk, server, cfg, nats}

-- The environment of a cluster.
abbrev cluster_env : Env
cluster_env key =
    if str_eq key "LINODE_TOKEN"
    then "token"
    else (if str_eq key "GOLDEN_IMAGE_ID" then "private/1" else env key)

-- An account without instances.
abbrev api : LinodeApi World
api = record {
  create_instance = λ w options. (w, err "no quota");
  get_instance = λ w id. (w, err "not found");
  delete_instance = λ w id. (w, none);
  list_instances = λ w. (w, ok []);
}

abbrev client : LinodeClient
client = record {
  image_id = "private/1";
  region = "sg-sin-2";
  instance_type = "g1-gpu-rtx6000-1";
  root_pass = "";
  managed_tags = "serverless-gpu-managed" ∷ "serverless-gpu-default" ∷ [];
}

abbrev runtime : World → ℕ → Schedule
runtime w timeout = record { ticks = 0; ending = timed_out }

abbrev provider : CloudProvider World
provider = linode_provider api client runtime

abbrev started : System World
started = prepare nats provider disk (new_orchestrator cfg tt) 1

starts_up :
    orchestrator_main nats disk no_duration (λ token. api) runtime cluster_env tt 1
    ≡ (tt, monitors provider (server 3) started)
unfolding orchestrator_main start connect_nats ensure_jetstream_resources ensure_stream
    ensure_consumer str_eq load_config read_settings load_linode_client to_config
starts_up = refl

orchestrator_main_is_bounded_example :
    (n : ℕ) × (env_or_default_int cluster_env "MAX_NODES" (pos 2) ≡ some (pos n))
    × (1 ≤ n)
    × (length (run_turns provider disk (server 3) started (loops 2 ∷ [])).orchestrator.nodes.nodes
        ≤ n)
    × IsWellFormed (run_turns provider disk (server 3) started (loops 2 ∷ [])).orchestrator.nodes
    × AreUnlocked (run_turns provider disk (server 3) started (loops 2 ∷ [])).orchestrator.nodes
orchestrator_main_is_bounded_example =
    orchestrator_main_is_bounded nats disk no_duration (λ token. api) runtime cluster_env tt tt 1
      provider (server 3) started starts_up (loops 2 ∷ [])
