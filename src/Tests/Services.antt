-- ===== src/Tests/Services.antt =====
-- The settings, the API and the way of a job at concrete inputs.
use serverless_gpu_linode.Common.Int.{ℤ, pos}
use serverless_gpu_linode.Common.{
  ◌≡◌, ◌≢◌, ◌⊎◌, ◌↔◌, refl, String, Option, none, some, if◌then◌else◌, str_eq,
}
use serverless_gpu_linode.Settings.{Env, seconds, minutes}
use serverless_gpu_linode.Settings.Scaling.{Settings, load_config}
use serverless_gpu_linode.Settings.Workers
use serverless_gpu_linode.Settings.Services.{ApiConfig, load_api_config}
use serverless_gpu_linode.Settings.Shared.{shared_settings_agree}

-- Only the job subject is set.
abbrev pub env : Env
env key = if str_eq key "NATS_SUBJECT" then "JOBS" else ""

abbrev pub no_duration : String → Option ℤ
no_duration text = none

abbrev pub orchestrator : Settings
orchestrator = record {
  nats_url = "nats://localhost:4222";
  nats_name = "orchestrator";
  stream_name = "GPU_JOBS";
  subject = "JOBS";
  consumer_name = "gpu-workers";
  dlq_subject = "GPU_JOBS.DLQ";
  dlq_stream = "GPU_JOBS_DLQ";
  consumer_ack_wait = minutes 20;
  consumer_max_deliver = pos 5;
  linode_managed_tag = "serverless-gpu-managed";
  linode_cluster_tag = "serverless-gpu-default";
  min_nodes = pos 0;
  max_nodes = pos 2;
  scale_up_threshold = pos 10;
  scale_up_duration = minutes 5;
  cooldown_duration = minutes 5;
  scale_down_idle_duration = minutes 5;
  scale_to_zero_idle_duration = minutes 10;
  prometheus_targets_file = "/etc/prometheus/gpu_targets.json";
  listen_addr = ":8081";
  monitor_interval = seconds 10;
}

abbrev pub agent : Workers.Settings
agent = record {
  nats_url = "nats://localhost:4222";
  stream_name = "GPU_JOBS";
  subject = "JOBS";
  consumer_name = "gpu-workers";
  dlq_subject = "JOBS.DLQ";
  dlq_stream = "GPU_JOBS_DLQ";
  ai_endpoint = "http://ai-processor:8080/process";
  http_timeout = minutes 15;
  max_in_flight = pos 4;
  heartbeat_interval = seconds 30;
  max_deliver = pos 5;
  retry_delay = seconds 5;
  drain_timeout = seconds 20;
  metrics_addr = ":9090";
}

abbrev pub api : ApiConfig
api = record {
  listen_addr = ":8080";
  nats_url = "nats://localhost:4222";
  nats_subject = "JOBS";
  request_max_bytes = pos 1_048_576;
}

pub orchestrator_loads : load_config no_duration env ≡ some orchestrator
unfolding load_config str_eq
orchestrator_loads = refl

agent_loads : Workers.load_config no_duration env ≡ some agent
unfolding Workers.load_config str_eq
agent_loads = refl

api_loads : load_api_config env ≡ some api
unfolding load_api_config str_eq
api_loads = refl

shared_settings_agree_example :
    (◌≡◌ {A = String} "GPU_JOBS" "GPU_JOBS")
    × (◌≡◌ {A = String} "JOBS" "JOBS")
    × (◌≡◌ {A = String} "gpu-workers" "gpu-workers")
    × (◌≡◌ {A = String} "GPU_JOBS_DLQ" "GPU_JOBS_DLQ")
    × ((◌≡◌ {A = String} "GPU_JOBS.DLQ" "JOBS.DLQ")
        ↔ ((env "NATS_DLQ_SUBJECT" ≢ "") ⊎ (◌≡◌ {A = String} "JOBS" "GPU_JOBS")))
    × ((◌≡◌ {A = String} "JOBS" "JOBS")
        ↔ ((env "NATS_SUBJECT" ≢ "") ⊎ (◌≡◌ {A = String} "GPU_JOBS" "GPU_JOBS")))
shared_settings_agree_example =
    shared_settings_agree no_duration env orchestrator agent api orchestrator_loads agent_loads
      api_loads
