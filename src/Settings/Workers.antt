-- ===== src/Settings/Workers.antt =====
-- nats-agent/main.go: `loadConfig`.
use serverless_gpu_linode.Common.Int.{ℤ, pos}
use serverless_gpu_linode.Common.Options.{◌>>=◌}
use serverless_gpu_linode.Common.{String, ◌+++◌, not, ◌&&◌, Option, some, if◌then◌else◌, str_eq}
use serverless_gpu_linode.Settings.{
  Env, env_or_default, env_or_default_int, env_or_default_duration, seconds, minutes,
}

pub record Settings : Type 0 where
  pub nats_url : String
  pub stream_name : String
  pub subject : String
  pub consumer_name : String
  pub dlq_subject : String
  pub dlq_stream : String
  pub ai_endpoint : String
  pub http_timeout : ℤ
  pub max_in_flight : ℤ
  pub heartbeat_interval : ℤ
  pub max_deliver : ℤ
  pub retry_delay : ℤ
  pub drain_timeout : ℤ
  pub metrics_addr : String

unfoldable pub job_subject : Env → String
unfolding env_or_default
job_subject env = env_or_default env "NATS_SUBJECT" (env_or_default env "NATS_STREAM" "GPU_JOBS")

module _ (parse_duration : String → Option ℤ) (env : Env) where
  -- The older variable is read where it is the only one that is set.
  unfoldable pub load_heartbeat_interval : Option ℤ
  unfolding env_or_default_duration
  load_heartbeat_interval = do
    interval ← env_or_default_duration parse_duration env "HEARTBEAT_INTERVAL" (seconds 30)
    (if str_eq (env "HEARTBEAT_INTERVAL") "" && not (str_eq (env "ACK_WAIT") "")
        then env_or_default_duration parse_duration env "ACK_WAIT" (seconds 30)
        else some interval)

  unfoldable pub load_config : Option Settings
  unfolding load_heartbeat_interval job_subject env_or_default env_or_default_int
      env_or_default_duration
  load_config = do
    heartbeat_interval ← load_heartbeat_interval
    http_timeout ← env_or_default_duration parse_duration env "HTTP_TIMEOUT" (minutes 15)
    max_in_flight ← env_or_default_int env "MAX_INFLIGHT" (pos 4)
    max_deliver ← env_or_default_int env "MAX_DELIVER" (pos 5)
    retry_delay ← env_or_default_duration parse_duration env "RETRY_DELAY" (seconds 5)
    drain_timeout ← env_or_default_duration parse_duration env "DRAIN_TIMEOUT" (seconds 20)
    some (record {
      nats_url = env_or_default env "NATS_URL" "nats://localhost:4222";
      stream_name = env_or_default env "NATS_STREAM" "GPU_JOBS";
      subject = job_subject env;
      consumer_name = env_or_default env "NATS_CONSUMER" "gpu-workers";
      dlq_subject = env_or_default env "NATS_DLQ_SUBJECT" (job_subject env +++ ".DLQ");
      dlq_stream = env_or_default env "NATS_DLQ_STREAM" "GPU_JOBS_DLQ";
      ai_endpoint = env_or_default env "AI_ENDPOINT" "http://ai-processor:8080/process";
      http_timeout = http_timeout;
      max_in_flight = max_in_flight;
      heartbeat_interval = heartbeat_interval;
      max_deliver = max_deliver;
      retry_delay = retry_delay;
      drain_timeout = drain_timeout;
      metrics_addr = env_or_default env "METRICS_ADDR" ":9090";
    })
