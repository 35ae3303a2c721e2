-- ===== src/Settings/Scaling.antt =====
-- orchestrator/main.go: `loadConfig` and `loadLinodeClient`, with `NewLinodeClient` of
-- orchestrator/linode.go. `Config` of Orchestrator.antt has the settings that the scaling reads;
-- the record here has them all, with the numbers as they are read.
pub mod Limits
use serverless_gpu_linode.Common.Int.{ℤ, pos, negsuc, ltb_ℤ}
use serverless_gpu_linode.Common.Options.{◌>>=◌}
use serverless_gpu_linode.Common.{ℕ, String, Option, none, some, List, [], ◌∷◌, if◌then◌else◌}
use serverless_gpu_linode.Settings.{
  Env, env_or_default, env_or_default_int, env_or_default_duration, must_env, seconds, minutes,
}
use serverless_gpu_linode.Orchestrator.{Config}
use serverless_gpu_linode.Cloud.Linode.{LinodeApi, LinodeClient}

pub record Settings : Type 0 where
  pub nats_url : String
  pub nats_name : String
  pub stream_name : String
  pub subject : String
  pub consumer_name : String
  pub dlq_subject : String
  pub dlq_stream : String
  pub consumer_ack_wait : ℤ
  pub consumer_max_deliver : ℤ
  pub linode_managed_tag : String
  pub linode_cluster_tag : String
  pub min_nodes : ℤ
  pub max_nodes : ℤ
  pub scale_up_threshold : ℤ
  pub scale_up_duration : ℤ
  pub cooldown_duration : ℤ
  pub scale_down_idle_duration : ℤ
  pub scale_to_zero_idle_duration : ℤ
  pub prometheus_targets_file : String
  pub listen_addr : String
  pub monitor_interval : ℤ

-- The tests at the end of `loadConfig`.
unfoldable pub check_limits : Settings → Option Settings
check_limits cfg =
    if ltb_ℤ cfg.min_nodes (pos 0)
    then none
    else (if ltb_ℤ cfg.max_nodes (pos 1)
        then none
        else (if ltb_ℤ cfg.max_nodes cfg.min_nodes then none else some cfg))

module _ (parse_duration : String → Option ℤ) (env : Env) where
  unfoldable pub read_settings : Option Settings
  unfolding env_or_default env_or_default_int env_or_default_duration
  read_settings = do
    ack_wait ← env_or_default_duration parse_duration env "ACK_WAIT" (minutes 20)
    max_deliver ← env_or_default_int env "MAX_DELIVER" (pos 5)
    min_nodes ← env_or_default_int env "MIN_NODES" (pos 0)
    max_nodes ← env_or_default_int env "MAX_NODES" (pos 2)
    threshold ← env_or_default_int env "SCALE_UP_THRESHOLD" (pos 10)
    up ← env_or_default_duration parse_duration env "SCALE_UP_DURATION" (minutes 5)
    cooldown ← env_or_default_duration parse_duration env "COOLDOWN_DURATION" (minutes 5)
    idle ← env_or_default_duration parse_duration env "SCALE_DOWN_IDLE_DURATION" (minutes 5)
    zero_idle ←
        env_or_default_duration parse_duration env "SCALE_TO_ZERO_IDLE_DURATION" (minutes 10)
    interval ← env_or_default_duration parse_duration env "MONITOR_INTERVAL" (seconds 10)
    some (record {
      nats_url = env_or_default env "NATS_URL" "nats://localhost:4222";
      nats_name = env_or_default env "NATS_NAME" "orchestrator";
      stream_name = env_or_default env "NATS_STREAM" "GPU_JOBS";
      subject = env_or_default env "NATS_SUBJECT" (env_or_default env "NATS_STREAM" "GPU_JOBS");
      consumer_name = env_or_default env "NATS_CONSUMER" "gpu-workers";
      dlq_subject = env_or_default env "NATS_DLQ_SUBJECT" "GPU_JOBS.DLQ";
      dlq_stream = env_or_default env "NATS_DLQ_STREAM" "GPU_JOBS_DLQ";
      consumer_ack_wait = ack_wait;
      consumer_max_deliver = max_deliver;
      linode_managed_tag = env_or_default env "LINODE_MANAGED_TAG" "serverless-gpu-managed";
      linode_cluster_tag = env_or_default env "LINODE_CLUSTER_TAG" "serverless-gpu-default";
      min_nodes = min_nodes;
      max_nodes = max_nodes;
      scale_up_threshold = threshold;
      scale_up_duration = up;
      cooldown_duration = cooldown;
      scale_down_idle_duration = idle;
      scale_to_zero_idle_duration = zero_idle;
      prometheus_targets_file =
          env_or_default env "PROMETHEUS_TARGETS_FILE" "/etc/prometheus/gpu_targets.json";
      listen_addr = env_or_default env "LISTEN_ADDR" ":8081";
      monitor_interval = interval;
    })

  unfoldable pub load_config : Option Settings
  unfolding read_settings check_limits
  load_config = read_settings >>= check_limits

abbrev pub natural : ℤ → Option ℕ
natural (pos n) = some n
natural (negsuc n) = none

-- What the scaling reads of the settings. `Config` there has no negative numbers, and so there is
-- none for settings that have any.
unfoldable pub to_config : Settings → Option Config
to_config cfg = do
  ack_wait ← natural cfg.consumer_ack_wait
  max_deliver ← natural cfg.consumer_max_deliver
  min_nodes ← natural cfg.min_nodes
  max_nodes ← natural cfg.max_nodes
  threshold ← natural cfg.scale_up_threshold
  up ← natural cfg.scale_up_duration
  cooldown ← natural cfg.cooldown_duration
  idle ← natural cfg.scale_down_idle_duration
  zero_idle ← natural cfg.scale_to_zero_idle_duration
  some (record {
    stream_name = cfg.stream_name;
    consumer_name = cfg.consumer_name;
    subject = cfg.subject;
    dlq_stream = cfg.dlq_stream;
    dlq_subject = cfg.dlq_subject;
    consumer_ack_wait = ack_wait;
    consumer_max_deliver = max_deliver;
    min_nodes = min_nodes;
    max_nodes = max_nodes;
    scale_up_threshold = threshold;
    scale_up_duration = up;
    cooldown_duration = cooldown;
    scale_down_idle_duration = idle;
    scale_to_zero_idle_duration = zero_idle;
    prometheus_targets_file = cfg.prometheus_targets_file;
  })

-- `NewLinodeClient`: the client that the token makes, over packages oauth2 and linodego, which are a
-- parameter, and the fields that are kept beside it.
module _ {W : Type 0} (new_client : String → LinodeApi W) where
  unfoldable pub new_linode_client :
      String → String → String → String → String → List String → LinodeApi W × LinodeClient
  new_linode_client token image_id region instance_type root_pass managed_tags = (
    new_client token,
    record {
      image_id = image_id;
      region = region;
      instance_type = instance_type;
      root_pass = root_pass;
      managed_tags = managed_tags;
    },
  )

  unfoldable pub load_linode_client : Env → Option (LinodeApi W × LinodeClient)
  unfolding new_linode_client must_env env_or_default
  load_linode_client env = do
    token ← must_env env "LINODE_TOKEN"
    image ← must_env env "GOLDEN_IMAGE_ID"
    some (
        new_linode_client token image (env_or_default env "LINODE_REGION" "sg-sin-2")
          (env_or_default env "LINODE_TYPE" "g1-gpu-rtx6000-1") (env "LINODE_ROOT_PASS")
          (env_or_default env "LINODE_MANAGED_TAG" "serverless-gpu-managed"
            ∷ env_or_default env "LINODE_CLUSTER_TAG" "serverless-gpu-default"
            ∷ []))
