-- ===== src/Orchestrator.antt =====
-- orchestrator/orchestrator.go, the state: `Config`, `Orchestrator` and `QueueStats`.
-- `world` is the state of what the process is connected to: the cloud, JetStream and the disk.
-- Durations and instants are in nanoseconds. The configured numbers are those that are not
-- negative. Fields that only logging or connecting reads are left out (`NatsURL`, `NatsName`,
-- `ListenAddr`, the Linode tags), and so is the lock, which no two steps hold at once.
use serverless_gpu_linode.Common.{ℕ, ◌+◌, String, Option, none}
use serverless_gpu_linode.StateMachine.{NodeManager, new_node_manager}
use serverless_gpu_linode.Metrics.{Metrics, new_metrics}

pub record Config : Type 0 where
  pub stream_name : String
  pub consumer_name : String
  pub subject : String
  pub dlq_stream : String
  pub dlq_subject : String
  pub consumer_ack_wait : ℕ
  pub consumer_max_deliver : ℕ
  pub min_nodes : ℕ
  pub max_nodes : ℕ
  pub scale_up_threshold : ℕ
  pub scale_up_duration : ℕ
  pub cooldown_duration : ℕ
  pub scale_down_idle_duration : ℕ
  pub scale_to_zero_idle_duration : ℕ
  pub prometheus_targets_file : String

pub record Orchestrator (W : Type 0) : Type 0 where
  pub cfg : Config
  pub nodes : NodeManager
  pub world : W
  pub metrics : Metrics
  pub last_scale_event : Option ℕ
  pub scale_up_since : Option ℕ
  pub scale_down_since : Option ℕ

pub record QueueStats : Type 0 where
  pub pending : ℕ
  pub acks_pending : ℕ

abbrev pub pending_work : QueueStats → ℕ
pending_work q = q.pending + q.acks_pending

unfoldable pub new_orchestrator : {W : Type 0} → Config → W → Orchestrator W
unfolding new_node_manager new_metrics
new_orchestrator cfg world = record {
  cfg = cfg;
  nodes = new_node_manager cfg.max_nodes;
  world = world;
  metrics = new_metrics;
  last_scale_event = none;
  scale_up_since = none;
  scale_down_since = none;
}
