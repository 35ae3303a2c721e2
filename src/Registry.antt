-- ===== src/Registry.antt =====
-- `NewMetrics` of orchestrator/metrics.go and of nats-agent/metrics.go: what is registered, in order. The
-- registry is that of package prometheus, and the buckets `DefBuckets` are its own.
use serverless_gpu_linode.Common.{ℕ, String, List, [], ◌∷◌}

pub data Buckets : Type 0 where
  default_buckets : Buckets
  -- The first bound, the width and the number, in seconds.
  linear : ℕ → ℕ → ℕ → Buckets

pub data Kind : Type 0 where
  counter gauge : Kind
  histogram : Buckets → Kind

pub record Opts : Type 0 where
  pub name : String
  pub help : String
  pub kind : Kind
  pub labels : List String

abbrev opts : String → String → Kind → List String → Opts
opts name help kind labels = record { name = name; help = help; kind = kind; labels = labels }

abbrev pub orchestrator_metrics : List Opts
orchestrator_metrics =
    opts "orchestrator_queue_depth" "Current pending work (pending + acks pending)" gauge []
    ∷ opts "orchestrator_queue_pending" "Current pending jobs (not-yet-delivered)" gauge []
    ∷ opts "orchestrator_queue_ack_pending"
        "Current acks pending jobs (delivered but unacknowledged)" gauge []
    ∷ opts "orchestrator_node_count" "Current number of active GPU nodes" gauge []
    ∷ opts "orchestrator_node_count_by_state" "Number of GPU nodes by lifecycle state" gauge
        ("state" ∷ [])
    ∷ opts "orchestrator_provisioning_latency_seconds" "Time from node creation to ready state"
        (histogram (linear 30 30 10)) []
    ∷ opts "orchestrator_cooldown_active"
        "Whether the scaling cooldown is currently active (1=active, 0=inactive)" gauge []
    ∷ opts "orchestrator_scale_events_total" "Total number of scaling events" counter
        ("direction" ∷ "from" ∷ "to" ∷ [])
    ∷ opts "orchestrator_last_scale_event_timestamp" "Unix timestamp of the last scaling event"
        gauge []
    ∷ []

abbrev pub agent_metrics : List Opts
agent_metrics =
    opts "nats_agent_messages_received_total" "Total messages received from JetStream" counter []
    ∷ opts "nats_agent_messages_acked_total" "Total messages acknowledged" counter []
    ∷ opts "nats_agent_messages_nacked_total" "Total messages negatively acknowledged for retry"
        counter []
    ∷ opts "nats_agent_messages_dlq_total" "Total messages published to DLQ" counter []
    ∷ opts "nats_agent_forward_failures_total" "Total HTTP forward failures" counter []
    ∷ opts "nats_agent_forward_latency_seconds" "Latency of forwarding to AI endpoint"
        (histogram default_buckets) []
    ∷ opts "nats_agent_inflight_messages" "Current number of in-flight message handlers" gauge []
    ∷ opts "nats_agent_last_success_timestamp" "Unix timestamp of the last successful forward" gauge
        []
    ∷ opts "nats_agent_last_failure_timestamp" "Unix timestamp of the last failed forward" gauge []
    ∷ []
