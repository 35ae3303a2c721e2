-- ===== src/Metrics.antt =====
-- orchestrator/metrics.go: the values of the orchestrator's Prometheus metrics.
-- A gauge is its last value (all that are set are counts, so a number), a counter vector is the
-- list of its increments by label, newest first, and a histogram the list of its observations.
use serverless_gpu_linode.Common.{ℕ, String, List, [], ◌∷◌, map, length}
use serverless_gpu_linode.StateMachine.{
  NodeState, provisioning, ready, draining, destroying, NodeManager, nodes_by_state, active_count,
}

pub record Metrics : Type 0 where
  pub queue_depth : ℕ
  pub queue_pending : ℕ
  pub queue_ack_pending : ℕ
  pub node_count : ℕ
  pub node_count_by_state : List (NodeState × ℕ)
  pub provisioning_latency : List ℕ
  pub cooldown_active : ℕ
  pub scale_events : List (String × String × String)
  pub last_scale_event_time : ℕ

unfoldable pub new_metrics : Metrics
new_metrics = record {
  queue_depth = 0;
  queue_pending = 0;
  queue_ack_pending = 0;
  node_count = 0;
  node_count_by_state = [];
  provisioning_latency = [];
  cooldown_active = 0;
  scale_events = [];
  last_scale_event_time = 0;
}

unfoldable pub record_scale_event : Metrics → String → String → String → ℕ → Metrics
record_scale_event m direction from to now = record m {
  scale_events = (direction, from, to) ∷ m.scale_events;
  last_scale_event_time = now;
}

abbrev pub states : List NodeState
states = provisioning ∷ ready ∷ draining ∷ destroying ∷ []

-- All four states are set, so the vector is what this call sets.
unfoldable pub update_node_counts : Metrics → NodeManager → Metrics
update_node_counts m nm = record m {
  node_count = active_count nm;
  node_count_by_state = map (λ s. (s, length (nodes_by_state nm s))) states;
}
