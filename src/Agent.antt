-- ===== src/Agent.antt =====
-- nats-agent/agent.go: what the agent does with one message.
-- A message's bytes and texts that are read are lists of numbers. What the network answers is a
-- record of replies, one for each call that is made, and what the agent does is a log of actions,
-- newest first, beside the metrics. Instants and durations are in nanoseconds; the settings that
-- the code tests with `<= 0` count a negative value as 0, so they are numbers.
pub mod Base64
pub mod Failure
pub mod Heartbeat
pub mod Processing
pub mod Slots
pub mod Start
use serverless_gpu_linode.Common.{ℕ, String, List, Option}

pub record Config : Type 0 where
  pub stream_name : String
  pub consumer_name : String
  pub dlq_subject : String
  pub dlq_stream : String
  pub ai_endpoint : String
  pub max_in_flight : ℕ
  pub max_deliver : ℕ
  pub retry_delay : ℕ

-- nats-agent/metrics.go: the values of the agent's metrics.
pub record Metrics : Type 0 where
  pub messages_received : ℕ
  pub messages_acked : ℕ
  pub messages_nacked : ℕ
  pub messages_dlq : ℕ
  pub forward_failures : ℕ
  pub forward_latency : List ℕ
  pub inflight_messages : ℕ
  pub last_success : Option ℕ
  pub last_failure : Option ℕ

-- `Msg`, and the delivery count of its metadata where it has any.
pub record Message : Type 0 where
  pub subject : String
  pub payload : List ℕ
  pub num_delivered : Option ℕ
