-- ===== src/Tests/Jobs.antt =====
-- The agent's handling of messages at concrete messages.
use serverless_gpu_linode.Common.{
  ℕ, ◌+◌, ◌≤◌, ◌≡◌, refl, ◌⊎◌, inl, Bool, true, false, List, [], ◌∷◌, none, some, arith, count_if,
  All,
}
use serverless_gpu_linode.Agent.{Config, Message}
use serverless_gpu_linode.Agent.Failure.{responded, forward_to_ai, is_non_retryable_status}
use serverless_gpu_linode.Agent.Heartbeat.{
  adjust_heartbeat, heartbeat_period, heartbeat_period_late,
}
use serverless_gpu_linode.Agent.Processing.{
  Replies, Handler, attempts, dead_letter, give_up, publish_to_dlq, process_message,
}
use serverless_gpu_linode.Agent.Processing.Loop.{
  is_ack, is_publish, is_release, Tally, Succeeds, Fails, IsFinal, AreRetried,
}
use serverless_gpu_linode.Agent.Processing.Settlement.{
  is_taken, is_refused, process_message_attempts, process_message_settles_once,
  process_message_acks_safely,
}
use serverless_gpu_linode.Agent.Processing.Envelopes.{IsFaithful, process_message-IsFaithful}
use serverless_gpu_linode.Agent.Slots.{
  message, timeout, acquires, counts, fetches, discounts, finishes, Event, new_consumer, run,
}
use serverless_gpu_linode.Agent.Slots.Bounds.{IsAccounted, run-IsAccounted}

abbrev pub config : Config
config = record {
  stream_name = "GPU_JOBS";
  consumer_name = "gpu-workers";
  dlq_subject = "GPU_JOBS.DLQ";
  dlq_stream = "GPU_JOBS_DLQ";
  ai_endpoint = "http://localhost:8000/process";
  max_in_flight = 1;
  max_deliver = 2;
  retry_delay = 5;
}

-- Every attempt is answered by a server error.
abbrev unavailable : Replies
unavailable = record {
  forward = λ k. responded 503 [];
  answered_at = λ k. k;
  publish_ok = true;
  ack_ok = true;
  nak_with_delay_ok = true;
  nak_ok = true;
  started_at = 0;
  failed_at = 9;
}

abbrev job : Message
job = record { subject = "GPU_JOBS"; payload = 123 ∷ 125 ∷ []; num_delivered = some 1 }

abbrev pub idle : Handler
idle = record {
  metrics = record {
    messages_received = 1;
    messages_acked = 0;
    messages_nacked = 0;
    messages_dlq = 0;
    forward_failures = 0;
    forward_latency = [];
    inflight_messages = 1;
    last_success = none;
    last_failure = none;
  };
  log = [];
}

abbrev handled : Handler
handled = process_message (λ bs. true) config 5 false unavailable job idle

process_message_attempts_example :
    (m : ℕ) × (last : ℕ) × (last ≡ m + 1)
    × (last ≤ 2)
    × AreRetried config unavailable job 1 m
    × ((Succeeds config unavailable job last × Tally unavailable handled.log last 0 1 0)
        ⊎ (Fails config unavailable job last
            × (IsFinal config unavailable job last ⊎ (last ≡ 2))
            × (((◌≡◌ {A = Bool} true true) × Tally unavailable handled.log last 1 1 0)
                ⊎ ((◌≡◌ {A = Bool} true false) × Tally unavailable handled.log last 1 0 1))))
process_message_attempts_example =
    process_message_attempts (λ bs. true) config 5 unavailable job idle refl refl

process_message_settles_once_example :
    (count_if is_ack handled.log + count_if (is_release unavailable) handled.log ≡ 1)
    × (count_if (is_taken unavailable) handled.log + count_if (is_refused unavailable) handled.log
        ≡ 1)
    × ((count_if (is_taken unavailable) handled.log ≡ 1)
        ⊎ (◌≡◌ {A = Bool} true false)
        ⊎ (◌≡◌ {A = Bool} true false))
process_message_settles_once_example =
    process_message_settles_once (λ bs. true) config 5 unavailable job idle refl false

process_message_acks_safely_example :
    ((k : ℕ) × (1 ≤ k) × (k ≤ 2) × Succeeds config unavailable job k)
    ⊎ ((◌≡◌ {A = Bool} true true) × (count_if is_publish handled.log ≡ 1))
unfolding process_message attempts dead_letter give_up publish_to_dlq forward_to_ai
    is_non_retryable_status count_if
process_message_acks_safely_example =
    process_message_acks_safely (λ bs. true) config 5 unavailable job idle refl false (omega arith)

process_message-IsFaithful_example : All (IsFaithful config job) handled.log
process_message-IsFaithful_example =
    process_message-IsFaithful config job (omega arith, (omega arith, tt)) unavailable (λ bs. true)
      5 false idle tt

heartbeat_period_late_example :
    5_000_000_000 ≤ heartbeat_period (adjust_heartbeat 0 (some 5_000_000_000))
heartbeat_period_late_example = heartbeat_period_late 0 5_000_000_000 (inl (refl, omega arith))

abbrev events : List Event
events =
    acquires
    ∷ counts
    ∷ fetches timeout
    ∷ discounts false
    ∷ acquires
    ∷ counts
    ∷ fetches message
    ∷ finishes
    ∷ acquires
    ∷ counts
    ∷ []

-- The worker has given its slot back to the loop, and both are on the gauge.
gauge_is_ahead : (run (new_consumer 1) events).inflight_messages ≡ 2
unfolding run new_consumer
gauge_is_ahead = refl

run-IsAccounted_example : IsAccounted 1 (run (new_consumer 1) events)
run-IsAccounted_example = run-IsAccounted 1 events
