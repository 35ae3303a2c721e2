-- ===== src/Agent/Processing.antt =====
-- nats-agent/agent.go: `processMessage` with `publishToDLQ` and `nak`. Whether a payload is JSON
-- (`json.Valid`) is a parameter, a test on its bytes.
pub mod Loop
pub mod Settlement
pub mod Envelopes
use serverless_gpu_linode.Common.{
  ℕ, zero, suc, ◌+◌, ◌-◌, String, Bool, true, false, not, List, [], ◌∷◌, Option, none, some, ltb,
  leb, ◌==◌, if◌then◌else◌, codes,
}
use serverless_gpu_linode.Agent.{Config, Metrics, Message}
use serverless_gpu_linode.Agent.Base64.{encode}
use serverless_gpu_linode.Agent.Heartbeat.{heartbeat_period}
use serverless_gpu_linode.Agent.Failure.{
  HttpReply, Forwarded, forward_to_ai, is_success, is_non_retryable_status, build_failure_reason,
}

-- `dlqEnvelope`; `failed_at` is the instant that is formatted.
pub record DlqEnvelope : Type 0 where
  pub original_subject : String
  pub original_data_b64 : List ℕ
  pub reason : List ℕ
  pub num_delivered : ℕ
  pub failed_at : ℕ

-- What the agent does, as the rest of the system sees it.
pub data Action : Type 0 where
  forwards : List ℕ → Action
  publishes : String → DlqEnvelope → Action
  acks : Action
  naks : Action
  naks_with_delay : ℕ → Action
  sleeps : ℕ → Action
  starts_heartbeat : ℕ → Action
  stops_heartbeat : Action

-- The answers to the calls: `forward k` to the k-th attempt, with the instant at which it is there;
-- whether publishing, acknowledging, the delayed nak and the plain one succeed; and the instants of the start and
-- of the publication.
pub record Replies : Type 0 where
  pub forward : ℕ → HttpReply
  pub answered_at : ℕ → ℕ
  pub publish_ok : Bool
  pub ack_ok : Bool
  pub nak_with_delay_ok : Bool
  pub nak_ok : Bool
  pub started_at : ℕ
  pub failed_at : ℕ

-- The agent while it handles a message: its metrics, and what it has done, newest first.
pub record Handler : Type 0 where
  pub metrics : Metrics
  pub log : List Action

abbrev pub acts : Action → Handler → Handler
acts a h = record h { log = a ∷ h.log }

-- The delayed nak where a delay is set, and the plain one without it or where that fails; with
-- whether there is no error. The callers drop the error.
unfoldable pub nak : Config → Replies → Handler → Handler × Bool
nak cfg r h =
    if ltb 0 cfg.retry_delay
    then (if r.nak_with_delay_ok
        then (acts (naks_with_delay cfg.retry_delay) h, true)
        else (acts naks (acts (naks_with_delay cfg.retry_delay) h), r.nak_ok))
    else (acts naks h, r.nak_ok)

abbrev pub count_nacked : Handler → Handler
count_nacked h = record h {
  metrics = record h.metrics { messages_nacked = h.metrics.messages_nacked + 1 };
}

abbrev pub count_acked : Handler → Handler
count_acked h = record h {
  metrics = record h.metrics { messages_acked = h.metrics.messages_acked + 1 };
}

abbrev pub count_dlq : Handler → Handler
count_dlq h = record h { metrics = record h.metrics { messages_dlq = h.metrics.messages_dlq + 1 } }

abbrev pub envelope : Message → ℕ → List ℕ → ℕ → DlqEnvelope
envelope msg delivered reason now = record {
  original_subject = msg.subject;
  original_data_b64 = encode msg.payload;
  reason = reason;
  num_delivered = delivered;
  failed_at = now;
}

-- `publishToDLQ`: the call, whatever its answer.
unfoldable pub publish_to_dlq : Config → Replies → Message → ℕ → List ℕ → Handler → Handler
publish_to_dlq cfg r msg delivered reason h =
    acts (publishes cfg.dlq_subject (envelope msg delivered reason r.failed_at)) h

-- A payload that is not JSON: an `Ack` that fails is counted all the same.
unfoldable pub reject_invalid : Config → Replies → Message → ℕ → Handler → Handler
reject_invalid cfg r msg delivered h =
    let h₁ : Handler = publish_to_dlq cfg r msg delivered (codes "invalid_json_payload") h in
    if r.publish_ok then count_acked (acts acks (count_dlq h₁)) else count_nacked (nak cfg r h₁).0

-- The end of the loop without success.
unfoldable pub dead_letter : Config → Replies → Message → ℕ → List ℕ → Handler → Handler
dead_letter cfg r msg delivered reason h =
    let h₁ : Handler = publish_to_dlq cfg r msg delivered reason h in
    if r.publish_ok
    then (let h₂ : Handler = acts acks (count_dlq h₁) in if r.ack_ok then count_acked h₂ else h₂)
    else count_nacked (nak cfg r h₁).0

-- The metrics of an attempt, and the attempt.
abbrev pub attempted : Replies → Message → ℕ → ℕ → Handler → Handler
attempted r msg attempt start h = record h {
  metrics = record h.metrics {
    forward_latency = (r.answered_at attempt - start) ∷ h.metrics.forward_latency;
  };
  log = forwards msg.payload ∷ h.log;
}

abbrev pub failed : ℕ → Handler → Handler
failed now h = record h {
  metrics = record h.metrics {
    forward_failures = h.metrics.forward_failures + 1;
    last_failure = some now;
  };
}

abbrev pub succeeded : Replies → ℕ → Handler → Handler
succeeded r now h =
    let h₁ : Handler =
      acts acks (record h { metrics = record h.metrics { last_success = some now } }) in
    if r.ack_ok then count_acked h₁ else h₁

abbrev pub pause : Config → Handler → Handler
pause cfg h = if ltb 0 cfg.retry_delay then acts (sleeps cfg.retry_delay) h else h

-- The end of the loop, with the reason of the last attempt.
unfoldable pub give_up : Config → Replies → Message → ℕ → Forwarded → Handler → Handler
give_up cfg r msg delivered f h =
    dead_letter cfg r msg delivered (build_failure_reason f.status f.body f.error) h

-- The loop, by the attempts that are left after this one.
unfoldable pub attempts : Config → Replies → Message → ℕ → ℕ → ℕ → ℕ → Handler → Handler
attempts cfg r msg delivered zero attempt start h =
    let f : Forwarded = forward_to_ai (r.forward attempt) in
    let now : ℕ = r.answered_at attempt in
    let h₁ : Handler = attempted r msg attempt start h in
    if is_success f then succeeded r now h₁ else give_up cfg r msg delivered f (failed now h₁)
attempts cfg r msg delivered (suc left) attempt start h =
    let f : Forwarded = forward_to_ai (r.forward attempt) in
    let now : ℕ = r.answered_at attempt in
    let h₁ : Handler = attempted r msg attempt start h in
    let h₂ : Handler = failed now h₁ in
    let again : Handler = attempts cfg r msg delivered left (attempt + 1) now (pause cfg h₂) in
    if is_success f
    then succeeded r now h₁
    else (if is_non_retryable_status f.status then give_up cfg r msg delivered f h₂ else again)

abbrev pub max_attempts : Config → ℕ
max_attempts cfg = if cfg.max_deliver == 0 then 1 else cfg.max_deliver

abbrev pub delivered_count : Message → ℕ
delivered_count msg = elim msg.num_delivered [ none ↦ 1 | some n ↦ n ]

module _ (json_valid : List ℕ → Bool) (cfg : Config) (heartbeat_interval : ℕ) where
  unfoldable pub process_message : Bool → Replies → Message → Handler → Handler
  process_message shutting_down r msg h =
      if shutting_down
      then count_nacked (nak cfg r h).0
      else (if not (json_valid msg.payload)
          then reject_invalid cfg r msg (delivered_count msg) h
          else acts stops_heartbeat (
              attempts cfg r msg (delivered_count msg) (max_attempts cfg - 1) 1 r.started_at
                (acts (starts_heartbeat (heartbeat_period heartbeat_interval)) h)))
