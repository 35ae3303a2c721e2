-- ===== src/Agent/Processing/Envelopes.antt =====
-- What `processMessage` of nats-agent/agent.go publishes to the dead-letter queue.
use serverless_gpu_linode.Common.{
  ℕ, zero, suc, ◌+◌, ◌-◌, not, ◌≡◌, refl, Bool, true, false, List, All, arith, if_both,
}
use serverless_gpu_linode.Agent.{Config, Message}
use serverless_gpu_linode.Agent.Base64.{AreBytes, decode, decode-encode}
use serverless_gpu_linode.Agent.Failure.{
  Forwarded, forward_to_ai, is_success, is_non_retryable_status,
}
use serverless_gpu_linode.Agent.Heartbeat.{heartbeat_period}
use serverless_gpu_linode.Agent.Processing.{
  Action, forwards, publishes, acks, naks, naks_with_delay, sleeps, starts_heartbeat,
  stops_heartbeat, Replies, Handler, nak, publish_to_dlq, reject_invalid, dead_letter, give_up,
  attempts, delivered_count, succeeded, attempted, pause, failed, acts, max_attempts,
  process_message,
}

module _ (cfg : Config) (msg : Message) where
  -- What is forwarded is the payload. What is published goes to the dead-letter subject, names the
  -- message's subject and delivery count, and holds the payload, which can be read back.
  abbrev pub IsFaithful : Action → Type 0
  IsFaithful (forwards payload) = payload ≡ msg.payload
  IsFaithful (publishes subject e) =
      (subject ≡ cfg.dlq_subject)
      × (e.original_subject ≡ msg.subject)
      × (e.num_delivered ≡ delivered_count msg)
      × (decode e.original_data_b64 ≡ msg.payload)
  IsFaithful acks = Unit
  IsFaithful naks = Unit
  IsFaithful (naks_with_delay _) = Unit
  IsFaithful (sleeps _) = Unit
  IsFaithful (starts_heartbeat _) = Unit
  IsFaithful stops_heartbeat = Unit

  module _ (bytes : AreBytes msg.payload) (r : Replies) where
    give_up-IsFaithful :
        (f : Forwarded) (h : Handler)
        → All IsFaithful h.log
        → All IsFaithful (give_up cfg r msg (delivered_count msg) f h).log
    unfolding give_up dead_letter publish_to_dlq nak
    give_up-IsFaithful f h a = ground (arith, decode-encode msg.payload bytes)

    reject_invalid-IsFaithful :
        (h : Handler)
        → All IsFaithful h.log
        → All IsFaithful (reject_invalid cfg r msg (delivered_count msg) h).log
    unfolding reject_invalid publish_to_dlq nak
    reject_invalid-IsFaithful h a = ground (arith, decode-encode msg.payload bytes)

    abbrev Faithful : Handler → Type 0
    Faithful h = All IsFaithful h.log

    succeeded-IsFaithful :
        (k start : ℕ) (h : Handler)
        → Faithful h
        → Faithful (succeeded r (r.answered_at k) (attempted r msg k start h))
    succeeded-IsFaithful k start h a = ground arith

    paused-IsFaithful :
        (k start : ℕ) (h : Handler)
        → Faithful h
        → Faithful (pause cfg (failed (r.answered_at k) (attempted r msg k start h)))
    paused-IsFaithful k start h a = ground arith

    attempts-IsFaithful :
        (left k start : ℕ) (h : Handler)
        → Faithful h
        → Faithful (attempts cfg r msg (delivered_count msg) left k start h)
    unfolding attempts
    attempts-IsFaithful zero k start h a =
        let f : Forwarded = forward_to_ai (r.forward k) in
        let lost : Handler = failed (r.answered_at k) (attempted r msg k start h) in
        if_both Faithful (is_success f) (succeeded-IsFaithful k start h a)
          (give_up-IsFaithful f lost (refl, a))
    attempts-IsFaithful (suc left) k start h a =
        let f : Forwarded = forward_to_ai (r.forward k) in
        let lost : Handler = failed (r.answered_at k) (attempted r msg k start h) in
        let again =
          attempts-IsFaithful left (k + 1) (r.answered_at k) (pause cfg lost)
            (paused-IsFaithful k start h a) in
        if_both Faithful (is_success f) (succeeded-IsFaithful k start h a) (
          if_both Faithful (is_non_retryable_status f.status) (give_up-IsFaithful f lost (refl, a))
            again)

    -- For a payload of bytes, all that the handling of a message forwards is its payload, and all
    -- that it publishes goes to the dead-letter subject, names the message's subject and delivery
    -- count, and decodes to the payload, whatever the replies.
    pub process_message-IsFaithful :
        (json_valid : List ℕ → Bool) (interval : ℕ) (shutting_down : Bool) (h : Handler)
        → All IsFaithful h.log
        → All IsFaithful (process_message json_valid cfg interval shutting_down r msg h).log
    unfolding process_message nak
    process_message-IsFaithful json_valid interval true h a = ground arith
    process_message-IsFaithful json_valid interval false h a =
        let h₀ : Handler = acts (starts_heartbeat (heartbeat_period interval)) h in
        let looped = attempts-IsFaithful (max_attempts cfg - 1) 1 r.started_at h₀ (tt, a) in
        let handled : Handler =
          attempts cfg r msg (delivered_count msg) (max_attempts cfg - 1) 1 r.started_at h₀ in
        if_both Faithful (not (json_valid msg.payload)) {y = acts stops_heartbeat handled}
          (reject_invalid-IsFaithful h a) (tt, looped)
