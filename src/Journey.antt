-- ===== src/Journey.antt =====
-- A job from the API (api/main.go) over the queue and the agent (nats-agent/agent.go) to the AI
-- processor (ai-processor/main.go), and its acknowledgement. What is relied on of package
-- encoding/json: what `Marshal` gives is valid.
use serverless_gpu_linode.Common.{
  str_eq, ℕ, zero, suc, ◌-◌, ◌≡◌, refl, ◌∙◌, ap, inl, inr, String, Bool, true, false, List, [], ◌∷◌,
  Option, some, arith,
}
use serverless_gpu_linode.Settings.Services.{ApiConfig}
use serverless_gpu_linode.Api.{JobMessage, handle_create_job}
use serverless_gpu_linode.Api
use serverless_gpu_linode.Api.Queued.{IsJob, handle_create_job_answer}
use serverless_gpu_linode.Processor.{handle_process}
use serverless_gpu_linode.Agent.{Config, Message}
use serverless_gpu_linode.Agent.Failure.{HttpReply, responded, forward_to_ai, is_success}
use serverless_gpu_linode.Agent.Heartbeat.{heartbeat_period}
use serverless_gpu_linode.Agent.Processing.{
  Replies, Handler, forwards, acks, starts_heartbeat, stops_heartbeat, attempts, attempted,
  succeeded, delivered_count, max_attempts, process_message,
}

attempts-succeeded :
    (cfg : Config) (r : Replies) (msg : Message) (delivered left k start : ℕ) (h : Handler)
    → is_success (forward_to_ai (r.forward k)) ≡ true
    → attempts cfg r msg delivered left k start h
      ≡ succeeded r (r.answered_at k) (attempted r msg k start h)
unfolding attempts
attempts-succeeded cfg r msg delivered zero k start h e = rw e refl
attempts-succeeded cfg r msg delivered (suc left) k start h e = rw e refl

-- What the processor answers to a job that is not cancelled.
abbrev pub completes : List ℕ → List ℕ → HttpReply
completes duration body = responded (handle_process duration "POST" false).status body

completes_lem :
    (duration body : List ℕ) → is_success (forward_to_ai (completes duration body)) ≡ true
unfolding handle_process forward_to_ai str_eq
completes_lem duration body = refl

succeeded_log :
    (r : Replies) (msg : Message) (h : Handler) (period : ℕ)
    → h.log ≡ []
    → (succeeded r
        (r.answered_at 1)
        (attempted r msg 1 r.started_at (record h { log = starts_heartbeat period ∷ h.log }))).log
      ≡ acks ∷ forwards msg.payload ∷ starts_heartbeat period ∷ []
succeeded_log r msg h period fresh = ground arith

module _ (json_valid : List ℕ → Bool) (cfg : Config) (interval : ℕ) where
  -- The log of the handling of a message that the processor completes.
  processed_once :
      (r : Replies) (msg : Message) (h : Handler) (duration body : List ℕ)
      → json_valid msg.payload ≡ true
      → r.forward 1 ≡ completes duration body
      → h.log ≡ []
      → (process_message json_valid cfg interval false r msg h).log
        ≡ stops_heartbeat
          ∷ acks
          ∷ forwards msg.payload
          ∷ starts_heartbeat (heartbeat_period interval)
          ∷ []
  unfolding process_message
  processed_once r msg h duration body valid e fresh = rw valid (
      rw
        (attempts-succeeded cfg r msg (delivered_count msg) (max_attempts cfg - 1) 1 r.started_at _
          (ap (λ q. is_success (forward_to_ai q)) e ∙ completes_lem duration body))
        (ap (λ log. stops_heartbeat ∷ log)
          (succeeded_log r msg h (heartbeat_period interval) fresh)))

module _ (json_valid : List ℕ → Bool) (api : ApiConfig) (request : Api.Replies) (method : String)
    (cfg : Config) (interval : ℕ) (r : Replies) (delivery : Option ℕ) (h : Handler) where
  -- The handling of a job's message at some delivery, by an agent that is not shutting down.
  abbrev pub handled : List ℕ → Handler
  handled payload =
      process_message json_valid cfg interval false r
        (record { subject = api.nats_subject; payload = payload; num_delivered = delivery }) h

  -- If what is encoded is valid JSON, a request that the API answers with 202 has left one message,
  -- which the queue has taken and which encodes its job. If an agent that is not shutting down and
  -- has done nothing yet is given that message, at whatever delivery, and the AI processor completes
  -- it at the first attempt, the agent forwards exactly the payload, once and between the start and
  -- the end of its heartbeat, acknowledges it, and does no more.
  pub accepted_request_is_processed :
      ((msg : JobMessage) (payload : List ℕ)
        → request.marshal msg ≡ some payload
        → json_valid payload ≡ true)
      → (handle_create_job api request method).response.status ≡ 202
      → (duration body : List ℕ) → r.forward 1 ≡ completes duration body
      → h.log ≡ []
      → (msg : JobMessage) × (payload : List ℕ) × IsJob api request method msg payload
        × ((handle_create_job api request method).published ≡ (api.nats_subject, payload) ∷ [])
        × (request.publish_ok ≡ true)
        × ((handled payload).log
            ≡ stops_heartbeat
              ∷ acks
              ∷ forwards payload
              ∷ starts_heartbeat (heartbeat_period interval)
              ∷ [])
  accepted_request_is_processed marshals accepted duration body completed fresh =
      elim (handle_create_job_answer api request method) [
        | inl (msg, payload, job, published, inl (taken, _)) ↦ (
          msg,
          payload,
          job,
          published,
          taken,
          processed_once json_valid cfg interval r _ h duration body
              (marshals msg payload job.encoded) completed fresh,
        )
        | inl (msg, payload, job, published, inr (_, status)) ↦
            absurd (omega (arith, accepted, status))
        | inr (nothing, inl (status, _)) ↦ absurd (omega (arith, accepted, status))
        | inr (nothing, inr (inl (status, _, _))) ↦ absurd (omega (arith, accepted, status))
        | inr (nothing, inr (inr (status, _, _, _))) ↦ absurd (omega (arith, accepted, status))
      ]
