-- ===== src/Tests/Journeys.antt =====
-- A request to the API, and its job at the agent.
use serverless_gpu_linode.Common.{
  ℕ, ◌≡◌, ◌⊎◌, refl, Bool, true, List, [], ◌∷◌, none, some, ok, codes, str_eq,
}
use serverless_gpu_linode.Api.{
  JobMessage, Outcome, Replies, handle_create_job, create_job, job_id_for, publish_job,
}
use serverless_gpu_linode.Api.Queued.{IsJob, IsPublished, IsRefused, handle_create_job_answer}
use serverless_gpu_linode.Api.Documents.{open_api_spec}
use serverless_gpu_linode.Api.Documented.{is_operation, IsServed, IsDocumented, serve-IsDocumented}
use serverless_gpu_linode.Api.Routes.{serve}
use serverless_gpu_linode.Common.Json.{field}
use serverless_gpu_linode.Agent.Failure.{trim_space, trim_left}
use serverless_gpu_linode.Agent.Heartbeat.{heartbeat_period}
use serverless_gpu_linode.Agent.Processing
use serverless_gpu_linode.Agent.Processing.{acks, forwards, starts_heartbeat, stops_heartbeat}
use serverless_gpu_linode.Journey.{completes, handled, accepted_request_is_processed}
use serverless_gpu_linode.Tests.Services.{api}
use serverless_gpu_linode.Tests.Jobs.{config, idle}

-- The encoding is the prompt.
abbrev replies : Replies
replies = record {
  decoded = λ limit. ok (record { prompt = codes "hello"; job_id = codes " 7 " });
  random_bytes = none;
  now = codes "2025-01-01T00:00:00Z";
  marshal = λ msg. some msg.prompt;
  publish_ok = true;
}

-- The processor completes at the first attempt.
abbrev completed : Processing.Replies
completed = record {
  forward = λ k. completes (codes "20s") [];
  answered_at = λ k. k;
  publish_ok = true;
  ack_ok = true;
  nak_with_delay_ok = true;
  nak_ok = true;
  started_at = 0;
  failed_at = 9;
}

accepted : (handle_create_job api replies "POST").response.status ≡ 202
unfolding handle_create_job create_job job_id_for publish_job trim_space trim_left str_eq
accepted = refl

handle_create_job_answer_example :
    IsPublished api replies "POST" (handle_create_job api replies "POST")
    ⊎ IsRefused api replies "POST" (handle_create_job api replies "POST")
handle_create_job_answer_example = handle_create_job_answer api replies "POST"

accepted_request_is_processed_example :
    (msg : JobMessage) × (payload : List ℕ) × IsJob api replies "POST" msg payload
    × ((handle_create_job api replies "POST").published ≡ ("JOBS", payload) ∷ [])
    × (◌≡◌ {A = Bool} true true)
    × ((handled (λ bytes. true) api replies "POST" config 5 completed (some 1) idle payload).log
        ≡ stops_heartbeat ∷ acks ∷ forwards payload ∷ starts_heartbeat (heartbeat_period 5) ∷ [])
accepted_request_is_processed_example =
    accepted_request_is_processed (λ bytes. true) api replies "POST" config 5 completed (some 1)
      idle (λ msg payload e. refl) accepted (codes "20s") [] refl refl

-- No identifier can be made up.
abbrev unlucky : Replies
unlucky = record replies { decoded = λ limit. ok (record { prompt = codes "hello"; job_id = [] }) }

serve-IsDocumented_example :
    (o : Outcome) × (serve api unlucky true "POST" "/v1/jobs" ≡ some o)
    × IsServed api unlucky true "POST" "/v1/jobs" o
    × IsDocumented "/v1/jobs" "POST" o
unfolding is_operation open_api_spec field str_eq
serve-IsDocumented_example = serve-IsDocumented api unlucky true "POST" "/v1/jobs" refl
