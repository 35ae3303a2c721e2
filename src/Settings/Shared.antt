-- ===== src/Settings/Shared.antt =====
-- The settings that the orchestrator (orchestrator/main.go) and the agent (nats-agent/main.go)
-- both read.
use text.Mathlib.TextLemmas.{append_cancel_right}
use serverless_gpu_linode.Common.Int.{ℤ}
use serverless_gpu_linode.Common.{
  ◌≡◌, ◌≢◌, ◌↔◌, refl, sym, ap, ◌∙◌, ◌⊎◌, String, ◌+++◌, if◌then◌else◌, Option, some, arith, str_eq,
  str_eq_iff,
}
use serverless_gpu_linode.Settings.{Env, env_or_default}
use serverless_gpu_linode.Settings.Scaling
use serverless_gpu_linode.Settings.Scaling.{read_settings, check_limits}
use serverless_gpu_linode.Settings.Scaling.Limits.{load_config_iff}
use serverless_gpu_linode.Settings.Services.{ApiConfig, load_api_config}
use serverless_gpu_linode.Settings.Workers
use serverless_gpu_linode.Settings.Workers.{job_subject, load_heartbeat_interval}

dlq_default_iff : (s : String) → (s +++ ".DLQ" ≡ "GPU_JOBS.DLQ") ↔ (s ≡ "GPU_JOBS")
dlq_default_iff s = (append_cancel_right s "GPU_JOBS" ".DLQ", λ e. ap (λ t. t +++ ".DLQ") e)

dlq_subject_iff :
    (v s : String)
    → ((if str_eq v "" then "GPU_JOBS.DLQ" else v) ≡ (if str_eq v "" then s +++ ".DLQ" else v))
      ↔ ((v ≢ "") ⊎ (s ≡ "GPU_JOBS"))
dlq_subject_iff v s = ground (arith, str_eq_iff v "", dlq_default_iff s)

subject_iff :
    (v s : String)
    → ((if str_eq v "" then s else v) ≡ (if str_eq v "" then "GPU_JOBS" else v))
      ↔ ((v ≢ "") ⊎ (s ≡ "GPU_JOBS"))
subject_iff v s = ground (arith, str_eq_iff v "")

job_subject_lem :
    (env : Env)
    → job_subject env
      ≡ env_or_default env "NATS_SUBJECT" (env_or_default env "NATS_STREAM" "GPU_JOBS")
unfolding job_subject
job_subject_lem env = refl

module _ (parse_duration : String → Option ℤ) (env : Env) where
  abbrev OrchestratorNames : Scaling.Settings → Type 0
  OrchestratorNames o =
      (o.stream_name ≡ env_or_default env "NATS_STREAM" "GPU_JOBS")
      × (o.subject ≡ job_subject env)
      × (o.consumer_name ≡ env_or_default env "NATS_CONSUMER" "gpu-workers")
      × (o.dlq_stream ≡ env_or_default env "NATS_DLQ_STREAM" "GPU_JOBS_DLQ")
      × (o.dlq_subject ≡ env_or_default env "NATS_DLQ_SUBJECT" "GPU_JOBS.DLQ")

  abbrev AgentNames : Workers.Settings → Type 0
  AgentNames a =
      (a.stream_name ≡ env_or_default env "NATS_STREAM" "GPU_JOBS")
      × (a.subject ≡ job_subject env)
      × (a.consumer_name ≡ env_or_default env "NATS_CONSUMER" "gpu-workers")
      × (a.dlq_stream ≡ env_or_default env "NATS_DLQ_STREAM" "GPU_JOBS_DLQ")
      × (a.dlq_subject ≡ env_or_default env "NATS_DLQ_SUBJECT" (job_subject env +++ ".DLQ"))

  agent_names :
      (a : Workers.Settings) → Workers.load_config parse_duration env ≡ some a → AgentNames a
  unfolding Workers.load_config job_subject
  agent_names a h = ground arith

  read_names :
      (o : Scaling.Settings) → read_settings parse_duration env ≡ some o → OrchestratorNames o
  unfolding read_settings job_subject
  read_names o h = ground arith

  api_subject :
      (c : ApiConfig)
      → load_api_config env ≡ some c
      → c.nats_subject ≡ env_or_default env "NATS_SUBJECT" "GPU_JOBS"
  unfolding load_api_config
  api_subject c h = ground arith

  -- Where all start from the same environment, the orchestrator and the agent agree on the stream,
  -- the subject, the consumer and the dead-letter stream. They agree on the dead-letter subject
  -- exactly when it is set, or the subject of the jobs is the default one; and the API publishes to
  -- that subject exactly when it is set, or the stream has the default name.
  pub shared_settings_agree :
      (o : Scaling.Settings) (a : Workers.Settings) (c : ApiConfig)
      → Scaling.load_config parse_duration env ≡ some o
      → Workers.load_config parse_duration env ≡ some a
      → load_api_config env ≡ some c
      → (o.stream_name ≡ a.stream_name)
        × (o.subject ≡ a.subject)
        × (o.consumer_name ≡ a.consumer_name)
        × (o.dlq_stream ≡ a.dlq_stream)
        × ((o.dlq_subject ≡ a.dlq_subject)
            ↔ ((env "NATS_DLQ_SUBJECT" ≢ "") ⊎ (o.subject ≡ "GPU_JOBS")))
        × ((o.subject ≡ c.nats_subject)
            ↔ ((env "NATS_SUBJECT" ≢ "") ⊎ (o.stream_name ≡ "GPU_JOBS")))
  unfolding env_or_default
  shared_settings_agree o a c ho ha hc =
      let (read, _, _, _) = (load_config_iff parse_duration env o).0 ho in
      let (s₁, j₁, c₁, d₁, q₁) = read_names o read in
      let (s₂, j₂, c₂, d₂, q₂) = agent_names a ha in
      (
        s₁ ∙ sym s₂,
        j₁ ∙ sym j₂,
        c₁ ∙ sym c₂,
        d₁ ∙ sym d₂,
        rw (q₁, q₂, j₁) (dlq_subject_iff (env "NATS_DLQ_SUBJECT") (job_subject env)),
        rw (j₁ ∙ job_subject_lem env, api_subject c hc, s₁)
            (subject_iff (env "NATS_SUBJECT") (env_or_default env "NATS_STREAM" "GPU_JOBS")),
      )
