-- ===== src/Endpoints.antt =====
-- The HTTP endpoints beside the API: `startHTTPServer` of orchestrator/orchestrator.go and of
-- nats-agent/agent.go, and the routes of ai-processor/main.go. The text that package promhttp makes of
-- metrics is theirs; a path without a handler is answered by package net/http.
use serverless_gpu_linode.Common.{ℕ, String, Bool, List, Option, none, some, if◌then◌else◌, str_eq}
use serverless_gpu_linode.Metrics.{Metrics}
use serverless_gpu_linode.Agent
use serverless_gpu_linode.Agent.Start.{health}
use serverless_gpu_linode.Processor.{Reply, handle_process}

-- Metrics are shown, or a status is written with a text.
pub data Shown (M : Type 0) : Type 0 where
  exposes : M → Shown M
  says : ℕ → String → Shown M

unfoldable pub serve_orchestrator : Metrics → String → Option (Shown Metrics)
serve_orchestrator metrics path =
    if str_eq path "/metrics"
    then some (exposes metrics)
    else (if str_eq path "/health" then some (says 200 "ok") else none)

unfoldable pub serve_agent : Agent.Metrics → Bool → String → Option (Shown Agent.Metrics)
unfolding health
serve_agent metrics is_connected path =
    if str_eq path "/metrics"
    then some (exposes metrics)
    else (if str_eq path "/health"
        then some (says (health is_connected).0 (health is_connected).1)
        else none)

-- What the AI processor answers: a text, or the reply of its handler.
pub data Processed : Type 0 where
  healthy : ℕ → String → Processed
  replied : Reply → Processed

unfoldable pub serve_processor : List ℕ → String → Bool → String → Option Processed
serve_processor process_duration method canceled path =
    if str_eq path "/health"
    then some (healthy 200 "ok")
    else (if str_eq path "/process"
        then some (replied (handle_process process_duration method canceled))
        else none)
