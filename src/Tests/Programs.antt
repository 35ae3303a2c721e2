-- ===== src/Tests/Programs.antt =====
-- The programs of the services, their endpoints and their metrics at concrete inputs.
use serverless_gpu_linode.Common.{
  ◌≡◌, refl, Bool, not, ◌&&◌, List, true, false, [], ◌∷◌, none, some, ok, any, codes, str_eq,
}
use serverless_gpu_linode.Connection.{connect_nats}
use serverless_gpu_linode.Settings.Workers
use serverless_gpu_linode.Settings.Services.{load_api_config}
use serverless_gpu_linode.Agent
use serverless_gpu_linode.Agent.Start.{
  Subscriptions, signalled, consumed, run_agent, ensure_dlq_stream, subscribe, stop,
}
use serverless_gpu_linode.Metrics.{new_metrics}
use serverless_gpu_linode.Programs.{closed, failed, agent_main, api_main}
use serverless_gpu_linode.Endpoints.{
  exposes, says, healthy, serve_orchestrator, serve_agent, serve_processor,
}
use serverless_gpu_linode.Registry.{Opts, orchestrator_metrics, agent_metrics}
use serverless_gpu_linode.Tests.Services.{no_duration, env}
use serverless_gpu_linode.Tests.Lifetimes.{World, nats}

-- No name of the list stands twice in it.
abbrev registers : List Opts → Bool
registers [] = true
registers (o ∷ rest) = not (any (λ p. str_eq p.name o.name) rest) && registers rest

-- No name is registered twice, so that `NewMetrics` does not panic.
each_once : (registers orchestrator_metrics ≡ true) × (registers agent_metrics ≡ true)
unfolding any str_eq
each_once = (refl, refl)

-- A shutdown is no failure of the API, and every other end of its server is.
api_exits : ((api_main nats env tt closed).1 ≡ 0) × ((api_main nats env tt (failed "in use")).1 ≡ 1)
unfolding api_main load_api_config connect_nats str_eq
api_exits = (refl, refl)

abbrev subs : Subscriptions World World
subs = record {
  pull_subscribe = λ w subject consumer stream. (w, ok tt);
  drain = λ w sub. (w, none);
  unsubscribe = λ w sub. w;
}

-- The agent exits with 0 where its workers are done in time.
agent_exits :
    ((agent_main nats subs no_duration env tt (signalled true)).1 ≡ 0)
    × ((agent_main nats subs no_duration env tt (signalled false)).1 ≡ 1)
    × ((agent_main nats subs no_duration env tt (consumed (some "fetch") true)).1 ≡ 1)
unfolding agent_main run_agent ensure_dlq_stream subscribe stop connect_nats Workers.load_config
    str_eq
agent_exits = (refl, refl, refl)

shown :
    (serve_orchestrator new_metrics "/metrics" ≡ some (exposes new_metrics))
    × (serve_orchestrator new_metrics "/health" ≡ some (says 200 "ok"))
    × (serve_processor (codes "20s") "GET" false "/health" ≡ some (healthy 200 "ok"))
unfolding serve_orchestrator serve_processor str_eq
shown = (refl, refl, refl)

abbrev no_messages : Agent.Metrics
no_messages = record {
  messages_received = 0;
  messages_acked = 0;
  messages_nacked = 0;
  messages_dlq = 0;
  forward_failures = 0;
  forward_latency = [];
  inflight_messages = 0;
  last_success = none;
  last_failure = none;
}

shown_by_agent :
    (serve_agent no_messages true "/metrics" ≡ some (exposes no_messages))
    × (serve_agent no_messages false "/health" ≡ some (says 503 "nats-disconnected"))
unfolding serve_agent str_eq
shown_by_agent = (refl, refl)
