-- ===== src/Lib.antt =====
-- Verification of serverless-gpu-linode: an orchestrator that creates and destroys GPU nodes at a
-- cloud provider by the depth of a JetStream queue, an agent on each node that hands the queue's
-- messages to a local AI service, and an API that puts them there.
--
-- The parts. Each tick of the orchestrator reads the queue, follows the provider's list of nodes,
-- and decides on a scale-up and a scale-down; each of these runs as a goroutine, calls the provider,
-- and moves the node through the states provisioning, ready, draining and destroying. The agent
-- fetches a message when it has a free slot, forwards it, and acknowledges it, gives it back, or
-- publishes it to a dead-letter queue. The API checks a request and publishes its job. Each service
-- reads its settings from the environment.
--
--   StateMachine   orchestrator/statemachine.go: `NodeManager` and its methods, over an association
--                  list in the place of the map. Its children are on lookups (Lookup), on all
--                  sequences of calls (Invariant, Lifecycle), on what the calls keep that are made
--                  (Kept), on the counts (Counts, Updates), and on two maps with the same
--                  entries (Order, Alike).
--   Scaler         orchestrator/scaler.go: `CanScale`, `EvaluateScaleUp`, `EvaluateScaleDown`,
--                  `pickScaleDownTarget`; in Scaler/Actions `ScaleUp`, `ScaleDown` and
--                  `waitForNodeReady`, cut before and after the calls of the provider.
--   Orchestrator   orchestrator/orchestrator.go: `Config`, `Orchestrator`, `QueueStats`.
--   Reconcile      orchestrator/orchestrator.go: `reconcileWithCloud`.
--   Monitor        orchestrator/orchestrator.go: `monitorLoop`, beside the goroutines of
--                  orchestrator/scaler.go, as turns of a system; in Monitor/Start `Run` up to the
--                  loop. Alone is on a goroutine with nothing in between, ColdStart and ToZero
--                  follow the first node and the last one through a schedule, Reachable is on all
--                  schedules. Instances sets the instances of the provider beside the nodes that
--                  are tracked, with what is assumed of a provider and, in Instances/Linode, of the
--                  API; Costs and Budget count them. Order is on the order of the map.
--   JetStream      orchestrator/orchestrator.go: `ensureJetStreamResources` with `ensureStream` and
--                  `ensureConsumer`, and `getQueueStats`. Its children are on what the server has
--                  afterwards.
--   Discovery      orchestrator/discovery.go: `WriteTargetsFile`.
--   Cloud          orchestrator/linode.go: the interface `CloudProvider`, and in Cloud/Linode its
--                  implementation.
--   Metrics        orchestrator/metrics.go: the values of the metrics.
--   Registry       orchestrator/metrics.go and nats-agent/metrics.go: what `NewMetrics` registers.
--   Agent          nats-agent/agent.go and nats-agent/metrics.go: `processMessage` and what it calls
--                  (Processing, Failure, Base64), the heartbeats (Heartbeat), and
--                  `consumeLoop` with its slots (Slots), and `Run` with `connectNATS`,
--                  `ensureDLQStream`, `subscribe` and `waitForInflight` (Start).
--   Connection     orchestrator/orchestrator.go: `connectNATS`, as the agent and the API connect too.
--   Settings       orchestrator/main.go, nats-agent/main.go, api/main.go and ai-processor/main.go:
--                  the loading of the settings of the orchestrator (Scaling), the agent (Workers),
--                  the API and the AI processor (Services), and `strconv.Atoi` (Atoi).
--   Api            api/main.go: `handleCreateJob`, `newJobID` and `handleHealth`, the routes of
--                  `run` (Routes), and `openAPISpec` and `swaggerHTML` (Documents).
--   Processor      ai-processor/main.go: the handler of `/process`.
--   Endpoints      the routes of `startHTTPServer` of orchestrator/orchestrator.go and of
--                  nats-agent/agent.go, and those of ai-processor/main.go.
--   Programs       the `main` functions of orchestrator/main.go, nats-agent/main.go and api/main.go,
--                  from the environment to the exit status.
--   Journey        a job from the API over the agent to the AI processor.
--   Common         Boolean tests, lists, maps and results that all of these use.
--   Tests          the theorems at concrete inputs.
--
-- Conventions. A method takes its receiver and returns the new one, with its result; an error is a
-- value. An instant (`time.Now()`) is an argument, in nanoseconds. The cloud, JetStream and the
-- disk are records of calls on the state of the world, which is a parameter, and so are linodego
-- and nats.go. A mutex makes what it covers one step. The loop and the goroutines of the
-- orchestrator interleave at the calls of the provider, as Monitor.antt says; an interleaving there
-- is one of these steps, and what others could do between two methods of the node manager inside a
-- step is not modelled. Go's `int` is a natural number: the IDs and counts are not negative, and
-- far below 2^63; the settings are signed as they are read, in 64 bits, and those that the scaling
-- uses are natural numbers. The keys of a map are in an arbitrary order.
-- The agent's loop of attempts runs by the number of attempts that are left, `MaxDeliver` or one,
-- which its own bound gives; the wait for an instance runs by the ticks that happen before the
-- deadline or the end of the context. Neither can run out early.
--
-- Not modelled: what is logged; the serving of HTTP, which is package net/http's, with its answers to
-- paths that have no handler; the registry of metrics and the text that is made of it; the ticker of
-- `monitorLoop`; the end of the process while goroutines run. The contents of JSON are lists, records
-- and a type of documents, and the packages for it, for random bytes, for durations
-- (`time.ParseDuration` computes with floating point) and for OAuth are parameters.
pub mod Common
pub mod StateMachine
pub mod Cloud
pub mod Metrics
pub mod Discovery
pub mod Orchestrator
pub mod Scaler
pub mod Reconcile
pub mod JetStream
pub mod Monitor
pub mod Settings
pub mod Connection
pub mod Api
pub mod Processor
pub mod Endpoints
pub mod Registry
pub mod Programs
pub mod Journey
pub mod Agent
mod Tests
