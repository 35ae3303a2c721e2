-- ===== src/Monitor.antt =====
-- orchestrator/orchestrator.go, `monitorLoop`, beside the goroutines of orchestrator/scaler.go.
-- A process is cut before and after each call of the provider that follows or precedes a change of
-- the nodes, and after the provider's list and the queue's numbers; there the others may run. What
-- lies between two cuts is one step.
pub mod Tick
mod Steps
pub mod Reachable
pub mod Start
pub mod Alone
pub mod ColdStart
pub mod Settled
pub mod ToZero
pub mod Instances
pub mod Order
use serverless_gpu_linode.Common.{
  ℕ, zero, suc, String, List, [], ◌∷◌, ◌++◌, Option, none, some, Result, ok, err,
}
use serverless_gpu_linode.Cloud.{CloudNode, CloudProvider}
use serverless_gpu_linode.Metrics.{update_node_counts}
use serverless_gpu_linode.Discovery.{Disk}
use serverless_gpu_linode.Orchestrator.{Orchestrator, QueueStats, pending_work}
use serverless_gpu_linode.JetStream.{JetStream, get_queue_stats}
use serverless_gpu_linode.Reconcile.{reconcile_listed}
use serverless_gpu_linode.Scaler.{
  Task, scale_up_task, scale_down_task, wait_task, evaluate_scale_up, evaluate_scale_down,
}
use serverless_gpu_linode.Scaler.Actions.{
  Created, wait_timeout, scale_up_create, scale_up_add, scale_down_drain, scale_down_destroy,
  scale_down_finish, discard_node, wait_failed_begin, wait_failed_end, wait_running,
}

-- Where a goroutine is: `ScaleUp` at its start, with the instance that was created, or before the
-- call of `DestroyNode` for one that cannot be tracked; `ScaleDown` at its start, before the call of
-- `DestroyNode` or after it; and `waitForNodeReady` before the provider's answer, with it, and, where
-- the wait has failed, before the call of `DestroyNode` or after it.
pub data Goroutine : Type 0 where
  starts : Task → Goroutine
  created : Created → Goroutine
  drained : ℕ → ℕ → Goroutine
  destroyed : ℕ → ℕ → Goroutine
  answered : ℕ → ℕ → Result String String → Goroutine
  discards : ℕ → Goroutine
  clears : ℕ → Goroutine
  cleared : ℕ → Goroutine

-- Where the loop is: at its `select`, with the provider's list, or with the queue's numbers.
pub data Phase : Type 0 where
  selecting : Phase
  listed : List CloudNode → Phase
  counted : QueueStats → Phase

pub record System (W : Type 0) : Type 0 where
  pub orchestrator : Orchestrator W
  pub phase : Phase
  pub goroutines : List Goroutine

abbrev pub started : Option Task → List Goroutine
started none = []
started (some t) = starts t ∷ []

module _ {W : Type 0} where
  abbrev pub set_queue : Orchestrator W → QueueStats → Orchestrator W
  set_queue o q = record o {
    metrics =
        update_node_counts
          (record o.metrics {
            queue_pending = q.pending;
            queue_ack_pending = q.acks_pending;
            queue_depth = pending_work q;
          })
          o.nodes;
  }

  -- The end of the loop's body, with what it starts.
  unfoldable pub evaluate : Orchestrator W → QueueStats → ℕ → Orchestrator W × List Goroutine
  evaluate o q now =
      let (o₁, up) = evaluate_scale_up (set_queue o q) (pending_work q) now in
      let (o₂, down) = evaluate_scale_down o₁ (pending_work q) now in
      (o₂, started up ++ started down)

module _ {W : Type 0} (cloud : CloudProvider W) (disk : Disk W) (js : JetStream W) where
  -- The next step of the loop.
  unfoldable pub monitor : System W → ℕ → System W
  monitor s now = elim s.phase [
    | selecting ↦
        let (w, r) = cloud.list_managed_nodes s.orchestrator.world in
        let o : Orchestrator W = record s.orchestrator { world = w } in
        elim r [
          | err e ↦ record s { orchestrator = o; phase = selecting }
          | ok cloud_nodes ↦ record s { orchestrator = o; phase = listed cloud_nodes }
        ]
    | listed cloud_nodes ↦
        let o : Orchestrator W = reconcile_listed cloud disk s.orchestrator cloud_nodes now in
        let (w, q) = get_queue_stats js o.world o.cfg in
        record s { orchestrator = record o { world = w }; phase = counted q }
    | counted q ↦
        let (o, new) = evaluate s.orchestrator q now in
        record s { orchestrator = o; phase = selecting; goroutines = s.goroutines ++ new }
  ]

  -- The next step of a goroutine, with what it goes on as and what it starts.
  unfoldable pub advance : Orchestrator W → Goroutine → ℕ → Orchestrator W × List Goroutine
  advance o (starts scale_up_task) now =
      let (o', r) = scale_up_create cloud o now in
      elim r [ ok c ↦ (o', created c ∷ []) | err e ↦ (o', []) ]
  advance o (created c) now =
      let (o', r) = scale_up_add o c now in
      elim r [ ok t ↦ (o', starts t ∷ []) | err e ↦ (o', discards c.id ∷ []) ]
  advance o (discards id) now = (discard_node cloud o id, [])
  advance o (starts (scale_down_task id)) now =
      let (o', r) = scale_down_drain o id now in
      elim r [ ok active ↦ (o', drained id active ∷ []) | err e ↦ (o', []) ]
  advance o (drained id active) now =
      let (o', r) = scale_down_destroy cloud o id in
      elim r [ ok _ ↦ (o', destroyed id active ∷ []) | err e ↦ (o', []) ]
  advance o (destroyed id active) now = (scale_down_finish cloud disk o id active now, [])
  advance o (starts (wait_task id created_at)) now =
      let (w, r) = cloud.wait_for_running o.world id wait_timeout in
      (record o { world = w }, answered id created_at r ∷ [])
  advance o (answered id created_at (ok ip)) now =
      (wait_running cloud disk o id created_at ip now, [])
  advance o (answered id created_at (err e)) now = (wait_failed_begin o id now, clears id ∷ [])
  advance o (clears id) now = (discard_node cloud o id, cleared id ∷ [])
  advance o (cleared id) now = (wait_failed_end o id, [])

  -- One step of the goroutine at a place in the list; there may be none.
  unfoldable pub schedule :
      Orchestrator W → ℕ → List Goroutine → ℕ → Orchestrator W × List Goroutine
  unfolding advance
  schedule o k [] now = (o, [])
  schedule o zero (g ∷ gs) now = let (o', new) = advance o g now in (o', new ++ gs)
  schedule o (suc k) (g ∷ gs) now = let (o', rest) = schedule o k gs now in (o', g ∷ rest)

-- Who runs next, and when.
pub data Turn : Type 0 where
  loops : ℕ → Turn
  runs : ℕ → ℕ → Turn

module _ {W : Type 0} (cloud : CloudProvider W) (disk : Disk W) (js : JetStream W) where
  unfoldable pub turn : System W → Turn → System W
  unfolding monitor schedule
  turn s (loops now) = monitor cloud disk js s now
  turn s (runs k now) =
      let (o, gs) = schedule cloud disk js s.orchestrator k s.goroutines now in
      record s { orchestrator = o; goroutines = gs }

  unfoldable pub run_turns : System W → List Turn → System W
  unfolding turn
  run_turns s [] = s
  run_turns s (t ∷ ts) = run_turns (turn s t) ts
