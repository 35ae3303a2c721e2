-- ===== src/Scaler/Actions.antt =====
-- orchestrator/scaler.go, the goroutines: `ScaleUp`, `waitForNodeReady` and `ScaleDown`.
-- Each is cut where it waits for the cloud, since other goroutines and ticks run there: the parts
-- are definitions, and the whole is their composition. A part takes the instant at which it runs.
pub mod Up
mod Drain
pub mod Down
pub mod Wait
use serverless_gpu_linode.Common.{
  ℕ, ◌+◌, ◌-◌, ◌/◌, String, ◌+++◌, Bool, true, false, not, ◌∷◌, Option, none, some, Result, ok, err,
  leb, if◌then◌else◌, decimal,
}
use serverless_gpu_linode.StateMachine.{
  NodeError, ready, draining, destroying, Node, NodeManager, add_node, transition_node, remove_node,
  get_node, set_node_ip, active_count,
}
use serverless_gpu_linode.Cloud.{CloudProvider}
use serverless_gpu_linode.Metrics.{record_scale_event, update_node_counts}
use serverless_gpu_linode.Discovery.{Disk, write_targets_file}
use serverless_gpu_linode.Orchestrator.{Orchestrator}
use serverless_gpu_linode.Scaler.{Task, wait_task, can_scale}

pub data ScaleError : Type 0 where
  max_node_cap_reached : ℕ → ScaleError
  create_failed : String → ScaleError
  track_failed : NodeError → ScaleError
  not_found : ℕ → ScaleError
  drain_lock_active : ℕ → ScaleError
  blocked_by_cooldown : ScaleError
  blocked_by_min_node_floor : ℕ → ScaleError
  draining_failed : NodeError → ScaleError
  destroying_failed : NodeError → ScaleError
  destroy_failed : String → ScaleError

-- What `ScaleUp` holds after the cloud has created the instance.
pub record Created : Type 0 where
  pub id : ℕ
  pub label : String
  pub active : ℕ

-- `time.Now().Unix()`, from nanoseconds.
abbrev pub unix : ℕ → ℕ
unix now = now / 1_000_000_000

abbrev pub node_label : ℕ → ℕ → String
node_label active now = "gpu-node-" +++ (decimal (active + 1) +++ ("-" +++ decimal (unix now)))

-- Ten minutes.
abbrev pub wait_timeout : ℕ
wait_timeout = 600_000_000_000

module _ {W : Type 0} where
  -- Here and below `o.nodes` has changed: `o.metrics.UpdateNodeCounts(o.nodes)`.
  abbrev pub count_nodes : Orchestrator W → Orchestrator W
  count_nodes o = record o { metrics = update_node_counts o.metrics o.nodes }

  -- `recordScaleEvent`, and the metric of the event.
  abbrev pub scaled : Orchestrator W → String → ℕ → ℕ → ℕ → Orchestrator W
  scaled o direction from to now = record o {
    last_scale_event = some now;
    metrics = record_scale_event o.metrics direction (decimal from) (decimal to) now;
  }

  -- `ScaleDown` up to the call of `DestroyNode`: the guards, and the two transitions. It holds the
  -- active count that it read.
  unfoldable pub scale_down_drain : Orchestrator W → ℕ → ℕ → Orchestrator W × Result ScaleError ℕ
  unfolding can_scale
  scale_down_drain o id now = elim (get_node o.nodes id) [
    | none ↦ (o, err (not_found id))
    | some node ↦
        if node.drain_locked
        then (o, err (drain_lock_active id))
        else (let (o₁, can) = can_scale o now in
            let active : ℕ = active_count o₁.nodes in
            if not can
            then (o₁, err blocked_by_cooldown)
            else (if leb active o₁.cfg.min_nodes
                then (o₁, err (blocked_by_min_node_floor o₁.cfg.min_nodes))
                else (let (nm₁, r₁) = transition_node o₁.nodes id draining now in
                    elim r₁ [
                      | some e ↦ (record o₁ { nodes = nm₁ }, err (draining_failed e))
                      | none ↦
                          let o₂ : Orchestrator W = count_nodes (record o₁ { nodes = nm₁ }) in
                          let (nm₂, r₂) = transition_node o₂.nodes id destroying now in
                          elim r₂ [
                            | some e ↦ (record o₂ { nodes = nm₂ }, err (destroying_failed e))
                            | none ↦ (count_nodes (record o₂ { nodes = nm₂ }), ok active)
                          ]
                    ])))
  ]

  -- `ScaleUp` from the creation on, up to the call of `DestroyNode` where the instance cannot be
  -- tracked.
  unfoldable pub scale_up_add :
      Orchestrator W → Created → ℕ → Orchestrator W × Result ScaleError Task
  scale_up_add o c now =
      let (nm, r) = add_node o.nodes c.id c.label now in
      elim r [
        | err e ↦ (o, err (track_failed e))
        | ok node ↦ (
          count_nodes (scaled (record o { nodes = nm }) "up" c.active (c.active + 1) now),
          ok (wait_task node.linode_id node.created_at),
        )
      ]

  -- `waitForNodeReady` after `WaitForRunning` has failed, up to the call of `DestroyNode`.
  unfoldable pub wait_failed_begin : Orchestrator W → ℕ → ℕ → Orchestrator W
  wait_failed_begin o id now = record o { nodes = (transition_node o.nodes id destroying now).0 }

  -- After that call has returned.
  unfoldable pub wait_failed_end : Orchestrator W → ℕ → Orchestrator W
  wait_failed_end o id = count_nodes (record o { nodes = remove_node o.nodes id })

module _ {W : Type 0} (cloud : CloudProvider W) where
  -- A call of `DestroyNode` whose error is dropped.
  unfoldable pub discard_node : Orchestrator W → ℕ → Orchestrator W
  discard_node o id = record o { world = (cloud.destroy_node o.world id).0 }

  -- `ScaleUp` up to the answer of `CreateGPUNode`.
  unfoldable pub scale_up_create : Orchestrator W → ℕ → Orchestrator W × Result ScaleError Created
  scale_up_create o now =
      let active : ℕ = active_count o.nodes in
      if leb o.cfg.max_nodes active
      then (o, err (max_node_cap_reached o.cfg.max_nodes))
      else (let (w, r) = cloud.create_gpu_node o.world (node_label active now) in
          elim r [
            | err e ↦ (record o { world = w }, err (create_failed e))
            | ok id ↦ (
              record o { world = w },
              ok (record { id = id; label = node_label active now; active = active }),
            )
          ])

  -- `ScaleUp` from there: the instance is tracked, or destroyed again.
  unfoldable pub scale_up_track :
      Orchestrator W → Created → ℕ → Orchestrator W × Result ScaleError Task
  unfolding scale_up_add discard_node
  scale_up_track o c now =
      let (o', r) = scale_up_add o c now in
      elim r [ err e ↦ (discard_node o' c.id, err e) | ok t ↦ (o', ok t) ]

  unfoldable pub scale_up : Orchestrator W → ℕ → ℕ → Orchestrator W × Result ScaleError Task
  scale_up o start now =
      let (o', r) = scale_up_create o start in
      elim r [ err e ↦ (o', err e) | ok c ↦ scale_up_track o' c now ]

  -- The call of `DestroyNode`.
  unfoldable pub scale_down_destroy :
      Orchestrator W → ℕ → Orchestrator W × Result ScaleError (Unit {0})
  scale_down_destroy o id =
      let (w, r) = cloud.destroy_node o.world id in
      elim r [
        | some e ↦ (record o { world = w }, err (destroy_failed e))
        | none ↦ (record o { world = w }, ok tt)
      ]

module _ {W : Type 0} (cloud : CloudProvider W) (disk : Disk W) where
  abbrev pub write_targets : Orchestrator W → Orchestrator W
  write_targets o = record o {
    world = (write_targets_file disk o.world o.cfg.prometheus_targets_file o.nodes).0;
  }

  -- `ScaleDown` after `DestroyNode` has returned.
  unfoldable pub scale_down_finish : Orchestrator W → ℕ → ℕ → ℕ → Orchestrator W
  scale_down_finish o id active now =
      let o₁ : Orchestrator W = record o { nodes = remove_node o.nodes id } in
      write_targets (count_nodes (scaled o₁ "down" active (active - 1) now))

  unfoldable pub scale_down :
      Orchestrator W → ℕ → ℕ → ℕ → Orchestrator W × Result ScaleError (Unit {0})
  scale_down o id start now =
      let (o₁, r₁) = scale_down_drain o id start in
      elim r₁ [
        | err e ↦ (o₁, err e)
        | ok active ↦
            let (o₂, r₂) = scale_down_destroy cloud o₁ id in
            elim r₂ [ err e ↦ (o₂, err e) | ok _ ↦ (scale_down_finish o₂ id active now, ok tt) ]
      ]

  -- `waitForNodeReady` after `WaitForRunning` has failed.
  unfoldable pub wait_failed : Orchestrator W → ℕ → ℕ → Orchestrator W
  unfolding wait_failed_begin discard_node wait_failed_end
  wait_failed o id now = wait_failed_end (discard_node cloud (wait_failed_begin o id now) id) id

  -- `waitForNodeReady` after the node has been seen running at an address.
  unfoldable pub wait_running : Orchestrator W → ℕ → ℕ → String → ℕ → Orchestrator W
  wait_running o id created_at ip now =
      let (nm₁, r₁) = set_node_ip o.nodes id ip in
      elim r₁ [
        | some e ↦ o
        | none ↦
            let (nm₂, r₂) = transition_node nm₁ id ready now in
            elim r₂ [
              | some e ↦ record o { nodes = nm₂ }
              | none ↦
                  let observed = record o.metrics {
                    provisioning_latency = (now - created_at) ∷ o.metrics.provisioning_latency;
                  } in
                  write_targets (count_nodes (record o { nodes = nm₂; metrics = observed }))
            ]
      ]

  unfoldable pub wait_finish : Orchestrator W → ℕ → ℕ → Result String String → ℕ → Orchestrator W
  unfolding wait_failed wait_running
  wait_finish o id created_at (err e) now = wait_failed o id now
  wait_finish o id created_at (ok ip) now = wait_running o id created_at ip now

  unfoldable pub wait_for_node_ready : Orchestrator W → ℕ → ℕ → ℕ → Orchestrator W
  unfolding wait_finish
  wait_for_node_ready o id created_at now =
      let (w, r) = cloud.wait_for_running o.world id wait_timeout in
      wait_finish (record o { world = w }) id created_at r now
