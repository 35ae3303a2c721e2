-- ===== src/Monitor/Start.antt =====
-- orchestrator/orchestrator.go, `Run` up to its monitoring loop, with `main` of
-- orchestrator/main.go from the settings on: what stands at the start of the loop. The error of the
-- connection is wrapped with the words of `connectNATS` and `Run`.
pub mod Bounded
use serverless_gpu_linode.Common.{
  ℕ, String, ◌+++◌, [], Option, none, some, Result, ok, err, ◌≤◌, ◌≡◌, refl, length, arith, ◌⊎◌,
  inl, inr, List,
}
use serverless_gpu_linode.Common.Int.{ℤ, pos}
use serverless_gpu_linode.StateMachine.{NodeManager, new_node_manager}
use serverless_gpu_linode.Cloud.{CloudProvider}
use serverless_gpu_linode.Discovery.{Disk, write_targets_file}
use serverless_gpu_linode.Orchestrator.{Config, Orchestrator, new_orchestrator}
use serverless_gpu_linode.JetStream.{JetStream, EnsureError, ensure_jetstream_resources}
use serverless_gpu_linode.Reconcile.{reconcile_with_cloud}
use serverless_gpu_linode.Connection.{Nats, connect_nats}
use serverless_gpu_linode.Settings.{Env}
use serverless_gpu_linode.Settings.Scaling.{Settings, load_config, to_config}
use serverless_gpu_linode.Monitor.{System, selecting, Turn, run_turns}

pub data RunError : Type 0 where
  connect_failed : String → RunError
  resources_failed : EnsureError → RunError

-- `logConsumerInfoAtStartup`: the call, whose answer is logged.
abbrev pub log_consumer_info_at_startup : {W : Type 0} → JetStream W → W → Config → W
log_consumer_info_at_startup js w cfg = (js.consumer_info w cfg.stream_name cfg.consumer_name).0

module _ {W C : Type 0} (nats : Nats W C (JetStream W)) (cloud : CloudProvider W)
    (disk : Disk W) where
  -- Reconciling and the first write of the file: their errors are logged.
  unfoldable pub prepare : Orchestrator W → ℕ → System W
  unfolding reconcile_with_cloud write_targets_file
  prepare o now =
      let (o₁, _) = reconcile_with_cloud cloud disk o now in
      let (w, _) = write_targets_file disk o₁.world o₁.cfg.prometheus_targets_file o₁.nodes in
      record { orchestrator = record o₁ { world = w }; phase = selecting; goroutines = [] }

  -- `Run` before the loop; on an error the connection is closed. The first two arguments are the fields of the same names.
  unfoldable pub start :
      String → String → Config → W → ℕ → W × Result RunError (JetStream W × System W)
  unfolding connect_nats ensure_jetstream_resources prepare new_orchestrator
  start nats_url nats_name cfg w now =
      let (w₁, r₁) = connect_nats nats w nats_url (some nats_name) in
      elim r₁ [
        | err e ↦ (w₁, err (connect_failed e))
        | ok (nc, js) ↦
            let (w₂, r₂) = ensure_jetstream_resources js w₁ cfg in
            elim r₂ [
              | some e ↦ (nats.close w₂ nc, err (resources_failed e))
              | none ↦
                  let w₃ : W = log_consumer_info_at_startup js w₂ cfg in
                  let s : System W = prepare (new_orchestrator cfg w₃) now in
                  (s.orchestrator.world, ok (js, s))
            ]
      ]
