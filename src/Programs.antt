-- ===== src/Programs.antt =====
-- The `main` functions of orchestrator/main.go, nats-agent/main.go and api/main.go, from the
-- environment to the exit status, without what they log. How the servers of package net/http end is an
-- argument; a signal ends the context.
pub mod Bounded
use serverless_gpu_linode.Common.Int.{ℤ}
use serverless_gpu_linode.Common.{
  ℕ, String, Bool, List, [], ◌∷◌, Option, none, some, Result, ok, err, if◌then◌else◌, str_eq,
}
use serverless_gpu_linode.Connection.{Nats, connect_nats}
use serverless_gpu_linode.Cloud.{CloudProvider}
use serverless_gpu_linode.Cloud.Linode.{LinodeApi, Schedule, linode_provider}
use serverless_gpu_linode.Discovery.{Disk}
use serverless_gpu_linode.JetStream.{JetStream}
use serverless_gpu_linode.Settings.{Env}
use serverless_gpu_linode.Settings.Scaling
use serverless_gpu_linode.Settings.Scaling.{load_linode_client, to_config}
use serverless_gpu_linode.Settings.Workers
use serverless_gpu_linode.Settings.Services.{ApiConfig, load_api_config}
use serverless_gpu_linode.Agent.Start.{Subscriptions, Ending, run_agent}
use serverless_gpu_linode.Monitor.{System}
use serverless_gpu_linode.Monitor.Start.{start}

-- What comes of starting the orchestrator: the process exits, or it enters its monitoring loop with a
-- provider and a JetStream context. Settings with negative numbers are those that the model of the
-- loop does not have.
pub data Launch (W : Type 0) : Type 0 where
  exits : ℕ → Launch W
  monitors : CloudProvider W → JetStream W → System W → Launch W
  out_of_model : Scaling.Settings → Launch W

module _ {W C : Type 0} (nats : Nats W C (JetStream W)) (disk : Disk W)
    (parse_duration : String → Option ℤ) (new_client : String → LinodeApi W)
    (runtime : W → ℕ → Schedule) where
  -- `main` of the orchestrator, up to the loop; after the loop it exits with 0.
  unfoldable pub orchestrator_main : Env → W → ℕ → W × Launch W
  unfolding start load_linode_client to_config
  orchestrator_main env w now = elim (Scaling.load_config parse_duration env) [
    | none ↦ (w, exits 1)
    | some settings ↦ elim (load_linode_client new_client env) [
      | none ↦ (w, exits 1)
      | some (api, client) ↦ elim (to_config settings) [
        | none ↦ (w, out_of_model settings)
        | some cfg ↦
            let cloud : CloudProvider W = linode_provider api client runtime in
            let (w', r) = start nats cloud disk settings.nats_url settings.nats_name cfg w now in
            elim r [ err e ↦ (w', exits 1) | ok (js, s) ↦ (w', monitors cloud js s) ]
      ]
    ]
  ]

module _ {W C S : Type 0} (nats : Nats W C (JetStream W)) (subs : Subscriptions W S)
    (parse_duration : String → Option ℤ) where
  -- `main` of the agent, by the way in which its run ends.
  unfoldable pub agent_main : Env → W → Ending → W × ℕ
  agent_main env w ending = elim (Workers.load_config parse_duration env) [
    | none ↦ (w, 1)
    | some cfg ↦
        let (w', r) = run_agent nats subs w cfg ending in
        elim r [ some e ↦ (w', 1) | none ↦ (w', 0) ]
  ]

-- How `ListenAndServe` ends: the server has been shut down, or there is another error.
pub data Served : Type 0 where
  closed : Served
  failed : String → Served

module _ {W C : Type 0} (nats : Nats W C (JetStream W)) where
  -- `newAPI`: the connection, and the context that it gives.
  abbrev new_api : W → ApiConfig → W × Result String (C × JetStream W)
  new_api w cfg = connect_nats nats w cfg.nats_url none

  -- `main` of the API: `os.Exit` passes over the deferred closing of the connection.
  unfoldable pub api_main : Env → W → Served → W × ℕ
  api_main env w served = elim (load_api_config env) [
    | none ↦ (w, 1)
    | some cfg ↦
        let (w', r) = new_api w cfg in
        elim r [
          | err e ↦ (w', 1)
          | ok (nc, js) ↦ elim served [ failed e ↦ (w', 1) | closed ↦ (nats.close w' nc, 0) ]
        ]
  ]
