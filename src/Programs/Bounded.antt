-- ===== src/Programs/Bounded.antt =====
-- The limit on nodes that `main` of orchestrator/main.go reads, in every run of the orchestrator.
use mathlib.Core.Path.{subst}
use serverless_gpu_linode.Common.Int.{ℤ, pos}
use serverless_gpu_linode.Common.{
  ℕ, ◌≤◌, ◌≡◌, ◌∙◌, ap, inl, inr, String, List, Option, some, ok, length, arith, Option-cases,
  Result-cases,
}
use serverless_gpu_linode.Connection.{Nats}
use serverless_gpu_linode.Cloud.{CloudProvider}
use serverless_gpu_linode.Cloud.Linode.{LinodeApi, LinodeClient, Schedule, linode_provider}
use serverless_gpu_linode.Discovery.{Disk}
use serverless_gpu_linode.JetStream.{JetStream}
use serverless_gpu_linode.Orchestrator.{Config}
use serverless_gpu_linode.Settings.{Env, env_or_default_int}
use serverless_gpu_linode.Settings.Scaling.{
  Settings, read_settings, load_config, load_linode_client, to_config,
}
use serverless_gpu_linode.Settings.Scaling.Limits.{load_config_iff}
use serverless_gpu_linode.StateMachine.Invariant.{IsWellFormed}
use serverless_gpu_linode.StateMachine.Kept.{AreUnlocked}
use serverless_gpu_linode.Monitor.{System, Turn, run_turns}
use serverless_gpu_linode.Monitor.Start.{start}
use serverless_gpu_linode.Monitor.Start.Bounded.{started_is_bounded}
use serverless_gpu_linode.Programs.{monitors, orchestrator_main}

module _ (parse_duration : String → Option ℤ) (env : Env) where
  read-max_nodes :
      (s : Settings)
      → read_settings parse_duration env ≡ some s
      → env_or_default_int env "MAX_NODES" (pos 2) ≡ some s.max_nodes
  unfolding read_settings
  read-max_nodes s h = ground arith

module _ {W C : Type 0} (nats : Nats W C (JetStream W)) (disk : Disk W)
    (parse_duration : String → Option ℤ) (new_client : String → LinodeApi W)
    (runtime : W → ℕ → Schedule) where
  -- What has been read, and made of it, where the orchestrator enters its loop.
  record Launched (env : Env) (w w' : W) (now : ℕ) (cloud : CloudProvider W) (js : JetStream W)
      (s : System W) : Type 0 where
    settings : Settings
    api : LinodeApi W
    client : LinodeClient
    cfg : Config
    loaded : load_config parse_duration env ≡ some settings
    read : to_config settings ≡ some cfg
    provider : linode_provider api client runtime ≡ cloud
    started :
        start nats
          (linode_provider api client runtime)
          disk
          settings.nats_url
          settings.nats_name
          cfg
          w
          now
        ≡ (w', ok (js, s))

  launched :
      (env : Env) (w w' : W) (now : ℕ) (cloud : CloudProvider W) (js : JetStream W) (s : System W)
      → orchestrator_main nats disk parse_duration new_client runtime env w now
        ≡ (w', monitors cloud js s)
      → Launched env w w' now cloud js s
  unfolding orchestrator_main
  launched env w w' now cloud js s h = elim (Option-cases (load_config parse_duration env)) [
    | inl e ↦ absurd (ground arith)
    | inr (settings, e) ↦ elim (Option-cases (load_linode_client new_client env)) [
      | inl f ↦ absurd (ground arith)
      | inr ((api, client), f) ↦ elim (Option-cases (to_config settings)) [
        | inl g ↦ absurd (ground arith)
        | inr (cfg, g) ↦
            let run =
              start nats (linode_provider api client runtime) disk settings.nats_url
                settings.nats_name cfg w now in
            elim (Result-cases run.1) [
              | inr (x, k) ↦ absurd (ground arith)
              | inl ((js', s'), k) ↦ record {
                settings = settings;
                api = api;
                client = client;
                cfg = cfg;
                loaded = e;
                read = g;
                provider = ground arith;
                started = ground arith;
              }
            ]
      ]
    ]
  ]

  -- If `main` of the orchestrator does not exit, and its settings have no negative numbers, then
  -- `MAX_NODES` is a number that is at least one, 2 where the variable is not set, and however the loop and
  -- its goroutines interleave from then on, and whatever the provider, the queue and the disk answer, at
  -- most that many nodes are tracked, the node manager is well formed, and no node is ever locked against
  -- draining.
  pub orchestrator_main_is_bounded :
      (env : Env) (w w' : W) (now : ℕ) (cloud : CloudProvider W) (js : JetStream W) (s : System W)
      → orchestrator_main nats disk parse_duration new_client runtime env w now
        ≡ (w', monitors cloud js s)
      → (ts : List Turn)
      → (n : ℕ) × (env_or_default_int env "MAX_NODES" (pos 2) ≡ some (pos n))
        × (1 ≤ n)
        × (length (run_turns cloud disk js s ts).orchestrator.nodes.nodes ≤ n)
        × IsWellFormed (run_turns cloud disk js s ts).orchestrator.nodes
        × AreUnlocked (run_turns cloud disk js s ts).orchestrator.nodes
  orchestrator_main_is_bounded env w w' now cloud js s h ts =
      let l = launched env w w' now cloud js s h in
      let provider = linode_provider l.api l.client runtime in
      let (n, greatest, one, bounded, formed, unlocked) =
        started_is_bounded nats provider disk parse_duration env l.settings l.cfg w w' now js s
          l.loaded l.read l.started ts in
      let given = (load_config_iff parse_duration env l.settings).0 l.loaded in
      let (at_most, well_formed, never_locked) =
        subst
          (λ c.
            (length (run_turns c disk js s ts).orchestrator.nodes.nodes ≤ n)
            × IsWellFormed (run_turns c disk js s ts).orchestrator.nodes
            × AreUnlocked (run_turns c disk js s ts).orchestrator.nodes)
          l.provider (bounded, formed, unlocked) in
      (
        n,
        read-max_nodes parse_duration env l.settings given.0 ∙ ap (λ z. some z) greatest,
        one,
        at_most,
        well_formed,
        never_locked,
      )
