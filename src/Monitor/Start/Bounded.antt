-- ===== src/Monitor/Start/Bounded.antt =====
-- orchestrator/main.go and `Run` of orchestrator/orchestrator.go: the limit on nodes, from the
-- environment to the monitoring loop.
use mathlib.Core.Path.{subst}
use serverless_gpu_linode.Common.{
  ℕ, String, ◌≤◌, ◌≡◌, refl, length, arith, Option, some, ok, Result-cases, inl, inr, List,
}
use serverless_gpu_linode.Common.Int.{ℤ, pos}
use serverless_gpu_linode.Cloud.{CloudProvider}
use serverless_gpu_linode.Discovery.{Disk}
use serverless_gpu_linode.StateMachine.{NodeManager, new_node_manager}
use serverless_gpu_linode.StateMachine.Invariant.{IsWellFormed, new_node_manager-IsWellFormed}
use serverless_gpu_linode.StateMachine.Kept.{
  Kept, IsWellFormed-Kept, HasCap, HasCap-Kept, AreUnlocked, AreUnlocked-Kept,
}
use serverless_gpu_linode.Orchestrator.{Config, Orchestrator, new_orchestrator}
use serverless_gpu_linode.JetStream.{JetStream, ensure_jetstream_resources}
use serverless_gpu_linode.Reconcile.{reconcile_with_cloud, reconcile_listed}
use serverless_gpu_linode.Reconcile.Entries.{reconcile_nodes_keeps}
use serverless_gpu_linode.Connection.{Nats, connect_nats}
use serverless_gpu_linode.Settings.{Env}
use serverless_gpu_linode.Settings.Scaling.{Settings, load_config, to_config}
use serverless_gpu_linode.Settings.Scaling.Limits.{load_config_iff}
use serverless_gpu_linode.Monitor.{System, Turn, run_turns}
use serverless_gpu_linode.Monitor.Reachable.{run_turns-IsWellFormed, run_turns_bounded}
use serverless_gpu_linode.Monitor.Start.{prepare, start}

module _ {W C : Type 0} (nats : Nats W C (JetStream W)) (cloud : CloudProvider W)
    (disk : Disk W) where
  -- The world after the calls that come before the reconciling.
  abbrev world_at : String → String → Config → W → JetStream W → W
  world_at url name cfg w js =
      (js.consumer_info
        (ensure_jetstream_resources js (connect_nats nats w url (some name)).0 cfg).0
        cfg.stream_name cfg.consumer_name).0

  start-prepared :
      (url name : String) (cfg : Config) (w w' : W) (now : ℕ) (js : JetStream W) (s : System W)
      → start nats cloud disk url name cfg w now ≡ (w', ok (js, s))
      → prepare nats cloud disk (new_orchestrator cfg (world_at url name cfg w js)) now ≡ s
  unfolding start
  start-prepared url name cfg w w' now js s h = ground arith

  module _ (P : NodeManager → Type 0) (kept : Kept P) where
    pub prepare_keeps :
        (o : Orchestrator W) (now : ℕ)
        → P o.nodes
        → P (prepare nats cloud disk o now).orchestrator.nodes
    unfolding prepare reconcile_with_cloud reconcile_listed
    prepare_keeps o now p = elim (Result-cases (cloud.list_managed_nodes o.world).1) [
      | inl (cns, e) ↦ ground (arith, e, reconcile_nodes_keeps P kept o.nodes cns now p)
      | inr (x, e) ↦ ground (arith, e, p)
    ]

    start_keeps :
        (url name : String) (cfg : Config) (w w' : W) (now : ℕ) (js : JetStream W) (s : System W)
        → start nats cloud disk url name cfg w now ≡ (w', ok (js, s))
        → P (new_node_manager cfg.max_nodes)
        → P s.orchestrator.nodes
    unfolding new_orchestrator
    start_keeps url name cfg w w' now js s h p =
        let e = start-prepared url name cfg w w' now js s h in
        subst (λ t. P t.orchestrator.nodes) e
          (prepare_keeps (new_orchestrator cfg (world_at url name cfg w js)) now p)

module _ (parse_duration : String → Option ℤ) (env : Env) where
  limited :
      (settings : Settings) (cfg : Config)
      → load_config parse_duration env ≡ some settings
      → to_config settings ≡ some cfg
      → (settings.max_nodes ≡ pos cfg.max_nodes) × (1 ≤ cfg.max_nodes)
  unfolding to_config
  limited settings cfg loaded read =
      let (_, m, n, limits) = (load_config_iff parse_duration env settings).0 loaded in
      ground (arith, limits.is_least, limits.is_greatest, limits.allows_one)

module _ {W C : Type 0} (nats : Nats W C (JetStream W)) (cloud : CloudProvider W) (disk : Disk W)
    (parse_duration : String → Option ℤ) (env : Env) where
  -- If the settings are read from the environment, have no negative numbers, and the orchestrator
  -- starts with them, then however its loop and its goroutines interleave from then on, and whatever
  -- the provider, the queue and the disk answer, at most `MAX_NODES` nodes are tracked, which is at
  -- least one, the node manager is well formed, and no node is ever locked against draining.
  pub started_is_bounded :
      (settings : Settings) (cfg : Config) (w w' : W) (now : ℕ) (js : JetStream W) (s : System W)
      → load_config parse_duration env ≡ some settings
      → to_config settings ≡ some cfg
      → start nats cloud disk settings.nats_url settings.nats_name cfg w now ≡ (w', ok (js, s))
      → (ts : List Turn)
      → (n : ℕ) × (settings.max_nodes ≡ pos n)
        × (1 ≤ n)
        × (length (run_turns cloud disk js s ts).orchestrator.nodes.nodes ≤ n)
        × IsWellFormed (run_turns cloud disk js s ts).orchestrator.nodes
        × AreUnlocked (run_turns cloud disk js s ts).orchestrator.nodes
  unfolding new_node_manager
  started_is_bounded settings cfg w w' now js s loaded read started ts =
      let keeps : (P : NodeManager → Type 0)
          → Kept P
          → P (new_node_manager cfg.max_nodes)
          → P s.orchestrator.nodes =
        λ P kept p.
          start_keeps nats cloud disk P kept settings.nats_url settings.nats_name cfg w w' now js s
            started p in
      let v = keeps IsWellFormed IsWellFormed-Kept (new_node_manager-IsWellFormed cfg.max_nodes) in
      let cap = keeps (HasCap cfg.max_nodes) (HasCap-Kept cfg.max_nodes) refl in
      let unlocked = keeps AreUnlocked AreUnlocked-Kept tt in
      let (greatest, one) = limited parse_duration env settings cfg loaded read in
      let (bounded, still) = run_turns_bounded cloud disk js s ts cfg.max_nodes v cap unlocked in
      (cfg.max_nodes, greatest, one, bounded, run_turns-IsWellFormed cloud disk js s ts v, still)
