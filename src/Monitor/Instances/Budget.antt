-- ===== src/Monitor/Instances/Budget.antt =====
-- How many instances run at the provider, from the start of `Run` of orchestrator/orchestrator.go on:
-- the limit of orchestrator/statemachine.go and the goroutines of orchestrator/scaler.go.
use serverless_gpu_linode.Common.{
  ℕ, ◌≤◌, ◌≡◌, true, false, ◌||◌, List, [], ◌∷◌, ok, length, arith, any, count_if, refl, All, ◌+◌,
}
use serverless_gpu_linode.StateMachine.{new_node_manager}
use serverless_gpu_linode.StateMachine.Invariant.{IsWellFormed, new_node_manager-IsWellFormed}
use serverless_gpu_linode.StateMachine.Kept.{
  IsWellFormed-Kept, HasCap, HasCap-Kept, AreUnlocked, AreUnlocked-Kept,
}
use serverless_gpu_linode.Cloud.{CloudNode}
use serverless_gpu_linode.Cloud.Linode.{
  LinodeApi, LinodeClient, Schedule, linode_provider, list_managed_nodes,
}
use serverless_gpu_linode.Discovery.{Disk}
use serverless_gpu_linode.JetStream.{JetStream}
use serverless_gpu_linode.Connection.{Nats}
use serverless_gpu_linode.Orchestrator.{Config, Orchestrator, new_orchestrator}
use serverless_gpu_linode.Monitor.{System, Turn, run_turns}
use serverless_gpu_linode.Monitor.Start.{prepare}
use serverless_gpu_linode.Monitor.Instances.{Lifetime, live, is_tracked, holds, Leaves, loses}
use serverless_gpu_linode.Monitor.Instances.Linode.{Serves}
use serverless_gpu_linode.Monitor.Reachable.{run_turns_bounded}
use serverless_gpu_linode.Monitor.Instances.Costs.{AreDistinct, is_holding, known_le}
use serverless_gpu_linode.Monitor.Instances.Started.{started_instance_is_known}
use serverless_gpu_linode.Monitor.Start.Bounded.{prepare_keeps}

module _ {W C : Type 0} (nats : Nats W C (JetStream W)) (api : LinodeApi W) (l : LinodeClient)
    (runtime : W → ℕ → Schedule) (lifetime : W → ℕ → Lifetime)
    (serves : Serves api l.managed_tags lifetime) (disk : Disk W) (js : JetStream W)
    (quiet : Leaves disk js lifetime) where
  -- The system at the start of the loop, and after the turns.
  abbrev pub begins : Config → W → ℕ → System W
  begins cfg w now = prepare nats (linode_provider api l runtime) disk (new_orchestrator cfg w) now

  abbrev pub ends : Config → W → ℕ → List Turn → System W
  ends cfg w now ts = run_turns (linode_provider api l runtime) disk js (begins cfg w now) ts

  -- The instance is live at the end, and no turn has lost sight of it.
  abbrev pub IsKept : Config → W → ℕ → List Turn → ℕ → Type 0
  IsKept cfg w now ts j =
      (loses (linode_provider api l runtime) disk js (begins cfg w now) ts j ≡ false)
      × (lifetime (ends cfg w now ts).orchestrator.world j ≡ live)

  module _ (cfg : Config) (w : W) (now : ℕ) (cloud_nodes : List CloudNode) (ts : List Turn)
      (listing : (list_managed_nodes api l w).1 ≡ ok cloud_nodes)
      (room : length cloud_nodes ≤ cfg.max_nodes) where
    each_known :
        (ids : List ℕ)
        → All (IsKept cfg w now ts) ids
        → All
            (λ j.
              (is_tracked (ends cfg w now ts).orchestrator.nodes j
                || any (holds j) (ends cfg w now ts).goroutines)
              ≡ true)
            ids
    each_known [] k = tt
    each_known (j ∷ ids) ((safe, alive), k) = (
      started_instance_is_known nats api l runtime lifetime serves disk js quiet cfg w now j
          cloud_nodes ts listing room safe alive,
      each_known ids k,
    )

    few_tracked : length (ends cfg w now ts).orchestrator.nodes.nodes ≤ cfg.max_nodes
    unfolding new_orchestrator new_node_manager
    few_tracked =
        let cloud = linode_provider api l runtime in
        let o : Orchestrator W = new_orchestrator cfg w in
        let formed =
          prepare_keeps nats cloud disk IsWellFormed IsWellFormed-Kept o now
            (new_node_manager-IsWellFormed cfg.max_nodes) in
        let cap =
          prepare_keeps nats cloud disk (HasCap cfg.max_nodes) (HasCap-Kept cfg.max_nodes) o now
            refl in
        let unlocked = prepare_keeps nats cloud disk AreUnlocked AreUnlocked-Kept o now tt in
        (run_turns_bounded cloud disk js (begins cfg w now) ts cfg.max_nodes formed cap unlocked).0

    -- With `LinodeClient` as the provider, under the assumptions on the API: if at the start of `Run`
    -- the provider's list can be fetched and is not longer than `MaxNodes`, then in every interleaving
    -- from there on, the live instances, but those that a turn has lost sight of, are at most `MaxNodes`
    -- and one more for each goroutine that holds an instance: a `ScaleUp` that has created one and has
    -- not yet tracked or deleted it, or a `waitForNodeReady` that has failed and is about to delete it.
    pub live_instances_are_bounded :
        (ids : List ℕ)
        → AreDistinct ids
        → All (IsKept cfg w now ts) ids
        → length ids ≤ cfg.max_nodes + count_if is_holding (ends cfg w now ts).goroutines
    live_instances_are_bounded ids distinct kept =
        let s' = ends cfg w now ts in
        let known =
          known_le s'.orchestrator.nodes s'.goroutines ids distinct (each_known ids kept) in
        omega (arith, few_tracked, known)
