-- ===== src/Monitor/Instances/Leaks.antt =====
-- No instance is lost: `monitorLoop` of orchestrator/orchestrator.go and the goroutines of
-- orchestrator/scaler.go, in every interleaving.
use serverless_gpu_linode.Common.{ℕ, ◌≡◌, Bool, true, false, ◌||◌, List, [], ◌∷◌, arith, any}
use serverless_gpu_linode.StateMachine.Invariant.{IsWellFormed}
use serverless_gpu_linode.Cloud.{CloudProvider}
use serverless_gpu_linode.Discovery.{Disk}
use serverless_gpu_linode.JetStream.{JetStream}
use serverless_gpu_linode.Monitor.{System, Turn, loops, runs, turn, run_turns}
use serverless_gpu_linode.Monitor.Reachable.{run_turns-IsWellFormed}
use serverless_gpu_linode.Monitor.Instances.{
  Lifetime, live, is_tracked, holds, abandons_at, loses, Provides, Leaves, accounted,
}
use serverless_gpu_linode.Monitor.Instances.Goroutines.{schedule-Sound}
use serverless_gpu_linode.Monitor.Instances.Loop.{monitor-Sound}

neither : (b c : Bool) → (b || c) ≡ false → (b ≡ false) × (c ≡ false)
neither b c h = ground arith

module _ {W : Type 0} (cloud : CloudProvider W) (disk : Disk W) (js : JetStream W)
    (lifetime : W → ℕ → Lifetime) (law : Provides cloud lifetime)
    (quiet : Leaves disk js lifetime) where
  runs-Sound :
      (s : System W) (k now j : ℕ)
      → abandons_at cloud s.orchestrator s.phase k s.goroutines now j ≡ false
      → accounted lifetime s j ≡ true
      → accounted lifetime (turn cloud disk js s (runs k now)) j ≡ true
  unfolding turn accounted
  runs-Sound s k now j safe v =
      schedule-Sound cloud disk js lifetime law quiet s.orchestrator s.phase k s.goroutines now j
        false false safe v

  -- Each turn that does not lose the instance keeps it accounted for.
  run_turns-accounted :
      (s : System W) (ts : List Turn) (j : ℕ)
      → IsWellFormed s.orchestrator.nodes
      → accounted lifetime s j ≡ true
      → loses cloud disk js s ts j ≡ false
      → accounted lifetime (run_turns cloud disk js s ts) j ≡ true
  unfolding run_turns loses
  run_turns-accounted s [] j w v safe = v
  run_turns-accounted s (loops now ∷ ts) j w v safe =
      run_turns-accounted (turn cloud disk js s (loops now)) ts j
        (run_turns-IsWellFormed cloud disk js s (loops now ∷ []) w)
        (monitor-Sound cloud disk js lifetime law quiet s now j w v) safe
  run_turns-accounted s (runs k now ∷ ts) j w v safe =
      let here = abandons_at cloud s.orchestrator s.phase k s.goroutines now j in
      let later = loses cloud disk js (turn cloud disk js s (runs k now)) ts j in
      run_turns-accounted (turn cloud disk js s (runs k now)) ts j
        (run_turns-IsWellFormed cloud disk js s (runs k now ∷ []) w)
        (runs-Sound s k now j (neither here later safe).0 v) (neither here later safe).1

  -- If the provider gives each ID once and lists every live instance, no other call touches its
  -- instances, the node manager is well formed and the instance is accounted for at the start, then
  -- in every interleaving of the loop with the goroutines an instance that is live at the end is
  -- tracked by the node manager or held by a goroutine: a `ScaleUp` that has created it and has not
  -- yet tracked or deleted it, or a `waitForNodeReady` that has failed and is about to delete it.
  -- The one exception is a turn that loses sight of it: the deletion after its tracking or its wait
  -- has failed fails too, or its wait ends between the provider's list, on which it does not stand
  -- yet, and the loop's reconciling with that list.
  pub live_instance_is_known :
      (s : System W) (ts : List Turn) (j : ℕ)
      → IsWellFormed s.orchestrator.nodes
      → accounted lifetime s j ≡ true
      → loses cloud disk js s ts j ≡ false
      → let s' = run_turns cloud disk js s ts in
        lifetime s'.orchestrator.world j ≡ live
        → (is_tracked s'.orchestrator.nodes j || any (holds j) s'.goroutines) ≡ true
  unfolding accounted
  live_instance_is_known s ts j w v safe alive =
      let after = run_turns-accounted s ts j w v safe in ground (arith, after, alive)
