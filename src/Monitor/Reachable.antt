-- ===== src/Monitor/Reachable.antt =====
-- The node manager in every interleaving of `monitorLoop` with the goroutines of
-- orchestrator/scaler.go.
use serverless_gpu_linode.Common.{ℕ, ◌≤◌, List, arith, length}
use serverless_gpu_linode.StateMachine.Invariant.{IsWellFormed}
use serverless_gpu_linode.StateMachine.Kept.{
  IsWellFormed-Kept, HasCap, HasCap-Kept, AreUnlocked, AreUnlocked-Kept,
}
use serverless_gpu_linode.Cloud.{CloudProvider}
use serverless_gpu_linode.Discovery.{Disk}
use serverless_gpu_linode.JetStream.{JetStream}
use serverless_gpu_linode.Monitor.{System, Turn, run_turns}
use serverless_gpu_linode.Monitor.Steps.{run_turns_keeps}

module _ {W : Type 0} (cloud : CloudProvider W) (disk : Disk W) (js : JetStream W) where
  -- From a well-formed node manager: however the loop and the goroutines that it starts interleave,
  -- and whatever the provider and the queue answer, the node manager stays well formed: no node is
  -- tracked twice, every entry stands under its own ID, and the number of nodes never exceeds its
  -- cap.
  pub run_turns-IsWellFormed :
      (s : System W) (ts : List Turn)
      → IsWellFormed s.orchestrator.nodes
      → IsWellFormed (run_turns cloud disk js s ts).orchestrator.nodes
  run_turns-IsWellFormed s ts v =
      run_turns_keeps IsWellFormed IsWellFormed-Kept cloud disk js s ts v

  -- If at the start the node manager is well formed, has the cap `MaxNodes` and no entry is locked,
  -- then in every interleaving at most `MaxNodes` nodes are tracked, and no entry is ever locked, so
  -- that the drain lock of `ScaleDown` never holds.
  pub run_turns_bounded :
      (s : System W) (ts : List Turn) (max_nodes : ℕ)
      → IsWellFormed s.orchestrator.nodes
      → HasCap max_nodes s.orchestrator.nodes
      → AreUnlocked s.orchestrator.nodes
      → let nm = (run_turns cloud disk js s ts).orchestrator.nodes in
        (length nm.nodes ≤ max_nodes) × AreUnlocked nm
  run_turns_bounded s ts max_nodes v c u =
      let bounded = (run_turns-IsWellFormed s ts v).bounded in
      let cap = run_turns_keeps (HasCap max_nodes) (HasCap-Kept max_nodes) cloud disk js s ts c in
      (
        omega (arith, bounded, cap),
        run_turns_keeps AreUnlocked AreUnlocked-Kept cloud disk js s ts u,
      )
