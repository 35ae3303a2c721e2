-- ===== src/Cloud.antt =====
-- orchestrator/linode.go, the interface: what the orchestrator asks of a cloud provider.
-- `W` is everything outside the process. A call takes it as the call finds it and gives it as the
-- call leaves it; an `error` is its text.
pub mod Linode
use serverless_gpu_linode.Common.{ℕ, String, List, Option, Result}

pub record CloudNode : Type 0 where
  pub linode_id : ℕ
  pub label : String
  pub ipv4 : String
  pub status : String

pub record CloudProvider (W : Type 0) : Type 0 where
  pub create_gpu_node : W → String → W × Result String ℕ
  -- The timeout is in nanoseconds.
  pub wait_for_running : W → ℕ → ℕ → W × Result String String
  pub destroy_node : W → ℕ → W × Option String
  pub list_managed_nodes : W → W × Result String (List CloudNode)
