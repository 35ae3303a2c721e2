-- ===== src/Monitor/Alone.antt =====
-- The goroutines of orchestrator/scaler.go when nothing runs between their parts: the turns of
-- Monitor.antt beside the whole of `ScaleUp`, `ScaleDown` and `waitForNodeReady`.
use serverless_gpu_linode.Common.{ℕ, List, [], ◌∷◌, Result, ok, err}
use serverless_gpu_linode.Cloud.{CloudProvider}
use serverless_gpu_linode.Discovery.{Disk}
use serverless_gpu_linode.Orchestrator.{Orchestrator}
use serverless_gpu_linode.JetStream.{JetStream}
use serverless_gpu_linode.Scaler.{Task}
use serverless_gpu_linode.Scaler.Actions.{ScaleError}
use serverless_gpu_linode.Monitor.{Goroutine, starts, Phase, System, Turn, runs}

-- The turns that `ScaleUp` takes with the last calls at an instant, and what it leaves running.
abbrev pub scale_up_turns : ℕ → ℕ → Result ScaleError Task → List Turn
scale_up_turns a b (ok t) = runs 0 a ∷ runs 0 b ∷ []
scale_up_turns a b (err e) = runs 0 a ∷ runs 0 b ∷ runs 0 b ∷ []

abbrev pub left_running : Result ScaleError Task → List Goroutine
left_running (ok t) = starts t ∷ []
left_running (err e) = []

module _ {W : Type 0} (cloud : CloudProvider W) (disk : Disk W) (js : JetStream W) (p : Phase) where
  abbrev pub alone : Orchestrator W → List Goroutine → System W
  alone o gs = record { orchestrator = o; phase = p; goroutines = gs }
