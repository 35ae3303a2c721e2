-- ===== src/Discovery.antt =====
-- orchestrator/discovery.go: the Prometheus targets file.
-- The file's content is the list that `json.MarshalIndent` encodes; the code makes an empty list
-- of a nil one, so the encoding is an array always. `os.WriteFile` is a call on the world.
pub mod Targets
pub mod Order
use serverless_gpu_linode.Common.{
  ℕ, String, ◌+++◌, List, [], ◌∷◌, Option, none, some, if◌then◌else◌, str_eq, decimal,
}
use serverless_gpu_linode.StateMachine.{ready, Node, NodeManager, nodes_by_state}

pub record PrometheusTarget : Type 0 where
  pub targets : List String
  pub labels : List (String × String)

pub record Disk (W : Type 0) : Type 0 where
  pub write_file : W → String → List PrometheusTarget → W × Option String

-- One exporter of a node.
abbrev pub node_target : Node → String → String → PrometheusTarget
node_target node port job = record {
  targets = (node.ipv4 +++ port) ∷ [];
  labels = ("job", job) ∷ ("linode_id", decimal node.linode_id) ∷ ("node", node.label) ∷ [];
}

-- The loop of `WriteTargetsFile`.
unfoldable pub collect_targets : List Node → List PrometheusTarget
collect_targets [] = []
collect_targets (node ∷ rest) =
    let later = collect_targets rest in
    if str_eq node.ipv4 ""
    then later
    else node_target node ":9400" "dcgm-exporter"
      ∷ node_target node ":9100" "node-exporter"
      ∷ node_target node ":19090" "nats-agent"
      ∷ later

module _ {W : Type 0} (disk : Disk W) where
  unfoldable pub write_targets_file : W → String → NodeManager → W × Option String
  write_targets_file w path nm =
      let (w', r) = disk.write_file w path (collect_targets (nodes_by_state nm ready)) in
      elim r [ none ↦ (w', none) | some e ↦ (w', some ("failed to write targets file: " +++ e)) ]
