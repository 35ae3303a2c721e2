-- ===== src/Discovery/Targets.antt =====
-- Which targets orchestrator/discovery.go writes.
use serverless_gpu_linode.Common.{
  ◌≡◌, refl, ◌⊎◌, inl, inr, String, ◌+++◌, Bool, false, not, List, [], ◌∷◌, ◌++◌, none, some, arith,
  select, str_eq, Option-cases, if◌then◌else◌,
}
use serverless_gpu_linode.StateMachine.{
  ready, Node, NodeManager, same_state, all_nodes, nodes_by_state,
}
use serverless_gpu_linode.Discovery.{
  PrometheusTarget, Disk, node_target, collect_targets, write_targets_file,
}

-- The node is one that Prometheus scrapes: it is ready, and has an address.
abbrev pub is_scraped : Node → Bool
is_scraped n = if same_state n.state ready then not (str_eq n.ipv4 "") else false

-- The three exporters of a node.
abbrev pub exporters : Node → List PrometheusTarget
exporters n =
    node_target n ":9400" "dcgm-exporter"
    ∷ node_target n ":9100" "node-exporter"
    ∷ node_target n ":19090" "nats-agent"
    ∷ []

-- The exporters of the nodes that are scraped, in order.
abbrev pub expected : List Node → List PrometheusTarget
expected [] = []
expected (n ∷ ns) = (if is_scraped n then exporters n else []) ++ expected ns

collect_targets-select :
    (ns : List Node) → collect_targets (select (λ n. same_state n.state ready) ns) ≡ expected ns
unfolding collect_targets select
collect_targets-select [] = refl
collect_targets-select (n ∷ ns) = ground (arith, collect_targets-select ns)

-- Writing the targets file is one write to the path, of exactly the three exporters of each node
-- that is ready and has an address, and fails only if the write does.
pub write_targets_file_lem :
    {W : Type 0} (disk : Disk W) (w : W) (path : String) (nm : NodeManager)
    → let written = disk.write_file w path (expected (all_nodes nm)) in
      ((write_targets_file disk w path nm).0 ≡ written.0)
      × ((written.1 ≡ none) × ((write_targets_file disk w path nm).1 ≡ none)
          ⊎ ((e : String) × (written.1 ≡ some e)
              × ((write_targets_file disk w path nm).1
                  ≡ some ("failed to write targets file: " +++ e))))
unfolding write_targets_file nodes_by_state
write_targets_file_lem disk w path nm =
    rw (← collect_targets-select (all_nodes nm))
      (elim (Option-cases (disk.write_file w path (collect_targets (nodes_by_state nm ready))).1) [
        | inl h ↦ rw (h, write_targets_file) (refl, inl (refl, refl))
        | inr (e, h) ↦ rw (h, write_targets_file) (refl, inr (e, refl, refl))
      ])
