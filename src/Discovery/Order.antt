-- ===== src/Discovery/Order.antt =====
-- The targets file of orchestrator/discovery.go from two orders of the map of nodes.
use mathlib.Core.List.Permᴰ
use mathlib.Core.List.{Perm, Permᴰ}
use mathlib.Core.Logic.{∥∥₁_map}
use serverless_gpu_linode.Common.{
  ◌≡◌, String, Bool, true, false, List, ◌++◌, str_eq, if◌then◌else◌, arith,
}
use serverless_gpu_linode.StateMachine.{ready, Node, NodeManager, all_nodes, nodes_by_state}
use serverless_gpu_linode.StateMachine.Order.{nodes_by_state-perm}
use serverless_gpu_linode.Discovery.{PrometheusTarget, Disk, collect_targets, write_targets_file}
use serverless_gpu_linode.Discovery.Targets.{exporters}

-- The targets of one node in front, where it has an address.
abbrev block : Bool → Node → List PrometheusTarget → List PrometheusTarget
block b n ts = if b then ts else exporters n ++ ts

block-cons :
    (b : Bool) (n : Node) {ts us : List PrometheusTarget}
    → Permᴰ ts us
    → Permᴰ (block b n ts) (block b n us)
block-cons true n d = d
block-cons false n d = Permᴰ.append_left (exporters n) d

block-swap :
    (b c : Bool) (n m : Node) (ts : List PrometheusTarget)
    → Permᴰ (block b n (block c m ts)) (block c m (block b n ts))
block-swap true c n m ts = Permᴰ.refl _
block-swap false true n m ts = Permᴰ.refl _
block-swap false false n m ts =
    Permᴰ.append_right ts (Permᴰ.append_comm (exporters n) (exporters m))

collect_targets-permᴰ :
    {ns ms : List Node} → Permᴰ ns ms → Permᴰ (collect_targets ns) (collect_targets ms)
unfolding collect_targets
collect_targets-permᴰ Permᴰ.nil = Permᴰ.nil
collect_targets-permᴰ (Permᴰ.cons {a = n} e d) =
    rw (← e) (block-cons (str_eq n.ipv4 "") n (collect_targets-permᴰ d))
collect_targets-permᴰ (Permᴰ.swap {a = n} {b = m} {l = ns} e f) =
    rw (← e, ← f) (block-swap (str_eq n.ipv4 "") (str_eq m.ipv4 "") n m (collect_targets ns))
collect_targets-permᴰ (Permᴰ.trans d e) =
    Permᴰ.trans (collect_targets-permᴰ d) (collect_targets-permᴰ e)

-- The list of a targets file is read as a set: two orders of it leave the same world.
abbrev pub Unordered : {W : Type 0} → Disk W → Type 0
Unordered {W} disk =
    (w : W) (path : String) (ts us : List PrometheusTarget)
    → Perm ts us
    → disk.write_file w path ts ≡ disk.write_file w path us

pub write_targets_file-perm :
    {W : Type 0} (disk : Disk W)
    → Unordered disk
    → (w : W) (path : String) (nm nm' : NodeManager) → Perm (all_nodes nm) (all_nodes nm')
    → write_targets_file disk w path nm ≡ write_targets_file disk w path nm'
unfolding write_targets_file
write_targets_file-perm disk unordered w path nm nm' same =
    let ns = nodes_by_state nm ready in
    let ns' = nodes_by_state nm' ready in
    let targets =
      ∥∥₁_map {B = Permᴰ (collect_targets ns) (collect_targets ns')}
        (nodes_by_state-perm nm nm' same ready) collect_targets-permᴰ in
    let written = unordered w path (collect_targets ns) (collect_targets ns') targets in
    ground (arith, written)
