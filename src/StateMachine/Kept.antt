-- ===== src/StateMachine/Kept.antt =====
-- What every method of the node manager (orchestrator/statemachine.go) that the orchestrator calls
-- keeps. Nothing calls `SetDrainLock`, and no transition leads to `provisioning`.
use serverless_gpu_linode.StateMachine.Invariant.{
  IsWellFormed, add_node-IsWellFormed, transition_node-IsWellFormed, remove_node-IsWellFormed,
  set_node_ip-IsWellFormed,
}
use serverless_gpu_linode.StateMachine.Lookup.{transition_cases, set_node_ip_cases}
use serverless_gpu_linode.Common.Assoc.{All-insert, All-remove, All-lookup}
use serverless_gpu_linode.Common.{ℕ, ◌≡◌, ◌≢◌, refl, String, false, All, arith}
use serverless_gpu_linode.StateMachine.{
  NodeState, provisioning, Node, NodeManager, add_node, transition_node, remove_node, set_node_ip,
  stay, enter, fresh_node,
}

pub record Kept (P : NodeManager → Type 0) : Type 0 where
  pub add :
      (m : NodeManager) (id : ℕ) (label : String) (now : ℕ) → P m → P (add_node m id label now).0
  pub transition :
      (m : NodeManager) (id : ℕ) (to : NodeState) (now : ℕ)
      → to ≢ provisioning
      → P m
      → P (transition_node m id to now).0
  pub remove : (m : NodeManager) (id : ℕ) → P m → P (remove_node m id)
  pub set_ip : (m : NodeManager) (id : ℕ) (ip : String) → P m → P (set_node_ip m id ip).0

pub IsWellFormed-Kept : Kept IsWellFormed
IsWellFormed-Kept = record {
  add = λ m id label now v. add_node-IsWellFormed m v id label now;
  transition = λ m id to now _ v. transition_node-IsWellFormed m v id to now;
  remove = λ m id v. remove_node-IsWellFormed m v id;
  set_ip = λ m id ip v. set_node_ip-IsWellFormed m v id ip;
}

-- The cap is set once.
abbrev pub HasCap : ℕ → NodeManager → Type 0
HasCap cap m = m.max_nodes ≡ cap

pub HasCap-Kept : (cap : ℕ) → Kept (HasCap cap)
unfolding add_node transition_node remove_node set_node_ip
HasCap-Kept cap = record {
  add = λ m id label now h. ground arith;
  transition = λ m id to now _ h. ground arith;
  remove = λ m id h. ground arith;
  set_ip = λ m id ip h. ground arith;
}

abbrev IsUnlocked : ℕ × Node → Type 0
IsUnlocked e = e.1.drain_locked ≡ false

-- No entry is locked against draining.
abbrev pub AreUnlocked : NodeManager → Type 0
AreUnlocked m = All IsUnlocked m.nodes

pub AreUnlocked-Kept : Kept AreUnlocked
unfolding add_node remove_node
AreUnlocked-Kept = record {
  add = λ m id label now h.
      ground (arith, All-insert IsUnlocked id (fresh_node id label now) m.nodes refl h);
  transition = λ m id to now _ h.
      transition_cases AreUnlocked m id to now h
        (λ n e _.
          All-insert IsUnlocked id (stay n to now) m.nodes
            (ground (arith, All-lookup IsUnlocked id n m.nodes h e)) h)
        (λ n e _.
          All-insert IsUnlocked id (enter n to now) m.nodes
            (ground (arith, All-lookup IsUnlocked id n m.nodes h e)) h);
  remove = λ m id h. All-remove IsUnlocked id m.nodes h;
  set_ip = λ m id ip h. set_node_ip_cases AreUnlocked m id ip h (λ n e.
      All-insert IsUnlocked id (record n { ipv4 = ip }) m.nodes
        (ground (arith, All-lookup IsUnlocked id n m.nodes h e)) h);
}
