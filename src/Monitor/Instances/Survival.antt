-- ===== src/Monitor/Instances/Survival.antt =====
-- What the list that is ahead, and the start of `ScaleDown` (orchestrator/scaler.go), leave of the nodes
-- that are provisioning.
use serverless_gpu_linode.Common.{ℕ, ◌≡◌, ◌∙◌, refl, inl, inr, true, none, arith, Bool-cases, ◌==◌}
use serverless_gpu_linode.StateMachine.{destroying, draining, NodeManager, transition_node}
use serverless_gpu_linode.Orchestrator.{Orchestrator}
use serverless_gpu_linode.Scaler.{can_scale}
use serverless_gpu_linode.Scaler.Actions.{scale_down_drain}
use serverless_gpu_linode.Monitor.{Phase, selecting, listed, counted}
use serverless_gpu_linode.Monitor.Instances.{is_tracked, is_booting, survives}
use serverless_gpu_linode.Monitor.Instances.Tracked.{
  is_tracked-transition_node, is_booting-transition_node, is_booting-drain, is_booting-drained,
}

-- What survives depends on which nodes are provisioning only.
pub survives-same :
    (p : Phase) (nm nm' : NodeManager) (j : ℕ)
    → is_booting nm' j ≡ is_booting nm j
    → survives p nm' j ≡ survives p nm j
survives-same selecting nm nm' j e = refl
survives-same (listed cns) nm nm' j e = rw (e) refl
survives-same (counted q) nm nm' j e = refl

pub survives-booting :
    (p : Phase) (nm : NodeManager) (j : ℕ) → is_booting nm j ≡ true → survives p nm j ≡ true
survives-booting selecting nm j e = refl
survives-booting (listed cns) nm j e = ground arith
survives-booting (counted q) nm j e = refl

pub survives-kept :
    (p : Phase) (nm nm' : NodeManager) (j : ℕ)
    → (is_booting nm j ≡ true → is_booting nm' j ≡ true)
    → survives p nm j ≡ true
    → survives p nm' j ≡ true
survives-kept selecting nm nm' j k e = refl
survives-kept (listed cns) nm nm' j k e = elim (Bool-cases (is_booting nm j)) [
  | inl b ↦ ground (arith, k b)
  | inr b ↦ ground arith
]
survives-kept (counted q) nm nm' j k e = refl

-- A node that is still provisioning is not the one that is drained.
drained-booting :
    (nm : NodeManager) (id now j : ℕ)
    → (transition_node nm id draining now).1 ≡ none
    → is_booting nm j ≡ true
    → is_booting (transition_node (transition_node nm id draining now).0 id destroying now).0 j
      ≡ true
drained-booting nm id now j e b = elim (Bool-cases (id == j)) [
  | inl same ↦ absurd (ground (arith, is_booting-drained nm id now e))
  | inr other ↦
      is_booting-transition_node _ id j destroying now other ∙ is_booting-drain nm id j now ∙ b
]

module _ {W : Type 0} where
  pub drain-world :
      (o : Orchestrator W) (id now : ℕ) → (scale_down_drain o id now).0.world ≡ o.world
  unfolding scale_down_drain can_scale
  drain-world o id now = ground arith

  pub drain-is_tracked :
      (o : Orchestrator W) (id now j : ℕ)
      → is_tracked (scale_down_drain o id now).0.nodes j ≡ is_tracked o.nodes j
  unfolding scale_down_drain can_scale
  drain-is_tracked o id now j =
      let nm₁ = (transition_node o.nodes id draining now).0 in
      let t₁ = is_tracked-transition_node o.nodes id j draining now in
      let t₂ = is_tracked-transition_node nm₁ id j destroying now in ground (arith, t₁, t₂)

  pub drain-is_booting :
      (o : Orchestrator W) (id now j : ℕ)
      → is_booting o.nodes j ≡ true
      → is_booting (scale_down_drain o id now).0.nodes j ≡ true
  unfolding scale_down_drain can_scale
  drain-is_booting o id now j b =
      let b₁ = is_booting-drain o.nodes id j now in
      let b₂ = drained-booting o.nodes id now j in ground (arith, b₁, b₂)
