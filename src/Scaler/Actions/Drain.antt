-- ===== src/Scaler/Actions/Drain.antt =====
-- The transitions to `draining` and `destroying` that `ScaleDown` of orchestrator/scaler.go makes.
use serverless_gpu_linode.StateMachine.Invariant.{IsWellFormed, transition_node-IsWellFormed}
use serverless_gpu_linode.StateMachine.Lifecycle.{
  transition_node_answer, Edge, boots, fails, drains, destroys,
}
use serverless_gpu_linode.StateMachine.Updates.{
  moved, moved-state, get_node-transition_node, active_count-transition_node,
}
use serverless_gpu_linode.Common.{ℕ, ◌+◌, ◌≡◌, refl, ◌⊎◌, inl, inr, none, some, arith}
use serverless_gpu_linode.StateMachine.{
  ready, draining, destroying, NodeState, NodeError, Node, NodeManager, transition_node, get_node,
  active_count,
}

-- The two transitions of `ScaleDown`, one after the other.
module _ (nm : NodeManager) (id now : ℕ) (n : Node) (e : get_node nm id ≡ some n) where
  abbrev pub drained : NodeManager
  drained = (transition_node nm id draining now).0

  abbrev pub doomed : NodeManager
  doomed = (transition_node drained id destroying now).0

  abbrev pub IsDrainable : Type 0
  IsDrainable = (n.state ≡ ready) ⊎ (n.state ≡ draining)

  -- The first transition is accepted for a ready or draining node only.
  pub drain_cases :
      (IsDrainable × ((transition_node nm id draining now).1 ≡ none))
      ⊎ ((x : NodeError) × (transition_node nm id draining now ≡ (nm, some x)))
  drain_cases = elim (transition_node_answer nm id draining now e) [
    | inl (inl same, a) ↦ inl (inr same, a)
    | inl (inr edge, a) ↦ inl (inl (source edge refl), a)
    | inr (_, _, r) ↦ inr (_, r)
  ]
    where
      source : {s t : NodeState} → Edge s t → t ≡ draining → s ≡ ready
      source boots q = cc
      source fails q = cc
      source drains q = refl
      source destroys q = cc

  module _ (drainable : IsDrainable) (accepted : (transition_node nm id draining now).1 ≡ none)
      (v : IsWellFormed nm) where
    m : Node
    m = moved n draining now

    tracked : get_node drained id ≡ some m
    unfolding m
    tracked = get_node-transition_node nm id draining now n e accepted

    second : (transition_node drained id destroying now).1 ≡ none
    unfolding m
    second = elim (transition_node_answer drained id destroying now tracked) [
      | inl (_, a) ↦ a
      | inr (_, no_edge, _) ↦ absurd (no_edge (rw (moved-state n draining now) destroys))
    ]

    -- Then so is the second, which leaves the node in `destroying` and one active node less.
    pub doom :
        (k : Node) × ((transition_node drained id destroying now).1 ≡ none)
        × (get_node doomed id ≡ some k)
        × (k.state ≡ destroying)
        × (active_count doomed + 1 ≡ active_count nm)
        × IsWellFormed doomed
    unfolding m
    doom = (
      moved m destroying now,
      second,
      get_node-transition_node drained id destroying now m tracked second,
      moved-state m destroying now,
      ground (
        arith,
        moved-state n draining now,
        active_count-transition_node nm id draining now n e accepted,
        active_count-transition_node drained id destroying now m tracked second,
      ),
      transition_node-IsWellFormed drained (transition_node-IsWellFormed nm v id draining now) id
          destroying now,
    )
