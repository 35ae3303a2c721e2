-- ===== src/Monitor/Order/Actions.antt =====
-- The goroutines of orchestrator/scaler.go beside two orders of the map of nodes.
use mathlib.Core.Path.{subst}
use serverless_gpu_linode.Common.{
  ℕ, ◌≡◌, ◌∙◌, sym, refl, inl, inr, Bool, true, false, not, leb, none, some, Result, ok, err, arith,
  Option-cases, if◌then◌else◌,
}
use serverless_gpu_linode.StateMachine.{
  draining, destroying, Node, NodeManager, active_count, get_node, transition_node,
}
use serverless_gpu_linode.StateMachine.Order.{active_count-perm}
use serverless_gpu_linode.StateMachine.Alike.{
  Alike, Alike-perm, Alike-get_node, Alike-transition_node, Alike-transition_node_answer,
}
use serverless_gpu_linode.Metrics.{Metrics, update_node_counts}
use serverless_gpu_linode.Orchestrator.{Orchestrator}
use serverless_gpu_linode.Scaler.{can_scale}
use serverless_gpu_linode.Scaler.Actions.{
  ScaleError, draining_failed, destroying_failed, blocked_by_cooldown, blocked_by_min_node_floor,
  drain_lock_active, not_found, count_nodes, scale_down_drain,
}
use serverless_gpu_linode.Monitor.Order.{with_nodes, update_node_counts-perm}

module _ {W : Type 0} where
  -- The same but for the order of the nodes.
  abbrev pub Similar : Orchestrator W → Orchestrator W → Type 0
  Similar o o' = Alike o.nodes o'.nodes × (with_nodes o'.nodes o ≡ o')

  -- The same answer too.
  abbrev pub Answers {ℓ} : {R : Type ℓ} → Orchestrator W × R → Orchestrator W × R → Type ℓ
  Answers (o, r) (o', r') = Similar o o' × (r ≡ r')

if_Answers {ℓ} :
    {W : Type 0} {R : Type ℓ} (b : Bool) {x y x' y' : Orchestrator W × R}
    → Answers x x'
    → Answers y y'
    → Answers (if b then x else y) (if b then x' else y')
if_Answers true p q = p
if_Answers false p q = q

module _ {W : Type 0} where
  pub counts-same :
      (o : Orchestrator W) (m n : NodeManager)
      → Alike m n
      → (k : Metrics) → update_node_counts k m ≡ update_node_counts k n
  counts-same o m n a k = update_node_counts-perm (with_nodes m o) n (Alike-perm m n a) k

  -- The two transitions of `ScaleDown`.
  abbrev dooms : Orchestrator W → ℕ → ℕ → ℕ → Orchestrator W × Result ScaleError ℕ
  dooms o id active now =
      let (nm₁, r₁) = transition_node o.nodes id draining now in
      elim r₁ [
        | some e ↦ (record o { nodes = nm₁ }, err (draining_failed e))
        | none ↦
            let o₂ : Orchestrator W = count_nodes (record o { nodes = nm₁ }) in
            let (nm₂, r₂) = transition_node o₂.nodes id destroying now in
            elim r₂ [
              | some e ↦ (record o₂ { nodes = nm₂ }, err (destroying_failed e))
              | none ↦ (count_nodes (record o₂ { nodes = nm₂ }), ok active)
            ]
      ]

module _ {W : Type 0} (o : Orchestrator W) (nm : NodeManager) (a : Alike o.nodes nm) where
  dooms-Answers :
      (id active now : ℕ) → Answers (dooms o id active now) (dooms (with_nodes nm o) id active now)
  dooms-Answers id active now =
      let a₁ = Alike-transition_node o.nodes nm a id draining now in
      let t₁ = Alike-transition_node_answer o.nodes nm a id draining now in
      let m₁ = (transition_node o.nodes id draining now).0 in
      let n₁ = (transition_node nm id draining now).0 in
      let a₂ = Alike-transition_node m₁ n₁ a₁ id destroying now in
      let t₂ = Alike-transition_node_answer m₁ n₁ a₁ id destroying now in
      let m₂ = (transition_node m₁ id destroying now).0 in
      let n₂ = (transition_node n₁ id destroying now).0 in
      let c₁ = counts-same o m₁ n₁ a₁ o.metrics in
      let c₂ = counts-same o m₂ n₂ a₂ (update_node_counts o.metrics m₁) in
      elim (Option-cases (transition_node o.nodes id draining now).1) [
        | inr (x, e) ↦ rw (dooms, e, sym t₁ ∙ e) ((a₁, refl), refl)
        | inl e ↦ elim (Option-cases (transition_node m₁ id destroying now).1) [
          | inr (x, f) ↦ rw (dooms, e, sym t₁ ∙ e, f, sym t₂ ∙ f) ((a₂, rw (c₁) refl), refl)
          | inl f ↦ rw (dooms, e, sym t₁ ∙ e, f, sym t₂ ∙ f) ((a₂, rw (c₂, c₁) refl), refl)
        ]
      ]

  can_scale-same :
      (now : ℕ)
      → can_scale (with_nodes nm o) now ≡ (with_nodes nm (can_scale o now).0, (can_scale o now).1)
  unfolding can_scale
  can_scale-same now = ground arith

  can_scale-nodes : (now : ℕ) → (can_scale o now).0.nodes ≡ o.nodes
  unfolding can_scale
  can_scale-nodes now = ground arith

-- `ScaleDown` from the cooldown on.
module _ {W : Type 0} where
  abbrev guards : Orchestrator W → Bool → ℕ → ℕ → Orchestrator W × Result ScaleError ℕ
  guards o₁ can id now =
      let active : ℕ = active_count o₁.nodes in
      if not can
      then (o₁, err blocked_by_cooldown)
      else (if leb active o₁.cfg.min_nodes
          then (o₁, err (blocked_by_min_node_floor o₁.cfg.min_nodes))
          else dooms o₁ id active now)

  guards-Answers :
      (o : Orchestrator W) (nm : NodeManager) (a : Alike o.nodes nm) (can : Bool) (id now : ℕ)
      → Answers (guards o can id now) (guards (with_nodes nm o) can id now)
  guards-Answers o nm a can id now =
      let active = active_count-perm o.nodes nm (Alike-perm o.nodes nm a) in
      rw (guards, ← active)
        (if_Answers (not can) ((a, refl), refl)
          (if_Answers (leb (active_count o.nodes) o.cfg.min_nodes) ((a, refl), refl)
            (dooms-Answers o nm a id (active_count o.nodes) now)))

  drain-found :
      (o : Orchestrator W) (id now : ℕ) {n : Node}
      → get_node o.nodes id ≡ some n
      → scale_down_drain o id now ≡ (
          if n.drain_locked
          then (o, err (drain_lock_active id))
          else guards (can_scale o now).0 (can_scale o now).1 id now)
  unfolding scale_down_drain
  drain-found o id now e = rw (scale_down_drain, e) refl

  drain-missing :
      (o : Orchestrator W) (id now : ℕ)
      → get_node o.nodes id ≡ none
      → scale_down_drain o id now ≡ (o, err (not_found id))
  unfolding scale_down_drain
  drain-missing o id now e = rw (scale_down_drain, e) refl

  guarded-Answers :
      (o : Orchestrator W) (nm : NodeManager) (a : Alike o.nodes nm) (id now : ℕ)
      → Answers
          (guards (can_scale o now).0 (can_scale o now).1 id now)
          (guards (can_scale (with_nodes nm o) now).0 (can_scale (with_nodes nm o) now).1 id now)
  guarded-Answers o nm a id now =
      subst
        (λ (x : Orchestrator W × Bool).
          Answers (guards (can_scale o now).0 (can_scale o now).1 id now) (guards x.0 x.1 id now))
        (sym (can_scale-same o nm a now))
        (guards-Answers (can_scale o now).0 nm (rw (can_scale-nodes o nm a now) a)
          (can_scale o now).1 id now)

  pub drain-Answers :
      (o : Orchestrator W) (nm : NodeManager) (a : Alike o.nodes nm) (id now : ℕ)
      → Answers (scale_down_drain o id now) (scale_down_drain (with_nodes nm o) id now)
  drain-Answers o nm a id now =
      let got = Alike-get_node o.nodes nm a id in
      elim (Option-cases (get_node o.nodes id)) [
        | inl e ↦
            rw (drain-missing o id now e, drain-missing (with_nodes nm o) id now (sym got ∙ e))
              ((a, refl), refl)
        | inr (n, e) ↦
            rw (drain-found o id now e, drain-found (with_nodes nm o) id now (sym got ∙ e))
              (if_Answers n.drain_locked ((a, refl), refl) (guarded-Answers o nm a id now))
      ]
