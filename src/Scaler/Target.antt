-- ===== src/Scaler/Target.antt =====
-- The choice of the node to destroy (`pickScaleDownTarget` of orchestrator/scaler.go).
use mathlib.Core.List.{
  Mem, mem-cons_self, mem-cons_of_mem, mem-cons, not-mem-nil, cons-ne-nil, Perm,
}
use mathlib.Core.List.Perm
use mathlib.Core.Logic.Or
use native.Mathlib.Bridge.{le_prop}
use serverless_gpu_linode.Common.{
  ℕ, ◌≤◌, ◌≡◌, ◌≢◌, refl, sym, ◌⊎◌, inl, inr, List, [], ◌∷◌, arith, ltb, if◌then◌else◌, All,
  Bool-cases,
}
use serverless_gpu_linode.StateMachine.{Node}
use serverless_gpu_linode.Scaler.{pick_from, pick_scale_down_target}

-- The loop returns its start or an ID of the list, and at least each of them.
pick_from_mem :
    (t : ℕ) (ns : List Node)
    → (pick_from t ns ≡ t) ⊎ ((n : Node) × Mem n ns × (n.linode_id ≡ pick_from t ns))
unfolding pick_from
pick_from_mem t [] = inl refl
pick_from_mem t (n ∷ ns) = elim (Bool-cases (ltb t n.linode_id)) [
  | inl later ↦ rw later (elim (pick_from_mem n.linode_id ns) [
    | inl e ↦ inr (n, mem-cons_self, sym e)
    | inr (m, i, e) ↦ inr (m, mem-cons_of_mem n i, e)
  ])
  | inr kept ↦ rw kept (elim (pick_from_mem t ns) [
    | inl e ↦ inl e
    | inr (m, i, e) ↦ inr (m, mem-cons_of_mem n i, e)
  ])
]

pick_from-ge : (t : ℕ) (ns : List Node) → t ≤ pick_from t ns
unfolding pick_from
pick_from-ge t [] = omega arith
pick_from-ge t (n ∷ ns) =
    ground (arith, pick_from-ge (if ltb t n.linode_id then n.linode_id else t) ns)

pick_from-ge_mem : (t : ℕ) (ns : List Node) (m : Node) → Mem m ns → m.linode_id ≤ pick_from t ns
unfolding pick_from
pick_from-ge_mem t [] m i = absurd (not-mem-nil i)
pick_from-ge_mem t (n ∷ ns) m i =
    let t' : ℕ = if ltb t n.linode_id then n.linode_id else t in
    Or.elim le_prop (mem-cons.0 i) (λ e. rw e (ground (arith, pick_from-ge t' ns)))
      (pick_from-ge_mem t' ns m)

All-of_mem {κ} : (P : Node → Type κ) (ns : List Node) → ((m : Node) → Mem m ns → P m) → All P ns
All-of_mem P [] h = tt
All-of_mem P (n ∷ ns) h = (h n mem-cons_self, All-of_mem P ns (λ m i. h m (mem-cons_of_mem n i)))

All-mem :
    (t : ℕ) (ns : List Node) (m : Node)
    → All (λ (k : Node). k.linode_id ≤ t) ns
    → Mem m ns
    → m.linode_id ≤ t
All-mem t [] m a i = absurd (not-mem-nil i)
All-mem t (n ∷ ns) m a i = Or.elim le_prop (mem-cons.0 i) (λ e. rw e a.0) (All-mem t ns m a.1)

-- Among the nodes it is given, unless there are none, the choice is a node's Linode ID, and no
-- node has a larger one.
pub pick_scale_down_target_max :
    (ns : List Node)
    → ns ≢ []
    → ((n : Node) × Mem n ns × (n.linode_id ≡ pick_scale_down_target ns))
      × All (λ m. m.linode_id ≤ pick_scale_down_target ns) ns
unfolding pick_scale_down_target
pick_scale_down_target_max [] h = absurd (h refl)
pick_scale_down_target_max (n ∷ ns) h = (
  elim (pick_from_mem n.linode_id ns) [
    | inl e ↦ (n, mem-cons_self, sym e)
    | inr (m, i, e) ↦ (m, mem-cons_of_mem n i, e)
  ],
  All-of_mem (λ m. m.linode_id ≤ pick_from n.linode_id ns) (n ∷ ns)
      (λ m i.
        Or.elim le_prop (mem-cons.0 i) (λ e. rw e (pick_from-ge n.linode_id ns))
          (pick_from-ge_mem n.linode_id ns m)),
)

pick-le_of_perm :
    (ns ms : List Node)
    → ns ≢ []
    → ms ≢ []
    → Perm ns ms
    → pick_scale_down_target ns ≤ pick_scale_down_target ms
pick-le_of_perm ns ms h k p =
    let (n, i, e) = (pick_scale_down_target_max ns h).0 in
    rw (← e) (All-mem _ ms n (pick_scale_down_target_max ms k).1 ((Perm.mem_iff p).0 i))

-- The choice does not depend on the order in which Go iterates over the map of nodes.
pub pick_scale_down_target-perm :
    (ns ms : List Node) → Perm ns ms → pick_scale_down_target ns ≡ pick_scale_down_target ms
pick_scale_down_target-perm [] ms p = rw (Perm.eq-nil (Perm.symm p))
pick_scale_down_target-perm (n ∷ ns) [] p = absurd (cons-ne-nil _ _ (Perm.eq-nil p))
pick_scale_down_target-perm (n ∷ ns) (m ∷ ms) p = omega (
  arith,
  pick-le_of_perm (n ∷ ns) (m ∷ ms) (λ e. cc) (λ e. cc) p,
  pick-le_of_perm (m ∷ ms) (n ∷ ns) (λ e. cc) (λ e. cc) (Perm.symm p),
)
