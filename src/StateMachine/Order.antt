-- ===== src/StateMachine/Order.antt =====
-- What the counts of orchestrator/statemachine.go make of two maps with the same nodes, over which Go
-- iterates in different orders.
use mathlib.Core.List.Permᴰ
use mathlib.Core.List.{Perm, Permᴰ}
use mathlib.Core.Logic.{∥∥₁_elim, ∥∥₁_map}
use native.Mathlib.Nat.{ℕ_set}
use serverless_gpu_linode.Common.{
  ◌≡◌, ◌∙◌, ap, sym, refl, Bool, true, false, List, [], ◌∷◌, ltb, length, select, count_if, any,
  length-select, arith, if◌then◌else◌,
}
use serverless_gpu_linode.StateMachine.{
  NodeState, NodeManager, all_nodes, nodes_by_state, active_count, ready_count,
  is_scaling_in_progress,
}

module _ {ℓ} {A : Type ℓ} where
  length-permᴰ : {xs ys : List A} → Permᴰ xs ys → length xs ≡ length ys
  length-permᴰ Permᴰ.nil = refl
  length-permᴰ (Permᴰ.cons e d) = omega (arith, length-permᴰ d)
  length-permᴰ (Permᴰ.swap e f) = refl
  length-permᴰ (Permᴰ.trans d e) = length-permᴰ d ∙ length-permᴰ e

  pub length-perm : {xs ys : List A} → Perm xs ys → length xs ≡ length ys
  length-perm {xs} {ys} q = ∥∥₁_elim q (ℕ_set (length xs) (length ys)) length-permᴰ

module _ {ℓ} {A : Type ℓ} (p : A → Bool) where
  count_if-permᴰ : {xs ys : List A} → Permᴰ xs ys → count_if p xs ≡ count_if p ys
  unfolding count_if
  count_if-permᴰ Permᴰ.nil = refl
  count_if-permᴰ (Permᴰ.cons e d) = rw e (ground (arith, count_if-permᴰ d))
  count_if-permᴰ (Permᴰ.swap e f) = rw (e, f) (ground arith)
  count_if-permᴰ (Permᴰ.trans d e) = count_if-permᴰ d ∙ count_if-permᴰ e

  pub count_if-perm : {xs ys : List A} → Perm xs ys → count_if p xs ≡ count_if p ys
  count_if-perm {xs} {ys} q = ∥∥₁_elim q (ℕ_set (count_if p xs) (count_if p ys)) count_if-permᴰ

  any-count_if : (xs : List A) → any p xs ≡ ltb 0 (count_if p xs)
  unfolding any count_if
  any-count_if [] = refl
  any-count_if (x ∷ xs) = ground (arith, any-count_if xs)

  pub any-perm : {xs ys : List A} → Perm xs ys → any p xs ≡ any p ys
  any-perm {xs} {ys} q =
      any-count_if xs ∙ ap (λ n. ltb 0 n) (count_if-perm q) ∙ sym (any-count_if ys)

  -- One element in front, kept or not.
  abbrev kept : Bool → A → List A → List A
  kept b x xs = if b then x ∷ xs else xs

  kept-cons : (b : Bool) (x : A) {xs ys : List A} → Permᴰ xs ys → Permᴰ (kept b x xs) (kept b x ys)
  kept-cons true x d = Permᴰ.cons refl d
  kept-cons false x d = d

  kept-swap :
      (b c : Bool) (x y : A) (xs : List A) → Permᴰ (kept b x (kept c y xs)) (kept c y (kept b x xs))
  kept-swap true true x y xs = Permᴰ.swap refl refl
  kept-swap true false x y xs = Permᴰ.refl (x ∷ xs)
  kept-swap false true x y xs = Permᴰ.refl (y ∷ xs)
  kept-swap false false x y xs = Permᴰ.refl xs

  select-permᴰ : {xs ys : List A} → Permᴰ xs ys → Permᴰ (select p xs) (select p ys)
  unfolding select
  select-permᴰ Permᴰ.nil = Permᴰ.nil
  select-permᴰ (Permᴰ.cons {a = a} e d) = rw (← e) (kept-cons (p a) a (select-permᴰ d))
  select-permᴰ (Permᴰ.swap {a = a} {b = b} {l = l} e f) =
      rw (← e, ← f) (kept-swap (p a) (p b) a b (select p l))
  select-permᴰ (Permᴰ.trans d e) = Permᴰ.trans (select-permᴰ d) (select-permᴰ e)

  pub select-perm : {xs ys : List A} → Perm xs ys → Perm (select p xs) (select p ys)
  select-perm {xs} {ys} q = ∥∥₁_map {B = Permᴰ (select p xs) (select p ys)} q select-permᴰ

module _ (nm nm' : NodeManager) (same : Perm (all_nodes nm) (all_nodes nm')) where
  pub active_count-perm : active_count nm ≡ active_count nm'
  unfolding active_count
  active_count-perm = count_if-perm _ same

  pub ready_count-perm : ready_count nm ≡ ready_count nm'
  unfolding ready_count
  ready_count-perm = count_if-perm _ same

  pub is_scaling_in_progress-perm : is_scaling_in_progress nm ≡ is_scaling_in_progress nm'
  unfolding is_scaling_in_progress
  is_scaling_in_progress-perm = any-perm _ same

  pub nodes_by_state-perm : (s : NodeState) → Perm (nodes_by_state nm s) (nodes_by_state nm' s)
  unfolding nodes_by_state
  nodes_by_state-perm s = select-perm _ same

  pub length-nodes_by_state-perm :
      (s : NodeState) → length (nodes_by_state nm s) ≡ length (nodes_by_state nm' s)
  unfolding nodes_by_state
  length-nodes_by_state-perm s =
      length-select _ (all_nodes nm) ∙ count_if-perm _ same ∙ sym (length-select _ (all_nodes nm'))
