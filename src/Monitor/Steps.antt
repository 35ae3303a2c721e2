-- ===== src/Monitor/Steps.antt =====
-- What the methods of the node manager keep, every interleaving of `monitorLoop` with the goroutines
-- of orchestrator/scaler.go keeps.
use mathlib.Core.Path.{subst}
use serverless_gpu_linode.Common.{
  ℕ, zero, String, suc, ◌∙◌, sym, inl, inr, List, [], ◌∷◌, ok, err, arith, Result-cases,
}
use serverless_gpu_linode.StateMachine.{NodeManager, ready, destroying, draining}
use serverless_gpu_linode.StateMachine.Kept.{Kept}
use serverless_gpu_linode.Cloud.{CloudNode, CloudProvider}
use serverless_gpu_linode.Discovery.{Disk}
use serverless_gpu_linode.Orchestrator.{Orchestrator, QueueStats, pending_work}
use serverless_gpu_linode.JetStream.{JetStream}
use serverless_gpu_linode.Reconcile.{reconcile_listed}
use serverless_gpu_linode.Reconcile.Entries.{reconcile_nodes_keeps}
use serverless_gpu_linode.Scaler.{
  scale_up_task, scale_down_task, wait_task, evaluate_scale_up, can_scale,
}
use serverless_gpu_linode.Scaler.Decision.{evaluate_scale_up_frame, evaluate_scale_down_frame}
use serverless_gpu_linode.Scaler.Actions.{
  Created, scale_up_create, scale_up_add, scale_down_drain, scale_down_destroy, scale_down_finish,
  discard_node, wait_failed_begin, wait_failed_end, wait_running,
}
use serverless_gpu_linode.Monitor.{
  Goroutine, starts, created, drained, destroyed, answered, discards, clears, cleared, Phase,
  selecting, listed, counted, System, set_queue, evaluate, monitor, advance, schedule, Turn, loops,
  runs, turn, run_turns,
}

module _ {W : Type 0} (P : NodeManager → Type 0) (kept : Kept P) (cloud : CloudProvider W)
    (disk : Disk W) (js : JetStream W) where
  -- The node manager has the property.
  abbrev Sound : Orchestrator W → Type 0
  Sound o = P o.nodes

  create-Sound : (o : Orchestrator W) (now : ℕ) → Sound o → Sound (scale_up_create cloud o now).0
  unfolding scale_up_create
  create-Sound o now v = ground arith

  track-Sound :
      (o : Orchestrator W) (c : Created) (now : ℕ) → Sound o → Sound (scale_up_add o c now).0
  unfolding scale_up_add
  track-Sound o c now v = ground (arith, v, kept.add o.nodes c.id c.label now v)

  drain-Sound : (o : Orchestrator W) (id now : ℕ) → Sound o → Sound (scale_down_drain o id now).0
  unfolding scale_down_drain can_scale
  drain-Sound o id now v =
      let first = kept.transition o.nodes id draining now (λ e. cc) v in
      let second = kept.transition _ id destroying now (λ e. cc) first in
      ground (arith, v, first, second)

  destroy-Sound : (o : Orchestrator W) (id : ℕ) → Sound o → Sound (scale_down_destroy cloud o id).0
  unfolding scale_down_destroy
  destroy-Sound o id v = ground arith

  finish-Sound :
      (o : Orchestrator W) (id active now : ℕ)
      → Sound o
      → Sound (scale_down_finish cloud disk o id active now)
  unfolding scale_down_finish
  finish-Sound o id active now v = kept.remove o.nodes id v

  begin-Sound : (o : Orchestrator W) (id now : ℕ) → Sound o → Sound (wait_failed_begin o id now)
  unfolding wait_failed_begin
  begin-Sound o id now v = kept.transition o.nodes id destroying now (λ e. cc) v

  end-Sound : (o : Orchestrator W) (id : ℕ) → Sound o → Sound (wait_failed_end o id)
  unfolding wait_failed_end
  end-Sound o id v = kept.remove o.nodes id v

  running-Sound :
      (o : Orchestrator W) (id created_at : ℕ) (ip : String) (now : ℕ)
      → Sound o
      → Sound (wait_running cloud disk o id created_at ip now)
  unfolding wait_running
  running-Sound o id created_at ip now v =
      let first = kept.set_ip o.nodes id ip v in
      let second = kept.transition _ id ready now (λ e. cc) first in
      ground (arith, v, first, second)

  listed-Sound :
      (o : Orchestrator W) (cns : List CloudNode) (now : ℕ)
      → Sound o
      → Sound (reconcile_listed cloud disk o cns now)
  unfolding reconcile_listed
  listed-Sound o cns now v = ground (arith, reconcile_nodes_keeps P kept o.nodes cns now v)

  evaluate-Sound :
      (o : Orchestrator W) (q : QueueStats) (now : ℕ) → Sound o → Sound (evaluate o q now).0
  unfolding evaluate
  evaluate-Sound o q now v =
      let o₀ = set_queue o q in
      let o₁ = (evaluate_scale_up o₀ (pending_work q) now).0 in
      let same =
        (evaluate_scale_down_frame o₁ (pending_work q) now).0
        ∙ (evaluate_scale_up_frame o₀ (pending_work q) now).0 in
      subst P (sym same) v

  advance-Sound :
      (o : Orchestrator W) (g : Goroutine) (now : ℕ)
      → Sound o
      → Sound (advance cloud disk js o g now).0
  unfolding advance discard_node
  advance-Sound o (starts scale_up_task) now v = ground (arith, create-Sound o now v)
  advance-Sound o (created c) now v = ground (arith, track-Sound o c now v)
  advance-Sound o (starts (scale_down_task id)) now v = ground (arith, drain-Sound o id now v)
  advance-Sound o (drained id active) now v = ground (arith, destroy-Sound o id v)
  advance-Sound o (destroyed id active) now v = finish-Sound o id active now v
  advance-Sound o (starts (wait_task id created_at)) now v = v
  advance-Sound o (answered id created_at (ok ip)) now v = running-Sound o id created_at ip now v
  advance-Sound o (answered id created_at (err e)) now v = begin-Sound o id now v
  advance-Sound o (discards id) now v = v
  advance-Sound o (clears id) now v = v
  advance-Sound o (cleared id) now v = end-Sound o id v

  schedule-Sound :
      (o : Orchestrator W) (k : ℕ) (gs : List Goroutine) (now : ℕ)
      → Sound o
      → Sound (schedule cloud disk js o k gs now).0
  unfolding schedule
  schedule-Sound o k [] now v = v
  schedule-Sound o zero (g ∷ gs) now v = advance-Sound o g now v
  schedule-Sound o (suc k) (g ∷ gs) now v = schedule-Sound o k gs now v

  monitor-Sound_at :
      (o : Orchestrator W) (p : Phase) (gs : List Goroutine) (now : ℕ)
      → Sound o
      → Sound
          (monitor cloud disk js
            (record { orchestrator = o; phase = p; goroutines = gs })
            now).orchestrator
  unfolding monitor
  monitor-Sound_at o selecting gs now v = elim (Result-cases (cloud.list_managed_nodes o.world).1) [
    | inl (cns, e) ↦ rw (e, monitor) v
    | inr (x, e) ↦ rw (e, monitor) v
  ]
  monitor-Sound_at o (listed cns) gs now v = listed-Sound o cns now v
  monitor-Sound_at o (counted q) gs now v = evaluate-Sound o q now v

  monitor-Sound :
      (s : System W) (now : ℕ)
      → Sound s.orchestrator
      → Sound (monitor cloud disk js s now).orchestrator
  monitor-Sound s now v = monitor-Sound_at s.orchestrator s.phase s.goroutines now v

  turn-Sound :
      (s : System W) (t : Turn) → Sound s.orchestrator → Sound (turn cloud disk js s t).orchestrator
  unfolding turn
  turn-Sound s (loops now) v = monitor-Sound s now v
  turn-Sound s (runs k now) v = schedule-Sound s.orchestrator k s.goroutines now v

  -- What the methods of the node manager keep, every interleaving keeps.
  pub run_turns_keeps :
      (s : System W) (ts : List Turn)
      → P s.orchestrator.nodes
      → P (run_turns cloud disk js s ts).orchestrator.nodes
  unfolding run_turns
  run_turns_keeps s [] v = v
  run_turns_keeps s (t ∷ ts) v = run_turns_keeps (turn cloud disk js s t) ts (turn-Sound s t v)
