-- ===== src/Monitor/Order/Runs.antt =====
-- Runs of `monitorLoop` (orchestrator/orchestrator.go) with the goroutines of orchestrator/scaler.go
-- beside two orders of the map of nodes.
use mathlib.Core.Path.{subst}
use serverless_gpu_linode.Common.{
  ℕ, zero, suc, ◌≡◌, ap, refl, inl, inr, List, [], ◌∷◌, ◌++◌, Result, ok, err, Result-cases,
}
use serverless_gpu_linode.StateMachine.{NodeManager}
use serverless_gpu_linode.StateMachine.Alike.{Alike, Alike-perm}
use serverless_gpu_linode.Cloud.{CloudProvider}
use serverless_gpu_linode.Discovery.{Disk}
use serverless_gpu_linode.Discovery.Order.{Unordered}
use serverless_gpu_linode.Orchestrator.{Orchestrator, QueueStats, pending_work}
use serverless_gpu_linode.JetStream.{JetStream, get_queue_stats}
use serverless_gpu_linode.Scaler.{scale_up_task, scale_down_task, wait_task, evaluate_scale_up}
use serverless_gpu_linode.Scaler.Decision.{evaluate_scale_up_frame, evaluate_scale_down_frame}
use serverless_gpu_linode.Scaler.Actions.{ScaleError, discard_node}
use serverless_gpu_linode.Monitor.{
  Goroutine, starts, created, drained, destroyed, answered, discards, clears, cleared, Phase,
  selecting, listed, counted, System, set_queue, evaluate, monitor, advance, schedule, Turn, loops,
  runs, turn, run_turns,
}
use serverless_gpu_linode.Monitor.Order.{with_nodes, set_queue-perm, scale_up-perm, scale_down-perm}
use serverless_gpu_linode.Monitor.Order.Actions.{Similar, Answers, drain-Answers}
use serverless_gpu_linode.Monitor.Order.Calls.{
  create-Answers, track-Answers, destroy-Answers, finish-Similar, begin-Similar, end-Similar,
  running-Similar, listed-Similar,
}

module _ {W : Type 0} where
  -- A goroutine that goes on with an answer, and in another way with an error.
  abbrev goes_on :
      {R : Type 0}
      → List Goroutine
      → (R → List Goroutine)
      → Orchestrator W × Result ScaleError R
      → Orchestrator W × List Goroutine
  goes_on l k (o, r) = elim r [ ok c ↦ (o, k c) | err e ↦ (o, l) ]

  goes_on-Answers :
      {R : Type 0} (l : List Goroutine) (k : R → List Goroutine)
      (x x' : Orchestrator W × Result ScaleError R)
      → Answers x x'
      → Answers (goes_on l k x) (goes_on l k x')
  goes_on-Answers l k (o, ok c) (o', ok d) (s, e) = (s, ap k (cc))
  goes_on-Answers l k (o, ok c) (o', err d) (s, e) = absurd (cc)
  goes_on-Answers l k (o, err c) (o', ok d) (s, e) = absurd (cc)
  goes_on-Answers l k (o, err c) (o', err d) (s, e) = (s, refl)

  evaluate-Answers :
      (o : Orchestrator W) (nm : NodeManager) (a : Alike o.nodes nm) (q : QueueStats) (now : ℕ)
      → Answers (evaluate o q now) (evaluate (with_nodes nm o) q now)
  unfolding evaluate
  evaluate-Answers o nm a q now =
      let same = Alike-perm o.nodes nm a in
      let o₀ = set_queue o q in
      let o₁ = (evaluate_scale_up o₀ (pending_work q) now).0 in
      let frame₁ = evaluate_scale_up_frame o₀ (pending_work q) now in
      let frame₂ = evaluate_scale_down_frame o₁ (pending_work q) now in
      rw
        (
          evaluate,
          set_queue-perm o nm same q,
          scale_up-perm o₀ nm same (pending_work q) now,
          scale_down-perm o₁ nm (rw (frame₁.0) same) (pending_work q) now,
        )
        ((rw (frame₂.0, frame₁.0) a, refl), refl)

module _ {W : Type 0} (cloud : CloudProvider W) (disk : Disk W) (js : JetStream W)
    (unordered : Unordered disk) where
  advance-Answers :
      (o : Orchestrator W) (nm : NodeManager) (a : Alike o.nodes nm) (g : Goroutine) (now : ℕ)
      → Answers (advance cloud disk js o g now) (advance cloud disk js (with_nodes nm o) g now)
  unfolding advance discard_node
  advance-Answers o nm a (starts scale_up_task) now =
      goes_on-Answers [] (λ c. created c ∷ []) _ _ (create-Answers cloud o nm a now)
  advance-Answers o nm a (created c) now =
      goes_on-Answers (discards c.id ∷ []) (λ t. starts t ∷ []) _ _
        (track-Answers cloud o nm a c now)
  advance-Answers o nm a (starts (scale_down_task id)) now =
      goes_on-Answers [] (λ active. drained id active ∷ []) _ _ (drain-Answers o nm a id now)
  advance-Answers o nm a (drained id active) now =
      goes_on-Answers [] (λ _. destroyed id active ∷ []) _ _ (destroy-Answers cloud o nm a id)
  advance-Answers o nm a (destroyed id active) now =
      (finish-Similar cloud disk unordered o nm a id active now, refl)
  advance-Answers o nm a (starts (wait_task id born)) now = ((a, refl), refl)
  advance-Answers o nm a (answered id born (ok ip)) now =
      (running-Similar cloud disk unordered o nm a id born ip now, refl)
  advance-Answers o nm a (answered id born (err e)) now =
      (begin-Similar cloud disk unordered o nm a id now, refl)
  advance-Answers o nm a (discards id) now = ((a, refl), refl)
  advance-Answers o nm a (clears id) now = ((a, refl), refl)
  advance-Answers o nm a (cleared id) now = (end-Similar cloud disk unordered o nm a id, refl)

  schedule-Answers :
      (o : Orchestrator W) (nm : NodeManager) (a : Alike o.nodes nm) (k : ℕ) (gs : List Goroutine)
      (now : ℕ)
      → Answers
          (schedule cloud disk js o k gs now)
          (schedule cloud disk js (with_nodes nm o) k gs now)
  unfolding schedule
  schedule-Answers o nm a k [] now = ((a, refl), refl)
  schedule-Answers o nm a zero (g ∷ gs) now =
      let (s, e) = advance-Answers o nm a g now in (s, ap (λ new. new ++ gs) e)
  schedule-Answers o nm a (suc k) (g ∷ gs) now =
      let (s, e) = schedule-Answers o nm a k gs now in (s, ap (λ rest. g ∷ rest) e)

  -- The systems are the same but for the order of the nodes.
  abbrev pub Resembles : System W → System W → Type 0
  Resembles s s' =
      Similar s.orchestrator s'.orchestrator × (s.phase ≡ s'.phase) × (s.goroutines ≡ s'.goroutines)

  abbrev system : Orchestrator W → Phase → List Goroutine → System W
  system o p gs = record { orchestrator = o; phase = p; goroutines = gs }

  monitor-Resembles_at :
      (o : Orchestrator W) (nm : NodeManager) (a : Alike o.nodes nm) (p : Phase)
      (gs : List Goroutine) (now : ℕ)
      → Resembles
          (monitor cloud disk js (system o p gs) now)
          (monitor cloud disk js (system (with_nodes nm o) p gs) now)
  unfolding monitor
  monitor-Resembles_at o nm a selecting gs now =
      elim (Result-cases (cloud.list_managed_nodes o.world).1) [
        | inl (cns, e) ↦ rw (e, monitor) ((a, refl), refl, refl)
        | inr (x, e) ↦ rw (e, monitor) ((a, refl), refl, refl)
      ]
  monitor-Resembles_at o nm a (listed cns) gs now =
      let (b, e) = listed-Similar cloud disk unordered o nm a cns now in
      let stats : Orchestrator W → W × QueueStats = λ x. get_queue_stats js x.world x.cfg in
      let asked = ap stats e in
      (
        (b, ap {A = Orchestrator W} (λ x. record x { world = (stats x).0 }) e),
        ap (λ r. counted r.1) asked,
        refl,
      )
  monitor-Resembles_at o nm a (counted q) gs now =
      let (s, e) = evaluate-Answers o nm a q now in (s, refl, ap (λ new. gs ++ new) e)

  turn-Resembles_at :
      (o : Orchestrator W) (nm : NodeManager) (a : Alike o.nodes nm) (p : Phase)
      (gs : List Goroutine) (t : Turn)
      → Resembles
          (turn cloud disk js (system o p gs) t)
          (turn cloud disk js (system (with_nodes nm o) p gs) t)
  unfolding turn
  turn-Resembles_at o nm a p gs (loops now) = monitor-Resembles_at o nm a p gs now
  turn-Resembles_at o nm a p gs (runs k now) =
      let (s, e) = schedule-Answers o nm a k gs now in (s, refl, e)

  turn-Resembles :
      (s s' : System W) (t : Turn)
      → Resembles s s'
      → Resembles (turn cloud disk js s t) (turn cloud disk js s' t)
  turn-Resembles s s' t (similar, phase, others) =
      let other : system (with_nodes s'.orchestrator.nodes s.orchestrator) s.phase s.goroutines
          ≡ s' =
        rw (similar.1, phase, others) refl in
      subst (λ x. Resembles (turn cloud disk js s t) (turn cloud disk js x t)) other
        (turn-Resembles_at s.orchestrator s'.orchestrator.nodes similar.0 s.phase s.goroutines t)

  -- If the file's readers see its list of targets as a set, then two systems that differ in nothing but
  -- the order of the map of nodes differ in nothing else after any interleaving of the loop with the
  -- goroutines: the provider, the queue and the file have been called alike, the same goroutines run,
  -- and the metrics and timers are equal. So nothing that the orchestrator does depends on the order in
  -- which Go iterates over the map.
  pub run_turns_unordered :
      (s s' : System W) (ts : List Turn)
      → Resembles s s'
      → Resembles (run_turns cloud disk js s ts) (run_turns cloud disk js s' ts)
  unfolding run_turns
  run_turns_unordered s s' [] r = r
  run_turns_unordered s s' (t ∷ ts) r =
      run_turns_unordered (turn cloud disk js s t) (turn cloud disk js s' t) ts
        (turn-Resembles s s' t r)
